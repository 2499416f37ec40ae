-- ===== src/Pipeline/Orchestrator/Replay.antt =====
-- `replay` of aegis/pipeline/orchestrator.py: a decision is made again from its archive, with the
-- recorded answers of the screening provider and a velocity store of its own.
pub mod Frames
pub mod Screens
pub mod Candidates
pub mod Feature2
pub mod Feature3
pub mod Reruns
pub mod Stages
pub mod Reproduction
use finance.Base.{String, Bool, true, false, Option, some, List, [], ◌∷◌, ◌&&◌, ◌==◌}
use finance.Base.Float.{FloatOps}
use finance.Gateway.Verify.{BundleCheck, accepted, rejected, verify_bundle}
use finance.Ledger.Backend.{EvaluationArchive}
use finance.Ledger.Store
use finance.Models.{Encoding, Verdict, allow, step_up, block, DecisionEnvelope}
use finance.Pipeline.Context.{DecisionContext, new_context, add_signal, Outcome, done, raised}
use finance.Pipeline.Jurisdiction.{hard_signal}
use finance.Pipeline.Liability
use finance.Pipeline.ReasonCodes.{build_envelope}
use finance.Pipeline.Orchestrator.{Services, Orchestrator, Fresh, Run, run_pipeline}
use finance.Screening.Recorded.{recorded_provider}
use finance.State.Velocity.{seed}

pub record ReplayResult : Type 0 where
  pub decision_id : String
  pub original_verdict : Verdict
  pub reproduced_verdict : Verdict
  pub matches_original : Bool
  pub world_snapshot_matches : Bool
  pub reason_codes_match : Bool

abbrev pub same_verdict : Verdict → Verdict → Bool
same_verdict allow allow = true
same_verdict step_up step_up = true
same_verdict block block = true
same_verdict _ _ = false

abbrev pub same_codes : List String → List String → Bool
same_codes [] [] = true
same_codes (x ∷ xs) (y ∷ ys) = x == y && same_codes xs ys
same_codes _ _ = false

module _ {F : Type 0} ⦃fl : FloatOps F⦄ ⦃enc : Encoding F⦄ (svc : Services F) where
  -- the result, from the original and the run that reproduced it; an exception goes to the caller
  unfoldable pub compare_runs : Fresh → String → DecisionEnvelope F → Run F → Outcome ReplayResult
  compare_runs fresh decision_id original (raised error, ctx, store) = raised error
  compare_runs fresh decision_id original (done verdict, ctx₀, store) =
      let ctx = Liability.run ctx₀ in
      let reproduced = build_envelope fresh.decision_id fresh.ts ctx verdict in
      done (record {
        decision_id = decision_id;
        original_verdict = original.verdict;
        reproduced_verdict = verdict;
        matches_original = same_verdict verdict original.verdict;
        world_snapshot_matches = ctx.world_snapshot_hash == original.world_snapshot_hash;
        reason_codes_match = same_codes reproduced.reason_codes original.reason_codes;
      })

  -- Gate 0 and the pipeline, on the archived inputs
  unfoldable pub rerun : Fresh → BundleCheck → EvaluationArchive F → DecisionContext F → Run F
  rerun fresh (rejected code detail) archive ctx =
      (done block, add_signal (hard_signal code "verify_signatures") ctx, [])
  rerun fresh accepted archive ctx =
      run_pipeline svc (recorded_provider archive.screening_snapshot) fresh.challenge_id
        (seed archive.velocity_snapshot []) ctx

  abbrev pub replay_of :
      Fresh
      → String
      → Option (DecisionEnvelope F)
      → Option (EvaluationArchive F)
      → Outcome ReplayResult
  replay_of fresh decision_id (some original) (some archive) =
      compare_runs fresh decision_id original (
        rerun fresh (verify_bundle svc.crypto svc.public_key archive.bundle) archive
          (new_context svc.crypto archive.bundle archive.controls archive.now))
  replay_of fresh decision_id _ _ = raised "KeyError"

  -- `replay`: no store is written.
  unfoldable pub replay : Fresh → String → Orchestrator F → Outcome ReplayResult
  replay fresh decision_id orch =
      replay_of fresh decision_id (Store.get decision_id orch.ledger)
        (Store.archive_for decision_id orch.ledger)
