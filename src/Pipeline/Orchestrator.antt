-- ===== src/Pipeline/Orchestrator.antt =====
-- aegis/pipeline/orchestrator.py: the fail-closed decision, and its replay from the archive.
pub mod Authority
pub mod Passage
pub mod Challenge
pub mod Records
pub mod Failclosed
pub mod Replay
use finance.Base.{String, Bool, true, false, Option, none, some, not, ◌&&◌, if◌then◌else◌}
use finance.Base.Float.{FloatOps}
use finance.Base.Platform.{Crypto, TextOps}
use finance.Data.Reference.{OwnershipGraph}
use finance.Gateway.Verify.{BundleCheck, accepted, rejected, verify_bundle}
use finance.Ledger.Backend.{EvaluationArchive}
use finance.Ledger.Store
use finance.Ledger.Store.{DecisionLedger}
use finance.Models.{
  MandateBundle, ControlEvidence, Verdict, step_up, block, DecisionEnvelope, Encoding,
  ListProvenance, StepUpChallenge,
}
use finance.Pipeline.Context.{
  DecisionContext, new_context, add_signal, has_hard_block, Outcome, done, raised,
}
use finance.Pipeline.Jurisdiction
use finance.Pipeline.Jurisdiction.{hard_signal}
use finance.Pipeline.Sanctions
use finance.Pipeline.Sanctions.{ScreeningProvider}
use finance.Pipeline.Structuring
use finance.Pipeline.Adversarial
use finance.Pipeline.Adversarial.{DriftEmbedder}
use finance.Pipeline.RiskStepup
use finance.Pipeline.RiskStepup.{RiskModel}
use finance.Pipeline.Liability
use finance.Pipeline.ReasonCodes.{build_envelope}
use finance.State.Stepup
use finance.State.Stepup.{StepUpStore}
use finance.State.Velocity.{VelocityStore}

-- what an orchestrator calls, and what does not change from decision to decision
pub record Services (F : Type 0) : Type 0 where
  pub crypto : Crypto
  pub text : TextOps
  pub public_key : String → Option String
  pub screening : ScreeningProvider F
  pub graph : OwnershipGraph F
  pub embedder : DriftEmbedder F
  pub risk_model : RiskModel F

-- the stores that a decision writes
pub record Orchestrator (F : Type 0) : Type 0 where
  pub ledger : DecisionLedger F
  pub velocity : VelocityStore F
  pub stepup : StepUpStore

-- what `uuid4` and the clock give to one decision
pub record Fresh : Type 0 where
  pub decision_id : String
  pub challenge_id : String
  pub ts : String

abbrev pub Run : Type 0 → Type 0
Run F = Outcome Verdict × DecisionContext F × VelocityStore F

abbrev pub is_block : Verdict → Bool
is_block block = true
is_block _ = false

abbrev pub put_challenge : Verdict → Option StepUpChallenge → StepUpStore → StepUpStore
put_challenge step_up (some challenge) store = Stepup.put challenge store
put_challenge _ _ store = store

module _ {F : Type 0} where
  abbrev pub is_missing : Option (ListProvenance F) → Bool
  is_missing none = true
  is_missing (some p) = false

  abbrev pub archive_of : DecisionContext F → EvaluationArchive F
  archive_of ctx = record {
    bundle = ctx.bundle;
    now = ctx.now;
    controls = ctx.controls;
    velocity_snapshot = ctx.velocity_snapshot;
    screening_snapshot = record {
      provenance = ctx.screening_provenance;
      queries = ctx.screening_log;
      error = ctx.screening_error;
    };
  }

module _ {F : Type 0} ⦃fl : FloatOps F⦄ where
  -- the guard at the head of `_finalize`: no verdict but BLOCK without screening provenance
  unfoldable pub guard_skipped : DecisionContext F → Verdict → DecisionContext F × Verdict
  guard_skipped ctx verdict =
      if not (is_block verdict) && is_missing ctx.screening_provenance
      then (add_signal (hard_signal "AGENT.SYS.STAGE_SKIPPED" "orchestrator") ctx, block)
      else (ctx, verdict)

module _ {F : Type 0} ⦃fl : FloatOps F⦄ ⦃enc : Encoding F⦄ (svc : Services F) where
  abbrev pub resolved : Verdict × DecisionContext F → VelocityStore F → Run F
  resolved (v, ctx) store = (done v, ctx, store)

  -- after Feature 4
  unfoldable pub after_adversarial :
      String → Outcome Unit × DecisionContext F → VelocityStore F → Run F
  after_adversarial challenge_id (raised error, ctx) store = (raised error, ctx, store)
  after_adversarial challenge_id (done _, ctx) store =
      if has_hard_block ctx
      then (done block, ctx, store)
      else resolved (RiskStepup.run svc.crypto svc.risk_model challenge_id ctx) store

  -- after Feature 3
  unfoldable pub after_structuring : String → VelocityStore F × DecisionContext F → Run F
  after_structuring challenge_id (store, ctx) =
      if has_hard_block ctx
      then (done block, ctx, store)
      else after_adversarial challenge_id (Adversarial.run svc.text svc.embedder ctx) store

  -- after Feature 2
  unfoldable pub after_sanctions :
      String → Outcome Unit × DecisionContext F → VelocityStore F → Run F
  after_sanctions challenge_id (raised error, ctx) store = (raised error, ctx, store)
  after_sanctions challenge_id (done _, ctx) store =
      if has_hard_block ctx
      then (done block, ctx, store)
      else after_structuring challenge_id (Structuring.run store ctx)

  -- `_run_pipeline`
  unfoldable pub run_pipeline :
      ScreeningProvider F → String → VelocityStore F → DecisionContext F → Run F
  run_pipeline screening challenge_id store ctx₀ =
      let ctx = Jurisdiction.run ctx₀ in
      if has_hard_block ctx
      then (done block, ctx, store)
      else after_sanctions challenge_id (Sanctions.run svc.text screening svc.graph ctx) store

  -- the rest of `_finalize`
  unfoldable pub conclude :
      Fresh → DecisionContext F × Verdict → Orchestrator F → Orchestrator F × DecisionEnvelope F
  conclude fresh (ctx₀, verdict) orch =
      let ctx = Liability.run ctx₀ in
      let (ledger, env) =
        Store.append svc.crypto (build_envelope fresh.decision_id fresh.ts ctx verdict)
          (some (archive_of ctx)) orch.ledger in
      (record orch { ledger = ledger; stepup = put_challenge verdict ctx.stepup orch.stepup }, env)

  unfoldable pub finalize :
      Fresh → DecisionContext F → Verdict → Orchestrator F → Orchestrator F × DecisionEnvelope F
  finalize fresh ctx verdict orch = conclude fresh (guard_skipped ctx verdict) orch

  -- `_finalize_failclosed`, where the context had been built
  unfoldable pub finalize_failclosed :
      Fresh → DecisionContext F → Orchestrator F → Orchestrator F × DecisionEnvelope F
  finalize_failclosed fresh ctx orch =
      finalize fresh (add_signal (hard_signal "AGENT.SYS.FAILCLOSED" "orchestrator") ctx) block orch

  unfoldable pub after_pipeline :
      Fresh → Run F → Orchestrator F → Orchestrator F × DecisionEnvelope F
  after_pipeline fresh (done verdict, ctx, store) orch =
      finalize fresh ctx verdict (record orch { velocity = store })
  after_pipeline fresh (raised error, ctx, store) orch =
      finalize_failclosed fresh ctx (record orch { velocity = store })

  -- after Gate 0
  unfoldable pub after_gate :
      Fresh → BundleCheck → DecisionContext F → Orchestrator F → Orchestrator F × DecisionEnvelope F
  after_gate fresh (rejected code detail) ctx orch =
      finalize fresh (add_signal (hard_signal code "verify_signatures") ctx) block orch
  after_gate fresh accepted ctx orch =
      after_pipeline fresh (run_pipeline svc.screening fresh.challenge_id orch.velocity ctx) orch

  unfoldable pub evaluate :
      Fresh
      → MandateBundle F
      → ControlEvidence
      → F
      → Orchestrator F
      → Orchestrator F × DecisionEnvelope F
  evaluate fresh bundle controls now orch =
      after_gate fresh (verify_bundle svc.crypto svc.public_key bundle)
        (new_context svc.crypto bundle controls now) orch
