-- ===== src/Pipeline/Orchestrator/Records.antt =====
-- What a decision writes, on every path.
use finance.Base.{Option, some, [], ◌∷◌, ◌++◌, ◌&&◌, ◌≡◌, ◌≢◌, refl, not, Bool-cases, inl, inr}
use finance.Base.Dict.{lookup, lookup-insert_self}
use finance.Base.Float.{FloatOps}
use finance.Base.Platform.{SignsCorrectly}
use finance.Gateway.Verify.{BundleCheck, accepted, rejected, verify_bundle}
use finance.Ledger.Store
use finance.Ledger.Store.{DecisionLedger, head_hash, get}
use finance.Ledger.Store.Chain.{IsIntact, append-IsIntact}
use finance.Models.{
  Encoding, MandateBundle, ControlEvidence, Verdict, allow, step_up, block, DecisionEnvelope,
  StepUpChallenge,
}
use finance.Pipeline.Context.{DecisionContext, new_context, add_signal, done, raised}
use finance.Pipeline.Jurisdiction.{hard_signal}
use finance.Pipeline.ReasonCodes.{build_envelope}
use finance.Pipeline.Orchestrator.{
  is_block, is_missing, put_challenge, Services, Orchestrator, Fresh, Run, run_pipeline,
  guard_skipped, conclude, finalize, archive_of, finalize_failclosed, after_pipeline, after_gate,
  evaluate,
}
use finance.Pipeline.Liability
use finance.State.Stepup
use finance.State.Stepup.{StepUpStore}
use finance.Pipeline.Orchestrator.Challenge.{
  IsAnswerable, HasChallenge, RunHasChallenge, no_challenge, run_pipeline_challenge,
}

put_challenge-other :
    (verdict : Verdict) (asked : Option StepUpChallenge) (store : StepUpStore)
    → verdict ≢ step_up
    → put_challenge verdict asked store ≡ store
put_challenge-other allow asked store h = refl
put_challenge-other step_up asked store h = absurd (h refl)
put_challenge-other block asked store h = refl

module _ {F : Type 0} ⦃fl : FloatOps F⦄ ⦃enc : Encoding F⦄ (svc : Services F) where
  module _ (fresh : Fresh) where
    -- what a decision leaves in the stores, with the ledger and the challenges from before it
    abbrev pub Effects :
        DecisionLedger F → StepUpStore → Orchestrator F × DecisionEnvelope F → Type 0
    Effects ledger stepup (orch, env) =
        IsIntact svc.crypto orch.ledger
        × (orch.ledger.entries ≡ ledger.entries ++ env ∷ [])
        × (get fresh.decision_id orch.ledger ≡ some env)
        × (env.verdict ≡ step_up
            → (ch : StepUpChallenge) × (env.stepup ≡ some ch)
              × (lookup ch.challenge_id orch.stepup ≡ some ch)
              × IsAnswerable ch.initiator ch)
        × (env.verdict ≢ step_up → orch.stepup ≡ stepup)

    module _ (signs : SignsCorrectly svc.crypto) where
      conclude-Effects :
          (ctx : DecisionContext F) (verdict : Verdict) (orch : Orchestrator F)
          → HasChallenge (verdict, ctx)
          → IsIntact svc.crypto orch.ledger
          → Effects orch.ledger orch.stepup (conclude svc fresh (ctx, verdict) orch)
      unfolding conclude Liability.run build_envelope Store.append Store.seal Stepup.put
      conclude-Effects ctx verdict orch challenge intact =
          let (intact', one, found, _, _) =
            append-IsIntact svc.crypto signs
              (build_envelope fresh.decision_id fresh.ts (Liability.run ctx) verdict)
              (some (archive_of (Liability.run ctx))) orch.ledger intact in
          (
            intact',
            one,
            found,
            (λ e.
                let (ch, has, answerable) = challenge e in
                (
                  ch,
                  has,
                  rw (e, has) (lookup-insert_self ch.challenge_id ch orch.stepup),
                  answerable,
                )),
            put_challenge-other verdict ctx.stepup orch.stepup,
          )

      guarded_challenge :
          (ctx : DecisionContext F) (verdict : Verdict)
          → HasChallenge (verdict, ctx)
          → let r = guard_skipped ctx verdict in HasChallenge (r.1, r.0)
      unfolding guard_skipped
      guarded_challenge ctx verdict challenge =
          elim (Bool-cases (not (is_block verdict) && is_missing ctx.screening_provenance)) [
            | inl skipped ↦ rw skipped (
                no_challenge
                  (add_signal (hard_signal "AGENT.SYS.STAGE_SKIPPED" "orchestrator") ctx))
            | inr attested ↦ rw attested challenge
          ]

      finalize-Effects :
          (ctx : DecisionContext F) (verdict : Verdict) (orch : Orchestrator F)
          → HasChallenge (verdict, ctx)
          → IsIntact svc.crypto orch.ledger
          → Effects orch.ledger orch.stepup (finalize svc fresh ctx verdict orch)
      unfolding finalize
      finalize-Effects ctx verdict orch challenge =
          let guarded = guard_skipped ctx verdict in
          conclude-Effects (guarded.0) (guarded.1) orch (guarded_challenge ctx verdict challenge)

      after_pipeline-Effects :
          (r : Run F) (orch : Orchestrator F)
          → RunHasChallenge r
          → IsIntact svc.crypto orch.ledger
          → Effects orch.ledger orch.stepup (after_pipeline svc fresh r orch)
      unfolding after_pipeline finalize_failclosed
      after_pipeline-Effects (done v, ctx, store) orch challenge =
          finalize-Effects ctx v (record orch { velocity = store }) challenge
      after_pipeline-Effects (raised e, ctx, store) orch challenge =
          let failed = add_signal (hard_signal "AGENT.SYS.FAILCLOSED" "orchestrator") ctx in
          finalize-Effects failed block (record orch { velocity = store }) (no_challenge failed)

      after_gate-Effects :
          (check : BundleCheck) (ctx : DecisionContext F) (orch : Orchestrator F)
          → IsIntact svc.crypto orch.ledger
          → Effects orch.ledger orch.stepup (after_gate svc fresh check ctx orch)
      unfolding after_gate
      after_gate-Effects (rejected code detail) ctx orch =
          let failed = add_signal (hard_signal code "verify_signatures") ctx in
          finalize-Effects failed block orch (no_challenge failed)
      after_gate-Effects accepted ctx orch =
          after_pipeline-Effects
            (run_pipeline svc svc.screening fresh.challenge_id orch.velocity ctx) orch
            (run_pipeline_challenge svc fresh.challenge_id orch.velocity ctx)

      evaluate-Effects :
          (bundle : MandateBundle F) (controls : ControlEvidence) (now : F) (orch : Orchestrator F)
          → IsIntact svc.crypto orch.ledger
          → Effects orch.ledger orch.stepup (evaluate svc fresh bundle controls now orch)
      unfolding evaluate
      evaluate-Effects bundle controls now orch =
          after_gate-Effects (verify_bundle svc.crypto svc.public_key bundle)
            (new_context svc.crypto bundle controls now) orch

      -- Where a signature verifies under its own key: whatever the pipeline does, errors included,
      -- a decision on an intact ledger leaves the ledger intact and adds one envelope to it, which
      -- is found under the decision's id.
      pub evaluate_recorded :
          (bundle : MandateBundle F) (controls : ControlEvidence) (now : F) (orch : Orchestrator F)
          → IsIntact svc.crypto orch.ledger
          → let (orch', env) = evaluate svc fresh bundle controls now orch in
            IsIntact svc.crypto orch'.ledger
            × (orch'.ledger.entries ≡ orch.ledger.entries ++ env ∷ [])
            × (get fresh.decision_id orch'.ledger ≡ some env)
      evaluate_recorded bundle controls now orch intact =
          let (intact', one, found, _, _) = evaluate-Effects bundle controls now orch intact in
          (intact', one, found)

      -- On an intact ledger, and where a signature verifies under its own key: a STEP_UP comes with
      -- a challenge that is in the envelope and is stored under its id: it asks for at least two
      -- approvers, lists at least as many as it asks for, and does not list the initiator.
      pub evaluate_challenge :
          (bundle : MandateBundle F) (controls : ControlEvidence) (now : F) (orch : Orchestrator F)
          → IsIntact svc.crypto orch.ledger
          → let (orch', env) = evaluate svc fresh bundle controls now orch in
            env.verdict ≡ step_up
            → (ch : StepUpChallenge) × (env.stepup ≡ some ch)
              × (lookup ch.challenge_id orch'.stepup ≡ some ch)
              × IsAnswerable ch.initiator ch
      evaluate_challenge bundle controls now orch intact =
          (evaluate-Effects bundle controls now orch intact).3

      -- On an intact ledger, and where a signature verifies under its own key: a decision that is
      -- not STEP_UP leaves the stored challenges alone.
      pub evaluate_no_challenge :
          (bundle : MandateBundle F) (controls : ControlEvidence) (now : F) (orch : Orchestrator F)
          → IsIntact svc.crypto orch.ledger
          → let (orch', env) = evaluate svc fresh bundle controls now orch in
            env.verdict ≢ step_up → orch'.stepup ≡ orch.stepup
      evaluate_no_challenge bundle controls now orch intact =
          (evaluate-Effects bundle controls now orch intact).4
