-- ===== src/Pipeline/Orchestrator/Failclosed.antt =====
-- An invalid bundle and an exception are refused, and say so.
use finance.Base.{
  String, true, [], ◌∷◌, contains, any, any-append, ◌==◌, eq_refl, ◌≡◌, refl, ap, ◌∙◌, arith,
}
use finance.Base.Float.{FloatOps}
use finance.Gateway.Verify.{BundleCheck, accepted, rejected, verify_bundle}
use finance.Ledger.Store
use finance.Models.{Encoding, MandateBundle, ControlEvidence, Signal, block, DecisionEnvelope}
use finance.Pipeline.Context.{DecisionContext, new_context, add_signal, done, raised}
use finance.Pipeline.Context.Signals.{signals-add_signal}
use finance.Pipeline.Jurisdiction.{hard_signal}
use finance.Pipeline.Liability
use finance.Pipeline.ReasonCodes.{build_envelope, unique_codes}
use finance.Pipeline.ReasonCodes.Codes.{unique_codes_lem}
use finance.Pipeline.Orchestrator.{
  Services, Orchestrator, Fresh, Run, run_pipeline, guard_skipped, conclude, finalize,
  finalize_failclosed, after_pipeline, after_gate, evaluate,
}

-- a decision that was refused for a signal of this code
abbrev pub IsRefused : {F : Type 0} → String → Orchestrator F × DecisionEnvelope F → Type 0
IsRefused code (orch, env) = (env.verdict ≡ block) × (contains code env.reason_codes ≡ true)

module _ {F : Type 0} ⦃fl : FloatOps F⦄ ⦃enc : Encoding F⦄ (svc : Services F) (fresh : Fresh) where
  contains-add_signal :
      (s : Signal F) (ctx : DecisionContext F)
      → contains s.code (unique_codes [] (add_signal s ctx).signals) ≡ true
  contains-add_signal s ctx =
      let known = (unique_codes_lem ((add_signal s ctx).signals)).1 s.code in
      let added = ap (any (λ (t : Signal F). s.code == t.code)) (signals-add_signal s ctx) in
      let split = any-append (λ (t : Signal F). s.code == t.code) ctx.signals (s ∷ []) in
      known ∙ added ∙ split ∙ ground (arith, eq_refl s.code)

  finalize-IsRefused :
      (code stage : String) (ctx : DecisionContext F) (orch : Orchestrator F)
      → let r = finalize svc fresh (add_signal (hard_signal code stage) ctx) block orch in
        IsRefused code r × (r.0.velocity ≡ orch.velocity) × (r.0.stepup ≡ orch.stepup)
  unfolding finalize guard_skipped conclude Liability.run build_envelope Store.append Store.seal
  finalize-IsRefused code stage ctx orch =
      ((refl, contains-add_signal (hard_signal code stage) ctx), refl, refl)

  after_gate_rejected :
      (check : BundleCheck) (code detail : String) (ctx : DecisionContext F) (orch : Orchestrator F)
      → check ≡ rejected code detail
      → let r = after_gate svc fresh check ctx orch in
        IsRefused code r × (r.0.velocity ≡ orch.velocity) × (r.0.stepup ≡ orch.stepup)
  unfolding after_gate
  after_gate_rejected check code detail ctx orch e =
      rw e (finalize-IsRefused code "verify_signatures" ctx orch)

  -- A bundle that fails Gate 0 is refused with the gate's code, before any store but the ledger is
  -- touched.
  pub evaluate_rejected :
      (code detail : String) (bundle : MandateBundle F) (controls : ControlEvidence) (now : F)
      (orch : Orchestrator F)
      → verify_bundle svc.crypto svc.public_key bundle ≡ rejected code detail
      → let r = evaluate svc fresh bundle controls now orch in
        IsRefused code r × (r.0.velocity ≡ orch.velocity) × (r.0.stepup ≡ orch.stepup)
  unfolding evaluate
  evaluate_rejected code detail bundle controls now orch =
      after_gate_rejected (verify_bundle svc.crypto svc.public_key bundle) code detail
        (new_context svc.crypto bundle controls now) orch

  after_pipeline_raised :
      (error : String) (r : Run F) (orch : Orchestrator F)
      → r.0 ≡ raised error
      → let (orch', env) = after_pipeline svc fresh r orch in
        IsRefused "AGENT.SYS.FAILCLOSED" (orch', env)
        × (orch'.velocity ≡ r.2)
        × (orch'.stepup ≡ orch.stepup)
  unfolding after_pipeline finalize_failclosed
  after_pipeline_raised error (done v, ctx, store) orch e = absurd (ground arith)
  after_pipeline_raised error (raised e', ctx, store) orch e =
      finalize-IsRefused "AGENT.SYS.FAILCLOSED" "orchestrator" ctx
        (record orch { velocity = store })

  -- Where a stage raises, the decision is refused as a failure of the system; what the stages had
  -- recorded in the velocity store stays, and no challenge is stored.
  pub evaluate_raised :
      (error : String) (bundle : MandateBundle F) (controls : ControlEvidence) (now : F)
      (orch : Orchestrator F)
      → verify_bundle svc.crypto svc.public_key bundle ≡ accepted
      → let run =
          run_pipeline svc svc.screening fresh.challenge_id orch.velocity
            (new_context svc.crypto bundle controls now) in
        run.0 ≡ raised error
        → let (orch', env) = evaluate svc fresh bundle controls now orch in
          IsRefused "AGENT.SYS.FAILCLOSED" (orch', env)
          × (orch'.velocity ≡ run.2)
          × (orch'.stepup ≡ orch.stepup)
  unfolding evaluate after_gate
  evaluate_raised error bundle controls now orch valid failed = rw valid (
      after_pipeline_raised error
        (run_pipeline svc svc.screening fresh.challenge_id orch.velocity
          (new_context svc.crypto bundle controls now))
        orch failed)
