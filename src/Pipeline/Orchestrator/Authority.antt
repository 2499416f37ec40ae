-- ===== src/Pipeline/Orchestrator/Authority.antt =====
-- No decision clears the gate unless every control has passed.
use finance.Base.{false, some, any, ◌≡◌, ◌≢◌, refl, ap, ◌∙◌, arith}
use finance.Base.Float.{FloatOps}
use finance.Gateway.Verify.{BundleCheck, accepted, rejected, verify_bundle}
use finance.Ledger.Store
use finance.Ledger.Store.{seal}
use finance.Models.{
  Encoding, MandateBundle, ControlEvidence, ListProvenance, Verdict, block, DecisionEnvelope,
}
use finance.Pipeline.Context.{DecisionContext, new_context, has_hard_block, done, raised}
use finance.Pipeline.Context.Signals.{Inputs, inputs}
use finance.Pipeline.Liability
use finance.Pipeline.ReasonCodes.{build_envelope}
use finance.Pipeline.Orchestrator.{
  Services, Orchestrator, Fresh, Run, run_pipeline, guard_skipped, conclude, finalize,
  finalize_failclosed, after_pipeline, after_gate, evaluate,
}
use finance.Pipeline.Orchestrator.Passage.{Clears, EndsClean, Passage, run_pipeline_lem}
use finance.Pipeline.Sanctions.Screen.{marked}

-- What the envelope of a cleared run says.
abbrev pub EnvelopeOf :
    {F : Type 0} → DecisionContext F → ListProvenance F → DecisionEnvelope F → Type 0
EnvelopeOf ctx prov env =
    (any (λ s. s.hard_block) env.signals ≡ false)
    × (env.screening ≡ some prov)
    × (env.mandate_id ≡ ctx.bundle.payment.mandate_id)

module _ {F : Type 0} ⦃fl : FloatOps F⦄ ⦃enc : Encoding F⦄ (svc : Services F) (fresh : Fresh) where
  -- the envelope that `conclude` seals, as far as it repeats the context
  conclude_lem :
      (ctx : DecisionContext F) (verdict : Verdict) (orch : Orchestrator F)
      → let env = (conclude svc fresh (ctx, verdict) orch).1 in
        (env.verdict ≡ verdict)
        × (any (λ s. s.hard_block) env.signals ≡ has_hard_block ctx)
        × (env.screening ≡ ctx.screening_provenance)
        × (env.mandate_id ≡ ctx.bundle.payment.mandate_id)
  unfolding conclude Store.append seal build_envelope Liability.run has_hard_block
  conclude_lem ctx verdict orch = (refl, refl, refl, refl)

  guard_skipped_lem :
      (ctx : DecisionContext F) (verdict : Verdict)
      → (guard_skipped ctx verdict).1 ≢ block
      → guard_skipped ctx verdict ≡ (ctx, verdict)
  unfolding guard_skipped
  guard_skipped_lem ctx verdict nb = ground arith

  finalize_lem :
      (ctx : DecisionContext F) (verdict : Verdict) (orch : Orchestrator F)
      → let env = (finalize svc fresh ctx verdict orch).1 in
        env.verdict ≢ block
        → (verdict ≢ block)
          × (any (λ s. s.hard_block) env.signals ≡ has_hard_block ctx)
          × (env.screening ≡ ctx.screening_provenance)
          × (env.mandate_id ≡ ctx.bundle.payment.mandate_id)
  unfolding finalize
  finalize_lem ctx verdict orch nb =
      let guarded = guard_skipped ctx verdict in
      let kept = conclude_lem ctx verdict orch in
      let nb' : guarded.1 ≢ block = λ e. nb ((conclude_lem guarded.0 guarded.1 orch).0 ∙ e) in
      let same = guard_skipped_lem ctx verdict nb' in
      rw same ((λ e. nb' (rw same e)), kept.1, kept.2, kept.3)

  block_refused :
      (ctx : DecisionContext F) (orch : Orchestrator F)
      → (finalize svc fresh ctx block orch).1.verdict ≡ block
  unfolding finalize guard_skipped
  block_refused ctx orch = (conclude_lem ctx block orch).0

  after_pipeline_lem :
      (ctx : DecisionContext F) (r : Run F) (orch : Orchestrator F)
      → (Clears r
          → (prov : ListProvenance F) × Passage svc svc.screening orch.velocity ctx prov
            × EndsClean (inputs (marked prov ctx)) r)
      → (after_pipeline svc fresh r orch).1.verdict ≢ block
      → (prov : ListProvenance F) × Passage svc svc.screening orch.velocity ctx prov
        × EnvelopeOf ctx prov (after_pipeline svc fresh r orch).1
  unfolding after_pipeline finalize_failclosed
  after_pipeline_lem ctx (raised e, ctx', store) orch passed nb =
      absurd (nb (block_refused _ (record orch { velocity = store })))
  after_pipeline_lem ctx (done v, ctx', store) orch passed nb =
      let fin = finalize_lem ctx' v (record orch { velocity = store }) nb in
      let (prov, passage, clean) = passed (v, refl, fin.0) in
      let soft = clean.0 in
      let same = clean.1 in
      (
        prov,
        passage,
        (
          fin.1 ∙ soft,
          fin.2 ∙ ap (λ (i : Inputs F). i.screening_provenance) same,
          fin.3 ∙ ap (λ (i : Inputs F). i.bundle.payment.mandate_id) same,
        ),
      )

  after_gate_lem :
      (check : BundleCheck) (ctx : DecisionContext F) (orch : Orchestrator F)
      → (after_gate svc fresh check ctx orch).1.verdict ≢ block
      → (check ≡ accepted)
        × ((prov : ListProvenance F) × Passage svc svc.screening orch.velocity ctx prov
            × EnvelopeOf ctx prov (after_gate svc fresh check ctx orch).1)
  unfolding after_gate
  after_gate_lem (rejected code detail) ctx orch nb = absurd (nb (block_refused _ orch))
  after_gate_lem accepted ctx orch nb = (
    refl,
    after_pipeline_lem ctx (run_pipeline svc svc.screening fresh.challenge_id orch.velocity ctx)
        orch (run_pipeline_lem svc fresh.challenge_id svc.screening orch.velocity ctx) nb,
  )

  -- A decision whose verdict is not BLOCK was made on a bundle whose three signatures verify, and
  -- has passed every stage: no restricted corridor, no missing travel-rule data, no EU buyer outside
  -- the EU; a completed screen against a current list; the velocity caps, this transfer included; no
  -- injection and no price breach; a cap on an unattended payment. Its envelope holds no hard block,
  -- names the list that was screened against, and is for this payment mandate.
  pub evaluate_cleared :
      (bundle : MandateBundle F) (controls : ControlEvidence) (now : F) (orch : Orchestrator F)
      → let env = (evaluate svc fresh bundle controls now orch).1 in
        let ctx = new_context svc.crypto bundle controls now in
        env.verdict ≢ block
        → (verify_bundle svc.crypto svc.public_key bundle ≡ accepted)
          × ((prov : ListProvenance F) × Passage svc svc.screening orch.velocity ctx prov
              × EnvelopeOf ctx prov env)
  unfolding evaluate
  evaluate_cleared bundle controls now orch =
      after_gate_lem (verify_bundle svc.crypto svc.public_key bundle)
        (new_context svc.crypto bundle controls now) orch
