-- ===== src/Pipeline/Orchestrator/Passage.antt =====
-- What the pipeline has established when its verdict is not BLOCK.
use finance.Base.{
  String, not, ◌&&◌, false, ◌≡◌, ◌≢◌, refl, ap, subst, ◌∙◌, inl, inr, Bool-cases, arith,
}
use finance.Base.Float.{FloatOps}
use finance.Models.{Encoding, MandateBundle, ListProvenance, Verdict, block}
use finance.Pipeline.Context.{DecisionContext, has_hard_block, Outcome, done, raised}
use finance.Pipeline.Context.Signals.{Inputs, inputs}
use finance.Pipeline.Jurisdiction
use finance.Pipeline.Jurisdiction.Firewall
use finance.Pipeline.Jurisdiction.Firewall.{forbidden}
use finance.Pipeline.Sanctions
use finance.Pipeline.Sanctions.{ScreeningProvider}
use finance.Pipeline.Sanctions.Screen.{Screened, marked, run-Screened}
use finance.Pipeline.Structuring
use finance.Pipeline.Structuring.{over_cap}
use finance.Pipeline.Structuring.Caps
use finance.Pipeline.Structuring.Caps.{day_of}
use finance.Pipeline.Adversarial
use finance.Pipeline.Adversarial.Drift
use finance.Pipeline.Adversarial.Drift.{adversarial}
use finance.Pipeline.RiskStepup
use finance.Pipeline.RiskStepup.{is_none}
use finance.Pipeline.RiskStepup.Bands.{run_soft}
use finance.Pipeline.Orchestrator.{
  Services, Run, after_adversarial, after_structuring, after_sanctions, run_pipeline,
}
use finance.State.Velocity.{VelocityStore}

module _ {F : Type 0} where
  -- An unattended payment has a cap.
  abbrev pub IsBounded : MandateBundle F → Type 0
  IsBounded b = (not b.payment.human_present && is_none b.intent.max_value_usd) ≡ false

  -- The run ended without a hard block, and with the inputs that it was given.
  abbrev pub EndsClean : Inputs F → Run F → Type 0
  EndsClean i (o, ctx', store) = (has_hard_block ctx' ≡ false) × (inputs ctx' ≡ i)

  abbrev pub Clears : Run F → Type 0
  Clears r = (v : Verdict) × (r.0 ≡ done v) × (v ≢ block)

  not_block :
      (x : Verdict) (ctx : DecisionContext F) (store : VelocityStore F)
      → Clears (done x, ctx, store)
      → x ≢ block
  not_block x ctx store (v, e, nb) b = nb (cc (e, b))

module _ {F : Type 0} ⦃fl : FloatOps F⦄ (svc : Services F) where
  -- Everything that the stages have established when the pipeline does not answer BLOCK.
  pub record Passage (screening : ScreeningProvider F) (store : VelocityStore F)
      (ctx : DecisionContext F) (prov : ListProvenance F) : Type 0 where
    pub lawful : forbidden ctx ≡ false
    pub screened : Screened svc.text screening svc.graph ctx prov
    pub capped : over_cap (day_of store ctx.bundle ctx.now) ≡ false
    pub honest : adversarial svc.text ctx.bundle ≡ false
    pub bounded : IsBounded ctx.bundle

module _ {F : Type 0} ⦃fl : FloatOps F⦄ ⦃enc : Encoding F⦄ (svc : Services F)
    (challenge_id : String) where
  after_adversarial_lem :
      (r : Outcome Unit × DecisionContext F) (store : VelocityStore F)
      → Clears (after_adversarial svc challenge_id r store)
      → (r.0 ≡ done tt)
        × (has_hard_block (r.1) ≡ false)
        × IsBounded (r.1).bundle
        × EndsClean (inputs (r.1)) (after_adversarial svc challenge_id r store)
  unfolding after_adversarial
  after_adversarial_lem (raised e, ctx) store (v, o, nb) = cc
  after_adversarial_lem (done _, ctx) store clears = elim (Bool-cases (has_hard_block ctx)) [
    | inl hard ↦ absurd (not_block block ctx store (rw hard at clears) refl)
    | inr soft ↦
        let end = RiskStepup.run svc.crypto svc.risk_model challenge_id ctx in
        let passed =
          run_soft svc.crypto svc.risk_model challenge_id ctx
            (not_block end.0 end.1 store (rw soft at clears)) in
        (refl, soft, passed.2, rw soft (passed.0 ∙ soft, passed.1))
  ]

  after_structuring_lem :
      (store : VelocityStore F) (ctx : DecisionContext F)
      → Clears (after_structuring svc challenge_id (store, ctx))
      → (has_hard_block ctx ≡ false)
        × (adversarial svc.text ctx.bundle ≡ false)
        × IsBounded ctx.bundle
        × EndsClean (inputs ctx) (after_structuring svc challenge_id (store, ctx))
  unfolding after_structuring
  after_structuring_lem store ctx clears = elim (Bool-cases (has_hard_block ctx)) [
    | inl hard ↦ absurd (not_block block ctx store (rw hard at clears) refl)
    | inr soft ↦
        let r = Adversarial.run svc.text svc.embedder ctx in
        let passed = after_adversarial_lem r store (rw soft at clears) in
        let here = Drift.adversarial_blocks svc.text svc.embedder ctx (passed.0) in
        (
          soft,
          ground (arith, here.0, passed.1),
          subst (λ (i : Inputs F). IsBounded i.bundle) (here.1) (passed.2),
          rw soft (passed.3.0, passed.3.1 ∙ here.1),
        )
  ]

  after_sanctions_lem :
      (r : Outcome Unit × DecisionContext F) (store : VelocityStore F)
      → Clears (after_sanctions svc challenge_id r store)
      → (r.0 ≡ done tt)
        × (has_hard_block (r.1) ≡ false)
        × (over_cap (day_of store (r.1).bundle (r.1).now) ≡ false)
        × (adversarial svc.text (r.1).bundle ≡ false)
        × IsBounded (r.1).bundle
        × EndsClean (inputs (r.1)) (after_sanctions svc challenge_id r store)
  unfolding after_sanctions
  after_sanctions_lem (raised e, ctx) store (v, o, nb) = cc
  after_sanctions_lem (done _, ctx) store clears = elim (Bool-cases (has_hard_block ctx)) [
    | inl hard ↦ absurd (not_block block ctx store (rw hard at clears) refl)
    | inr soft ↦
        let r = Structuring.run store ctx in
        let passed = after_structuring_lem (r.0) (r.1) (rw soft at clears) in
        let here = Caps.structuring_blocks store ctx in
        let same = ap (λ (i : Inputs F). i.bundle) (here.1) in
        (
          refl,
          soft,
          ground (arith, here.0, passed.0),
          subst (λ b. adversarial svc.text b ≡ false) same (passed.1),
          subst (λ b. IsBounded b) same (passed.2),
          rw soft (passed.3.0, passed.3.1 ∙ here.1),
        )
  ]

  after_firewall_lem :
      (screening : ScreeningProvider F) (store : VelocityStore F) (ctx : DecisionContext F)
      → forbidden ctx ≡ false
      → let r =
          after_sanctions svc challenge_id (Sanctions.run svc.text screening svc.graph ctx) store in
        Clears r
        → (prov : ListProvenance F) × Passage svc screening store ctx prov
          × EndsClean (inputs (marked prov ctx)) r
  after_firewall_lem screening store ctx lawful clears =
      let r = Sanctions.run svc.text screening svc.graph ctx in
      let passed = after_sanctions_lem r store clears in
      let screen = run-Screened svc.text screening svc.graph ctx (passed.0) (passed.1) in
      let same = screen.2 in
      let same_bundle = ap (λ (i : Inputs F). i.bundle) same in
      (
        screen.0,
        record {
          lawful = lawful;
          screened = screen.1;
          capped =
              subst (λ (i : Inputs F). over_cap (day_of store i.bundle i.now) ≡ false) same
                (passed.2);
          honest = subst (λ b. adversarial svc.text b ≡ false) same_bundle (passed.3);
          bounded = subst (λ b. IsBounded b) same_bundle (passed.4);
        },
        (passed.5.0, passed.5.1 ∙ same),
      )

  -- A pipeline that does not answer BLOCK has passed every stage, and ends without a hard block.
  pub run_pipeline_lem :
      (screening : ScreeningProvider F) (store : VelocityStore F) (ctx : DecisionContext F)
      → Clears (run_pipeline svc screening challenge_id store ctx)
      → (prov : ListProvenance F) × Passage svc screening store ctx prov
        × EndsClean (inputs (marked prov ctx)) (run_pipeline svc screening challenge_id store ctx)
  unfolding run_pipeline
  run_pipeline_lem screening store ctx clears =
      elim (Bool-cases (has_hard_block (Jurisdiction.run ctx))) [
        | inl hard ↦ absurd (not_block block (Jurisdiction.run ctx) store (rw hard at clears) refl)
        | inr soft ↦
            let lawful : forbidden ctx ≡ false = ground (arith, Firewall.jurisdiction_blocks ctx) in
            let same = Firewall.run-lawful ctx lawful in
            rw (soft, same)
              (after_firewall_lem screening store ctx lawful (rw (soft, same) at clears))
      ]
