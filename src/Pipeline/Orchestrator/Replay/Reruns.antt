-- ===== src/Pipeline/Orchestrator/Replay/Reruns.antt =====
-- The pipeline, run again on what a decision archived.
use finance.Base.{
  String, true, false, Option, List, [], ◌≡◌, refl, sym, ap, ◌∙◌, subst, arith, Bool-cases, inl,
  inr, any,
}
use finance.Base.Dict.{Dict}
use finance.Base.Float.{FloatOps}
use finance.Base.Platform.{Crypto}
use finance.Models.{Encoding, Verdict, Signal, ListProvenance, ScreeningCandidate}
use finance.Pipeline.Context.{
  DecisionContext, add_signal, record_model, has_hard_block, Outcome, done, raised,
}
use finance.Pipeline.Structuring
use finance.Pipeline.Adversarial
use finance.Pipeline.RiskStepup
use finance.Pipeline.RiskStepup.{RiskModel, resolve, score_and_resolve, unattended_signal}
use finance.Pipeline.Orchestrator.{
  Services, Run, after_adversarial, after_structuring, after_sanctions, resolved,
}
use finance.Pipeline.Orchestrator.Replay.Frames.{
  Archived, archived, archived-assess, archived-adversarial, archived-risk,
}
use finance.Pipeline.Orchestrator.Replay.Screens.{Alike, same_end, both_blocked}
use finance.Pipeline.Orchestrator.Replay.Feature3.{structuring-replay}
use finance.State.Velocity.{Entries, VelocityStore, seed}

module _ {F : Type 0} where
  -- what a replay compares of a context
  abbrev pub told : DecisionContext F → List (Signal F) × String
  told ctx = (ctx.signals, ctx.world_snapshot_hash)

  abbrev outcome : Verdict × DecisionContext F → Verdict × (List (Signal F) × String)
  outcome r = (r.0, told (r.1))

  -- The second run has the verdict, the signals and the world snapshot of the first.
  abbrev pub Reproduces : Run F → Run F → Type 0
  Reproduces (raised e, ctx, store) s = Unit
  Reproduces (done v, ctx, store) s = (s.0 ≡ done v) × (told (s.1) ≡ told ctx)

  abbrev screened :
      DecisionContext F → Option (ListProvenance F) × Dict (List (ScreeningCandidate F))
  screened ctx = (ctx.screening_provenance, ctx.screening_log)

  abbrev screened_in : Archived F → Option (ListProvenance F) × Dict (List (ScreeningCandidate F))
  screened_in a = (a.screening_provenance, a.screening_log)

module _ {F : Type 0} ⦃fl : FloatOps F⦄ ⦃enc : Encoding F⦄ where
  module _ (cr : Crypto) (cid cid' : String) where
    outcome-resolve :
        (ctx : DecisionContext F) → outcome (resolve cr cid ctx) ≡ outcome (resolve cr cid' ctx)
    unfolding resolve
    outcome-resolve ctx = ground arith

    outcome-score :
        (model : RiskModel F) (ctx : DecisionContext F)
        → outcome (score_and_resolve cr model cid ctx)
          ≡ outcome (score_and_resolve cr model cid' ctx)
    unfolding score_and_resolve
    outcome-score model ctx = outcome-resolve (record ctx { risk_score = _ })

    -- The id of a challenge changes neither the verdict nor the signals.
    outcome-risk :
        (model : RiskModel F) (ctx : DecisionContext F)
        → outcome (RiskStepup.run cr model cid ctx) ≡ outcome (RiskStepup.run cr model cid' ctx)
    unfolding RiskStepup.run
    outcome-risk model ctx =
        ground (
          arith,
          outcome-score model known,
          outcome-score model (add_signal unattended_signal known),
        )
      where
        known : DecisionContext F
        known = record_model model.name model.version ctx

  module _ (svc : Services F) (cid cid' : String) where
    resolved-again :
        (r s : Verdict × DecisionContext F) (t t' : VelocityStore F)
        → outcome r ≡ outcome s
        → Reproduces (resolved svc r t) (resolved svc s t')
    resolved-again (v, c) (w, d) t t' e = (ap (λ p. done (p.0)) (sym e), ap (λ p. p.1) (sym e))

    after_adversarial-again :
        (r : Outcome Unit × DecisionContext F) (t t' : VelocityStore F)
        → Reproduces (after_adversarial svc cid r t) (after_adversarial svc cid' r t')
    unfolding after_adversarial
    after_adversarial-again (raised e, ctx) t t' = tt
    after_adversarial-again (done _, ctx) t t' = elim (Bool-cases (has_hard_block ctx)) [
      | inl hard ↦ rw hard (refl, refl)
      | inr soft ↦ rw soft (
          resolved-again (RiskStepup.run svc.crypto svc.risk_model cid ctx)
            (RiskStepup.run svc.crypto svc.risk_model cid' ctx) t t'
            (outcome-risk svc.crypto cid cid' svc.risk_model ctx))
    ]

    after_structuring-again :
        (ctx : DecisionContext F) (t t' : VelocityStore F)
        → Reproduces (after_structuring svc cid (t, ctx)) (after_structuring svc cid' (t', ctx))
    unfolding after_structuring
    after_structuring-again ctx t t' = elim (Bool-cases (has_hard_block ctx)) [
      | inl hard ↦ rw hard (refl, refl)
      | inr soft ↦
          rw soft (after_adversarial-again (Adversarial.run svc.text svc.embedder ctx) t t')
    ]

    archived-after_adversarial :
        (r : Outcome Unit × DecisionContext F) (t : VelocityStore F)
        → archived (after_adversarial svc cid r t).1 ≡ archived (r.1)
    unfolding after_adversarial
    archived-after_adversarial (raised e, ctx) t = refl
    archived-after_adversarial (done _, ctx) t = elim (Bool-cases (has_hard_block ctx)) [
      | inl hard ↦ rw hard refl
      | inr soft ↦ rw soft (archived-risk svc.crypto svc.risk_model cid ctx)
    ]

    pub archived-after_structuring :
        (t : VelocityStore F) (ctx : DecisionContext F)
        → archived (after_structuring svc cid (t, ctx)).1 ≡ archived ctx
    unfolding after_structuring
    archived-after_structuring t ctx = elim (Bool-cases (has_hard_block ctx)) [
      | inl hard ↦ rw hard refl
      | inr soft ↦ rw soft (
          archived-after_adversarial (Adversarial.run svc.text svc.embedder ctx) t
          ∙ archived-adversarial svc.text svc.embedder ctx)
    ]

    screened-structuring :
        (t : VelocityStore F) (ctx : DecisionContext F)
        → screened (Structuring.run t ctx).1 ≡ screened ctx
    unfolding Structuring.run
    screened-structuring t ctx = ap screened_in (archived-assess _ _ _)

    pub screened-after_sanctions :
        (r : Outcome Unit × DecisionContext F) (t : VelocityStore F)
        → screened (after_sanctions svc cid r t).1 ≡ screened (r.1)
    unfolding after_sanctions
    screened-after_sanctions (raised e, ctx) t = refl
    screened-after_sanctions (done _, ctx) t = elim (Bool-cases (has_hard_block ctx)) [
      | inl hard ↦ rw hard refl
      | inr soft ↦ rw soft (
          ap screened_in
            (archived-after_structuring (Structuring.run t ctx).0 (Structuring.run t ctx).1)
          ∙ screened-structuring t ctx)
    ]

    -- Once Feature 2 has ended alike, the later stages conclude the same, on a store that is seeded
    -- with the windows that the first run saw.
    passed-again :
        (ctx : DecisionContext F) (t : VelocityStore F) (snap : Dict (Entries F))
        → has_hard_block ctx ≡ false
        → snap ≡ (after_structuring svc cid (Structuring.run t ctx)).1.velocity_snapshot
        → Reproduces
            (after_structuring svc cid (Structuring.run t ctx))
            (after_structuring svc cid' (Structuring.run (seed snap []) ctx))
    passed-again ctx t snap soft held =
        let first = Structuring.run t ctx in
        let again = Structuring.run (seed snap []) ctx in
        let snapped : snap ≡ first.1.velocity_snapshot =
          held
          ∙ ap (λ (a : Archived F). a.velocity_snapshot)
              (archived-after_structuring first.0 first.1) in
        let same : again.1 ≡ first.1 =
          ap (λ d. (Structuring.run (seed d []) ctx).1) snapped ∙ structuring-replay t ctx in
        subst
          (λ c.
            Reproduces (after_structuring svc cid first) (after_structuring svc cid' (again.0, c)))
          (sym same) (after_structuring-again first.1 first.0 again.0)

    pub after_sanctions-again :
        (r s : Outcome Unit × DecisionContext F) (t : VelocityStore F) (snap : Dict (Entries F))
        → Alike tt r s
        → snap ≡ (after_sanctions svc cid r t).1.velocity_snapshot
        → Reproduces (after_sanctions svc cid r t) (after_sanctions svc cid' s (seed snap []))
    unfolding after_sanctions has_hard_block
    after_sanctions-again r s t snap (same_end _ _ e) held =
        subst
          (λ s'.
            Reproduces (after_sanctions svc cid r t) (after_sanctions svc cid' s' (seed snap [])))
          e (same_r r held)
      where
        same_r :
            (r : Outcome Unit × DecisionContext F)
            → snap ≡ (after_sanctions svc cid r t).1.velocity_snapshot
            → Reproduces (after_sanctions svc cid r t) (after_sanctions svc cid' r (seed snap []))
        same_r (raised e', ctx) held' = tt
        same_r (done _, ctx) held' = elim (Bool-cases (has_hard_block ctx)) [
          | inl hard ↦ rw hard (refl, refl)
          | inr soft ↦ rw soft (passed-again ctx t snap soft (rw soft at held'))
        ]
    after_sanctions-again _ _ t snap (both_blocked c d same hard) held =
        let hard' : has_hard_block d ≡ true =
          sym (ap (λ (x : DecisionContext F). any (λ s. s.hard_block) x.signals) same) ∙ hard in
        rw (hard, hard') (refl, sym (ap told same))
