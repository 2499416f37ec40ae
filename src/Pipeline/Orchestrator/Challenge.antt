-- ===== src/Pipeline/Orchestrator/Challenge.antt =====
-- A pipeline that answers STEP_UP has made a challenge that can be answered.
use finance.Base.{
  ◌≤◌, String, false, some, List, [], ◌∷◌, contains, length, ◌==◌, eq_iff, ◌≡◌, refl, arith, not,
  if◌then◌else◌, Bool-cases, inl, inr, filter,
}
use finance.Base.Float.{FloatOps, lit, min, ◌⊕◌}
use finance.Models.{Encoding, Verdict, step_up, block, StepUpChallenge}
use finance.Pipeline.Context.{
  DecisionContext, add_signal, has_hard_block, record_model, Outcome, done, raised, initiator,
}
use finance.Pipeline.Jurisdiction
use finance.Pipeline.Jurisdiction.{hard_signal}
use finance.Pipeline.Sanctions
use finance.Pipeline.Structuring
use finance.Pipeline.Adversarial
use finance.Pipeline.RiskStepup
use finance.Pipeline.RiskStepup.{
  RiskModel, make_challenge, required_quorum, resolve, score_and_resolve, hnp, unattended_signal,
  eligible, low_band, stepup_band,
}
use finance.Pipeline.Orchestrator.{
  Services, Run, run_pipeline, after_sanctions, after_structuring, after_adversarial,
}
use finance.State.Velocity.{VelocityStore}

-- A challenge that two or three guardians can answer, none of them the initiator.
abbrev pub IsAnswerable : String → StepUpChallenge → Type 0
IsAnswerable by ch =
    (2 ≤ ch.required_m)
    × (ch.required_m ≤ length ch.eligible_approvers)
    × (contains by ch.eligible_approvers ≡ false)

module _ {F : Type 0} where
  -- a stage that answers `v` with this context answers STEP_UP only with a challenge
  abbrev pub HasChallenge : Verdict × DecisionContext F → Type 0
  HasChallenge (v, ctx) =
      v ≡ step_up → (ch : StepUpChallenge) × (ctx.stepup ≡ some ch) × IsAnswerable ch.initiator ch

  abbrev pub RunHasChallenge : Run F → Type 0
  RunHasChallenge (done v, ctx, store) = HasChallenge (v, ctx)
  RunHasChallenge (raised e, ctx, store) = Unit

  pub no_challenge : (ctx : DecisionContext F) → HasChallenge (block, ctx)
  no_challenge ctx h = absurd (ground arith)

module _ {F : Type 0} ⦃fl : FloatOps F⦄ ⦃enc : Encoding F⦄ (svc : Services F) where
  excluded : (s : String) (gs : List String) → contains s (filter (λ g. not (g == s)) gs) ≡ false
  excluded s [] = refl
  excluded s (g ∷ gs) = ground (arith, excluded s gs, eq_iff s g, eq_iff g s)

  resolve_challenge :
      (challenge_id : String) (ctx : DecisionContext F)
      → HasChallenge (resolve svc.crypto challenge_id ctx)
  unfolding resolve make_challenge required_quorum
  resolve_challenge challenge_id ctx h =
      let m = required_quorum ctx.risk_score (low_band ctx) (stepup_band ctx) in
      (
        make_challenge svc.crypto challenge_id m ctx,
        ground arith,
        (ground arith, ground arith, excluded (initiator ctx) ctx.bundle.guardians),
      )

  score_challenge :
      (challenge_id : String) (ctx : DecisionContext F)
      → HasChallenge (score_and_resolve svc.crypto svc.risk_model challenge_id ctx)
  unfolding score_and_resolve
  score_challenge challenge_id ctx =
      resolve_challenge challenge_id
        (record ctx { risk_score = min (lit 100 0) (ctx.risk_score ⊕ svc.risk_model.score ctx) })

  run_challenge :
      (challenge_id : String) (ctx : DecisionContext F)
      → HasChallenge (RiskStepup.run svc.crypto svc.risk_model challenge_id ctx)
  unfolding RiskStepup.run
  run_challenge challenge_id ctx =
      let known = record_model svc.risk_model.name svc.risk_model.version ctx in
      let unattended = add_signal unattended_signal known in
      elim (Bool-cases (hnp known)) [
        | inl away ↦ rw away (unattended_case known unattended)
        | inr present ↦ rw present (score_challenge challenge_id known)
      ]
    where
      unattended_case :
          (known unattended : DecisionContext F)
          → HasChallenge (
              if RiskStepup.is_none known.bundle.intent.max_value_usd
              then (
                block,
                add_signal (hard_signal "AGENT.HNP.UNBOUNDED_AUTHORITY" "f5_risk_stepup") known,
              )
              else score_and_resolve svc.crypto svc.risk_model challenge_id unattended)
      unattended_case known unattended =
          elim (Bool-cases (RiskStepup.is_none known.bundle.intent.max_value_usd)) [
            | inl unbounded ↦ rw unbounded (
                no_challenge
                  (add_signal (hard_signal "AGENT.HNP.UNBOUNDED_AUTHORITY" "f5_risk_stepup") known))
            | inr capped ↦ rw capped (score_challenge challenge_id unattended)
          ]

  after_adversarial_challenge :
      (challenge_id : String) (r : Outcome Unit × DecisionContext F) (store : VelocityStore F)
      → RunHasChallenge (after_adversarial svc challenge_id r store)
  unfolding after_adversarial
  after_adversarial_challenge challenge_id (raised e, ctx) store = tt
  after_adversarial_challenge challenge_id (done u, ctx) store =
      elim (Bool-cases (has_hard_block ctx)) [
        | inl hard ↦ rw hard (no_challenge (ctx))
        | inr soft ↦ rw soft (run_challenge challenge_id ctx)
      ]

  after_structuring_challenge :
      (challenge_id : String) (r : VelocityStore F × DecisionContext F)
      → RunHasChallenge (after_structuring svc challenge_id r)
  unfolding after_structuring
  after_structuring_challenge challenge_id (store, ctx) = elim (Bool-cases (has_hard_block ctx)) [
    | inl hard ↦ rw hard (no_challenge (ctx))
    | inr soft ↦
        rw soft (
          after_adversarial_challenge challenge_id (Adversarial.run svc.text svc.embedder ctx)
            store)
  ]

  after_sanctions_challenge :
      (challenge_id : String) (r : Outcome Unit × DecisionContext F) (store : VelocityStore F)
      → RunHasChallenge (after_sanctions svc challenge_id r store)
  unfolding after_sanctions
  after_sanctions_challenge challenge_id (raised e, ctx) store = tt
  after_sanctions_challenge challenge_id (done u, ctx) store =
      elim (Bool-cases (has_hard_block ctx)) [
        | inl hard ↦ rw hard (no_challenge (ctx))
        | inr soft ↦ rw soft (after_structuring_challenge challenge_id (Structuring.run store ctx))
      ]

  pub run_pipeline_challenge :
      (challenge_id : String) (store : VelocityStore F) (ctx : DecisionContext F)
      → RunHasChallenge (run_pipeline svc svc.screening challenge_id store ctx)
  unfolding run_pipeline
  run_pipeline_challenge challenge_id store ctx =
      elim (Bool-cases (has_hard_block (Jurisdiction.run ctx))) [
        | inl hard ↦ rw hard (no_challenge (Jurisdiction.run ctx))
        | inr soft ↦ rw soft (
            after_sanctions_challenge challenge_id
              (Sanctions.run svc.text svc.screening svc.graph (Jurisdiction.run ctx)) store)
      ]
