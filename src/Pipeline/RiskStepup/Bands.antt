-- ===== src/Pipeline/RiskStepup/Bands.antt =====
-- What a verdict of Feature 5 says of the final risk score and of the quorum.
use finance.Base.{String, false, ◌&&◌, ◌≡◌, ◌≢◌, refl, ap, arith}
use finance.Base.Float.{FloatOps}
use finance.Base.Platform.{Crypto}
use finance.Models.{Encoding, block}
use finance.Pipeline.Context.{DecisionContext, add_signal, has_hard_block, record_model}
use finance.Pipeline.Context.Signals.{Inputs, inputs, inputs-add_signal, has_hard_block-add_signal}
use finance.Pipeline.RiskStepup.{
  RiskModel, hnp, resolve, score_and_resolve, unattended_signal, is_none, run,
}

module _ {F : Type 0} ⦃fl : FloatOps F⦄ ⦃enc : Encoding F⦄ (cr : Crypto) where
  module _ (challenge_id : String) (ctx : DecisionContext F) where
    hard-resolve : has_hard_block (resolve cr challenge_id ctx).1 ≡ has_hard_block ctx
    unfolding resolve has_hard_block
    hard-resolve = ground arith

    inputs-resolve : inputs (resolve cr challenge_id ctx).1 ≡ inputs ctx
    unfolding resolve
    inputs-resolve = ground arith

  module _ (challenge_id : String) (ctx : DecisionContext F) (model : RiskModel F) where
    hard-score_and_resolve :
        has_hard_block (score_and_resolve cr model challenge_id ctx).1 ≡ has_hard_block ctx
    unfolding score_and_resolve has_hard_block
    hard-score_and_resolve = hard-resolve challenge_id (record ctx { risk_score = _ })

    inputs-score_and_resolve : inputs (score_and_resolve cr model challenge_id ctx).1 ≡ inputs ctx
    unfolding score_and_resolve
    inputs-score_and_resolve = inputs-resolve challenge_id (record ctx { risk_score = _ })

  hard-record_model :
      (name version : String) (ctx : DecisionContext F)
      → has_hard_block (record_model name version ctx) ≡ has_hard_block ctx
  unfolding record_model has_hard_block
  hard-record_model name version ctx = refl

  inputs-record_model :
      (name version : String) (ctx : DecisionContext F)
      → inputs (record_model name version ctx) ≡ inputs ctx
  unfolding record_model
  inputs-record_model name version ctx = refl

  -- Feature 5 adds a hard block only where it answers BLOCK, which it does for an unattended payment
  -- under an intent without a cap.
  pub run_soft :
      (model : RiskModel F) (challenge_id : String) (ctx : DecisionContext F)
      → (run cr model challenge_id ctx).0 ≢ block
      → (has_hard_block (run cr model challenge_id ctx).1 ≡ has_hard_block ctx)
        × (inputs (run cr model challenge_id ctx).1 ≡ inputs ctx)
        × ((hnp ctx && is_none ctx.bundle.intent.max_value_usd) ≡ false)
  unfolding run
  run_soft model challenge_id ctx nb = ground (
    arith,
    ap (λ (i : Inputs F). i.bundle) known_inputs,
    hard-record_model model.name model.version ctx,
    known_inputs,
    hard-score_and_resolve challenge_id known model,
    hard-score_and_resolve challenge_id (add_signal unattended_signal known) model,
    inputs-score_and_resolve challenge_id known model,
    inputs-score_and_resolve challenge_id (add_signal unattended_signal known) model,
    has_hard_block-add_signal unattended_signal known,
    inputs-add_signal unattended_signal known,
  )
    where
      known : DecisionContext F
      known = record_model model.name model.version ctx

      known_inputs : inputs known ≡ inputs ctx
      known_inputs = inputs-record_model model.name model.version ctx
