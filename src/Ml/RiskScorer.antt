-- ===== src/Ml/RiskScorer.antt =====
-- `RiskModel` of aegis/ml/risk_model.py, the default model of Feature 5.
use finance.Base.{String, List, [], ◌∷◌, contains, not, if◌then◌else◌}
use finance.Base.Float.{FloatOps, lit, min, max, ◌⊕◌, ◌⊗◌, ◌⊘◌}
use finance.Config.{restricted_jurisdictions}
use finance.Models.{Jurisdiction}
use finance.Pipeline.Context.{DecisionContext}
use finance.Pipeline.RiskStepup.{RiskModel}

abbrev higher_risk_corridors : List String
higher_risk_corridors = "RU" ∷ "BY" ∷ "VE" ∷ "MM" ∷ []

pub record Features (F : Type 0) : Type 0 where
  pub amount : F
  pub corridor : F
  pub novelty : F
  pub unattended : F

module _ {F : Type 0} ⦃fl : FloatOps F⦄ where
  -- the loop over the touched jurisdictions
  unfoldable pub corridor_feature : List Jurisdiction → F → F
  corridor_feature [] feat = feat
  corridor_feature (j ∷ js) feat = corridor_feature js (
      if contains j.iso restricted_jurisdictions
      then lit 1 0
      else if contains j.iso higher_risk_corridors
      then max feat (lit 6 1)
      else feat)

  unfoldable pub features : DecisionContext F → Features F
  unfolding corridor_feature
  features ctx = record {
    amount = min (lit 1 0) (fl.log10 (max ctx.bundle.cart.total_usd (lit 1 0)) ⊘ lit 6 0);
    corridor = corridor_feature ctx.bundle.touched_jurisdictions (lit 0 0);
    novelty =
        if not (contains ctx.bundle.cart.merchant_did ctx.bundle.intent.allowed_merchants)
        then lit 1 0
        else lit 0 0;
    unattended = if ctx.bundle.payment.human_present then lit 0 0 else lit 1 0;
  }

  unfoldable pub score : DecisionContext F → F
  unfolding features
  score ctx =
      let f = features ctx in
      let z =
        (((fl.negate (lit 14 1) ⊕ (lit 22 1 ⊗ f.amount)) ⊕ (lit 26 1 ⊗ f.corridor))
          ⊕ (lit 11 1 ⊗ f.novelty))
        ⊕ (lit 7 1 ⊗ f.unattended) in
      let prob = lit 1 0 ⊘ (lit 1 0 ⊕ fl.exp (fl.negate z)) in fl.round 2 (prob ⊗ lit 100 0)

  unfoldable pub default_risk_model : RiskModel F
  unfolding score
  default_risk_model = record {
    name = "aegis-risk-scorer";
    version = "logistic-blend-v1";
    score = score;
  }
