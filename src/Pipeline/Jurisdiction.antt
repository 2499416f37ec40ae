-- ===== src/Pipeline/Jurisdiction.antt =====
-- aegis/pipeline/f1_jurisdiction.py: restricted corridors, the travel rule, data residency.
pub mod Firewall
use finance.Base.{
  String, Bool, true, none, List, [], ◌∷◌, map, any, contains, not, ◌&&◌, ◌==◌, if◌then◌else◌,
}
use finance.Base.Float.{FloatOps, lit, min, ◌≤?◌}
use finance.Config.{restricted_jurisdictions}
use finance.Data.Reference.{travel_rule_threshold}
use finance.Models.{Role, Jurisdiction, Signal, Severity, truthy}
use finance.Pipeline.Context.{DecisionContext, add_signal}

abbrev pub eu_iso : List String
eu_iso =
    "AT" ∷ "BE" ∷ "BG" ∷ "HR" ∷ "CY" ∷ "CZ" ∷ "DK" ∷ "EE" ∷ "FI" ∷ "FR" ∷ "DE" ∷ "GR" ∷ "HU" ∷ "IE"
    ∷ "IT" ∷ "LV" ∷ "LT" ∷ "LU" ∷ "MT" ∷ "NL" ∷ "PL" ∷ "PT" ∷ "RO" ∷ "SK" ∷ "SI" ∷ "ES" ∷ "SE"
    ∷ "EU" ∷ []

abbrev pub is_buyer : Role → Bool
is_buyer Role.buyer = true
is_buyer _ = Bool.false

-- `j.iso in RESTRICTED_JURISDICTIONS`
unfoldable pub is_restricted : Jurisdiction → Bool
is_restricted j = contains j.iso restricted_jurisdictions

-- `j.role == "buyer" and j.iso in _EU_ISO`
unfoldable pub is_eu_buyer : Jurisdiction → Bool
is_eu_buyer j = is_buyer j.role && contains j.iso eu_iso

module _ {F : Type 0} ⦃fl : FloatOps F⦄ where
  -- Python's `min` of a list that is not empty
  abbrev pub minimum : F → List F → F
  minimum m [] = m
  minimum m (t ∷ ts) = minimum (min m t) ts

  abbrev pub min_or_default : List F → F
  min_or_default [] = travel_rule_threshold ""
  min_or_default (t ∷ ts) = minimum t ts

  unfoldable pub applicable_threshold : DecisionContext F → F
  applicable_threshold ctx =
      min_or_default (map (λ j. travel_rule_threshold j.iso) ctx.bundle.touched_jurisdictions)

  -- A pydantic model counts as true, so `cart.beneficiary or intent.beneficiary` is the former.
  unfoldable pub travel_rule_fields_present : DecisionContext F → Bool
  travel_rule_fields_present ctx =
      let orig = ctx.bundle.intent.originator in
      let benef = ctx.bundle.cart.beneficiary in
      truthy orig.legal_name && (truthy orig.account_ref && truthy benef.legal_name)

  abbrev pub hard_signal : String → String → Signal F
  hard_signal code stage = record {
    code = code;
    severity = Severity.high;
    hard_block = true;
    risk_delta = lit 0 0;
    stage = stage;
    recommend = none;
  }

  unfoldable pub run : DecisionContext F → DecisionContext F
  run ctx =
      let touched = ctx.bundle.touched_jurisdictions in
      if any is_restricted touched
      then add_signal (hard_signal "AGENT.JUR.RAIL_INELIGIBLE" "f1_jurisdiction") ctx
      else if (applicable_threshold ctx ≤? ctx.bundle.cart.total_usd)
          && not (travel_rule_fields_present ctx)
      then add_signal (hard_signal "AGENT.JUR.TRAVELRULE_MISSING" "f1_jurisdiction") ctx
      else if any is_eu_buyer touched && not (ctx.bundle.processing_region == "EU")
      then add_signal (hard_signal "AGENT.JUR.DATA_RESIDENCY" "f1_jurisdiction") ctx
      else ctx
