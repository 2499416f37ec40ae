-- ===== src/Pipeline/Jurisdiction/Firewall.antt =====
-- Feature 1 blocks exactly the transfers that a rule forbids.
use finance.Base.{Bool, false, any, not, ◌&&◌, ◌||◌, ◌==◌, ◌≡◌, arith}
use finance.Base.Float.{FloatOps, ◌≤?◌}
use finance.Pipeline.Context.{DecisionContext, has_hard_block}
use finance.Pipeline.Context.Signals.{has_hard_block-add_signal}
use finance.Pipeline.Jurisdiction.{
  is_restricted, is_eu_buyer, applicable_threshold, travel_rule_fields_present, hard_signal, run,
}

module _ {F : Type 0} ⦃fl : FloatOps F⦄ (ctx : DecisionContext F) where
  -- A rule of Feature 1 forbids the transfer.
  abbrev pub forbidden : Bool
  forbidden =
      any is_restricted ctx.bundle.touched_jurisdictions
      || (((applicable_threshold ctx ≤? ctx.bundle.cart.total_usd)
            && not (travel_rule_fields_present ctx))
          || (any is_eu_buyer ctx.bundle.touched_jurisdictions
              && not (ctx.bundle.processing_region == "EU")))

  -- After Feature 1 there is a hard block exactly when there was one before, when a touched
  -- jurisdiction is restricted, when the travel rule applies and its fields are absent, or when an
  -- EU buyer is processed outside the EU.
  pub jurisdiction_blocks : has_hard_block (run ctx) ≡ (has_hard_block ctx || forbidden)
  unfolding run
  jurisdiction_blocks = ground (
    arith,
    has_hard_block-add_signal (hard_signal "AGENT.JUR.RAIL_INELIGIBLE" "f1_jurisdiction") ctx,
    has_hard_block-add_signal (hard_signal "AGENT.JUR.TRAVELRULE_MISSING" "f1_jurisdiction") ctx,
    has_hard_block-add_signal (hard_signal "AGENT.JUR.DATA_RESIDENCY" "f1_jurisdiction") ctx,
  )

  -- Feature 1 leaves a lawful transfer alone.
  pub run-lawful : forbidden ≡ false → run ctx ≡ ctx
  unfolding run
  run-lawful lawful = ground arith
