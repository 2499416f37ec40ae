-- ===== src/Pipeline/Structuring.antt =====
-- aegis/pipeline/f3_structuring.py: velocity caps and the detection of sliced payments.
pub mod Caps
use Prim.Native.String.{◌++◌ as ◌+++◌}
use finance.Base.{
  String, Bool, false, none, some, Option, List, [], ◌∷◌, ◌++◌, map, all, length, ltb, leb, ◌&&◌,
  ◌||◌, if◌then◌else◌,
}
use finance.Base.Float.{FloatOps, lit, ◌<?◌, ◌≤?◌}
use finance.Config.{
  structuring_window_seconds, structuring_min_cluster, velocity_max_count_24h,
  velocity_max_value_24h_usd, ctr_threshold_usd,
}
use finance.Models.{Signal, Severity, SarDraft, truthy}
use finance.State.Velocity.{Entries, VelocityStore, window, record_entry}
use finance.Pipeline.Context.{DecisionContext, mandate_id, initiator, add_signal}
use finance.Pipeline.Jurisdiction.{hard_signal}

-- `x or y`, of optional texts
abbrev pub or_else : Option String → Option String → Option String
or_else x y = if truthy x then x else y

abbrev text_or : Option String → String → String
text_or none s = s
text_or (some t) s = if truthy (some t) then t else s

-- `_beneficiary_ref`
unfoldable pub beneficiary_ref : {F : Type 0} → DecisionContext F → String
beneficiary_ref ctx =
    let b = ctx.bundle.cart.beneficiary in
    text_or (or_else b.account_ref (or_else b.wallet b.legal_name)) ctx.bundle.cart.merchant_did

abbrev pub struct_key : {F : Type 0} → DecisionContext F → String
struct_key ctx = "struct:" +++ (initiator ctx +++ (":" +++ beneficiary_ref ctx))

abbrev pub vel_key : {F : Type 0} → DecisionContext F → String
vel_key ctx = "vel:" +++ initiator ctx

module _ {F : Type 0} ⦃fl : FloatOps F⦄ where
  abbrev pub amounts : Entries F → List F
  amounts = map (λ e. e.1)

  -- The agent is over its count or its value.
  unfoldable pub over_cap : Entries F → Bool
  over_cap vel_window =
      ltb velocity_max_count_24h (length vel_window)
      || (velocity_max_value_24h_usd <? fl.sum (amounts vel_window))

  -- At least three transfers, each below the CTR threshold, that reach it together.
  unfoldable pub is_cluster : List F → Bool
  is_cluster xs =
      leb structuring_min_cluster (length xs)
      && (all (λ a. a <? ctr_threshold_usd) xs && (ctr_threshold_usd ≤? fl.sum xs))

  abbrev pub structuring_signal : Signal F
  structuring_signal = record {
    code = "AGENT.AML.STRUCTURING_SUSPECTED";
    severity = Severity.high;
    hard_block = false;
    risk_delta = lit 45 0;
    stage = "f3_structuring";
    recommend = some "FILE_SAR";
  }

  -- `_draft_sar`
  abbrev pub draft_sar : DecisionContext F → List F → SarDraft F
  draft_sar ctx xs = record {
    subject_agent_did = initiator ctx;
    beneficiary = beneficiary_ref ctx;
    transaction_count = length xs;
    aggregate_usd = fl.round 2 (fl.sum xs);
    individual_amounts_usd = map (fl.round 2) xs;
    mandate_id = mandate_id ctx;
  }

  -- what the stage concludes from the two windows, this transfer included
  unfoldable pub assess : Entries F → Entries F → DecisionContext F → DecisionContext F
  assess struct_window vel_window ctx =
      if over_cap vel_window
      then add_signal (hard_signal "AGENT.AML.VELOCITY_EXCEEDED" "f3_structuring") ctx
      else if is_cluster (amounts struct_window)
      then (record (add_signal structuring_signal ctx) {
        sar_draft = some (draft_sar ctx (amounts struct_window));
      })
      else ctx

  unfoldable pub run : VelocityStore F → DecisionContext F → VelocityStore F × DecisionContext F
  run store ctx =
      let amount = ctx.bundle.cart.total_usd in
      let now = ctx.now in
      let (prior_struct, store₁) = window (struct_key ctx) now structuring_window_seconds store in
      let (prior_vel, store₂) = window (vel_key ctx) now structuring_window_seconds store₁ in
      let snapped = record ctx {
        velocity_snapshot = (struct_key ctx, prior_struct) ∷ (vel_key ctx, prior_vel) ∷ [];
      } in
      let store₃ = record_entry (struct_key ctx) now amount store₂ in
      let store₄ = record_entry (vel_key ctx) now amount store₃ in
      (
        store₄,
        assess (prior_struct ++ (now, amount) ∷ []) (prior_vel ++ (now, amount) ∷ []) snapped,
      )
