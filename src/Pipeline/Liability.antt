-- ===== src/Pipeline/Liability.antt =====
-- aegis/pipeline/f6_liability.py: who bears the loss, written into every decision.
pub mod Floor
use finance.Base.{
  String, Bool, true, false, some, List, [], ◌∷◌, any, length, not, ◌&&◌, ◌||◌, ◌==◌, if◌then◌else◌,
}
use finance.Base.Int.{pos}
use finance.Base.Float.{FloatOps, lit, ◌⊕◌, ◌⊖◌, ◌⊘◌, ◌<?◌, ◌≤?◌}
use finance.Config.{reg_e_consumer_cap_ratio}
use finance.Models.{ControlEvidence, Liability}
use finance.Pipeline.Context.{DecisionContext}

pub data LiableParty : Type 0 where
  user agent_developer merchant psp : LiableParty

abbrev none_to : List LiableParty → Bool
none_to [] = true
none_to (p ∷ ps) = false

module _ {F : Type 0} ⦃fl : FloatOps F⦄ where
  abbrev pub map_shares : (F → F) → Liability F → Liability F
  map_shares f w = record {
    user = f w.user;
    agent_developer = f w.agent_developer;
    merchant = f w.merchant;
    psp = f w.psp;
  }

  unfoldable pub normalize : Liability F → Liability F
  normalize w =
      let total = fl.sum (w.user ∷ w.agent_developer ∷ w.merchant ∷ w.psp ∷ []) in
      if total ≤? lit 0 0
      then (record { user = lit 0 0; agent_developer = lit 0 0; merchant = lit 0 0; psp = lit 1 0 })
      else map_shares (λ v. fl.round 4 (v ⊘ total)) w

  abbrev pub add_share : F → LiableParty → Liability F → Liability F
  add_share share user w = record w { user = w.user ⊕ share }
  add_share share agent_developer w = record w { agent_developer = w.agent_developer ⊕ share }
  add_share share merchant w = record w { merchant = w.merchant ⊕ share }
  add_share share psp w = record w { psp = w.psp ⊕ share }

  unfoldable pub add_shares : F → List LiableParty → Liability F → Liability F
  add_shares share [] w = w
  add_shares share (p ∷ ps) w = add_shares share ps (add_share share p w)

  unfoldable pub redistribute : Liability F → F → List LiableParty → Liability F
  unfolding add_shares
  redistribute w overflow to =
      if (overflow ≤? lit 0 0) || none_to to
      then w
      else add_shares (overflow ⊘ fl.of_int (pos (length to))) to w

  -- the weight of an unmet control
  abbrev pub weight : Bool → F → F
  weight met w = if not met then lit 0 0 ⊕ w else lit 0 0

  unfoldable pub control_weights : ControlEvidence → Liability F
  control_weights c = record {
    user = weight c.user_completed_required_stepup (lit 3 1);
    agent_developer = weight c.agent_sdk_pinned_intent_constraints (lit 4 1);
    merchant = weight c.merchant_verified_payment_challenge (lit 6 1);
    psp = weight c.psp_ran_sanctions_screen (lit 5 1);
  }

  unfoldable pub apportion : ControlEvidence → Bool → Liability F × String
  unfolding normalize redistribute control_weights
  apportion c is_unauthorized =
      let weights = normalize (control_weights c) in
      let overflow = weights.user ⊖ reg_e_consumer_cap_ratio in
      let capped = record weights { user = reg_e_consumer_cap_ratio } in
      if is_unauthorized && (reg_e_consumer_cap_ratio <? weights.user)
      then (
        map_shares (fl.round 4)
            (redistribute capped overflow (merchant ∷ psp ∷ agent_developer ∷ [])),
        "EMV_SHIFT+REG_E_FLOOR",
      )
      else (weights, "EMV_SHIFT")

  unfoldable pub is_unauthorized : DecisionContext F → Bool
  is_unauthorized ctx = any (λ s. s.code == "AGENT.SEC.INTENT_DRIFT") ctx.signals

  unfoldable pub run : DecisionContext F → DecisionContext F
  run ctx =
      let (weights, basis) = apportion ctx.controls (is_unauthorized ctx) in
      record ctx { liability = some weights; liability_basis = basis }
