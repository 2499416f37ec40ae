-- ===== src/Pipeline/Liability/Floor.antt =====
-- The consumer's floor.
use finance.Base.{true, false, ◌≡◌, arith, ◌⊎◌, inl, inr, ap, Bool-cases, [], ◌∷◌}
use finance.Base.Float.{FloatOps, ◌<?◌, ◌⊖◌}
use finance.Config.{reg_e_consumer_cap_ratio}
use finance.Models.{ControlEvidence, Liability}
use finance.Pipeline.Liability.{
  apportion, normalize, control_weights, redistribute, add_shares, merchant, psp, agent_developer,
}

module _ {F : Type 0} ⦃fl : FloatOps F⦄ where
  user_of-redistribute :
      (w : Liability F) (overflow : F)
      → (redistribute w overflow (merchant ∷ psp ∷ agent_developer ∷ [])).user ≡ w.user
  unfolding redistribute add_shares
  user_of-redistribute w overflow = ground arith

  -- On an unauthorized payment the user's share is the cap, to four places, or is not above it,
  -- whichever controls were met.
  pub apportion_floor :
      (c : ControlEvidence)
      → let share = (apportion {F = F} c true).0.user in
        (share ≡ fl.round 4 reg_e_consumer_cap_ratio)
        ⊎ ((reg_e_consumer_cap_ratio <? share) ≡ false)
  unfolding apportion
  apportion_floor c =
      let weights = normalize {F = F} (control_weights c) in
      let capped = record weights { user = reg_e_consumer_cap_ratio } in
      elim (Bool-cases (reg_e_consumer_cap_ratio <? weights.user)) [
        | inl above ↦ rw above (
            inl (
              ap (fl.round 4)
                (user_of-redistribute capped (weights.user ⊖ reg_e_consumer_cap_ratio))))
        | inr below ↦ rw below (inr below)
      ]
