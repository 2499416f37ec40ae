-- ===== src/Pipeline/Structuring/Caps.antt =====
-- Feature 3 lets a decision pass only under the velocity caps.
use Prim.Native.Char.{code}
use Prim.Native.String.{◌++◌ as ◌+++◌}
use text.Mathlib.TextLemmas.{cons-append}
use finance.Base.{
  ℕ, String, ap, sym, ◌∙◌, eq_iff, false, [], ◌∷◌, ◌++◌, ◌||◌, ◌==◌, ◌≡◌, Bool-cases, inl, inr,
  arith,
}
use finance.Base.Dict.{Dict, lookup, lookup-insert}
use finance.Base.Float.{FloatOps, ◌⊖◌}
use finance.Config.{structuring_window_seconds}
use finance.Models.{MandateBundle}
use finance.Pipeline.Context.{DecisionContext, has_hard_block}
use finance.Pipeline.Context.Signals.{inputs, inputs-add_signal, has_hard_block-add_signal}
use finance.Pipeline.Jurisdiction.{hard_signal}
use finance.Pipeline.Structuring.{struct_key, vel_key, over_cap, structuring_signal, assess, run}
use finance.State.Velocity.{Entries, VelocityStore, window, or_empty, recent}

first_code : String → ℕ
first_code String.[] = 0
first_code (String.◌∷◌ c s) = code c

-- A key of the clusters is no key of the caps.
heads_differ : (s t : String) → ("struct:" +++ s) ≡ ("vel:" +++ t) → ⊥
unfolding first_code
heads_differ s t e =
    omega (arith, ap first_code (sym (cons-append "s" "truct:" s) ∙ e ∙ cons-append "v" "el:" t))

module _ {F : Type 0} ⦃fl : FloatOps F⦄ where
  -- The agent's transfers of the last day, this one included.
  abbrev pub day_of : VelocityStore F → MandateBundle F → F → Entries F
  day_of store bundle now =
      recent (now ⊖ structuring_window_seconds)
        (or_empty (lookup ("vel:" +++ bundle.payment.initiator_agent) store))
      ++ (now, bundle.cart.total_usd) ∷ []

  module _ (struct_window vel_window : Entries F) (ctx : DecisionContext F) where
    pub inputs-assess : inputs (assess struct_window vel_window ctx) ≡ inputs ctx
    unfolding assess
    inputs-assess = ground (
      arith,
      inputs-add_signal (hard_signal "AGENT.AML.VELOCITY_EXCEEDED" "f3_structuring") ctx,
      inputs-add_signal structuring_signal ctx,
    )

    -- The only hard block of Feature 3 is that of a window over the caps.
    pub hard-assess :
        has_hard_block (assess struct_window vel_window ctx)
        ≡ (has_hard_block ctx || over_cap vel_window)
    unfolding assess has_hard_block
    hard-assess = ground (
      arith,
      has_hard_block-add_signal (hard_signal "AGENT.AML.VELOCITY_EXCEEDED" "f3_structuring") ctx,
      has_hard_block-add_signal structuring_signal ctx,
    )

  pub keys_differ : (ctx : DecisionContext F) → (struct_key ctx == vel_key ctx) ≡ false
  keys_differ ctx = elim (Bool-cases (struct_key ctx == vel_key ctx)) [
    | inl same ↦ absurd (heads_differ _ _ ((eq_iff _ _).0 same))
    | inr differ ↦ differ
  ]

  -- Feature 3 blocks exactly where the agent's transfers of the last day, this one included, are
  -- over a cap.
  pub structuring_blocks :
      (store : VelocityStore F) (ctx : DecisionContext F)
      → (has_hard_block (run store ctx).1
          ≡ (has_hard_block ctx || over_cap (day_of store ctx.bundle ctx.now)))
        × (inputs (run store ctx).1 ≡ inputs ctx)
  unfolding run window has_hard_block
  structuring_blocks store ctx =
      rw (lookup-insert (struct_key ctx) (vel_key ctx) _ store, keys_differ ctx)
        (hard-assess _ _ (snapped _), inputs-assess _ _ (snapped _))
    where
      snapped : Dict (Entries F) → DecisionContext F
      snapped snapshot = record ctx { velocity_snapshot = snapshot }
