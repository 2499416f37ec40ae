-- ===== src/Ap2/Constraints/Compile.antt =====
-- The compilers of aegis/ap2/constraints.py: the object that goes into the open mandate, with its
-- verifier.
use finance.Base.{String, none, some, List, ◌≡◌, refl}
use finance.Base.Float.{FloatOps}
use finance.Base.Int.{ℤ}
use finance.Pipeline.Context.{Outcome}
use finance.Ap2.Constraints.{
  Constraint, ClosedMandate, ConstraintContext, ConstraintResult, Verifier, ConstraintRegistry,
  verify_spend_curve, verify_mcc_allowlist, verify_fx_slippage_bound, verify_merchant_allowlist,
  verify_velocity_envelope, register, verifier_of, verdict_of, default_registry,
}

pub record CompiledConstraint (F : Type 0) : Type 0 where
  pub type : String
  pub canonical : Constraint F
  pub verify : ClosedMandate F → ConstraintContext F → Outcome ConstraintResult

module _ {F : Type 0} where
  -- an object with no member but its type
  abbrev pub of_type : String → Constraint F
  of_type t = record {
    type = some t;
    initial_usd = none;
    half_life_hours = none;
    allowed_mcc = none;
    quoted_rate = none;
    max_bps = none;
    quote_currency = none;
    max_count = none;
    max_value_usd = none;
    window_seconds = none;
  }

  -- `_compile`
  unfoldable pub compile : String → Constraint F → Verifier F → CompiledConstraint F
  compile type canonical verifier = record {
    type = type;
    canonical = canonical;
    verify = verifier canonical;
  }

module _ {F : Type 0} ⦃fl : FloatOps F⦄ where
  unfoldable pub compile_spend_curve : (F → Outcome F) → F → F → CompiledConstraint F
  unfolding compile
  compile_spend_curve halved initial_usd half_life_hours =
      compile "com.aegis.spend_curve"
        (record (of_type "com.aegis.spend_curve") {
          initial_usd = some initial_usd;
          half_life_hours = some half_life_hours;
        })
        (verify_spend_curve halved)

  unfoldable pub compile_mcc_allowlist : List String → CompiledConstraint F
  unfolding compile
  compile_mcc_allowlist allowed_mcc =
      compile "com.aegis.mcc_allowlist"
        (record (of_type "com.aegis.mcc_allowlist") { allowed_mcc = some allowed_mcc })
        verify_mcc_allowlist

  unfoldable pub compile_fx_slippage_bound : F → F → String → CompiledConstraint F
  unfolding compile
  compile_fx_slippage_bound quoted_rate max_bps quote_currency =
      compile "com.aegis.fx_slippage_bound"
        (record (of_type "com.aegis.fx_slippage_bound") {
          quoted_rate = some quoted_rate;
          max_bps = some max_bps;
          quote_currency = some quote_currency;
        })
        verify_fx_slippage_bound

  unfoldable pub compile_merchant_allowlist : CompiledConstraint F
  unfolding compile
  compile_merchant_allowlist =
      compile "checkout.allowed_merchants" (of_type "checkout.allowed_merchants")
        verify_merchant_allowlist

  -- No verifier reads the window.
  unfoldable pub compile_velocity_envelope : ℤ → F → ℤ → CompiledConstraint F
  unfolding compile
  compile_velocity_envelope max_count max_value_usd window_seconds =
      compile "com.aegis.velocity_envelope"
        (record (of_type "com.aegis.velocity_envelope") {
          max_count = some max_count;
          max_value_usd = some max_value_usd;
          window_seconds = some window_seconds;
        })
        verify_velocity_envelope

  -- the registry's verdict on a compiled object is that of its own verifier
  abbrev pub Agrees : ConstraintRegistry F → CompiledConstraint F → Type 0
  Agrees reg c =
      (closed : ClosedMandate F) (ctx : ConstraintContext F)
      → verdict_of (verifier_of c.canonical.type reg) c.canonical closed ctx ≡ c.verify closed ctx

  -- What the default registry says of an object that any of the five compilers made is what the
  -- compiled constraint's own verifier says, on every mandate and context.
  pub default_registry-Agrees :
      (halved : F → Outcome F) (initial half_life quoted max_bps max_value : F)
      (allowed_mcc : List String) (currency : String) (max_count window_seconds : ℤ)
      → let reg = default_registry halved in
        Agrees reg (compile_spend_curve halved initial half_life)
        × Agrees reg (compile_mcc_allowlist allowed_mcc)
        × Agrees reg (compile_fx_slippage_bound quoted max_bps currency)
        × Agrees reg compile_merchant_allowlist
        × Agrees reg (compile_velocity_envelope max_count max_value window_seconds)
  unfolding default_registry register compile_spend_curve compile_mcc_allowlist
      compile_fx_slippage_bound compile_merchant_allowlist compile_velocity_envelope
  default_registry-Agrees halved initial half_life quoted max_bps max_value allowed_mcc currency
        max_count window_seconds =
      ((λ m x. refl), (λ m x. refl), (λ m x. refl), (λ m x. refl), λ m x. refl)
