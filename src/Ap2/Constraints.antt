-- ===== src/Ap2/Constraints.antt =====
-- aegis/ap2/constraints.py: the constraint types of an open mandate, and their registry. A JSON
-- object is a record of the members that the code reads, each of them optional; reading a member
-- that is not there raises `KeyError`.
pub mod Compile
pub mod Registry
use finance.Base.{
  String, Bool, true, false, not, Option, none, some, List, [], ◌∷◌, contains, ◌==◌, if◌then◌else◌,
}
use finance.Base.Dict.{Dict, lookup, insert}
use finance.Base.Float.{FloatOps, lit, ◌⊕◌, ◌⊖◌, ◌⊗◌, ◌⊘◌, ◌<?◌}
use finance.Base.Int.{ℤ, pos, ◌+ℤ◌, ltb_ℤ}
use finance.Pipeline.Context.{Outcome, done, raised}

pub record ConstraintResult : Type 0 where
  pub ok : Bool
  pub type : String

-- an entry of `constraints[]`
pub record Constraint (F : Type 0) : Type 0 where
  pub type : Option String
  pub initial_usd : Option F
  pub half_life_hours : Option F
  pub allowed_mcc : Option (List String)
  pub quoted_rate : Option F
  pub max_bps : Option F
  pub quote_currency : Option String
  pub max_count : Option ℤ
  pub max_value_usd : Option F
  pub window_seconds : Option ℤ

pub record Payee : Type 0 where
  pub id : Option String
  pub mcc : Option String

pub record PaymentAmount (F : Type 0) : Type 0 where
  pub value_usd : Option F
  pub currency : Option String

pub record ClosedMandate (F : Type 0) : Type 0 where
  pub open_iat : Option F
  pub payee : Option Payee
  pub payment_amount : Option (PaymentAmount F)
  pub constraints : List (Constraint F)

pub record Observed (F : Type 0) : Type 0 where
  pub count : ℤ
  pub value_usd : F

pub record ConstraintContext (F : Type 0) : Type 0 where
  pub now : F
  pub executed_fx_rate : Option F
  pub disclosed_merchants : Option (List String)
  pub velocity_observed : Option (Observed F)

abbrev pub passed : String → ConstraintResult
passed t = record { ok = true; type = t }

abbrev pub fail : String → ConstraintResult
fail t = record { ok = false; type = t }

abbrev pub Verifier : Type 0 → Type 0
Verifier F = Constraint F → ClosedMandate F → ConstraintContext F → Outcome ConstraintResult

-- `o[key]`, and what is done with it
abbrev pub need : {A B : Type 0} → String → Option A → (A → Outcome B) → Outcome B
need key none f = raised key
need key (some a) f = f a

abbrev pub mcc_of : Option Payee → Option String
mcc_of none = none
mcc_of (some p) = p.mcc

abbrev pub id_of : Option Payee → Option String
id_of none = none
id_of (some p) = p.id

-- `x in set(xs)`, where `x` may be None
abbrev pub known_in : Option String → Option (List String) → Bool
known_in (some x) (some xs) = contains x xs
known_in _ _ = false

-- `a == b` for members that may be None
abbrev pub same_member : Option String → Option String → Bool
same_member none none = true
same_member (some a) (some b) = a == b
same_member _ _ = false

abbrev pub checked : Bool → String → Outcome ConstraintResult
checked b t = done (if b then passed t else fail t)

abbrev pub mcc_allowed : Option String → Option (List String) → String → Outcome ConstraintResult
mcc_allowed none allowed t = done (fail t)
mcc_allowed (some mcc) allowed t = need "allowed_mcc" allowed λ xs. checked (contains mcc xs) t

module _ {F : Type 0} ⦃fl : FloatOps F⦄ where
  -- `0.5 ** x`, which raises on an overflow, is the first argument; a division by zero raises.
  abbrev pub decayed :
      (F → Outcome F) → F → F → F → (F → Outcome ConstraintResult) → Outcome ConstraintResult
  decayed halved initial age_h half_life f =
      if fl.same half_life (lit 0 0)
      then raised "ZeroDivisionError"
      else times_initial (halved (age_h ⊘ half_life)) initial f
    where
      times_initial : Outcome F → F → (F → Outcome ConstraintResult) → Outcome ConstraintResult
      times_initial (raised e) initial f = raised e
      times_initial (done factor) initial f = f (initial ⊗ factor)

  abbrev pub amount_within : F → Option (PaymentAmount F) → String → Outcome ConstraintResult
  amount_within allowed payment t =
      need "payment_amount" payment
        λ p. need "value_usd" p.value_usd λ amt. checked (not ((allowed ⊕ lit 1 9) <? amt)) t

  abbrev pub spend_at :
      (F → Outcome F)
      → Option F
      → Constraint F
      → ClosedMandate F
      → F
      → String
      → Outcome ConstraintResult
  spend_at halved none c closed now t = done (fail t)
  spend_at halved (some open_iat) c closed now t =
      let age_h = (now ⊖ open_iat) ⊘ lit 3600 0 in
      if age_h <? lit 0 0
      then done (fail t)
      else need "initial_usd" c.initial_usd λ initial.
        need "half_life_hours" c.half_life_hours λ half_life.
          decayed halved initial age_h half_life
            λ allowed. amount_within allowed closed.payment_amount t

  unfoldable pub verify_spend_curve : (F → Outcome F) → Verifier F
  verify_spend_curve halved c closed ctx =
      need "type" c.type λ t. spend_at halved closed.open_iat c closed ctx.now t

  unfoldable pub verify_mcc_allowlist : Verifier F
  verify_mcc_allowlist c closed ctx =
      need "type" c.type λ t. mcc_allowed (mcc_of closed.payee) c.allowed_mcc t

  -- a zero quote raises
  abbrev pub slippage : F → F → Option F → String → Outcome ConstraintResult
  slippage executed quoted max_bps t =
      let bps = (fl.abs (executed ⊖ quoted) ⊘ quoted) ⊗ lit 10000 0 in
      if fl.same quoted (lit 0 0)
      then raised "ZeroDivisionError"
      else need "max_bps" max_bps λ bound. checked (not (bound <? bps)) t

  abbrev pub fx_at : Option F → Constraint F → ClosedMandate F → String → Outcome ConstraintResult
  fx_at none c closed t =
      need "payment_amount" closed.payment_amount
        λ p. checked (same_member p.currency c.quote_currency) t
  fx_at (some executed) c closed t =
      need "quoted_rate" c.quoted_rate λ quoted. slippage executed quoted c.max_bps t

  unfoldable pub verify_fx_slippage_bound : Verifier F
  verify_fx_slippage_bound c closed ctx =
      need "type" c.type λ t. fx_at ctx.executed_fx_rate c closed t

  unfoldable pub verify_merchant_allowlist : Verifier F
  verify_merchant_allowlist c closed ctx =
      need "type" c.type λ t. checked (known_in (id_of closed.payee) ctx.disclosed_merchants) t

  abbrev pub observed_or_zero : Option (Observed F) → Observed F
  observed_or_zero none = record { count = pos 0; value_usd = lit 0 0 }
  observed_or_zero (some o) = o

  abbrev pub value_within : Option F → F → String → Outcome ConstraintResult
  value_within bound new_value t =
      need "max_value_usd" bound λ max_value. checked (not ((max_value ⊕ lit 1 9) <? new_value)) t

  unfoldable pub verify_velocity_envelope : Verifier F
  verify_velocity_envelope c closed ctx =
      let observed = observed_or_zero ctx.velocity_observed in
      need "type" c.type λ t. need "payment_amount" closed.payment_amount λ p.
        need "value_usd" p.value_usd λ amt. need "max_count" c.max_count λ max_count.
          if ltb_ℤ max_count (observed.count +ℤ pos 1)
          then done (fail t)
          else value_within c.max_value_usd (observed.value_usd ⊕ amt) t

abbrev pub type_or_none : Option String → String
type_or_none none = "<none>"
type_or_none (some t) = t

abbrev pub and_then :
    Outcome ConstraintResult → Outcome (List ConstraintResult) → Outcome (List ConstraintResult)
and_then (raised e) rest = raised e
and_then (done r) (raised e) = raised e
and_then (done r) (done rs) = done (r ∷ rs)

abbrev pub ConstraintRegistry : Type 0 → Type 0
ConstraintRegistry F = Dict (Verifier F)

module _ {F : Type 0} where
  unfoldable pub register : String → Verifier F → ConstraintRegistry F → ConstraintRegistry F
  register type verifier reg = insert type verifier reg

  abbrev pub verifier_of : Option String → ConstraintRegistry F → Option (Verifier F)
  verifier_of none reg = none
  verifier_of (some t) reg = lookup t reg

  -- one round of `evaluate`: an unknown type fails
  abbrev pub verdict_of :
      Option (Verifier F)
      → Constraint F
      → ClosedMandate F
      → ConstraintContext F
      → Outcome ConstraintResult
  verdict_of none c closed ctx = done (fail (type_or_none c.type))
  verdict_of (some verifier) c closed ctx = verifier c closed ctx

  unfoldable pub evaluate_all :
      ConstraintRegistry F
      → List (Constraint F)
      → ClosedMandate F
      → ConstraintContext F
      → Outcome (List ConstraintResult)
  evaluate_all reg [] closed ctx = done []
  evaluate_all reg (c ∷ cs) closed ctx =
      and_then (verdict_of (verifier_of c.type reg) c closed ctx) (evaluate_all reg cs closed ctx)

  -- `evaluate`
  unfoldable pub evaluate :
      ConstraintRegistry F → ClosedMandate F → ConstraintContext F → Outcome (List ConstraintResult)
  evaluate reg closed ctx = evaluate_all reg closed.constraints closed ctx

module _ {F : Type 0} ⦃fl : FloatOps F⦄ where
  unfoldable pub default_registry : (F → Outcome F) → ConstraintRegistry F
  default_registry halved = register "checkout.allowed_merchants" verify_merchant_allowlist (
      register "com.aegis.velocity_envelope" verify_velocity_envelope (
        register "com.aegis.fx_slippage_bound" verify_fx_slippage_bound (
          register "com.aegis.mcc_allowlist" verify_mcc_allowlist
            (register "com.aegis.spend_curve" (verify_spend_curve halved) []))))
