-- ===== src/Base/Float.antt =====
-- Python's `float` as an interface: the program computes with IEEE doubles, which antt has not.
-- Operations that the interpreter and `math` give are fields; Python's `min` and `max`, which
-- depend on the order of their arguments where a NaN is in play, are written out.
use mathlib.Core.Path.{◌≡◌}
use mathlib.Core.Bool.{Bool, true, false}
use mathlib.Core.List.{List}
use Prim.Native.Nat.{ℕ}
use Prim.Native.String.{String}
use finance.Base.Tests.{if◌then◌else◌}
use finance.Base.Int.{ℤ}

pub record FloatOps (F : Type 0) : Type 0 where
  -- the literal m / 10 ^ k
  pub lit : ℕ → ℕ → F
  pub plus : F → F → F
  pub minus : F → F → F
  pub times : F → F → F
  pub divide : F → F → F
  pub negate : F → F
  pub abs : F → F
  pub power : F → F → F
  pub less : F → F → Bool
  pub less_eq : F → F → Bool
  pub same : F → F → Bool
  -- round(x, k)
  pub round : ℕ → F → F
  pub log10 : F → F
  pub exp : F → F
  -- the builtin `sum` of a list of floats
  pub sum : List F → F
  -- float(n)
  pub of_int : ℤ → F
  -- f"{x:.kf}", and str(n) of an integer
  pub format : ℕ → F → String
  pub format_int : ℤ → String

module _ {F : Type 0} ⦃fl : FloatOps F⦄ where
  infixl 65 ◌⊕◌ ◌⊖◌
  infixl 70 ◌⊗◌ ◌⊘◌
  infix 50 ◌<?◌ ◌≤?◌
  abbrev pub ◌⊕◌ : F → F → F
  ◌⊕◌ = fl.plus

  abbrev pub ◌⊖◌ : F → F → F
  ◌⊖◌ = fl.minus

  abbrev pub ◌⊗◌ : F → F → F
  ◌⊗◌ = fl.times

  abbrev pub ◌⊘◌ : F → F → F
  ◌⊘◌ = fl.divide

  -- the Boolean tests `a < b` and `a <= b`
  abbrev pub ◌<?◌ : F → F → Bool
  ◌<?◌ = fl.less

  abbrev pub ◌≤?◌ : F → F → Bool
  ◌≤?◌ = fl.less_eq

  abbrev pub lit : ℕ → ℕ → F
  lit = fl.lit

  -- `min(a, b)` and `max(a, b)`: the first argument unless the second is strictly better
  abbrev pub min : F → F → F
  min a b = if b <? a then b else a

  abbrev pub max : F → F → F
  max a b = if a <? b then b else a

-- What IEEE 754 says of comparisons and of sums of non-negative doubles. A NaN is the value that is
-- not `≤` itself, and the laws leave it out.
pub record FloatLaws {F : Type 0} (fl : FloatOps F) : Type 0 where
  pub trans : (a b c : F) → fl.less_eq a b ≡ true → fl.less_eq b c ≡ true → fl.less_eq a c ≡ true
  pub less→less_eq : (a b : F) → fl.less a b ≡ true → fl.less_eq a b ≡ true
  pub total :
      (a b : F)
      → fl.less_eq a a ≡ true
      → fl.less_eq b b ≡ true
      → fl.less a b ≡ false
      → fl.less_eq b a ≡ true
  pub apart : (a b : F) → fl.less a b ≡ true → fl.less_eq b a ≡ false
  pub grows :
      (a d : F)
      → fl.less_eq (fl.lit 0 0) a ≡ true
      → fl.less_eq (fl.lit 0 0) d ≡ true
      → fl.less_eq a (fl.plus a d) ≡ true
  -- what is above something is no NaN
  pub num : (a b : F) → fl.less_eq a b ≡ true → fl.less_eq b b ≡ true
  pub zero_num : fl.less_eq (fl.lit 0 0) (fl.lit 0 0) ≡ true
  pub zero-le-hundred : fl.less_eq (fl.lit 0 0) (fl.lit 100 0) ≡ true
  pub hundred_num : fl.less_eq (fl.lit 100 0) (fl.lit 100 0) ≡ true
