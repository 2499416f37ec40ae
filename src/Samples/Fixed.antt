-- ===== src/Samples/Fixed.antt =====
-- A model of `FloatOps`: signed decimal fractions with four places. `log10`, `exp` and `power` are
-- coarse, and texts of numbers are empty.
use mathlib.Core.List.{foldr}
use finance.Base.{◌*◌, ◌/◌, ◌^◌, ◌&&◌, ◌≡◌, refl, arith, true}
use finance.Base.Int.{ℤ, pos, negsuc, ◌+ℤ◌, ◌-ℤ◌, ◌*ℤ◌, ltb_ℤ, leb_ℤ, pos_part, neg_part, sub_ℕ}
use finance.Base.Float.{FloatOps, FloatLaws}

abbrev scale_down : ℤ → ℤ
scale_down (pos n) = pos (n / 10000)
scale_down (negsuc n) = negsuc (n / 10000)

abbrev ratio : ℤ → ℤ → ℤ
ratio a b = sub_ℕ (pos_part a * 10000 / pos_part b) (neg_part a * 10000 / pos_part b)

instance abbrev pub fixed : FloatOps ℤ
fixed = record {
  lit = λ m k. pos (m * 10000 / 10 ^ k);
  plus = ◌+ℤ◌;
  minus = ◌-ℤ◌;
  times = λ a b. scale_down (a *ℤ b);
  divide = ratio;
  negate = λ a. pos 0 -ℤ a;
  abs = λ a. pos (pos_part a);
  power = λ a b. a;
  less = ltb_ℤ;
  less_eq = leb_ℤ;
  same = λ a b. leb_ℤ a b && leb_ℤ b a;
  round = λ k a. a;
  log10 = λ a. pos 0;
  exp = λ a. pos 10000;
  sum = foldr ◌+ℤ◌ (pos 0);
  of_int = λ n. n *ℤ pos 10000;
  format = λ k a. "";
  format_int = λ n. "";
}

grows_lem : (a d : ℤ) → leb_ℤ (pos 0) a ≡ true → leb_ℤ (pos 0) d ≡ true → leb_ℤ a (a +ℤ d) ≡ true
unfolding ◌+ℤ◌
grows_lem (pos n) (pos m) p q = ground arith
grows_lem (pos n) (negsuc m) p q = ground arith
grows_lem (negsuc n) (pos m) p q = ground arith
grows_lem (negsuc n) (negsuc m) p q = ground arith

pub fixed_laws : FloatLaws fixed
fixed_laws = record {
  trans = λ a b c p q. ground arith;
  less→less_eq = λ a b p. ground arith;
  total = λ a b p q r. ground arith;
  apart = λ a b p. ground arith;
  grows = grows_lem;
  num = λ a b p. ground arith;
  zero_num = refl;
  zero-le-hundred = refl;
  hundred_num = refl;
}
