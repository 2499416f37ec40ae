-- ===== src/Base/Lists.antt =====
-- Lists measured by native numbers, Boolean quantifiers over them, and lists of texts as sets.
use Prim.Native.Nat.{ℕ, suc, ◌+◌, ◌≤◌}
use Prim.Native.String.{String}
use mathlib.Core.Path.{◌≡◌, refl}
use mathlib.Core.Bool.{Bool, true, false, ◌&&◌, ◌||◌}
use mathlib.Core.List.{List, [], ◌∷◌, ◌++◌}
use native.Mathlib.Omega.{arith}
use text.Mathlib.Text.{◌==◌}
use text.Mathlib.TextEquality.{eq_iff}
use finance.Base.Tests.{if◌then◌else◌}

module _ {ℓ} {A : Type ℓ} where
  abbrev pub length : List A → ℕ
  length [] = 0
  length (x ∷ xs) = suc (length xs)

  -- `any(p(x) for x in xs)`
  abbrev pub any : (A → Bool) → List A → Bool
  any p [] = false
  any p (x ∷ xs) = p x || any p xs

  -- `all(p(x) for x in xs)`
  abbrev pub all : (A → Bool) → List A → Bool
  all p [] = true
  all p (x ∷ xs) = p x && all p xs

  -- `[x for x in xs if p(x)]`
  abbrev pub filter : (A → Bool) → List A → List A
  filter p [] = []
  filter p (x ∷ xs) = let rest = filter p xs in if p x then x ∷ rest else rest

  -- A predicate at every element.
  abbrev pub All {κ} : (A → Type κ) → List A → Type κ
  All P [] = Unit
  All P (x ∷ xs) = P x × All P xs

  pub length-append : (xs ys : List A) → length (xs ++ ys) ≡ length xs + length ys
  length-append [] ys = omega arith
  length-append (x ∷ xs) ys = omega (arith, length-append xs ys)

  pub any-append : (p : A → Bool) (xs ys : List A) → any p (xs ++ ys) ≡ (any p xs || any p ys)
  any-append p [] ys = refl
  any-append p (x ∷ xs) ys = ground (arith, any-append p xs ys)

  pub length-filter-le : (p : A → Bool) (xs : List A) → length (filter p xs) ≤ length xs
  length-filter-le p [] = omega arith
  length-filter-le p (x ∷ xs) = ground (arith, length-filter-le p xs)

  pub filter-eq_self : (p : A → Bool) (xs : List A) → all p xs ≡ true → filter p xs ≡ xs
  filter-eq_self p [] h = refl
  filter-eq_self p (x ∷ xs) h = ground (arith, filter-eq_self p xs)

  pub all-filter : (p : A → Bool) (xs : List A) → all p (filter p xs) ≡ true
  all-filter p [] = refl
  all-filter p (x ∷ xs) = ground (arith, all-filter p xs)

-- `s in xs`
abbrev pub contains : String → List String → Bool
contains s [] = false
contains s (x ∷ xs) = s == x || contains s xs

-- `xs.add(s)`, a set as a list without repeats
abbrev pub add : String → List String → List String
add s xs = if contains s xs then xs else s ∷ xs

-- `xs.discard(s)`
abbrev pub discard : String → List String → List String
discard s [] = []
discard s (x ∷ xs) = let rest = discard s xs in if s == x then rest else x ∷ rest

-- No text stands twice.
abbrev pub Distinct : List String → Type 0
Distinct [] = Unit
Distinct (x ∷ xs) = (contains x xs ≡ false) × Distinct xs

pub contains-append :
    (s : String) (xs ys : List String) → contains s (xs ++ ys) ≡ (contains s xs || contains s ys)
contains-append s [] ys = refl
contains-append s (x ∷ xs) ys = ground (arith, contains-append s xs ys)

pub contains-discard :
    (s t : String) (xs : List String)
    → contains t (discard s xs) ≡ (if s == t then false else contains t xs)
contains-discard s t [] = ground arith
contains-discard s t (x ∷ xs) =
    ground (arith, contains-discard s t xs, eq_iff s x, eq_iff s t, eq_iff t x)

pub Distinct-discard : (s : String) (xs : List String) → Distinct xs → Distinct (discard s xs)
Distinct-discard s [] h = tt
Distinct-discard s (x ∷ xs) h = ground (arith, Distinct-discard s xs h.1, contains-discard s x xs)

pub length-discard :
    (s : String) (xs : List String)
    → Distinct xs
    → contains s xs ≡ true
    → length (discard s xs) + 1 ≡ length xs
length-discard s [] d h = cc
length-discard s (x ∷ xs) d h =
    ground (arith, length-discard s xs d.1, length-discard_absent s xs, eq_iff s x)
  where
    length-discard_absent :
        (s : String) (xs : List String) → contains s xs ≡ false → discard s xs ≡ xs
    length-discard_absent s [] h = refl
    length-discard_absent s (x ∷ xs) h = ground (arith, length-discard_absent s xs)

pub length-discard-le : (s : String) (xs : List String) → length (discard s xs) ≤ length xs
length-discard-le s [] = omega arith
length-discard-le s (x ∷ xs) = ground (arith, length-discard-le s xs)
