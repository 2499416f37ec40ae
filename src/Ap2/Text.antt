-- ===== src/Ap2/Text.antt =====
-- `str.split`, `str.join` and `str.encode("ascii")`, which aegis/ap2/sdjwt.py uses on compact
-- serializations.
use Prim.Native.Char.{Char, code}
use Prim.Native.String.{String, ◌++◌}
use mathlib.Core.Path.{◌≡◌, refl, sym, ap, subst, ◌∙◌}
use text.Mathlib.TextLemmas.{nil-append, cons-append}
use finance.Base.{ℕ, Bool, true, not, List, [], ◌∷◌, ◌&&◌, leb, ltb, if◌then◌else◌, arith, All}

abbrev pub is_char : ℕ → Char → Bool
is_char n c = leb (code c) n && leb n (code c)

abbrev pub to_head : Char → List String → List String
to_head c [] = String.◌∷◌ c String.[] ∷ []
to_head c (part ∷ parts) = String.◌∷◌ c part ∷ parts

-- `s.split(sep)` for a separator of one character
unfoldable pub split_on : ℕ → String → List String
split_on sep String.[] = String.[] ∷ []
split_on sep (String.◌∷◌ c s) =
    let rest = split_on sep s in if is_char sep c then String.[] ∷ rest else to_head c rest

-- No character of the text is this one.
unfoldable pub is_free : ℕ → String → Bool
is_free sep String.[] = true
is_free sep (String.◌∷◌ c s) = not (is_char sep c) && is_free sep s

-- `sep.join(parts)` with at least one part, the separator a text
unfoldable pub join : String → String → List String → String
join sep part [] = part
join sep part (next ∷ parts) = part ++ (sep ++ join sep next parts)

unfoldable pub is_ascii : String → Bool
is_ascii String.[] = true
is_ascii (String.◌∷◌ c s) = ltb (code c) 128 && is_ascii s

pub split_on-free : (sep : ℕ) (s : String) → is_free sep s ≡ true → split_on sep s ≡ s ∷ []
unfolding split_on is_free
split_on-free sep String.[] h = refl
split_on-free sep (String.◌∷◌ c s) h = ground (arith, split_on-free sep s)

-- A part without the separator, the separator, and more.
pub split_on-append :
    (sep : ℕ) (c : Char) (part rest : String)
    → is_char sep c ≡ true
    → is_free sep part ≡ true
    → split_on sep (part ++ String.◌∷◌ c rest) ≡ part ∷ split_on sep rest
unfolding split_on is_free
split_on-append sep c String.[] rest here free =
    rw (nil-append (String.◌∷◌ c rest)) (ground (arith, here))
split_on-append sep c (String.◌∷◌ d part) rest here free =
    rw (cons-append d part (String.◌∷◌ c rest))
      (ground (arith, split_on-append sep c part rest here))

-- The same with the separator as a text of one character.
pub split_on-sep :
    (sep : ℕ) (c : Char) (part rest : String)
    → is_char sep c ≡ true
    → is_free sep part ≡ true
    → split_on sep (part ++ (String.◌∷◌ c String.[] ++ rest)) ≡ part ∷ split_on sep rest
split_on-sep sep c part rest here free =
    let one : String.◌∷◌ c String.[] ++ rest ≡ String.◌∷◌ c rest =
      cons-append c String.[] rest ∙ ap (String.◌∷◌ c) (nil-append rest) in
    subst (λ t. split_on sep (part ++ t) ≡ part ∷ split_on sep rest) (sym one)
      (split_on-append sep c part rest here free)

-- Splitting takes a join apart, where no part has the separator.
pub split_on-join :
    (sep : ℕ) (c : Char) (part : String) (parts : List String)
    → is_char sep c ≡ true
    → All (λ p. is_free sep p ≡ true) (part ∷ parts)
    → split_on sep (join (String.◌∷◌ c String.[]) part parts) ≡ part ∷ parts
unfolding join
split_on-join sep c part [] here (free, _) = split_on-free sep part free
split_on-join sep c part (next ∷ parts) here (free, more) =
    split_on-sep sep c part (join (String.◌∷◌ c String.[]) next parts) here free
    ∙ ap (λ ps. part ∷ ps) (split_on-join sep c next parts here more)
