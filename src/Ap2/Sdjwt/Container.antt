-- ===== src/Ap2/Sdjwt/Container.antt =====
-- What a serialized SD-JWT parses to.
use Prim.Native.String.{String, ◌++◌}
use text.Mathlib.TextLemmas.{append_assoc}
use finance.Base.{true, List, [], ◌∷◌, filter, all, All, ◌≡◌, refl, sym, ap, ◌∙◌, filter-eq_self}
use finance.Ap2.Text.{split_on, is_free, join, split_on-join}
use finance.Ap2.Sdjwt.{
  Sdjwt, presentation_without_kb, kb_text, serialize, before_last, last, kb_segment, non_empty,
  of_segments, parse,
}

-- No part holds a tilde, no disclosure is empty, and a KB-JWT that is there is not empty.
pub record IsCompact (sd : Sdjwt) : Type 0 where
  pub issuer_free : is_free b'~' sd.issuer_jwt ≡ true
  pub disclosures_free : All (λ d. is_free b'~' d ≡ true) sd.disclosures
  pub disclosures_full : all non_empty sd.disclosures ≡ true
  pub kb_free : is_free b'~' (kb_text sd.kb_jwt) ≡ true
  pub kb_full : kb_segment (kb_text sd.kb_jwt) ≡ sd.kb_jwt

abbrev ends_with : List String → String → List String
ends_with [] k = k ∷ []
ends_with (d ∷ ds) k = d ∷ ends_with ds k

join-ends_with :
    (sep x k : String) (ds : List String)
    → join sep x (ends_with ds k) ≡ (join sep x ds ++ sep) ++ k
unfolding join
join-ends_with sep x k [] = sym (append_assoc x sep k)
join-ends_with sep x k (d ∷ ds) =
    ap (λ t. x ++ (sep ++ t)) (join-ends_with sep d k ds) ∙ (simp append_assoc)

All-ends_with :
    (P : String → Type 0) (k : String) (ds : List String) → All P ds → P k → All P (ends_with ds k)
All-ends_with P k [] h p = (p, tt)
All-ends_with P k (d ∷ ds) h p = (h.0, All-ends_with P k ds h.1 p)

of_segments-ends_with :
    (issuer k : String) (ds : List String)
    → of_segments (issuer ∷ ends_with ds k)
      ≡ record { issuer_jwt = issuer; disclosures = filter non_empty ds; kb_jwt = kb_segment k }
of_segments-ends_with issuer k [] = refl
of_segments-ends_with issuer k (d ∷ ds) =
    let (front, back) = split_last d ds in rw front (rw back refl)
  where
    split_last :
        (d : String) (ds : List String)
        → (before_last d (ends_with ds k) ≡ d ∷ ds) × (last d (ends_with ds k) ≡ k)
    split_last d [] = (refl, refl)
    split_last d (e ∷ es) = let (f, b) = split_last e es in (ap (λ l. d ∷ l) f, b)

-- A compact SD-JWT parses back from its serialization: its issuer's JWT, its disclosures in their
-- order, and its KB-JWT or that there is none.
pub parse-serialize : (sd : Sdjwt) → IsCompact sd → parse (serialize sd) ≡ sd
unfolding parse serialize presentation_without_kb
parse-serialize sd c =
    let k = kb_text sd.kb_jwt in
    let free : All (λ d. is_free b'~' d ≡ true) (sd.issuer_jwt ∷ ends_with sd.disclosures k) = (
      c.issuer_free,
      All-ends_with (λ d. is_free b'~' d ≡ true) k sd.disclosures c.disclosures_free c.kb_free,
    ) in
    ap (λ s. of_segments (split_on b'~' s))
      (sym (join-ends_with "~" sd.issuer_jwt k sd.disclosures))
    ∙ ap of_segments (split_on-join b'~' "~" sd.issuer_jwt (ends_with sd.disclosures k) refl free)
    ∙ of_segments-ends_with sd.issuer_jwt k sd.disclosures
    ∙ ap (λ ds. record { issuer_jwt = sd.issuer_jwt; disclosures = ds; kb_jwt = kb_segment k })
        (filter-eq_self non_empty sd.disclosures c.disclosures_full)
    ∙ ap (λ kb. record { issuer_jwt = sd.issuer_jwt; disclosures = sd.disclosures; kb_jwt = kb })
        c.kb_full
