-- ===== src/Ap2/Verifier/Rules.antt =====
-- What an evaluation of a closed mandate without a failure says of each of its constraints.
use finance.Base.{
  String, true, Option, none, some, List, [], ◌∷◌, all, All, ◌&&◌, ◌≡◌, refl, sym, ap, ◌∙◌, arith,
}
use finance.Base.Dict.{Dict, lookup}
use finance.Pipeline.Context.{Outcome, done, raised}
use finance.Ap2.Json.{Json, null, number, text, array, object, nil, get_or, get}
use finance.Ap2.Verifier.{
  Ruling, ConstraintFacts, Rule, and_then, rule_for, apply_rule, rule_on, evaluate_each,
  evaluate_in, evaluate, constraints_in,
}

module _ {N : Type 0} (registry : Dict (Rule N)) (closed : Json N) (facts : ConstraintFacts N) where
  -- A verifier is registered for the constraint's type, and passes it.
  abbrev pub IsRuled : Json N → Type 0
  IsRuled c =
      (type : String) × (rule : Rule N) × (r : Ruling N) × (get "type" c ≡ done (text type))
      × (lookup type registry ≡ some rule)
      × (rule c closed facts ≡ done r)
      × (r.ok ≡ true)

  both-done :
      (a : Outcome (Ruling N)) (rest : Outcome (List (Ruling N))) (results : List (Ruling N))
      → and_then a rest ≡ done results
      → (r : Ruling N) × (rs : List (Ruling N)) × (a ≡ done r)
        × (rest ≡ done rs)
        × (results ≡ r ∷ rs)
  both-done (raised e) rest results h = absurd (ground (arith, h))
  both-done (done r) (raised e) results h = absurd (ground (arith, h))
  both-done (done r) (done rs) results h = (r, rs, refl, refl, cc h)

  found-IsRuled :
      (c : Json N) (type : String) (o : Option (Rule N)) (r : Ruling N)
      → get "type" c ≡ done (text type)
      → lookup type registry ≡ o
      → apply_rule (done o) (text type) c closed facts ≡ done r
      → r.ok ≡ true
      → IsRuled c
  found-IsRuled c type none r named known e fine = absurd (ground (arith, e, fine))
  found-IsRuled c type (some rule) r named known e fine = (type, rule, r, named, known, e, fine)

  typed-IsRuled :
      (c type : Json N) (r : Ruling N)
      → get "type" c ≡ done type
      → apply_rule (rule_for registry type) type c closed facts ≡ done r
      → r.ok ≡ true
      → IsRuled c
  typed-IsRuled c (text t) r named e fine =
      found-IsRuled c t (lookup t registry) r named refl e fine
  typed-IsRuled c null r named e fine = absurd (ground (arith, e, fine))
  typed-IsRuled c (number n) r named e fine = absurd (ground (arith, e, fine))
  typed-IsRuled c (array xs) r named e fine = absurd (ground (arith, e))
  typed-IsRuled c (object ms) r named e fine = absurd (ground (arith, e))

  rule_on-IsRuled :
      (c : Json N) (o : Outcome (Json N)) (r : Ruling N)
      → get "type" c ≡ o
      → rule_on registry o c closed facts ≡ done r
      → r.ok ≡ true
      → IsRuled c
  rule_on-IsRuled c (raised e') r named e fine = absurd (ground (arith, e))
  rule_on-IsRuled c (done type) r named e fine = typed-IsRuled c type r named e fine

  evaluate_each-IsRuled :
      (cs : List (Json N)) (results : List (Ruling N))
      → evaluate_each registry cs closed facts ≡ done results
      → all (λ r. r.ok) results ≡ true
      → All IsRuled cs
  unfolding evaluate_each
  evaluate_each-IsRuled [] results e fine = tt
  evaluate_each-IsRuled (c ∷ cs) results e fine =
      let (r, rs, this, rest, both) =
        both-done (rule_on registry (get "type" c) c closed facts)
          (evaluate_each registry cs closed facts) results e in
      let fine' : (r.ok && all (λ (s : Ruling N). s.ok) rs) ≡ true =
        sym (ap (all (λ (s : Ruling N). s.ok)) both) ∙ fine in
      (
        rule_on-IsRuled c (get "type" c) r refl this (ground (arith, fine')),
        evaluate_each-IsRuled cs rs rest (ground (arith, fine')),
      )

  evaluate_in-IsRuled :
      (o : Outcome (List (Json N))) (results : List (Ruling N))
      → evaluate_in registry o closed facts ≡ done results
      → all (λ r. r.ok) results ≡ true
      → (cs : List (Json N)) × (o ≡ done cs) × All IsRuled cs
  evaluate_in-IsRuled (raised e') results e fine = absurd (ground (arith, e))
  evaluate_in-IsRuled (done cs) results e fine = (cs, refl, evaluate_each-IsRuled cs results e fine)

  -- The constraints of the closed mandate can be listed, and each is ruled.
  pub evaluate-IsRuled :
      (results : List (Ruling N))
      → evaluate registry closed facts ≡ done results
      → all (λ r. r.ok) results ≡ true
      → (cs : List (Json N)) × (constraints_in (get_or "constraints" (array nil) closed) ≡ done cs)
        × All IsRuled cs
  unfolding evaluate
  evaluate-IsRuled = evaluate_in-IsRuled (constraints_in (get_or "constraints" (array nil) closed))
