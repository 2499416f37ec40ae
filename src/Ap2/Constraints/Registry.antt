-- ===== src/Ap2/Constraints/Registry.antt =====
-- What an evaluation without a failure says of each constraint.
use finance.Base.{
  Bool, true, Option, none, some, List, [], ◌∷◌, All, all, length, ◌&&◌, ◌≡◌, refl, sym, ap, ◌∙◌,
  arith,
}
use finance.Ap2.Constraints.{
  ConstraintResult, Constraint, ClosedMandate, ConstraintContext, Verifier, ConstraintRegistry,
  verifier_of, verdict_of, evaluate_all, evaluate, and_then,
}
use finance.Pipeline.Context.{Outcome, done, raised}

and_then-done :
    (a : Outcome ConstraintResult) (rest : Outcome (List ConstraintResult))
    (results : List ConstraintResult)
    → and_then a rest ≡ done results
    → (r : ConstraintResult) × (rs : List ConstraintResult) × (a ≡ done r)
      × (rest ≡ done rs)
      × (results ≡ r ∷ rs)
and_then-done (raised e) rest results h = absurd (ground (arith, h))
and_then-done (done r) (raised e) results h = absurd (ground (arith, h))
and_then-done (done r) (done rs) results h = (r, rs, refl, refl, cc h)

module _ {F : Type 0} (reg : ConstraintRegistry F) (closed : ClosedMandate F)
    (ctx : ConstraintContext F) where
  -- A verifier is registered for the constraint's type, and passes it.
  abbrev pub IsEnforced : Constraint F → Type 0
  IsEnforced c =
      (verifier : Verifier F) × (r : ConstraintResult) × (verifier_of c.type reg ≡ some verifier)
      × (verifier c closed ctx ≡ done r)
      × (r.ok ≡ true)

  abbrev pub all_ok : List ConstraintResult → Bool
  all_ok = all (λ r. r.ok)

  first-IsEnforced :
      (c : Constraint F) (v : Option (Verifier F)) (r : ConstraintResult)
      → verifier_of c.type reg ≡ v
      → verdict_of v c closed ctx ≡ done r
      → r.ok ≡ true
      → IsEnforced c
  first-IsEnforced c none r known e fine = absurd (ground (arith, e, fine))
  first-IsEnforced c (some verifier) r known e fine = (verifier, r, known, e, fine)

  evaluate_all-IsEnforced :
      (cs : List (Constraint F)) (results : List ConstraintResult)
      → evaluate_all reg cs closed ctx ≡ done results
      → all_ok results ≡ true
      → All IsEnforced cs × (length results ≡ length cs)
  unfolding evaluate_all
  evaluate_all-IsEnforced [] results e fine =
      let none_left : results ≡ [] = cc e in (tt, ap length none_left)
  evaluate_all-IsEnforced (c ∷ cs) results e fine =
      let (r, rs, this, rest, both) =
        and_then-done (verdict_of (verifier_of c.type reg) c closed ctx)
          (evaluate_all reg cs closed ctx) results e in
      let fine' : (r.ok && all_ok rs) ≡ true = sym (ap all_ok both) ∙ fine in
      let (enforced, same) = evaluate_all-IsEnforced cs rs rest (ground (arith, fine')) in
      (
        (first-IsEnforced c (verifier_of c.type reg) r refl this (ground (arith, fine')), enforced),
        omega (arith, ap length both, same),
      )

  -- An evaluation in which no verifier raises and every result is ok has one result for each
  -- constraint of the closed mandate; the type of each is registered, and its verifier passes it.
  pub evaluate-IsEnforced :
      (results : List ConstraintResult)
      → evaluate reg closed ctx ≡ done results
      → all_ok results ≡ true
      → All IsEnforced closed.constraints × (length results ≡ length closed.constraints)
  unfolding evaluate
  evaluate-IsEnforced = evaluate_all-IsEnforced closed.constraints
