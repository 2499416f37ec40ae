-- ===== src/Pipeline/Orchestrator/Replay/Candidates.antt =====
-- `_candidate_names` of aegis/pipeline/f2_sanctions.py: no name is screened twice.
use finance.Base.{
  String, true, false, Option, none, some, List, [], ◌∷◌, contains, Distinct, not, ◌&&◌, ◌==◌, ◌≡◌,
  refl, subst, arith, eq_iff, Bool-cases, inl, inr, if_both, eq_refl,
}
use finance.Base.Platform.{TextOps}
use finance.Models.{truthy}
use finance.Pipeline.Context.{DecisionContext}
use finance.Pipeline.Sanctions.{candidate_names, unique_names}

module _ (text : TextOps) where
  -- A name whose lower case was seen is not taken again.
  unseen :
      (n : String) (seen : List String) (ns : List (Option String))
      → contains (text.lower n) seen ≡ true
      → contains n (unique_names text seen ns) ≡ false
  unfolding unique_names
  unseen n seen [] h = refl
  unseen n seen (none ∷ ns) h = unseen n seen ns h
  unseen n seen (some m ∷ ns) h = elim (Bool-cases (n == m)) [
    | inl same ↦
        let known : contains (text.lower m) seen ≡ true =
          subst (λ k. contains (text.lower k) seen ≡ true) ((eq_iff n m).0 same) h in
        ground (arith, known, unseen n seen ns h)
    | inr differs ↦
        let later = unseen n (text.lower m ∷ seen) ns (ground (arith, h)) in
        ground (arith, differs, later, unseen n seen ns h)
  ]

  Distinct-unique_names :
      (seen : List String) (ns : List (Option String)) → Distinct (unique_names text seen ns)
  unfolding unique_names
  Distinct-unique_names seen [] = tt
  Distinct-unique_names seen (none ∷ ns) = Distinct-unique_names seen ns
  Distinct-unique_names seen (some m ∷ ns) =
      if_both Distinct (truthy (some m) && not (contains (text.lower m) seen)) _ _
        (
          unseen m (text.lower m ∷ seen) ns (ground (arith, eq_refl (text.lower m))),
          Distinct-unique_names (text.lower m ∷ seen) ns,
        )
        (Distinct-unique_names seen ns)

  pub Distinct-candidate_names :
      {F : Type 0} (ctx : DecisionContext F) → Distinct (candidate_names text ctx)
  unfolding candidate_names
  Distinct-candidate_names ctx = Distinct-unique_names [] (
      ctx.bundle.cart.merchant_legal_name ∷ ctx.bundle.cart.beneficiary.legal_name
      ∷ ctx.bundle.intent.beneficiary.legal_name ∷ [])
