-- ===== src/Ledger/Store/Tamper.antt =====
-- The head of the chain fixes every envelope below it.
use finance.Base.{
  ℕ, ◌+◌, String, none, List, [], ◌∷◌, length, eq_iff, ◌≡◌, refl, sym, ap, ◌∙◌, arith,
}
use finance.Base.Platform.{Crypto}
use finance.Models.{DecisionEnvelope, Encoding}
use finance.Ledger.Store.{
  DecisionLedger, genesis_hash, head_from, head_hash, entry_hash, first_bad, verify_chain,
}

module _ {F : Type 0} ⦃enc : Encoding F⦄ (cr : Crypto) where
  -- No envelope of one list collides with the one at its place in the other.
  abbrev pub NoCollision : List (DecisionEnvelope F) → List (DecisionEnvelope F) → Type 0
  NoCollision (x ∷ xs) (y ∷ ys) =
      (entry_hash cr x ≡ entry_hash cr y
        → (record x { this_hash = "" }) ≡ (record y { this_hash = "" }))
      × NoCollision xs ys
  NoCollision _ _ = Unit

  -- an envelope at the head of a verified chain
  first_bad_links :
      (signing_pub : String) (i : ℕ) (prev : String) (env : DecisionEnvelope F)
      → (envs : List (DecisionEnvelope F)) → first_bad cr signing_pub i prev (env ∷ envs) ≡ none
      → (env.prev_envelope_hash ≡ prev)
        × (entry_hash cr env ≡ env.this_hash)
        × (first_bad cr signing_pub (i + 1) env.this_hash envs ≡ none)
  unfolding first_bad
  first_bad_links signing_pub i prev env envs h =
      ground (arith, eq_iff env.prev_envelope_hash prev, eq_iff (entry_hash cr env) env.this_hash)

  first_bad-inj :
      (pub₁ pub₂ : String) (i j : ℕ) (prev₁ prev₂ : String) (xs ys : List (DecisionEnvelope F))
      → first_bad cr pub₁ i prev₁ xs ≡ none
      → first_bad cr pub₂ j prev₂ ys ≡ none
      → length xs ≡ length ys
      → head_from prev₁ xs ≡ head_from prev₂ ys
      → NoCollision xs ys
      → (prev₁ ≡ prev₂) × (xs ≡ ys)
  first_bad-inj pub₁ pub₂ i j prev₁ prev₂ [] [] h₁ h₂ l e n = (e, refl)
  first_bad-inj pub₁ pub₂ i j prev₁ prev₂ [] (y ∷ ys) h₁ h₂ l e n = absurd (omega (arith, l))
  first_bad-inj pub₁ pub₂ i j prev₁ prev₂ (x ∷ xs) [] h₁ h₂ l e n = absurd (omega (arith, l))
  first_bad-inj pub₁ pub₂ i j prev₁ prev₂ (x ∷ xs) (y ∷ ys) h₁ h₂ l e n =
      let a = first_bad_links pub₁ i prev₁ x xs h₁ in
      let b = first_bad_links pub₂ j prev₂ y ys h₂ in
      let (same_hash, same_rest) =
        first_bad-inj pub₁ pub₂ (i + 1) (j + 1) x.this_hash y.this_hash xs ys (a.2) (b.2)
          (omega (arith, l)) e (n.1) in
      let same : (record x { this_hash = "" }) ≡ (record y { this_hash = "" }) =
        n.0 (a.1 ∙ same_hash ∙ sym (b.1)) in
      (
        sym (a.0) ∙ ap (λ (r : DecisionEnvelope F). r.prev_envelope_hash) same ∙ b.0,
        λ k. (record (same k) { this_hash = same_hash k }) ∷ same_rest k,
      )

  -- Two ledgers whose chains verify, of the same length and with the same head, hold the same
  -- envelopes, if no two envelopes at one place have the same hash without being the same.
  pub verify_chain-inj :
      (l₁ l₂ : DecisionLedger F)
      → verify_chain cr l₁ ≡ none
      → verify_chain cr l₂ ≡ none
      → length l₁.entries ≡ length l₂.entries
      → head_hash l₁ ≡ head_hash l₂
      → NoCollision l₁.entries l₂.entries
      → l₁.entries ≡ l₂.entries
  unfolding verify_chain head_hash
  verify_chain-inj l₁ l₂ h₁ h₂ l e n =
      (first_bad-inj l₁.signing_pub l₂.signing_pub 0 0 genesis_hash genesis_hash l₁.entries
        l₂.entries h₁ h₂ l e n).1
