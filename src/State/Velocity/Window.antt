-- ===== src/State/Velocity/Window.antt =====
-- Windows after a transfer is recorded, and in a store that was seeded from a window.
use finance.Base.{
  String, Bool, true, false, List, [], ◌∷◌, ◌++◌, filter, filter-eq_self, all-filter, ◌==◌, eq_iff,
  eq_refl, ◌≡◌, ◌≢◌, refl, arith, if◌then◌else◌,
}
use finance.Base.Dict.{lookup, lookup-insert, lookup-insert_self}
use finance.Base.Float.{FloatOps, ◌⊖◌, ◌≤?◌}
use finance.State.Velocity.{VelocityStore, or_empty, record_entry, seed, recent, window}

filter-append :
    {A : Type 0} (p : A → Bool) (xs ys : List A) → filter p (xs ++ ys) ≡ filter p xs ++ filter p ys
filter-append p [] ys = refl
filter-append p (x ∷ xs) ys = ground (arith, filter-append p xs ys)

module _ {F : Type 0} ⦃fl : FloatOps F⦄ where
  -- After a transfer is recorded, the window of its key is the old one, with the transfer at its end
  -- if it is in the window; the entries under every other key stay as they were.
  pub window-record_entry :
      (key other : String) (ts amount now seconds : F) (store : VelocityStore F)
      → other ≢ key
      → ((window key now seconds (record_entry key ts amount store)).0
          ≡ (window key now seconds store).0
            ++ (if (now ⊖ seconds) ≤? ts then (ts, amount) ∷ [] else []))
        × (lookup other (record_entry key ts amount store) ≡ lookup other store)
  unfolding window record_entry recent
  window-record_entry key other ts amount now seconds store differs =
      let old = or_empty (lookup key store) in
      let found = lookup-insert_self key (old ++ (ts, amount) ∷ []) store in
      (
        rw found (filter-append (λ e. (now ⊖ seconds) ≤? e.0) old ((ts, amount) ∷ [])),
        ground (arith, lookup-insert key other (old ++ (ts, amount) ∷ []) store, eq_iff key other),
      )

  -- A fresh store that is seeded with the windows of two keys gives the same windows at the same
  -- time.
  pub window-seed :
      (key₁ key₂ : String) (now seconds : F) (store : VelocityStore F)
      → key₁ ≢ key₂
      → let w₁ = (window key₁ now seconds store).0 in
        let w₂ = (window key₂ now seconds store).0 in
        let copy = seed ((key₁, w₁) ∷ (key₂, w₂) ∷ []) [] in
        ((window key₁ now seconds copy).0 ≡ w₁) × ((window key₂ now seconds copy).0 ≡ w₂)
  unfolding window seed recent
  window-seed key₁ key₂ now seconds store differ =
      let p : F × F → Bool = λ e. (now ⊖ seconds) ≤? e.0 in
      let old₁ = or_empty (lookup key₁ store) in
      let old₂ = or_empty (lookup key₂ store) in
      let apart : (key₁ == key₂) ≡ false = ground (arith, differ, eq_iff key₁ key₂) in
      let same₁ : (key₁ == key₁) ≡ true = eq_refl key₁ in
      let same₂ : (key₂ == key₂) ≡ true = eq_refl key₂ in
      rw (apart, same₁, same₂, apart)
        (
          filter-eq_self p (filter p old₁) (all-filter p old₁),
          filter-eq_self p (filter p old₂) (all-filter p old₂),
        )
