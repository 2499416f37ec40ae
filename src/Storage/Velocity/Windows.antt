-- ===== src/Storage/Velocity/Windows.antt =====
-- The rows of `velocity_events` under a key, and what `window` selects of them.
use finance.Base.{
  ℕ, ◌≤◌, String, Bool, true, false, List, [], ◌∷◌, ◌++◌, ◌==◌, not, map, filter, All,
  if◌then◌else◌, ◌≡◌, refl, ap, ◌∙◌, arith, eq_iff, Bool-cases, inl, inr,
}
use finance.Base.Float.{FloatOps, FloatLaws, ◌≤?◌, ◌<?◌}
use finance.State.Velocity.{Entries, recent}
use finance.Storage.Velocity.{VelocityRow, entry_of, place, order_by_ts, kept, selected}

pub All-filter :
    {A : Type 0} (P : A → Type 0) (p : A → Bool) (xs : List A) → All P xs → All P (filter p xs)
All-filter P p [] h = tt
All-filter P p (x ∷ xs) h = elim (Bool-cases (p x)) [
  | inl holds ↦ rw holds (h.0, All-filter P p xs h.1)
  | inr fails ↦ rw fails (All-filter P p xs h.1)
]

module _ {F : Type 0} where
  -- the entries under a key
  abbrev pub entries_of : String → List (VelocityRow F) → Entries F
  entries_of key [] = []
  entries_of key (r ∷ rows) =
      let rest = entries_of key rows in if r.key == key then entry_of r ∷ rest else rest

  pub entries_of-append :
      (key : String) (rows : List (VelocityRow F)) (new : VelocityRow F)
      → entries_of key (rows ++ new ∷ [])
        ≡ entries_of key rows ++ (if new.key == key then entry_of new ∷ [] else [])
  entries_of-append key [] new = ground arith
  entries_of-append key (r ∷ rows) new = ground (arith, entries_of-append key rows new)

module _ {F : Type 0} ⦃fl : FloatOps F⦄ where
  -- A row is not after a time, nor after an id.
  abbrev pub Until : F → ℕ → VelocityRow F → Type 0
  Until time last r = ((r.ts ≤? r.ts) ≡ true) × ((r.ts ≤? time) ≡ true) × (r.id ≤ last)

  -- Each row comes before all that follow it.
  abbrev pub Sorted : List (VelocityRow F) → Type 0
  Sorted [] = Unit
  Sorted (r ∷ rows) = All (λ q. ((r.ts ≤? q.ts) ≡ true) × (r.id ≤ q.id)) rows × Sorted rows

  pub Sorted-filter :
      (p : VelocityRow F → Bool) (rows : List (VelocityRow F))
      → Sorted rows
      → Sorted (filter p rows)
  Sorted-filter p [] h = tt
  Sorted-filter p (r ∷ rows) h = elim (Bool-cases (p r)) [
    | inl holds ↦ rw holds (All-filter _ p rows h.0, Sorted-filter p rows h.1)
    | inr fails ↦ rw fails (Sorted-filter p rows h.1)
  ]

  pub Sorted-append :
      (rows : List (VelocityRow F)) (new : VelocityRow F)
      → Sorted rows
      → All (Until new.ts new.id) rows
      → Sorted (rows ++ new ∷ [])
  Sorted-append [] new h all = (tt, tt)
  Sorted-append (r ∷ rows) new h all = (with_new rows h.0, Sorted-append rows new h.1 all.1)
    where
      with_new :
          (qs : List (VelocityRow F))
          → All (λ q. ((r.ts ≤? q.ts) ≡ true) × (r.id ≤ q.id)) qs
          → All (λ q. ((r.ts ≤? q.ts) ≡ true) × (r.id ≤ q.id)) (qs ++ new ∷ [])
      with_new [] k = ((all.0.1, all.0.2), tt)
      with_new (q ∷ qs) k = (k.0, with_new qs k.1)

  module _ (laws : FloatLaws fl) where
    place-first :
        (r : VelocityRow F) (rows : List (VelocityRow F))
        → Sorted (r ∷ rows)
        → place r rows ≡ r ∷ rows
    place-first r [] h = refl
    place-first r (q ∷ rows) h = ground (arith, h.0.0.0, h.0.0.1, laws.apart q.ts r.ts)

    pub order_by_ts-Sorted : (rows : List (VelocityRow F)) → Sorted rows → order_by_ts rows ≡ rows
    order_by_ts-Sorted [] h = refl
    order_by_ts-Sorted (r ∷ rows) h =
        ap (place r) (order_by_ts-Sorted rows h.1) ∙ place-first r rows h

    module _ (key : String) (cutoff now : F) (last : ℕ) (known : (cutoff ≤? cutoff) ≡ true) where
      -- A row that DELETE leaves is one that the memory store keeps.
      not_expired : (r : VelocityRow F) → Until now last r → not (r.ts <? cutoff) ≡ (cutoff ≤? r.ts)
      not_expired r h =
          ground (arith, h.0, laws.apart r.ts cutoff, laws.total r.ts cutoff h.0 known)

      pub selected-kept :
          (rows : List (VelocityRow F))
          → All (Until now last) rows
          → map entry_of (selected key cutoff now (kept key cutoff rows))
            ≡ recent cutoff (entries_of key rows)
      unfolding recent
      selected-kept [] h = refl
      selected-kept (r ∷ rows) h = ground (arith, selected-kept rows h.1, not_expired r h.0, h.0.1)

      pub entries_of-kept :
          (rows : List (VelocityRow F))
          → All (Until now last) rows
          → entries_of key (kept key cutoff rows) ≡ recent cutoff (entries_of key rows)
      unfolding recent
      entries_of-kept [] h = refl
      entries_of-kept (r ∷ rows) h = ground (arith, entries_of-kept rows h.1, not_expired r h.0)

    pub entries_of-kept_other :
        (key other : String) (cutoff : F) (rows : List (VelocityRow F))
        → (key == other) ≡ false
        → entries_of other (kept key cutoff rows) ≡ entries_of other rows
    entries_of-kept_other key other cutoff [] differ = refl
    entries_of-kept_other key other cutoff (r ∷ rows) differ = ground (
      arith,
      entries_of-kept_other key other cutoff rows differ,
      differ,
      eq_iff r.key key,
      eq_iff r.key other,
      eq_iff key other,
    )
