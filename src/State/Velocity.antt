-- ===== src/State/Velocity.antt =====
-- aegis/state/velocity.py: `VelocityStore`, a list of (timestamp, amount) for each key. The lock
-- makes each method one step, so a method is a function of the store.
pub mod Window
use finance.Base.{String, Option, none, some, List, [], ◌∷◌, ◌++◌, filter}
use finance.Base.Dict.{Dict, lookup, insert}
use finance.Base.Float.{FloatOps, ◌⊖◌, ◌≤?◌}

abbrev pub Entries : Type 0 → Type 0
Entries F = List (F × F)

abbrev pub VelocityStore : Type 0 → Type 0
VelocityStore F = Dict (Entries F)

module _ {F : Type 0} where
  abbrev pub or_empty : Option (Entries F) → Entries F
  or_empty none = []
  or_empty (some es) = es

  -- `record`
  unfoldable pub record_entry : String → F → F → VelocityStore F → VelocityStore F
  record_entry key ts amount_usd store =
      insert key (or_empty (lookup key store) ++ (ts, amount_usd) ∷ []) store

  -- `seed`
  unfoldable pub seed : Dict (Entries F) → VelocityStore F → VelocityStore F
  seed [] store = store
  seed ((key, entries) ∷ mapping) store = seed mapping (insert key entries store)

  -- `reset`
  unfoldable pub reset : VelocityStore F → VelocityStore F
  reset store = []

module _ {F : Type 0} ⦃fl : FloatOps F⦄ where
  -- the entries that `window` keeps
  unfoldable pub recent : F → Entries F → Entries F
  recent cutoff = filter (λ e. cutoff ≤? e.0)

  -- `window`: the recent entries of a key; the older ones are dropped from the store
  unfoldable pub window : String → F → F → VelocityStore F → Entries F × VelocityStore F
  unfolding recent
  window key now window_seconds store =
      let cutoff = now ⊖ window_seconds in
      let entries = recent cutoff (or_empty (lookup key store)) in
      (entries, insert key entries store)
