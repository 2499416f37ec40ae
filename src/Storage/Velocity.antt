-- ===== src/Storage/Velocity.antt =====
-- `SqliteVelocityStore` of aegis/storage/velocity_sqlite.py: the table of its schema. A connection's
-- lock makes each method one step.
pub mod Windows
pub mod Answers
use finance.Base.{
  ℕ, ◌+◌, String, Bool, true, false, List, [], ◌∷◌, ◌++◌, ◌==◌, ◌&&◌, ◌||◌, not, leb, map, filter,
  if◌then◌else◌,
}
use finance.Base.Dict.{Dict}
use finance.Base.Float.{FloatOps, ◌⊖◌, ◌≤?◌, ◌<?◌}
use finance.Pipeline.Context.{Outcome, done, raised}
use finance.State.Velocity.{Entries}

-- a row of `velocity_events`
pub record VelocityRow (F : Type 0) : Type 0 where
  pub id : ℕ
  pub key : String
  pub ts : F
  pub amount : F

-- The table, and the last `id` that AUTOINCREMENT gave.
pub record VelocityTable (F : Type 0) : Type 0 where
  pub velocity_events : List (VelocityRow F)
  pub last_id : ℕ

module _ {F : Type 0} where
  abbrev pub new_table : VelocityTable F
  new_table = record { velocity_events = []; last_id = 0 }

  abbrev pub entry_of : VelocityRow F → F × F
  entry_of r = (r.ts, r.amount)

  unfoldable pub reset : VelocityTable F → VelocityTable F
  reset t = record t { velocity_events = [] }

module _ {F : Type 0} ⦃fl : FloatOps F⦄ where
  -- SQLite stores a NaN as NULL.
  abbrev pub is_null : F → Bool
  is_null x = not (x ≤? x)

  -- the insert; both columns are NOT NULL
  unfoldable pub record_entry : String → F → F → VelocityTable F → Outcome Unit × VelocityTable F
  record_entry key ts amount_usd t =
      if is_null ts || is_null amount_usd then (raised "IntegrityError", t) else (
        done tt,
        record {
          velocity_events =
              t.velocity_events
              ++ record { id = t.last_id + 1; key = key; ts = ts; amount = amount_usd } ∷ [];
          last_id = t.last_id + 1;
        },
      )

  -- `ORDER BY ts, id`
  abbrev pub comes_first : VelocityRow F → VelocityRow F → Bool
  comes_first r q = (r.ts <? q.ts) || (not (q.ts <? r.ts) && leb r.id q.id)

  abbrev pub place : VelocityRow F → List (VelocityRow F) → List (VelocityRow F)
  place r [] = r ∷ []
  place r (q ∷ rows) = let rest = place r rows in if comes_first r q then r ∷ q ∷ rows else q ∷ rest

  abbrev pub order_by_ts : List (VelocityRow F) → List (VelocityRow F)
  order_by_ts [] = []
  order_by_ts (r ∷ rows) = place r (order_by_ts rows)

  -- the DELETE of the expired rows of a key
  abbrev pub kept : String → F → List (VelocityRow F) → List (VelocityRow F)
  kept key cutoff = filter (λ r. not (r.key == key && (r.ts <? cutoff)))

  -- the rows of the SELECT, before they are ordered
  abbrev pub selected : String → F → F → List (VelocityRow F) → List (VelocityRow F)
  selected key cutoff now = filter (λ r. r.key == key && ((cutoff ≤? r.ts) && (r.ts ≤? now)))

  unfoldable pub window : String → F → F → VelocityTable F → Entries F × VelocityTable F
  window key now window_seconds t =
      let cutoff = now ⊖ window_seconds in
      let rows = kept key cutoff t.velocity_events in
      (
        map entry_of (order_by_ts (selected key cutoff now rows)),
        record t { velocity_events = rows },
      )

  -- the rows that are inserted before an insert fails stay in the transaction
  abbrev pub seed_key : String → Entries F → VelocityTable F → Outcome Unit × VelocityTable F
  seed_key key [] t = (done tt, t)
  seed_key key ((ts, amt) ∷ entries) t =
      let (o, t') = record_entry key ts amt t in
      elim o [ raised e ↦ (raised e, t') | done _ ↦ seed_key key entries t' ]

  abbrev then_seed :
      (VelocityTable F → Outcome Unit × VelocityTable F)
      → Outcome Unit × VelocityTable F
      → Outcome Unit × VelocityTable F
  then_seed rest (raised e, t) = (raised e, t)
  then_seed rest (done _, t) = rest t

  unfoldable pub seed : Dict (Entries F) → VelocityTable F → Outcome Unit × VelocityTable F
  seed [] t = (done tt, t)
  seed ((key, entries) ∷ mapping) t = then_seed (seed mapping) (seed_key key entries t)
