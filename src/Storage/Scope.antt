-- ===== src/Storage/Scope.antt =====
-- `SqliteScopeStore` of aegis/storage/scope_sqlite.py: the table of its schema. A connection's lock
-- makes each method one step.
pub mod Roundtrip
use finance.Base.{
  String, Bool, true, false, Option, none, some, List, [], ◌∷◌, ◌==◌, not, ◌&&◌, if◌then◌else◌,
}
use finance.Base.Int.{ℤ, pos, negsuc, leb_ℤ}
use finance.Base.Float.{FloatOps, ◌≤?◌}
use finance.Ap2.Scope.{OpenMandateScope}
use finance.Pipeline.Context.{Outcome, done, raised}

-- `json.dumps(sorted(s))` and `set(json.loads(s))`
pub record SetText : Type 0 where
  pub dump_sorted : List String → String
  pub load_set : String → Option (List String)

-- a row of `mandate_scopes`
pub record ScopeRow (F : Type 0) : Type 0 where
  pub mandate_id : String
  pub remaining_count : ℤ
  pub remaining_value_usd : F
  pub consumed_hashes : String
  pub outstanding : String

-- SQLite's INTEGER has 64 bits.
abbrev pub fits_integer : ℤ → Bool
fits_integer n = leb_ℤ (negsuc 9223372036854775807) n && leb_ℤ n (pos 9223372036854775807)

module _ {F : Type 0} where
  -- the row of a mandate_id, which is the primary key
  abbrev pub find_scope : String → List (ScopeRow F) → Option (ScopeRow F)
  find_scope id [] = none
  find_scope id (r ∷ rows) = if r.mandate_id == id then some r else find_scope id rows

  -- `INSERT ... ON CONFLICT(mandate_id) DO UPDATE`
  abbrev pub upsert : ScopeRow F → List (ScopeRow F) → List (ScopeRow F)
  upsert row [] = row ∷ []
  upsert row (r ∷ rows) =
      let rest = upsert row rows in if r.mandate_id == row.mandate_id then row ∷ rows else r ∷ rest

  module _ (json : SetText) where
    abbrev pub row_of : OpenMandateScope F → ScopeRow F
    row_of scope = record {
      mandate_id = scope.mandate_id;
      remaining_count = scope.remaining_count;
      remaining_value_usd = scope.remaining_value_usd;
      consumed_hashes = json.dump_sorted scope.consumed_hashes;
      outstanding = json.dump_sorted scope.outstanding;
    }

    abbrev pub scope_of :
        String
        → ScopeRow F
        → Option (List String)
        → Option (List String)
        → Outcome (Option (OpenMandateScope F))
    scope_of id r (some consumed) (some outstanding) = done (
        some (record {
          mandate_id = id;
          remaining_count = r.remaining_count;
          remaining_value_usd = r.remaining_value_usd;
          consumed_hashes = consumed;
          outstanding = outstanding;
        }))
    scope_of id r _ _ = raised "JSONDecodeError"

    abbrev pub loaded_scope : String → Option (ScopeRow F) → Outcome (Option (OpenMandateScope F))
    loaded_scope id none = done none
    loaded_scope id (some r) =
        scope_of id r (json.load_set r.consumed_hashes) (json.load_set r.outstanding)

    unfoldable pub get : String → List (ScopeRow F) → Outcome (Option (OpenMandateScope F))
    get id rows = loaded_scope id (find_scope id rows)

    -- SQLite stores a NaN as NULL, and the column is NOT NULL.
    unfoldable pub put :
        ⦃fl : FloatOps F⦄
        → OpenMandateScope F
        → List (ScopeRow F)
        → Outcome Unit × List (ScopeRow F)
    put scope rows =
        if not (fits_integer scope.remaining_count)
        then (raised "OverflowError", rows)
        else if not (scope.remaining_value_usd ≤? scope.remaining_value_usd)
        then (raised "IntegrityError", rows)
        else (done tt, upsert (row_of scope) rows)
