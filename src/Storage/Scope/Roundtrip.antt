-- ===== src/Storage/Scope/Roundtrip.antt =====
-- A scope that is stored and read back, and the scopes beside it.
use finance.Base.{
  String, true, false, some, List, [], ◌∷◌, ◌==◌, contains, ◌≡◌, ◌≢◌, refl, ap, ◌∙◌, arith, eq_iff,
  eq_refl,
}
use finance.Base.Float.{FloatOps, ◌≤?◌}
use finance.Ap2.Scope.{OpenMandateScope, reserve, is_none_left}
use finance.Pipeline.Context.{done}
use finance.Storage.Scope.{
  SetText, ScopeRow, fits_integer, find_scope, upsert, row_of, loaded_scope, get, put,
}

-- the same set
abbrev pub SameSet : List String → List String → Type 0
SameSet xs ys = (h : String) → contains h xs ≡ contains h ys

-- JSON reads the set that it has written.
abbrev pub ReadsSet : SetText → List String → Type 0
ReadsSet json xs =
    (ys : List String) × (json.load_set (json.dump_sorted xs) ≡ some ys) × SameSet ys xs

is_none_left-SameSet : (xs ys : List String) → SameSet xs ys → is_none_left xs ≡ is_none_left ys
is_none_left-SameSet [] [] same = refl
is_none_left-SameSet (x ∷ xs) (y ∷ ys) same = refl
is_none_left-SameSet [] (y ∷ ys) same = absurd (ground (arith, same y, eq_refl y))
is_none_left-SameSet (x ∷ xs) [] same = absurd (ground (arith, same x, eq_refl x))

module _ {F : Type 0} where
  find_scope-upsert :
      (row : ScopeRow F) (rows : List (ScopeRow F))
      → find_scope row.mandate_id (upsert row rows) ≡ some row
  find_scope-upsert row [] = ground (arith, eq_refl row.mandate_id)
  find_scope-upsert row (r ∷ rows) =
      ground (arith, eq_refl row.mandate_id, find_scope-upsert row rows)

  find_scope-upsert_other :
      (id : String) (row : ScopeRow F) (rows : List (ScopeRow F))
      → (row.mandate_id == id) ≡ false
      → find_scope id (upsert row rows) ≡ find_scope id rows
  find_scope-upsert_other id row [] h = ground (arith, h)
  find_scope-upsert_other id row (r ∷ rows) h = ground (
    arith,
    h,
    eq_iff r.mandate_id row.mandate_id,
    eq_iff r.mandate_id id,
    eq_iff row.mandate_id id,
    find_scope-upsert_other id row rows h,
  )

  -- The same authority: the sets may list their members in another order.
  pub record SameScope (s t : OpenMandateScope F) : Type 0 where
    pub same_id : s.mandate_id ≡ t.mandate_id
    pub same_count : s.remaining_count ≡ t.remaining_count
    pub same_value : s.remaining_value_usd ≡ t.remaining_value_usd
    pub same_consumed : SameSet s.consumed_hashes t.consumed_hashes
    pub same_outstanding : SameSet s.outstanding t.outstanding

module _ {F : Type 0} ⦃fl : FloatOps F⦄ where
  reserve-SameScope :
      (h : String) (amount : F) (s t : OpenMandateScope F)
      → SameScope s t
      → (reserve h amount s).0 ≡ (reserve h amount t).0
  unfolding reserve
  reserve-SameScope h amount s t same =
      rw
        (
          same.same_consumed h,
          same.same_outstanding h,
          is_none_left-SameSet s.outstanding t.outstanding same.same_outstanding,
          same.same_count,
          same.same_value,
          same.same_id,
        )
        (ground arith)

  -- Where JSON reads the two sets that it has written, the remaining count fits 64 bits and the
  -- remaining value is no NaN: a scope that is put into the store is read back with the same
  -- authority, and answers a reservation as the one that was put; any other scope is read as before.
  pub get-put :
      (json : SetText) (scope : OpenMandateScope F) (rows : List (ScopeRow F))
      (other closed_sd_hash : String) (amount : F)
      → ReadsSet json scope.consumed_hashes
      → ReadsSet json scope.outstanding
      → fits_integer scope.remaining_count ≡ true
      → (scope.remaining_value_usd ≤? scope.remaining_value_usd) ≡ true
      → other ≢ scope.mandate_id
      → ((put json scope rows).0 ≡ done tt)
        × (read : OpenMandateScope F) × (get json scope.mandate_id (put json scope rows).1
            ≡ done (some read))
        × SameScope read scope
        × ((reserve closed_sd_hash amount read).0 ≡ (reserve closed_sd_hash amount scope).0)
        × (get json other (put json scope rows).1 ≡ get json other rows)
  unfolding get put
  get-put json scope rows other h amount (consumed, reads_c, same_c) (outstanding, reads_o, same_o)
        fits num differs =
      let read : OpenMandateScope F = record scope {
        consumed_hashes = consumed;
        outstanding = outstanding;
      } in
      let alike : SameScope read scope = record {
        same_id = refl;
        same_count = refl;
        same_value = refl;
        same_consumed = same_c;
        same_outstanding = same_o;
      } in
      let apart : (scope.mandate_id == other) ≡ false =
        ground (arith, differs, eq_iff scope.mandate_id other) in
      rw (fits, num)
        (
          refl,
          read,
          (ap (loaded_scope json scope.mandate_id) (find_scope-upsert (row_of json scope) rows)
              ∙ rw (reads_c, reads_o) refl),
          alike,
          reserve-SameScope h amount read scope alike,
          ap (loaded_scope json other)
              (find_scope-upsert_other other (row_of json scope) rows apart),
        )
