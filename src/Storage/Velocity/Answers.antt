-- ===== src/Storage/Velocity/Answers.antt =====
-- The SQLite velocity store answers as the memory store does, while the clock does not run back.
use finance.Base.{
  ℕ, ◌+◌, ◌≤◌, String, true, List, [], ◌∷◌, ◌++◌, ◌==◌, map, All, ◌≡◌, refl, sym, ap, ◌∙◌, subst,
  arith, eq_iff, Bool-cases, inl, inr,
}
use finance.Base.Dict.{lookup, insert, lookup-insert, lookup-insert_self}
use finance.Base.Float.{FloatOps, FloatLaws, ◌≤?◌, ◌⊖◌}
use finance.Pipeline.Context.{Outcome, done, raised}
use finance.State.Velocity
use finance.State.Velocity.{Entries, VelocityStore, or_empty, recent}
use finance.Storage.Velocity.{
  VelocityRow, VelocityTable, new_table, entry_of, kept, selected, record_entry, window, reset,
}
use finance.Storage.Velocity.Windows.{
  entries_of, entries_of-append, Until, Sorted, All-filter, Sorted-filter, Sorted-append,
  order_by_ts-Sorted, selected-kept, entries_of-kept, entries_of-kept_other,
}

-- What Feature 3 asks of a velocity store.
pub data VelocityCall (F : Type 0) : Type 0 where
  record_transfer : String → F → F → VelocityCall F
  read_window : String → F → F → VelocityCall F
  forget_all : VelocityCall F

pub data VelocityAnswer (F : Type 0) : Type 0 where
  nothing : VelocityAnswer F
  window_is : Entries F → VelocityAnswer F

module _ {F : Type 0} ⦃fl : FloatOps F⦄ where
  abbrev pub dict_step : VelocityCall F → VelocityStore F → VelocityAnswer F × VelocityStore F
  dict_step (record_transfer key ts amount) m = (nothing, Velocity.record_entry key ts amount m)
  dict_step (read_window key now seconds) m =
      let (entries, m') = Velocity.window key now seconds m in (window_is entries, m')
  dict_step forget_all m = (nothing, Velocity.reset m)

  abbrev pub dict_answers : List (VelocityCall F) → VelocityStore F → List (VelocityAnswer F)
  dict_answers [] m = []
  dict_answers (c ∷ cs) m = (dict_step c m).0 ∷ dict_answers cs (dict_step c m).1

  abbrev pub said : Outcome Unit → Outcome (VelocityAnswer F)
  said (raised e) = raised e
  said (done _) = done nothing

  abbrev pub table_step :
      VelocityCall F → VelocityTable F → Outcome (VelocityAnswer F) × VelocityTable F
  table_step (record_transfer key ts amount) t =
      let (o, t') = record_entry key ts amount t in (said o, t')
  table_step (read_window key now seconds) t =
      let (entries, t') = window key now seconds t in (done (window_is entries), t')
  table_step forget_all t = (done nothing, reset t)

  abbrev pub table_answers :
      List (VelocityCall F) → VelocityTable F → List (Outcome (VelocityAnswer F))
  table_answers [] t = []
  table_answers (c ∷ cs) t = (table_step c t).0 ∷ table_answers cs (table_step c t).1

  -- The times of the calls do not run back, and what is stored or compared is no NaN.
  abbrev pub InOrder : F → List (VelocityCall F) → Type 0
  InOrder clock [] = Unit
  InOrder clock (record_transfer key ts amount ∷ cs) =
      ((clock ≤? ts) ≡ true) × ((amount ≤? amount) ≡ true) × InOrder ts cs
  InOrder clock (read_window key now seconds ∷ cs) =
      ((clock ≤? now) ≡ true) × (((now ⊖ seconds) ≤? (now ⊖ seconds)) ≡ true) × InOrder now cs
  InOrder clock (forget_all ∷ cs) = InOrder clock cs

  abbrev new_row : String → F → F → VelocityTable F → VelocityRow F
  new_row key ts amount t = record { id = t.last_id + 1; key = key; ts = ts; amount = amount }

  abbrev with_row : String → F → F → VelocityTable F → VelocityTable F
  with_row key ts amount t = record {
    velocity_events = t.velocity_events ++ new_row key ts amount t ∷ [];
    last_id = t.last_id + 1;
  }

  append_none : (es : Entries F) → es ++ [] ≡ es
  append_none [] = refl
  append_none (e ∷ es) = ap (λ rest. e ∷ rest) (append_none es)

  -- The table holds what the dict holds, at this time.
  record Holds (clock : F) (t : VelocityTable F) (m : VelocityStore F) : Type 0 where
    sorted : Sorted t.velocity_events
    until : All (Until clock t.last_id) t.velocity_events
    entries_same : (key : String) → entries_of key t.velocity_events ≡ or_empty (lookup key m)

  module _ (laws : FloatLaws fl) where
    All-Until :
        (clock time : F) (last next : ℕ) (rows : List (VelocityRow F))
        → (clock ≤? time) ≡ true
        → last ≤ next
        → All (Until clock last) rows
        → All (Until time next) rows
    All-Until clock time last next [] later more h = tt
    All-Until clock time last next (r ∷ rows) later more h = (
      (h.0.0, laws.trans r.ts clock time h.0.1 later, omega (arith, h.0.2, more)),
      All-Until clock time last next rows later more h.1,
    )

    All-append :
        (P : VelocityRow F → Type 0) (rows : List (VelocityRow F)) (new : VelocityRow F)
        → All P rows
        → P new
        → All P (rows ++ new ∷ [])
    All-append P [] new h k = (k, tt)
    All-append P (r ∷ rows) new h k = (h.0, All-append P rows new h.1 k)

    Holds-record_entry :
        (key : String) (ts amount clock : F) (t : VelocityTable F) (m : VelocityStore F)
        → (clock ≤? ts) ≡ true
        → Holds clock t m
        → Holds ts (with_row key ts amount t) (Velocity.record_entry key ts amount m)
    unfolding Velocity.record_entry
    Holds-record_entry key ts amount clock t m later h =
        let new = new_row key ts amount t in
        let old =
          All-Until clock ts t.last_id (t.last_id + 1) t.velocity_events later (omega arith)
            h.until in
        record {
          sorted = Sorted-append t.velocity_events new h.sorted old;
          until =
              All-append (Until ts (t.last_id + 1)) t.velocity_events new old
                (laws.num clock ts later, laws.num clock ts later, omega arith);
          entries_same = λ other.
              entries_of-append other t.velocity_events new ∙ elim (Bool-cases (key == other)) [
                | inl same ↦
                    rw (same, h.entries_same other, lookup-insert key other _ m, same)
                      (ap (λ k. or_empty (lookup k m) ++ (ts, amount) ∷ [])
                        (sym ((eq_iff key other).0 same)))
                | inr differ ↦
                    rw (differ, h.entries_same other, lookup-insert key other _ m, differ)
                      (append_none (or_empty (lookup other m)))
              ];
        }

    Holds-window :
        (key : String) (now seconds clock : F) (t : VelocityTable F) (m : VelocityStore F)
        → (clock ≤? now) ≡ true
        → ((now ⊖ seconds) ≤? (now ⊖ seconds)) ≡ true
        → Holds clock t m
        → ((window key now seconds t).0 ≡ (Velocity.window key now seconds m).0)
          × Holds now (window key now seconds t).1 (Velocity.window key now seconds m).1
    unfolding window Velocity.window
    Holds-window key now seconds clock t m later known h =
        let cutoff = now ⊖ seconds in
        let rows = t.velocity_events in
        let left = kept key cutoff rows in
        let seen = recent cutoff (or_empty (lookup key m)) in
        let until = All-Until clock now t.last_id t.last_id rows later (omega arith) h.until in
        let same = ap (recent cutoff) (h.entries_same key) in
        (
          ap (map entry_of) (
                order_by_ts-Sorted laws (selected key cutoff now left)
                  (Sorted-filter _ left (Sorted-filter _ rows h.sorted)))
              ∙ selected-kept laws key cutoff now t.last_id known rows until
              ∙ same,
          record {
            sorted = Sorted-filter _ rows h.sorted;
            until = All-filter (Until now t.last_id) _ rows until;
            entries_same = λ other. elim (Bool-cases (key == other)) [
              | inl mine ↦
                  subst (λ k. entries_of k left ≡ or_empty (lookup k (insert key seen m)))
                    ((eq_iff key other).0 mine)
                    (entries_of-kept laws key cutoff now t.last_id known rows until
                      ∙ same
                      ∙ sym (ap or_empty (lookup-insert_self key seen m)))
              | inr differ ↦
                  rw (lookup-insert key other _ m, differ)
                    (entries_of-kept_other laws key other cutoff rows differ ∙ h.entries_same other)
            ];
          },
        )

    answers-agree_since :
        (clock : F) (calls : List (VelocityCall F)) (t : VelocityTable F) (m : VelocityStore F)
        → InOrder clock calls
        → Holds clock t m
        → table_answers calls t ≡ map done (dict_answers calls m)
    unfolding record_entry reset Velocity.reset
    answers-agree_since clock [] t m timed h = refl
    answers-agree_since clock (record_transfer key ts amount ∷ cs) t m timed h =
        rw (laws.num clock ts timed.0, timed.1)
          (ap (λ rest. done nothing ∷ rest)
            (answers-agree_since ts cs (with_row key ts amount t)
              (Velocity.record_entry key ts amount m) timed.2
              (Holds-record_entry key ts amount clock t m timed.0 h)))
    answers-agree_since clock (read_window key now seconds ∷ cs) t m timed h =
        let (same, h') = Holds-window key now seconds clock t m timed.0 timed.1 h in
        ap (λ w. done (window_is w) ∷ table_answers cs (window key now seconds t).1) same
        ∙ ap (λ rest. done (window_is (Velocity.window key now seconds m).0) ∷ rest)
            (answers-agree_since now cs (window key now seconds t).1
              (Velocity.window key now seconds m).1 timed.2 h')
    answers-agree_since clock (forget_all ∷ cs) t m timed h =
        ap (λ rest. done nothing ∷ rest)
          (answers-agree_since clock cs (reset t) [] timed
            (record { sorted = tt; until = tt; entries_same = λ key. refl }))

    -- From empty stores, on calls whose times do not run back and that have no NaN: the SQLite
    -- store raises nothing and answers each call as the memory store does; assumes the order laws
    -- of floats.
    pub table_answers-dict_answers :
        (clock : F) (calls : List (VelocityCall F))
        → InOrder clock calls
        → table_answers calls new_table ≡ map done (dict_answers calls [])
    table_answers-dict_answers clock calls timed =
        answers-agree_since clock calls new_table [] timed
          (record { sorted = tt; until = tt; entries_same = λ key. refl })
