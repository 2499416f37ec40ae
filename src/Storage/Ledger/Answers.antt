-- ===== src/Storage/Ledger/Answers.antt =====
-- The SQLite backend answers as the memory backend does, as long as no decision_id comes twice.
use finance.Base.{
  String, Bool, true, false, Option, none, some, List, [], ◌∷◌, all, All, map, ◌≡◌, refl, ap, ◌∙◌,
  arith, Bool-cases, inl, inr,
}
use finance.Base.Dict.{lookup, lookup-insert_self}
use finance.Models.{DecisionEnvelope}
use finance.Ledger.Backend.{LedgerBackend, EvaluationArchive, new_backend, stored_or}
use finance.Ledger.Backend
use finance.Pipeline.Context.{Outcome, done, raised}
use finance.Storage.Ledger.{
  RowText, Tables, new_tables, has_decision, order_by_seq, append, loaded, entries, archive_for,
  get_meta, init_meta, insert_or_ignore,
}
use finance.Storage.Ledger.Refinement.{
  Readable, Represents, order_by_seq-Ascending, new_tables-Represents, append-Represents,
}

-- What a client asks of a backend.
pub data Call (F : Type 0) : Type 0 where
  append_entry : String → DecisionEnvelope F → Option (EvaluationArchive F) → Call F
  read_entries : Call F
  read_archive : String → Call F
  read_meta : String → Call F
  first_meta : String → String → Call F

pub data Answer (F : Type 0) : Type 0 where
  appended : Answer F
  entries_are : List (DecisionEnvelope F) → Answer F
  archive_is : Option (EvaluationArchive F) → Answer F
  meta_is : Option String → Answer F

module _ {F : Type 0} where
  abbrev pub memory_step : Call F → LedgerBackend F → Answer F × LedgerBackend F
  memory_step (append_entry id env archive) m = (appended, Backend.append id env archive m)
  memory_step read_entries m = (entries_are m.rows, m)
  memory_step (read_archive id) m = (archive_is (Backend.archive_for id m), m)
  memory_step (read_meta key) m = (meta_is (Backend.get_meta key m), m)
  memory_step (first_meta key value) m =
      let (stored, m') = Backend.init_meta key value m in (meta_is (some stored), m')

  abbrev pub memory_answers : List (Call F) → LedgerBackend F → List (Answer F)
  memory_answers [] m = []
  memory_answers (c ∷ cs) m = (memory_step c m).0 ∷ memory_answers cs (memory_step c m).1

  module _ (json : RowText F) where
    abbrev pub as_answer : {A : Type 0} → (A → Answer F) → Outcome A → Outcome (Answer F)
    as_answer f (raised e) = raised e
    as_answer f (done a) = done (f a)

    abbrev pub after_append : Outcome Tables → Tables → Outcome (Answer F) × Tables
    after_append (raised e) t = (raised e, t)
    after_append (done t') t = (done appended, t')

    abbrev pub sqlite_step : Call F → Tables → Outcome (Answer F) × Tables
    sqlite_step (append_entry id env archive) t = after_append (append json id env archive t) t
    sqlite_step read_entries t = (as_answer entries_are (entries json t), t)
    sqlite_step (read_archive id) t = (as_answer archive_is (archive_for json id t), t)
    sqlite_step (read_meta key) t = (done (meta_is (get_meta key t)), t)
    sqlite_step (first_meta key value) t =
        let (stored, t') = init_meta key value t in (done (meta_is stored), t')

    abbrev pub sqlite_answers : List (Call F) → Tables → List (Outcome (Answer F))
    sqlite_answers [] t = []
    sqlite_answers (c ∷ cs) t = (sqlite_step c t).0 ∷ sqlite_answers cs (sqlite_step c t).1

abbrev pub is_done : {A : Type 0} → Outcome A → Bool
is_done (raised e) = false
is_done (done a) = true

module _ {F : Type 0} (json : RowText F) where
  -- JSON reads what it has written for this call.
  abbrev pub CanRead : Call F → Type 0
  CanRead (append_entry id env archive) = Readable json env archive
  CanRead _ = Unit

  abbrev Agrees : Outcome (Answer F) × Tables → Answer F × LedgerBackend F → Type 0
  Agrees (o, t) (a, m) = (o ≡ done a) × Represents json t m

  append-Agrees :
      (id : String) (env : DecisionEnvelope F) (archive : Option (EvaluationArchive F)) (t : Tables)
      (m : LedgerBackend F)
      → Readable json env archive
      → Represents json t m
      → is_done (after_append json (append json id env archive t) t).0 ≡ true
      → Agrees
          (after_append json (append json id env archive t) t)
          (appended, Backend.append id env archive m)
  unfolding append
  append-Agrees id env archive t m readable r went =
      elim (Bool-cases (has_decision id t.decision_ledger)) [
        | inl known ↦ absurd (ground (arith, rw known at went))
        | inr fresh ↦ rw fresh (refl, append-Represents json id env archive t m readable fresh r)
      ]

  meta-Agrees :
      (key value : String) (t : Tables) (m : LedgerBackend F) (o : Option String)
      → Represents json t m
      → lookup key m.meta ≡ o
      → ((lookup key (insert_or_ignore o key value m.meta)) ≡ some (stored_or o key m.meta value).0)
        × (insert_or_ignore o key value m.meta ≡ (stored_or o key m.meta value).1)
  meta-Agrees key value t m none r found = (lookup-insert_self key value m.meta, refl)
  meta-Agrees key value t m (some old) r found = (found, refl)

  step-Agrees :
      (c : Call F) (t : Tables) (m : LedgerBackend F)
      → CanRead c
      → Represents json t m
      → is_done (sqlite_step json c t).0 ≡ true
      → Agrees (sqlite_step json c t) (memory_step c m)
  unfolding entries archive_for get_meta init_meta Backend.archive_for Backend.get_meta
      Backend.init_meta
  step-Agrees (append_entry id env archive) t m can r went =
      append-Agrees id env archive t m can r went
  step-Agrees read_entries t m can r went =
      let held : loaded json (order_by_seq t.decision_ledger) ≡ done m.rows =
        ap (loaded json) (order_by_seq-Ascending 0 t.decision_ledger t.last_seq r.ordered)
        ∙ r.rows_same in
      (ap (as_answer json entries_are) held, r)
  step-Agrees (read_archive id) t m can r went =
      (ap (as_answer json archive_is) (r.archives_same id), r)
  step-Agrees (read_meta key) t m can r went =
      (ap (λ d. done (meta_is (lookup key d))) r.meta_same, r)
  step-Agrees (first_meta key value) t m can r went =
      let (answer, tables) = meta-Agrees key value t m (lookup key m.meta) r refl in
      let same : insert_or_ignore (lookup key t.ledger_meta) key value t.ledger_meta
          ≡ insert_or_ignore (lookup key m.meta) key value m.meta =
        ap (λ d. insert_or_ignore (lookup key d) key value d) r.meta_same in
      (
        ap (λ d. done (meta_is (lookup key d))) same ∙ ap (λ o. done (meta_is o)) answer,
        record {
          ordered = r.ordered;
          rows_same = r.rows_same;
          archives_same = r.archives_same;
          meta_same = same ∙ tables;
        },
      )

  answers-agree :
      (calls : List (Call F)) (t : Tables) (m : LedgerBackend F)
      → All CanRead calls
      → Represents json t m
      → all is_done (sqlite_answers json calls t) ≡ true
      → sqlite_answers json calls t ≡ map done (memory_answers calls m)
  answers-agree [] t m can r went = refl
  answers-agree (c ∷ cs) t m can r went =
      let (same, r') = step-Agrees c t m can.0 r (ground (arith, went)) in
      ap (λ a. a ∷ sqlite_answers json cs (sqlite_step json c t).1) same
      ∙ ap (λ rest. done (memory_step c m).0 ∷ rest)
          (answers-agree cs (sqlite_step json c t).1 (memory_step c m).1 can.1 r'
            (ground (arith, went)))

  -- From empty stores, whatever is appended and read: if no call raises, the SQLite backend answers
  -- each call as the memory backend does; assumes that JSON reads what it has written of the
  -- envelopes and archives appended.
  pub sqlite_answers-memory_answers :
      (calls : List (Call F))
      → All CanRead calls
      → all is_done (sqlite_answers json calls new_tables) ≡ true
      → sqlite_answers json calls new_tables ≡ map done (memory_answers calls new_backend)
  sqlite_answers-memory_answers calls can went =
      answers-agree calls new_tables new_backend can (new_tables-Represents json) went
