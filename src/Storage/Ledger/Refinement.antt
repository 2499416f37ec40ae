-- ===== src/Storage/Ledger/Refinement.antt =====
-- The tables of the SQLite backend hold what the memory backend holds, also after an append of a new
-- decision_id.
use finance.Base.{
  ℕ, ◌+◌, ◌≤◌, String, true, false, Option, none, some, List, [], ◌∷◌, ◌++◌, ◌==◌, ◌≡◌, refl, sym,
  ap, ◌∙◌, subst, arith, if◌then◌else◌, eq_iff, eq_refl, Bool-cases, inl, inr,
}
use finance.Base.Dict.{Dict, lookup, lookup-insert, lookup-insert_self}
use finance.Models.{DecisionEnvelope}
use finance.Ledger.Backend.{LedgerBackend, EvaluationArchive, new_backend}
use finance.Ledger.Backend
use finance.Pipeline.Context.{Outcome, done, raised}
use finance.Storage.Ledger.{
  RowText, LedgerRow, Tables, new_tables, has_decision, find_decision, place, order_by_seq,
  archive_text, loaded, and_entry, archive_in, archive_or,
}

-- JSON reads what it has written of this envelope, and of its archive.
abbrev pub Readable :
    {F : Type 0} → RowText F → DecisionEnvelope F → Option (EvaluationArchive F) → Type 0
Readable json env none = json.load_envelope (json.dump_envelope env) ≡ some env
Readable json env (some a) =
    (json.load_envelope (json.dump_envelope env) ≡ some env)
    × (json.load_archive (json.dump_archive a) ≡ some a)

reads_envelope :
    {F : Type 0} (json : RowText F) (env : DecisionEnvelope F)
    (archive : Option (EvaluationArchive F))
    → Readable json env archive
    → json.load_envelope (json.dump_envelope env) ≡ some env
reads_envelope json env none h = h
reads_envelope json env (some a) h = h.0

-- The rows lie between two numbers, in the order of `seq`.
abbrev pub Ascending : ℕ → List LedgerRow → ℕ → Type 0
Ascending lo [] hi = lo ≤ hi
Ascending lo (r ∷ rows) hi = (lo ≤ r.seq) × Ascending r.seq rows hi

place-first :
    (r : LedgerRow) (rows : List LedgerRow) (hi : ℕ)
    → Ascending r.seq rows hi
    → place r rows ≡ r ∷ rows
place-first r [] hi h = refl
place-first r (q ∷ rows) hi h = ground (arith, h.0)

pub order_by_seq-Ascending :
    (lo : ℕ) (rows : List LedgerRow) (hi : ℕ) → Ascending lo rows hi → order_by_seq rows ≡ rows
order_by_seq-Ascending lo [] hi h = refl
order_by_seq-Ascending lo (r ∷ rows) hi h =
    ap (place r) (order_by_seq-Ascending r.seq rows hi h.1) ∙ place-first r rows hi h.1

Ascending-append :
    (lo : ℕ) (rows : List LedgerRow) (hi : ℕ) (new : LedgerRow)
    → Ascending lo rows hi
    → hi ≤ new.seq
    → Ascending lo (rows ++ new ∷ []) new.seq
Ascending-append lo [] hi new h k = (omega (arith, h, k), omega arith)
Ascending-append lo (r ∷ rows) hi new h k = (h.0, Ascending-append r.seq rows hi new h.1 k)

find_decision-append_new :
    (id : String) (rows : List LedgerRow) (new : LedgerRow)
    → has_decision id rows ≡ false
    → (new.decision_id == id) ≡ true
    → find_decision id (rows ++ new ∷ []) ≡ some new
find_decision-append_new id [] new h k = ground arith
find_decision-append_new id (r ∷ rows) new h k =
    ground (arith, find_decision-append_new id rows new)

find_decision-append_other :
    (id : String) (rows : List LedgerRow) (new : LedgerRow)
    → (new.decision_id == id) ≡ false
    → find_decision id (rows ++ new ∷ []) ≡ find_decision id rows
find_decision-append_other id [] new k = ground arith
find_decision-append_other id (r ∷ rows) new k =
    ground (arith, find_decision-append_other id rows new)

find_decision-none :
    (id : String) (rows : List LedgerRow)
    → has_decision id rows ≡ false
    → find_decision id rows ≡ none
find_decision-none id [] h = refl
find_decision-none id (r ∷ rows) h = ground (arith, find_decision-none id rows)

done_inj : {A : Type 0} {a b : A} → done a ≡ done b → a ≡ b
done_inj h = cc h

module _ {F : Type 0} (json : RowText F) where
  abbrev extended :
      DecisionEnvelope F → Outcome (List (DecisionEnvelope F)) → Outcome (List (DecisionEnvelope F))
  extended e (raised x) = raised x
  extended e (done es) = done (es ++ e ∷ [])

  extended-and_entry :
      (e : DecisionEnvelope F) (o : Option (DecisionEnvelope F))
      (rest : Outcome (List (DecisionEnvelope F)))
      → and_entry json o (extended e rest) ≡ extended e (and_entry json o rest)
  extended-and_entry e none rest = refl
  extended-and_entry e (some d) (raised x) = refl
  extended-and_entry e (some d) (done es) = refl

  loaded-append :
      (rows : List LedgerRow) (r : LedgerRow) (e : DecisionEnvelope F)
      → json.load_envelope r.envelope ≡ some e
      → loaded json (rows ++ r ∷ []) ≡ extended e (loaded json rows)
  loaded-append [] r e k = ap (λ o. and_entry json o (done [])) k
  loaded-append (q ∷ rows) r e k =
      ap (and_entry json (json.load_envelope q.envelope)) (loaded-append rows r e k)
      ∙ extended-and_entry e (json.load_envelope q.envelope) (loaded json rows)

  -- The tables hold what the memory backend holds.
  pub record Represents (t : Tables) (m : LedgerBackend F) : Type 0 where
    pub ordered : Ascending 0 t.decision_ledger t.last_seq
    pub rows_same : loaded json t.decision_ledger ≡ done m.rows
    pub archives_same :
        (id : String)
        → archive_in json (find_decision id t.decision_ledger) ≡ done (lookup id m.archives)
    pub meta_same : t.ledger_meta ≡ m.meta

  pub new_tables-Represents : Represents new_tables new_backend
  new_tables-Represents = record {
    ordered = omega arith;
    rows_same = refl;
    archives_same = λ id. refl;
    meta_same = refl;
  }

  -- the row that `append` adds
  abbrev pub new_row :
      String → DecisionEnvelope F → Option (EvaluationArchive F) → Tables → LedgerRow
  new_row id env archive t = record {
    seq = t.last_seq + 1;
    decision_id = id;
    envelope = json.dump_envelope env;
    archive = archive_text json archive;
    this_hash = env.this_hash;
    prev_hash = env.prev_envelope_hash;
  }

  abbrev pub with_row : LedgerRow → Tables → Tables
  with_row r t = record t {
    decision_ledger = t.decision_ledger ++ r ∷ [];
    last_seq = t.last_seq + 1;
  }

  -- what the new row says of its archive is what the memory backend then holds
  archive_in-new_row :
      (id : String) (env : DecisionEnvelope F) (archive : Option (EvaluationArchive F)) (t : Tables)
      (old : Dict (EvaluationArchive F))
      → Readable json env archive
      → lookup id old ≡ none
      → archive_in json (some (new_row id env archive t))
        ≡ done (lookup id (Backend.archive_under id archive old))
  archive_in-new_row id env none t old readable h = ap done (sym h)
  archive_in-new_row id env (some a) t old readable h =
      ap (archive_or json) readable.1 ∙ ap done (sym (lookup-insert_self id a old))

  other_archive :
      (id other : String) (archive : Option (EvaluationArchive F))
      (old : Dict (EvaluationArchive F))
      → (id == other) ≡ false
      → lookup other (Backend.archive_under id archive old) ≡ lookup other old
  other_archive id other none old h = refl
  other_archive id other (some a) old h =
      lookup-insert id other a old ∙ ap (λ b. if b then some a else lookup other old) h

  appended_archive :
      (id : String) (env : DecisionEnvelope F) (archive : Option (EvaluationArchive F)) (t : Tables)
      (m : LedgerBackend F)
      → Readable json env archive
      → has_decision id t.decision_ledger ≡ false
      → Represents t m
      → (other : String)
      → archive_in json (find_decision other (t.decision_ledger ++ new_row id env archive t ∷ []))
        ≡ done (lookup other (Backend.archive_under id archive m.archives))
  appended_archive id env archive t m readable fresh r other = elim (Bool-cases (id == other)) [
    | inl same ↦
        let none_yet : lookup id m.archives ≡ none = done_inj (
          sym (r.archives_same id)
          ∙ ap (archive_in json) (find_decision-none id t.decision_ledger fresh)) in
        subst
          (λ k.
            archive_in json (find_decision k (t.decision_ledger ++ new_row id env archive t ∷ []))
            ≡ done (lookup k (Backend.archive_under id archive m.archives)))
          ((eq_iff id other).0 same)
          (ap (archive_in json) (
              find_decision-append_new id t.decision_ledger (new_row id env archive t) fresh
                (eq_refl id))
            ∙ archive_in-new_row id env archive t m.archives readable none_yet)
    | inr differs ↦
        ap (archive_in json)
          (find_decision-append_other other t.decision_ledger (new_row id env archive t) differs)
        ∙ r.archives_same other
        ∙ ap done (sym (other_archive id other archive m.archives differs))
  ]

  pub append-Represents :
      (id : String) (env : DecisionEnvelope F) (archive : Option (EvaluationArchive F)) (t : Tables)
      (m : LedgerBackend F)
      → Readable json env archive
      → has_decision id t.decision_ledger ≡ false
      → Represents t m
      → Represents (with_row (new_row id env archive t) t) (Backend.append id env archive m)
  unfolding Backend.append
  append-Represents id env archive t m readable fresh r = record {
    ordered =
        Ascending-append 0 t.decision_ledger t.last_seq (new_row id env archive t) r.ordered
          (omega arith);
    rows_same =
        loaded-append t.decision_ledger (new_row id env archive t) env
          (reads_envelope json env archive readable)
        ∙ ap (extended env) r.rows_same;
    archives_same = appended_archive id env archive t m readable fresh r;
    meta_same = r.meta_same;
  }
