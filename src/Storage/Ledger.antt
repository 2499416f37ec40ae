-- ===== src/Storage/Ledger.antt =====
-- `SqliteLedgerBackend` of aegis/storage/ledger_backend.py: the two tables of its schema. There is no
-- operation that updates or deletes a row, which the triggers of the schema forbid. A connection's
-- lock makes each method one step.
pub mod Refinement
pub mod Answers
use finance.Base.{
  ℕ, zero, suc, ◌+◌, ◌≤◌, String, Bool, true, false, Option, none, some, List, [], ◌∷◌, ◌++◌, ◌==◌,
  leb, any, if◌then◌else◌,
}
use finance.Base.Dict.{Dict, lookup, insert}
use finance.Models.{DecisionEnvelope}
use finance.Ledger.Backend.{LedgerBackend, EvaluationArchive}
use finance.Ledger.Backend
use finance.Pipeline.Context.{Outcome, done, raised}

-- `json.dumps(..., default=str)` and `json.loads`
pub record RowText (F : Type 0) : Type 0 where
  pub dump_envelope : DecisionEnvelope F → String
  pub load_envelope : String → Option (DecisionEnvelope F)
  pub dump_archive : EvaluationArchive F → String
  pub load_archive : String → Option (EvaluationArchive F)

-- a row of `decision_ledger`
pub record LedgerRow : Type 0 where
  pub seq : ℕ
  pub decision_id : String
  pub envelope : String
  pub archive : Option String
  pub this_hash : String
  pub prev_hash : String

-- The tables, and the last `seq` that AUTOINCREMENT gave.
pub record Tables : Type 0 where
  pub decision_ledger : List LedgerRow
  pub last_seq : ℕ
  pub ledger_meta : Dict String

abbrev pub new_tables : Tables
new_tables = record { decision_ledger = []; last_seq = 0; ledger_meta = [] }

-- a row with this decision_id, which is UNIQUE
abbrev pub has_decision : String → List LedgerRow → Bool
has_decision id = any (λ r. r.decision_id == id)

abbrev pub find_decision : String → List LedgerRow → Option LedgerRow
find_decision id [] = none
find_decision id (r ∷ rows) = if r.decision_id == id then some r else find_decision id rows

-- `ORDER BY seq`
abbrev pub place : LedgerRow → List LedgerRow → List LedgerRow
place r [] = r ∷ []
place r (q ∷ rows) = let rest = place r rows in if leb r.seq q.seq then r ∷ q ∷ rows else q ∷ rest

abbrev pub order_by_seq : List LedgerRow → List LedgerRow
order_by_seq [] = []
order_by_seq (r ∷ rows) = place r (order_by_seq rows)

-- `INSERT OR IGNORE` under a primary key
abbrev pub insert_or_ignore : Option String → String → String → Dict String → Dict String
insert_or_ignore none key value meta = insert key value meta
insert_or_ignore (some old) key value meta = meta

module _ {F : Type 0} (json : RowText F) where
  abbrev pub archive_text : Option (EvaluationArchive F) → Option String
  archive_text none = none
  archive_text (some a) = some (json.dump_archive a)

  unfoldable pub append :
      String → DecisionEnvelope F → Option (EvaluationArchive F) → Tables → Outcome Tables
  append id env archive t =
      if has_decision id t.decision_ledger
      then raised "IntegrityError"
      else done (record t {
        decision_ledger =
            t.decision_ledger
            ++ record {
              seq = t.last_seq + 1;
              decision_id = id;
              envelope = json.dump_envelope env;
              archive = archive_text archive;
              this_hash = env.this_hash;
              prev_hash = env.prev_envelope_hash;
            }
              ∷ [];
        last_seq = t.last_seq + 1;
      })

  abbrev pub and_entry :
      Option (DecisionEnvelope F)
      → Outcome (List (DecisionEnvelope F))
      → Outcome (List (DecisionEnvelope F))
  and_entry none rest = raised "JSONDecodeError"
  and_entry (some e) (raised x) = raised x
  and_entry (some e) (done es) = done (e ∷ es)

  abbrev pub loaded : List LedgerRow → Outcome (List (DecisionEnvelope F))
  loaded [] = done []
  loaded (r ∷ rows) = and_entry (json.load_envelope r.envelope) (loaded rows)

  unfoldable pub entries : Tables → Outcome (List (DecisionEnvelope F))
  entries t = loaded (order_by_seq t.decision_ledger)

  abbrev pub archive_or : Option (EvaluationArchive F) → Outcome (Option (EvaluationArchive F))
  archive_or none = raised "JSONDecodeError"
  archive_or (some a) = done (some a)

  abbrev pub archive_in : Option LedgerRow → Outcome (Option (EvaluationArchive F))
  archive_in none = done none
  archive_in (some r) = elim r.archive [
    | none ↦ done none
    | some s ↦ archive_or (json.load_archive s)
  ]

  unfoldable pub archive_for : String → Tables → Outcome (Option (EvaluationArchive F))
  archive_for id t = archive_in (find_decision id t.decision_ledger)

unfoldable pub get_meta : String → Tables → Option String
get_meta key t = lookup key t.ledger_meta

-- `INSERT OR IGNORE`, then the value that is stored
unfoldable pub init_meta : String → String → Tables → Option String × Tables
init_meta key value t =
    let meta = insert_or_ignore (lookup key t.ledger_meta) key value t.ledger_meta in
    (lookup key meta, record t { ledger_meta = meta })
