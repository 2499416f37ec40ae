-- ===== src/Ledger/Backend.antt =====
-- `MemoryLedgerBackend` of aegis/storage/ledger_backend.py, and the archive that the ledger keeps
-- for the replay of a decision.
use finance.Base.{String, Option, none, some, List, [], ◌∷◌, ◌++◌}
use finance.Base.Dict.{Dict, lookup, insert}
use finance.Models.{
  MandateBundle, ControlEvidence, ListProvenance, ScreeningCandidate, DecisionEnvelope,
}
use finance.State.Velocity.{Entries}

pub record ScreeningSnapshot (F : Type 0) : Type 0 where
  pub provenance : Option (ListProvenance F)
  pub queries : Dict (List (ScreeningCandidate F))
  pub error : Option String

-- `EvaluationArchive` of aegis/ledger/store.py
pub record EvaluationArchive (F : Type 0) : Type 0 where
  pub bundle : MandateBundle F
  pub now : F
  pub controls : ControlEvidence
  pub velocity_snapshot : Dict (Entries F)
  pub screening_snapshot : ScreeningSnapshot F

pub record LedgerBackend (F : Type 0) : Type 0 where
  pub rows : List (DecisionEnvelope F)
  pub archives : Dict (EvaluationArchive F)
  pub meta : Dict String

abbrev pub stored_or : Option String → String → Dict String → String → String × Dict String
stored_or none key meta value = (value, insert key value meta)
stored_or (some old) key meta value = (old, meta)

module _ {F : Type 0} where
  abbrev pub new_backend : LedgerBackend F
  new_backend = record { rows = []; archives = []; meta = [] }

  abbrev pub archive_under :
      String
      → Option (EvaluationArchive F)
      → Dict (EvaluationArchive F)
      → Dict (EvaluationArchive F)
  archive_under decision_id none archives = archives
  archive_under decision_id (some a) archives = insert decision_id a archives

  unfoldable pub append :
      String → DecisionEnvelope F → Option (EvaluationArchive F) → LedgerBackend F → LedgerBackend F
  append decision_id envelope archive b = record b {
    rows = b.rows ++ envelope ∷ [];
    archives = archive_under decision_id archive b.archives;
  }

  unfoldable pub archive_for : String → LedgerBackend F → Option (EvaluationArchive F)
  archive_for decision_id b = lookup decision_id b.archives

  unfoldable pub get_meta : String → LedgerBackend F → Option String
  get_meta key b = lookup key b.meta

  -- `self._meta.setdefault(key, value)`
  unfoldable pub init_meta : String → String → LedgerBackend F → String × LedgerBackend F
  init_meta key value b =
      let (stored, meta') = stored_or (lookup key b.meta) key b.meta value in
      (stored, record b { meta = meta' })
