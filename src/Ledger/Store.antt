-- ===== src/Ledger/Store.antt =====
-- `DecisionLedger` of aegis/ledger/store.py.
pub mod Chain
pub mod Tamper
use finance.Base.{
  ℕ, ◌+◌, String, Bool, Option, none, some, List, [], ◌∷◌, ◌++◌, not, ◌==◌, if◌then◌else◌,
}
use finance.Base.Dict.{Dict, lookup, insert}
use finance.Base.Platform.{Crypto}
use finance.Models.{DecisionEnvelope, Encoding, signing_payload}
use finance.Ledger.Backend.{LedgerBackend, EvaluationArchive, init_meta}
use finance.Ledger.Backend

abbrev pub genesis_hash : String
genesis_hash = "0000000000000000000000000000000000000000000000000000000000000000"

pub record DecisionLedger (F : Type 0) : Type 0 where
  pub signing_key : String
  pub signing_pub : String
  pub backend : LedgerBackend F
  pub entries : List (DecisionEnvelope F)
  pub by_id : Dict (DecisionEnvelope F)

module _ {F : Type 0} where
  -- the hash of the last of some entries that follow the hash `prev`
  abbrev pub head_from : String → List (DecisionEnvelope F) → String
  head_from prev [] = prev
  head_from prev (env ∷ envs) = head_from env.this_hash envs

  unfoldable pub head_hash : DecisionLedger F → String
  head_hash l = head_from genesis_hash l.entries

  unfoldable pub get : String → DecisionLedger F → Option (DecisionEnvelope F)
  get decision_id l = lookup decision_id l.by_id

  unfoldable pub archive_for : String → DecisionLedger F → Option (EvaluationArchive F)
  unfolding Backend.archive_for
  archive_for decision_id l = Backend.archive_for decision_id l.backend

module _ {F : Type 0} ⦃enc : Encoding F⦄ (cr : Crypto) where
  -- the hash of an envelope: of all its fields but `this_hash`
  unfoldable pub entry_hash : DecisionEnvelope F → String
  entry_hash env = cr.sha256_hex (enc.signed_envelope (record env { this_hash = "" }))

  -- what `append` does to the envelope: chain, sign, hash
  unfoldable pub seal : String → String → DecisionEnvelope F → DecisionEnvelope F
  unfolding entry_hash
  seal signing_key prev envelope =
      let chained = record envelope { prev_envelope_hash = prev } in
      let signed = record chained { signature = cr.sign signing_key (signing_payload chained) } in
      record signed { this_hash = entry_hash signed }

  unfoldable pub append :
      DecisionEnvelope F
      → Option (EvaluationArchive F)
      → DecisionLedger F
      → DecisionLedger F × DecisionEnvelope F
  append envelope archive l =
      let env = seal l.signing_key (head_hash l) envelope in
      (
        record l {
          entries = l.entries ++ env ∷ [];
          by_id = insert env.decision_id env l.by_id;
          backend = Backend.append env.decision_id env archive l.backend;
        },
        env,
      )

  unfoldable pub verify_signature : String → DecisionEnvelope F → Bool
  verify_signature signing_pub env = cr.verify signing_pub (signing_payload env) env.signature

  -- The loop of `verify_chain` from position `i`: the first bad position, if there is one.
  unfoldable pub first_bad : String → ℕ → String → List (DecisionEnvelope F) → Option ℕ
  first_bad signing_pub i prev [] = none
  first_bad signing_pub i prev (env ∷ envs) =
      let rest = first_bad signing_pub (i + 1) env.this_hash envs in
      if not (env.prev_envelope_hash == prev)
      then some i
      else if not (verify_signature signing_pub env)
      then some i
      else if not (entry_hash env == env.this_hash)
      then some i
      else rest

  unfoldable pub verify_chain : DecisionLedger F → Option ℕ
  verify_chain l = first_bad l.signing_pub 0 genesis_hash l.entries

-- `LedgerCorruptionError`, by where `__init__` raises it
pub data OpenResult (F : Type 0) : Type 0 where
  opened : DecisionLedger F → OpenResult F
  wrong_key : String → OpenResult F
  corrupt_at : ℕ → OpenResult F

module _ {F : Type 0} where
  -- the index that `__init__` builds from the rows
  unfoldable pub index :
      List (DecisionEnvelope F) → Dict (DecisionEnvelope F) → Dict (DecisionEnvelope F)
  index [] by_id = by_id
  index (env ∷ envs) by_id = index envs (insert env.decision_id env by_id)

module _ {F : Type 0} ⦃enc : Encoding F⦄ (cr : Crypto) where
  abbrev or_corrupt : Option ℕ → DecisionLedger F → OpenResult F
  or_corrupt none l = opened l
  or_corrupt (some bad_seq) l = corrupt_at bad_seq

  -- `DecisionLedger(signing_key, signing_pub, backend)`; an empty chain verifies too
  unfoldable pub open_ledger : String → String → LedgerBackend F → OpenResult F
  open_ledger signing_key signing_pub backend₀ =
      let (stored_pub, backend) = init_meta "signing_pub_hex" signing_pub backend₀ in
      let l : DecisionLedger F = record {
        signing_key = signing_key;
        signing_pub = signing_pub;
        backend = backend;
        entries = backend.rows;
        by_id = index backend.rows [];
      } in
      if not (stored_pub == signing_pub)
      then wrong_key stored_pub
      else or_corrupt (verify_chain cr l) l
