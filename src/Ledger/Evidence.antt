-- ===== src/Ledger/Evidence.antt =====
-- aegis/ledger/evidence.py: a decision with what it takes to check it elsewhere.
pub mod Export
use finance.Base.{String, Bool, true, false, Option, none, some, ◌&&◌, ◌==◌}
use finance.Base.Platform.{Crypto}
use finance.Ledger.Backend.{EvaluationArchive}
use finance.Ledger.Store.{DecisionLedger, get, archive_for, entry_hash, verify_signature}
use finance.Models.{DecisionEnvelope, Encoding}

abbrev pub evidence_format : String
evidence_format = "aegis-evidence/1"

-- A bundle as it is read: a member that is missing or malformed is `none`.
pub record EvidenceBundle (F : Type 0) : Type 0 where
  pub format : Option String
  pub signing_pub_hex : Option String
  pub envelope : Option (DecisionEnvelope F)
  pub archive : Option (EvaluationArchive F)

pub record Checks : Type 0 where
  pub format : Bool
  pub signature : Bool
  pub this_hash : Bool
  pub world_snapshot : Bool

abbrev is_format : Option String → Bool
is_format none = false
is_format (some f) = f == evidence_format

module _ {F : Type 0} where
  abbrev exported :
      Option (DecisionEnvelope F)
      → DecisionLedger F
      → Option (EvaluationArchive F)
      → Option (EvidenceBundle F)
  exported none ledger archive = none
  exported (some env) ledger archive = some (record {
    format = some evidence_format;
    signing_pub_hex = some ledger.signing_pub;
    envelope = some env;
    archive = archive;
  })

  -- `none` where the code raises `KeyError`
  unfoldable pub export_evidence : DecisionLedger F → String → Option (EvidenceBundle F)
  export_evidence ledger decision_id =
      exported (get decision_id ledger) ledger (archive_for decision_id ledger)

module _ {F : Type 0} ⦃enc : Encoding F⦄ (cr : Crypto) where
  -- the hash of the archived inputs is the envelope's
  abbrev pub same_world : Option (EvaluationArchive F) → DecisionEnvelope F → Bool
  same_world none env = true
  same_world (some a) env =
      cr.sha256_hex (enc.snapshot a.bundle env.ruleset_version a.now a.controls)
      == env.world_snapshot_hash

  -- what the checks say up to the member that could not be read
  abbrev checks_of : EvidenceBundle F → Option String → Option (DecisionEnvelope F) → Checks
  checks_of bundle (some signing_pub) (some env) = record {
    format = is_format bundle.format;
    signature = verify_signature cr signing_pub env;
    this_hash = entry_hash cr env == env.this_hash;
    world_snapshot = same_world bundle.archive env;
  }
  checks_of bundle _ _ = record {
    format = is_format bundle.format;
    signature = false;
    this_hash = false;
    world_snapshot = false;
  }

  unfoldable pub verify_evidence : EvidenceBundle F → Bool × Checks
  verify_evidence bundle =
      let checks = checks_of bundle bundle.signing_pub_hex bundle.envelope in
      (checks.format && (checks.signature && (checks.this_hash && checks.world_snapshot)), checks)
