-- ===== src/Ledger/Evidence/Export.antt =====
-- Exported evidence verifies.
use finance.Base.{true, some, ◌==◌, eq_refl, subst, ◌≡◌, refl, sym, arith}
use finance.Base.Dict.{lookup-insert_self}
use finance.Base.Platform.{Crypto, SignsCorrectly}
use finance.Ledger.Backend.{EvaluationArchive}
use finance.Ledger.Backend
use finance.Ledger.Evidence.{
  evidence_format, EvidenceBundle, export_evidence, verify_evidence, same_world,
}
use finance.Ledger.Store.{
  DecisionLedger, append, seal, head_hash, get, archive_for, entry_hash, verify_signature,
}
use finance.Models.{DecisionEnvelope, Encoding, signing_payload}

module _ {F : Type 0} ⦃enc : Encoding F⦄ (cr : Crypto) where
  -- In a ledger that keeps its own public key, and where a signature verifies under its own key: the
  -- evidence that is exported for an envelope just appended verifies exactly when the archive
  -- that came with the envelope hashes to the envelope's world snapshot.
  pub export_evidence-append :
      SignsCorrectly cr
      → (env : DecisionEnvelope F) (archive : EvaluationArchive F) (l : DecisionLedger F)
      → l.signing_pub ≡ cr.public_of l.signing_key
      → (bundle : EvidenceBundle F) × (export_evidence
            (append cr env (some archive) l).0
            env.decision_id
          ≡ some bundle)
        × ((verify_evidence cr bundle).0 ≡ same_world cr (some archive) env)
  unfolding export_evidence verify_evidence append seal get archive_for Backend.append
      Backend.archive_for verify_signature entry_hash
  export_evidence-append signs env archive l own =
      let env' = seal cr l.signing_key (head_hash l) env in
      let found = lookup-insert_self env.decision_id env' l.by_id in
      let kept = lookup-insert_self env.decision_id archive l.backend.archives in
      let signed : verify_signature cr l.signing_pub env' ≡ true =
        subst (λ k. verify_signature cr k env' ≡ true) (sym own)
          (signs l.signing_key (signing_payload env')) in
      let hashed : (entry_hash cr env' == env'.this_hash) ≡ true = eq_refl (entry_hash cr env') in
      (
        record {
          format = some evidence_format;
          signing_pub_hex = some l.signing_pub;
          envelope = some env';
          archive = some archive;
        },
        rw (found, kept) refl,
        ground (arith, signed, hashed, eq_refl evidence_format),
      )
