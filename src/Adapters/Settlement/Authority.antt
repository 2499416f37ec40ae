-- ===== src/Adapters/Settlement/Authority.antt =====
-- From the gate of settlement back to the pipeline.
use finance.Base.{Bool, true, eq_iff, ◌≡◌, ◌≢◌, sym, ◌∙◌, arith, inl, inr}
use finance.Base.Float.{FloatOps}
use finance.Base.Platform.{Crypto}
use finance.Gateway.Verify.{accepted, verify_bundle}
use finance.Ledger.Store.{DecisionLedger}
use finance.Models.{
  DecisionEnvelope, PaymentMandate, MandateBundle, ControlEvidence, ListProvenance, Encoding,
  Verdict, block,
}
use finance.Adapters.Settlement.{SettlementAdapter, SettlementResult, result, settle}
use finance.Adapters.Settlement.Gate.{permits, authorizes, settle_lem}
use finance.Pipeline.Context.{new_context}
use finance.Pipeline.Orchestrator.{Services, Orchestrator, Fresh, evaluate}
use finance.Pipeline.Orchestrator.Authority.{evaluate_cleared}
use finance.Pipeline.Orchestrator.Passage.{Passage}

module _ {F S : Type 0} ⦃enc : Encoding F⦄ (cr : Crypto) (adapter : SettlementAdapter S) where
  settled_authorized :
      (envelope : DecisionEnvelope F) (payment : PaymentMandate) (ledger : DecisionLedger F)
      (quorum_satisfied : Bool) (s s' : S) (res : SettlementResult)
      → settle cr adapter envelope payment ledger quorum_satisfied s ≡ (s', result res)
      → authorizes cr adapter envelope payment ledger quorum_satisfied ≡ true
  settled_authorized envelope payment ledger q s s' res e =
      elim (settle_lem cr adapter envelope payment ledger q s) [
        | inl (yes', _) ↦ yes'
        | inr (_, (message, e')) ↦ absurd (ground (arith, e, e'))
      ]

permits-not_block : (v : Verdict) (q : Bool) → permits v q ≡ true → v ≢ block
permits-not_block v q h e = absurd (ground arith)

module _ {F S : Type 0} ⦃fl : FloatOps F⦄ ⦃enc : Encoding F⦄ (svc : Services F) where
  -- A payment that settles on the envelope of a decision has the mandate id of the payment that was
  -- decided, and that decision was made on a validly signed bundle and passed every stage.
  pub settle-evaluate :
      (fresh : Fresh) (bundle : MandateBundle F) (controls : ControlEvidence) (now : F)
      (orch : Orchestrator F) (adapter : SettlementAdapter S) (payment : PaymentMandate)
      (ledger : DecisionLedger F) (quorum_satisfied : Bool) (s s' : S) (res : SettlementResult)
      → let env = (evaluate svc fresh bundle controls now orch).1 in
        settle svc.crypto adapter env payment ledger quorum_satisfied s ≡ (s', result res)
        → (payment.mandate_id ≡ bundle.payment.mandate_id)
          × (verify_bundle svc.crypto svc.public_key bundle ≡ accepted)
          × ((prov : ListProvenance F) × Passage svc svc.screening orch.velocity
                (new_context svc.crypto bundle controls now)
                prov)
  unfolding new_context
  settle-evaluate fresh bundle controls now orch adapter payment ledger q s s' res e =
      let env = (evaluate svc fresh bundle controls now orch).1 in
      let authority = settled_authorized svc.crypto adapter env payment ledger q s s' res e in
      let permitted : permits env.verdict q ≡ true = ground (arith, authority) in
      let same : env.mandate_id ≡ payment.mandate_id =
        ground (arith, authority, eq_iff env.mandate_id payment.mandate_id) in
      let (valid, (prov, passage, envelope)) =
        evaluate_cleared svc fresh bundle controls now orch
          (permits-not_block env.verdict q permitted) in
      (sym same ∙ envelope.2, valid, (prov, passage))
