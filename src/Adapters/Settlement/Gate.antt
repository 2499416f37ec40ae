-- ===== src/Adapters/Settlement/Gate.antt =====
-- No money moves without authority.
use finance.Base.{String, Bool, true, false, ◌&&◌, ◌==◌, ◌≡◌, refl, ◌⊎◌, inl, inr, Bool-cases}
use finance.Base.Platform.{Crypto}
use finance.Ledger.Store.{DecisionLedger, verify_signature}
use finance.Models.{DecisionEnvelope, PaymentMandate, Encoding, Verdict, allow, step_up, block}
use finance.Adapters.Settlement.{
  SettlementAdapter, Settlement, refused, settle, submitted, verdict_gate,
}

-- ALLOW, or STEP_UP with its quorum
abbrev pub permits : Verdict → Bool → Bool
permits allow quorum_satisfied = true
permits step_up quorum_satisfied = quorum_satisfied
permits block quorum_satisfied = false

abbrev pub WasRefused : {S : Type 0} → S → S × Settlement → Type 0
WasRefused s r = (message : String) × (r ≡ (s, refused message))

module _ {F S : Type 0} ⦃enc : Encoding F⦄ (cr : Crypto) (adapter : SettlementAdapter S) where
  -- the ledger's signature, the same payment mandate, and a verdict that permits settlement
  abbrev pub authorizes : DecisionEnvelope F → PaymentMandate → DecisionLedger F → Bool → Bool
  authorizes envelope payment ledger quorum_satisfied =
      verify_signature cr ledger.signing_pub envelope
      && (envelope.mandate_id == payment.mandate_id && permits envelope.verdict quorum_satisfied)

  verdict_gate_lem :
      (verdict : Verdict) (envelope : DecisionEnvelope F) (payment : PaymentMandate)
      (quorum_satisfied : Bool) (s : S)
      → let r = verdict_gate cr adapter verdict envelope payment quorum_satisfied s in
        ((permits verdict quorum_satisfied ≡ true) × (r ≡ submitted cr adapter envelope payment s))
        ⊎ ((permits verdict quorum_satisfied ≡ false) × WasRefused s r)
  verdict_gate_lem allow envelope payment q s = inl (refl, refl)
  verdict_gate_lem step_up envelope payment true s = inl (refl, refl)
  verdict_gate_lem step_up envelope payment false s = inr (refl, (_, refl))
  verdict_gate_lem block envelope payment q s = inr (refl, (_, refl))

  -- A payment goes to the rail, once, exactly when the envelope carries the ledger's signature, is
  -- for that payment mandate, and says ALLOW, or STEP_UP with the quorum satisfied. Otherwise it is
  -- refused and the rail is left as it was.
  pub settle_lem :
      (envelope : DecisionEnvelope F) (payment : PaymentMandate) (ledger : DecisionLedger F)
      (quorum_satisfied : Bool) (s : S)
      → let r = settle cr adapter envelope payment ledger quorum_satisfied s in
        let authority = authorizes envelope payment ledger quorum_satisfied in
        ((authority ≡ true) × (r ≡ submitted cr adapter envelope payment s))
        ⊎ ((authority ≡ false) × WasRefused s r)
  unfolding settle
  settle_lem envelope payment ledger quorum_satisfied s =
      let signed = verify_signature cr ledger.signing_pub envelope in
      let gate = verdict_gate_lem envelope.verdict envelope payment quorum_satisfied s in
      elim (Bool-cases signed) [
        | inl valid ↦ elim (Bool-cases (envelope.mandate_id == payment.mandate_id)) [
          | inl same ↦ rw (valid, same) gate
          | inr other ↦ rw (valid, other) (inr (refl, (_, refl)))
        ]
        | inr forged ↦ rw forged (inr (refl, (_, refl)))
      ]
