-- ===== src/Ap2/Disputes/Outcomes.antt =====
-- How disputes on a recorded chain end.
use finance.Base.{Bool, not, ◌&&◌, ◌==◌, some, ◌≡◌, refl, ap, ◌∙◌, arith, if◌then◌else◌}
use finance.Base.Dict.{lookup-insert_self}
use finance.Base.Float.{FloatOps, ◌<?◌}
use finance.Base.Int.{ℤ}
use finance.Ap2.Json.{Json, Numbers}
use finance.Ap2.Jws.{JoseOps}
use finance.Ap2.Scope.{MandateReceipt, verify_receipt}
use finance.Ap2.Wysiwys.{IntegrityResult, Conversions, verify_wysiwys}
use finance.Ap2.Disputes.{
  CheckoutRecord, PaymentRecord, refund_request, not_authorized, DisputeClaim, DisputeOutcome,
  grant, deny, Adjudication, DisputeStore, record_chain, days_elapsed, after_wysiwys, decide_claim,
  adjudicate_dispute,
}
use finance.Pipeline.Context.{Outcome, done, raised}

abbrev pub outcome_of : Outcome Adjudication → Outcome DisputeOutcome
outcome_of (raised e) = raised e
outcome_of (done a) = done a.outcome

-- denied if the settled cart is the one that was shown, else granted, unless the check raises
abbrev pub by_cart : Outcome IntegrityResult → Outcome DisputeOutcome
by_cart (raised e) = raised e
by_cart (done wy) = done (if wy.ok then deny else grant)

outcome-after_wysiwys : (o : Outcome IntegrityResult) → outcome_of (after_wysiwys o) ≡ by_cart o
outcome-after_wysiwys (raised e) = refl
outcome-after_wysiwys (done wy) = ground arith

module _ {F N : Type 0} ⦃fl : FloatOps F⦄ ⦃ns : Numbers N⦄ (jose : JoseOps (Json N))
    (conv : Conversions N) (checkout : CheckoutRecord) (payment : PaymentRecord N)
    (receipt : MandateReceipt F) (store : DisputeStore F N) where
  adjudicate-record_chain :
      (claim : DisputeClaim)
      → adjudicate_dispute jose conv checkout.checkout_hash claim
          (record_chain checkout payment (some receipt) store)
        ≡ decide_claim jose conv claim.type claim store.verifier_pub checkout payment receipt
  unfolding adjudicate_dispute record_chain
  adjudicate-record_chain claim =
      let a = lookup-insert_self checkout.checkout_hash checkout store.checkouts in
      let b = lookup-insert_self checkout.checkout_hash payment store.payments in
      let c = lookup-insert_self payment.mandate_id receipt store.receipts in rw (a, b, c) refl

  -- the receipt is the verifier's, and reports a success
  abbrev pub has_receipt : Bool
  has_receipt = verify_receipt jose store.verifier_pub receipt && receipt.result == "success"

  -- On a recorded chain, a claim that a payment was not authorized is granted without a receipt that
  -- verifies and reports a success. With one it is denied where the settled cart passes against the
  -- digest of the cart that was shown, granted where it fails, and raises where that check raises.
  pub adjudicate_not_authorized :
      (filed_at : ℤ)
      → outcome_of (
          adjudicate_dispute jose conv checkout.checkout_hash
            (record { type = not_authorized; filed_at = filed_at })
            (record_chain checkout payment (some receipt) store))
        ≡ (if has_receipt
            then by_cart (verify_wysiwys conv jose payment.closed_payload checkout.shown_digest)
            else done grant)
  unfolding decide_claim
  adjudicate_not_authorized filed_at =
      let checked = verify_wysiwys conv jose payment.closed_payload checkout.shown_digest in
      ap outcome_of
        (adjudicate-record_chain (record { type = not_authorized; filed_at = filed_at }))
      ∙ ground (arith, outcome-after_wysiwys checked)

  -- On a recorded chain, a refund is granted where the cart was signed refundable and the claim is
  -- not filed after the signed period; else it is denied.
  pub adjudicate_refund :
      (filed_at : ℤ)
      → let claim : DisputeClaim = record { type = refund_request; filed_at = filed_at } in
        outcome_of (
          adjudicate_dispute jose conv checkout.checkout_hash claim
            (record_chain checkout payment (some receipt) store))
        ≡ done (
            if checkout.requires_refundability
              && not (fl.of_int checkout.refund_period_days <? days_elapsed claim receipt)
            then grant
            else deny)
  unfolding decide_claim
  adjudicate_refund filed_at =
      ap outcome_of
        (adjudicate-record_chain (record { type = refund_request; filed_at = filed_at }))
      ∙ ground arith
