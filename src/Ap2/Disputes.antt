-- ===== src/Ap2/Disputes.antt =====
-- aegis/ap2/disputes.py: a dispute decided from the signed artifacts of a payment.
pub mod Outcomes
use Prim.Native.String.{◌++◌}
use finance.Base.{
  String, Bool, true, false, not, ◌||◌, ◌==◌, Option, none, some, List, [], ◌∷◌, if◌then◌else◌,
}
use finance.Base.Dict.{Dict, lookup, insert}
use finance.Base.Float.{FloatOps, lit, ◌⊘◌, ◌<?◌}
use finance.Base.Int.{ℤ, ◌-ℤ◌}
use finance.Ap2.Jws.{JoseOps}
use finance.Ap2.Scope.{MandateReceipt, verify_receipt}
use finance.Ap2.Json.{Json, Numbers}
use finance.Ap2.Wysiwys.{IntegrityResult, Conversions, verify_wysiwys}
use finance.Pipeline.Context.{Outcome, done, raised}

pub record CheckoutRecord : Type 0 where
  pub checkout_hash : String
  pub requires_refundability : Bool
  pub refund_period_days : ℤ
  pub shown_digest : String
  pub merchant_name : String

-- the payload is that of a verified closed mandate
pub record PaymentRecord (N : Type 0) : Type 0 where
  pub mandate_id : String
  pub closed_payload : Json N

pub data ClaimType : Type 0 where
  refund_request not_authorized : ClaimType
  unknown_claim : String → ClaimType

pub record DisputeClaim : Type 0 where
  pub type : ClaimType
  pub filed_at : ℤ

pub data DisputeOutcome : Type 0 where
  grant deny escalate : DisputeOutcome

pub data Favored : Type 0 where
  merchant consumer : Favored

-- the evidence names the party that each item favours
pub record Adjudication : Type 0 where
  pub outcome : DisputeOutcome
  pub rationale : String
  pub evidence : List Favored

pub record DisputeStore (F N : Type 0) : Type 0 where
  pub verifier_pub : String
  pub checkouts : Dict CheckoutRecord
  pub payments : Dict (PaymentRecord N)
  pub receipts : Dict (MandateReceipt F)

module _ {F : Type 0} where
  abbrev with_receipt :
      String → Option (MandateReceipt F) → Dict (MandateReceipt F) → Dict (MandateReceipt F)
  with_receipt mandate_id none receipts = receipts
  with_receipt mandate_id (some receipt) receipts = insert mandate_id receipt receipts

  -- `record`
  unfoldable pub record_chain :
      {N : Type 0}
      → CheckoutRecord
      → PaymentRecord N
      → Option (MandateReceipt F)
      → DisputeStore F N
      → DisputeStore F N
  record_chain checkout payment receipt store = record store {
    checkouts = insert checkout.checkout_hash checkout store.checkouts;
    payments = insert checkout.checkout_hash payment store.payments;
    receipts = with_receipt payment.mandate_id receipt store.receipts;
  }

  abbrev receipt_of :
      {N : Type 0} → Option (PaymentRecord N) → Dict (MandateReceipt F) → Option (MandateReceipt F)
  receipt_of none receipts = none
  receipt_of (some payment) receipts = lookup payment.mandate_id receipts

abbrev verdict : DisputeOutcome → String → Favored → Adjudication
verdict outcome rationale favored = record {
  outcome = outcome;
  rationale = rationale;
  evidence = favored ∷ [];
}

abbrev escalated : String → Adjudication
escalated rationale = record { outcome = escalate; rationale = rationale; evidence = [] }

module _ {F : Type 0} ⦃fl : FloatOps F⦄ where
  abbrev pub days_elapsed : DisputeClaim → MandateReceipt F → F
  days_elapsed claim receipt = fl.of_int (claim.filed_at -ℤ receipt.issued_at) ⊘ lit 86400 0

-- what follows from the check of the cart; an exception goes to the caller
abbrev after_wysiwys : Outcome IntegrityResult → Outcome Adjudication
after_wysiwys (raised e) = raised e
after_wysiwys (done wy) =
    if not wy.ok
    then done (verdict grant "settled cart != approved cart" consumer)
    else done (verdict deny "authorized & matches approved cart" merchant)

module _ {F N : Type 0} ⦃fl : FloatOps F⦄ ⦃ns : Numbers N⦄ (jose : JoseOps (Json N))
    (conv : Conversions N) where
  -- the decision on a complete chain
  unfoldable pub decide_claim :
      ClaimType
      → DisputeClaim
      → String
      → CheckoutRecord
      → PaymentRecord N
      → MandateReceipt F
      → Outcome Adjudication
  decide_claim refund_request claim verifier_pub checkout payment receipt =
      if not checkout.requires_refundability
      then done (verdict deny "cart signed non-refundable" merchant)
      else if fl.of_int checkout.refund_period_days <? days_elapsed claim receipt
      then done (verdict deny "outside signed refund window" merchant)
      else done (verdict grant "within refund window; refundable cart" consumer)
  decide_claim not_authorized claim verifier_pub checkout payment receipt =
      if not (verify_receipt jose verifier_pub receipt) || not (receipt.result == "success")
      then done (verdict grant "no valid authorization receipt" consumer)
      else after_wysiwys (verify_wysiwys conv jose payment.closed_payload checkout.shown_digest)
  decide_claim (unknown_claim t) claim verifier_pub checkout payment receipt =
      done (escalated ("unknown claim type " ++ t))

  abbrev decide_chain :
      DisputeClaim
      → String
      → Option CheckoutRecord
      → Option (PaymentRecord N)
      → Option (MandateReceipt F)
      → Outcome Adjudication
  decide_chain claim verifier_pub (some checkout) (some payment) (some receipt) =
      decide_claim claim.type claim verifier_pub checkout payment receipt
  decide_chain claim verifier_pub _ _ _ =
      done (escalated "incomplete mandate chain — manual review")

  unfoldable pub adjudicate_dispute :
      String → DisputeClaim → DisputeStore F N → Outcome Adjudication
  adjudicate_dispute checkout_hash claim store =
      let payment = lookup checkout_hash store.payments in
      decide_chain claim store.verifier_pub (lookup checkout_hash store.checkouts) payment
        (receipt_of payment store.receipts)
