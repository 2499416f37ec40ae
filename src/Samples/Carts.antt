-- ===== src/Samples/Carts.antt =====
-- A cart as it was shown and as it settled, and the records of its dispute.
use Prim.Native.String.{◌++◌}
use finance.Base.{String, true, some, [], ◌∷◌, ◌==◌}
use finance.Base.Int.{ℤ, pos, negsuc}
use finance.Ap2.Disputes.{CheckoutRecord, PaymentRecord, DisputeStore}
use finance.Ap2.Json.{Json, null, number, text, array, object, nil, cons, end}
use finance.Ap2.Jws.{JoseOps}
use finance.Ap2.Wysiwys.{Conversions, bind_shown_confirmation}
use finance.Ap2.Wysiwys.Binding.{Cart}
use finance.Pipeline.Context.{Outcome, done, raised}
use finance.Samples.Delegation.{whole, jose_of, tally, field}

-- amounts as strokes
abbrev strokes : ℤ → String
strokes (pos n) = tally n
strokes (negsuc n) = "-" ++ tally n

abbrev pub whole_numbers : Conversions ℤ
whole_numbers = record {
  int_of_number = done;
  int_of_text = λ s. raised "ValueError";
  cents_of_number = λ n. done (strokes n);
  cents_of_text = λ s. raised "ValueError";
}

abbrev pub till_jose : JoseOps (Json ℤ)
till_jose = record (jose_of []) {
  loads = λ s. some null;
  verify_raw = λ key payload sig. sig == key ++ "!";
}

abbrev amount : Json ℤ
amount = object (field "currency" (text "USD") (field "value_usd" (number (pos 3)) end))

abbrev pub tea_line : Json ℤ
tea_line = object (
    field "title" (text "tea")
      (field "quantity" (number (pos 2)) (field "price" (number (pos 1)) end)))

abbrev pub tea_lines : Json ℤ
tea_lines = array (cons tea_line nil)

abbrev pub shown_tea : Json ℤ
shown_tea = object (
    field "amount" amount (field "merchant_name" (text "Kiosk") (field "line_items" tea_lines end)))

abbrev pub paid_tea : Json ℤ
paid_tea = object (
    field "payee" (object (field "id" (text "k") (field "name" (text "Kiosk") end)))
      (field "payment_amount" amount (field "line_items" tea_lines end)))

-- a closed mandate that names no payee
abbrev pub nameless_tea : Json ℤ
nameless_tea = object (field "payment_amount" amount (field "line_items" tea_lines end))

abbrev pub tea_cart : Cart ℤ
tea_cart = record {
  currency = text "USD";
  value = "iii";
  merchant_name = text "Kiosk";
  lines = record { title = text "tea"; qty = pos 2; price = "i" } ∷ [];
}

abbrev digest_or_none : Outcome String → String
digest_or_none (done d) = d
digest_or_none (raised e) = ""

abbrev pub tea_checkout : CheckoutRecord
tea_checkout = record {
  checkout_hash = "checkout-1";
  requires_refundability = true;
  refund_period_days = pos 14;
  shown_digest = digest_or_none (bind_shown_confirmation whole_numbers till_jose shown_tea);
  merchant_name = "Kiosk";
}

abbrev pub tea_payment : PaymentRecord ℤ
tea_payment = record { mandate_id = "open-1"; closed_payload = paid_tea }

abbrev pub no_disputes : DisputeStore ℤ ℤ
no_disputes = record { verifier_pub = "v"; checkouts = []; payments = []; receipts = [] }
