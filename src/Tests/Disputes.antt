-- ===== src/Tests/Disputes.antt =====
-- Disputes and the binding of a cart, at concrete inputs.
use finance.Base.{String, Bool, true, some, [], ◌∷◌, not, ◌&&◌, ◌≡◌, ◌↔◌, refl, if◌then◌else◌}
use finance.Base.Float.{◌<?◌}
use finance.Base.Int.{ℤ, pos}
use finance.Ap2.Disputes.{
  DisputeClaim, refund_request, not_authorized, grant, deny, record_chain, days_elapsed,
  decide_claim, adjudicate_dispute,
}
use finance.Ap2.Disputes.Outcomes.{
  outcome_of, by_cart, has_receipt, adjudicate_not_authorized, adjudicate_refund,
}
use finance.Ap2.Json.{iterate}
use finance.Ap2.Jws.{parse_jws, verify_jws}
use finance.Ap2.Sdjwt.{sha256_b64u}
use finance.Ap2.Text.{split_on}
use finance.Ap2.Scope.{verify_receipt}
use finance.Ap2.Wysiwys.{
  IntegrityResult, get_item, int_of, cents_of, canon_amount, canon_line_items, shown_canon,
  settled_canon, bind_shown_confirmation, verify_wysiwys,
}
use finance.Ap2.Wysiwys.Binding.{
  Cart, Shows, Settles, StatesLines, verify_wysiwys-bind_shown_confirmation,
}
use finance.Pipeline.Context.{done, raised}
use finance.Samples.Carts.{
  whole_numbers, till_jose, tea_line, shown_tea, paid_tea, nameless_tea, tea_cart, tea_checkout,
  tea_payment, no_disputes,
}
use finance.Samples.Delegation.{whole, printed}
use finance.Samples.Fixed.{fixed}
use finance.Samples.Mandates.{receipt_for}

opened : Bool
unfolding split_on parse_jws verify_jws verify_receipt get_item int_of cents_of canon_amount
    canon_line_items shown_canon settled_canon bind_shown_confirmation verify_wysiwys sha256_b64u
    iterate printed adjudicate_dispute record_chain decide_claim
opened = true

tea_is_listed : StatesLines whole_numbers (tea_line ∷ []) tea_cart.lines
unfolding opened
tea_is_listed = (
  record {
    quantity = _;
    price = _;
    title_is = refl;
    quantity_is = refl;
    qty_is = refl;
    price_is = refl;
    cents_is = refl;
  },
  tt,
)

shown_is_tea : Shows whole_numbers shown_tea tea_cart
unfolding opened
shown_is_tea = record {
  amount = _;
  value = _;
  line_items = _;
  nodes = _;
  amount_is = refl;
  currency_is = refl;
  value_is = refl;
  cents_is = refl;
  name_is = refl;
  line_items_is = refl;
  nodes_are = refl;
  lines_are = tea_is_listed;
}

paid_is_tea : Settles whole_numbers paid_tea tea_cart
unfolding opened
paid_is_tea = record {
  amount = _;
  value = _;
  line_items = _;
  nodes = _;
  amount_is = refl;
  currency_is = refl;
  value_is = refl;
  cents_is = refl;
  name_is = refl;
  line_items_is = refl;
  nodes_are = refl;
  lines_are = tea_is_listed;
}

verify_wysiwys-bind_shown_confirmation_example :
    (digest : String) × (bind_shown_confirmation whole_numbers till_jose shown_tea ≡ done digest)
    × (r : IntegrityResult) × (verify_wysiwys whole_numbers till_jose paid_tea digest ≡ done r)
    × (r.ok ≡ true ↔ ◌≡◌ {A = Cart ℤ} tea_cart tea_cart)
verify_wysiwys-bind_shown_confirmation_example =
    verify_wysiwys-bind_shown_confirmation whole_numbers till_jose paid_tea shown_tea tea_cart
      tea_cart paid_is_tea shown_is_tea (λ a b e. e) (λ e. refl) λ e. refl

adjudicate_not_authorized_example :
    outcome_of (
      adjudicate_dispute till_jose whole_numbers "checkout-1"
        (record { type = not_authorized; filed_at = pos 90000 })
        (record_chain tea_checkout tea_payment (some (receipt_for "a")) no_disputes))
    ≡ (if has_receipt till_jose whole_numbers tea_checkout tea_payment (receipt_for "a") no_disputes
        then by_cart (
            verify_wysiwys whole_numbers till_jose tea_payment.closed_payload
              tea_checkout.shown_digest)
        else done grant)
adjudicate_not_authorized_example =
    adjudicate_not_authorized till_jose whole_numbers tea_checkout tea_payment (receipt_for "a")
      no_disputes (pos 90000)

approved_tea :
    outcome_of (
      adjudicate_dispute till_jose whole_numbers "checkout-1"
        (record { type = not_authorized; filed_at = pos 90000 })
        (record_chain tea_checkout tea_payment (some (receipt_for "a")) no_disputes))
    ≡ done deny
unfolding opened
approved_tea = refl

nameless_raises :
    outcome_of (
      adjudicate_dispute till_jose whole_numbers "checkout-1"
        (record { type = not_authorized; filed_at = pos 90000 })
        (record_chain tea_checkout
          (record tea_payment { closed_payload = nameless_tea })
          (some (receipt_for "a"))
          no_disputes))
    ≡ raised "KeyError"
unfolding opened
nameless_raises = refl

adjudicate_refund_example :
    let claim : DisputeClaim = record { type = refund_request; filed_at = pos 90000 } in
    outcome_of (
      adjudicate_dispute till_jose whole_numbers "checkout-1" claim
        (record_chain tea_checkout tea_payment (some (receipt_for "a")) no_disputes))
    ≡ done (
        if true && not (fixed.of_int (pos 14) <? days_elapsed claim (receipt_for "a"))
        then grant
        else deny)
adjudicate_refund_example =
    adjudicate_refund till_jose whole_numbers tea_checkout tea_payment (receipt_for "a") no_disputes
      (pos 90000)
