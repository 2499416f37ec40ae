-- ===== src/Ap2/Wysiwys/Binding.antt =====
-- The digest of the confirmation binds the cart.
use finance.Base.{String, true, List, [], ◌∷◌, map, eq_iff, ◌≡◌, ◌↔◌, refl, ap, ◌∙◌, arith}
use finance.Base.Int.{ℤ}
use finance.Ap2.Json.{Json, Numbers, items, iterate}
use finance.Ap2.Jws.{JoseOps}
use finance.Ap2.Mandates.{◌>>=◌}
use finance.Ap2.Sdjwt.{sha256_b64u}
use finance.Ap2.Wysiwys.{
  IntegrityResult, Conversions, get_item, int_of, cents_of, amount_json, canon_json, line_json,
  canon_amount, canon_line, canon_lines, canon_line_items, canon_of, shown_canon, settled_canon,
  digest_of, compared, bind_shown_confirmation, verify_wysiwys,
}
use finance.Pipeline.Context.{Outcome, done}

pub record Line (N : Type 0) : Type 0 where
  pub title : Json N
  pub qty : ℤ
  pub price : String

-- What a document says of a cart: amounts to the cent, quantities as whole numbers.
pub record Cart (N : Type 0) : Type 0 where
  pub currency : Json N
  pub value : String
  pub merchant_name : Json N
  pub lines : List (Line N)

module _ {N : Type 0} (conv : Conversions N) where
  pub record StatesLine (node : Json N) (l : Line N) : Type 0 where
    pub quantity : Json N
    pub price : Json N
    pub title_is : get_item "title" node ≡ done l.title
    pub quantity_is : get_item "quantity" node ≡ done quantity
    pub qty_is : int_of conv quantity ≡ done l.qty
    pub price_is : get_item "price" node ≡ done price
    pub cents_is : cents_of conv price ≡ done l.price

  abbrev pub StatesLines : List (Json N) → List (Line N) → Type 0
  StatesLines [] [] = Unit
  StatesLines (node ∷ nodes) (l ∷ ls) = StatesLine node l × StatesLines nodes ls
  StatesLines _ _ = ⊥

  -- The members of the document, with its amount under this key and this merchant's name, are those
  -- of the cart.
  pub record States (amount_key : String) (doc : Json N) (name : Outcome (Json N)) (c : Cart N)
      : Type 0 where
    pub amount : Json N
    pub value : Json N
    pub line_items : Json N
    pub nodes : List (Json N)
    pub amount_is : get_item amount_key doc ≡ done amount
    pub currency_is : get_item "currency" amount ≡ done c.currency
    pub value_is : get_item "value_usd" amount ≡ done value
    pub cents_is : cents_of conv value ≡ done c.value
    pub name_is : name ≡ done c.merchant_name
    pub line_items_is : get_item "line_items" doc ≡ done line_items
    pub nodes_are : iterate line_items ≡ done nodes
    pub lines_are : StatesLines nodes c.lines

  -- The confirmation shows this cart, and the closed mandate settles this cart.
  abbrev pub Shows : Json N → Cart N → Type 0
  Shows td = States "amount" td (get_item "merchant_name" td)

  abbrev pub Settles : Json N → Cart N → Type 0
  Settles closed = States "payment_amount" closed (get_item "payee" closed >>= get_item "name")

  module _ ⦃ns : Numbers N⦄ where
    abbrev lines_json : List (Line N) → List (Json N)
    lines_json = map (λ l. line_json conv l.title l.qty l.price)

    abbrev pub cart_json : Cart N → Json N
    cart_json c = canon_json (amount_json c.currency c.value) c.merchant_name (lines_json c.lines)

    canon_line-StatesLine :
        (node : Json N) (l : Line N)
        → StatesLine node l
        → canon_line conv node ≡ done (line_json conv l.title l.qty l.price)
    canon_line-StatesLine node l s =
        rw (s.title_is, s.quantity_is, s.qty_is, s.price_is, s.cents_is) refl

    canon_lines-StatesLines :
        (nodes : List (Json N)) (ls : List (Line N))
        → StatesLines nodes ls
        → canon_lines conv nodes ≡ done (lines_json ls)
    canon_lines-StatesLines [] [] s = refl
    canon_lines-StatesLines [] (l ∷ ls) s = elim s [ ]
    canon_lines-StatesLines (node ∷ nodes) [] s = elim s [ ]
    canon_lines-StatesLines (node ∷ nodes) (l ∷ ls) s =
        ap (λ o. o >>= λ line. canon_lines conv nodes >>= λ lines. done (line ∷ lines))
          (canon_line-StatesLine node l s.0)
        ∙ ap (λ o. o >>= λ lines. done (line_json conv l.title l.qty l.price ∷ lines))
            (canon_lines-StatesLines nodes ls s.1)

    canon_of-States :
        (key : String) (doc : Json N) (name : Outcome (Json N)) (c : Cart N)
        → States key doc name c
        → canon_of conv key doc name ≡ done (cart_json c)
    unfolding canon_amount canon_line_items
    canon_of-States key doc name c s =
        rw
          (
            s.amount_is,
            s.currency_is,
            s.value_is,
            s.cents_is,
            s.name_is,
            s.line_items_is,
            s.nodes_are,
            canon_lines-StatesLines s.nodes c.lines s.lines_are,
          )
          refl

    -- Whole numbers that are different are different numbers in JSON.
    abbrev pub KeepsInts : Type 0
    KeepsInts = (a b : ℤ) → ns.of_int a ≡ ns.of_int b → a ≡ b

    lines_json-inj :
        (keeps : KeepsInts) (ls ms : List (Line N))
        → items (lines_json ls) ≡ items (lines_json ms)
        → ls ≡ ms
    lines_json-inj keeps [] [] e = refl
    lines_json-inj keeps [] (m ∷ ms) e = absurd (ground (arith, e))
    lines_json-inj keeps (l ∷ ls) [] e = absurd (ground (arith, e))
    lines_json-inj keeps (l ∷ ls) (m ∷ ms) e =
        let title : l.title ≡ m.title = cc e in
        let price : l.price ≡ m.price = cc e in
        let qty : l.qty ≡ m.qty = keeps l.qty m.qty (cc e) in
        let rest : ls ≡ ms = lines_json-inj keeps ls ms (cc e) in cc (title, price, qty, rest)

    cart_json-inj : (keeps : KeepsInts) (a b : Cart N) → cart_json a ≡ cart_json b → a ≡ b
    cart_json-inj keeps a b e =
        let currency : a.currency ≡ b.currency = cc e in
        let value : a.value ≡ b.value = cc e in
        let merchant : a.merchant_name ≡ b.merchant_name = cc e in
        let lines : a.lines ≡ b.lines = lines_json-inj keeps a.lines b.lines (cc e) in
        cc (currency, value, merchant, lines)

    module _ (jose : JoseOps (Json N)) where
      -- Two texts with one digest are one text.
      abbrev pub NoCollision : String → String → Type 0
      NoCollision s t = jose.b64u_encode (jose.sha256 s) ≡ jose.b64u_encode (jose.sha256 t) → s ≡ t

      -- Two values with one JSON text are one value.
      abbrev pub OneText : Json N → Json N → Type 0
      OneText x y = jose.dumps x ≡ jose.dumps y → x ≡ y

      -- A confirmation that shows a cart has a digest, and a closed mandate that settles a cart is
      -- checked against it without an exception; it passes exactly when the two carts are the same:
      -- currency, amount to the cent, merchant, and lines with title, whole quantity and price to
      -- the cent. Assumes that the digests of the two do not collide, that their JSON texts tell
      -- them apart, and that JSON keeps whole numbers apart.
      pub verify_wysiwys-bind_shown_confirmation :
          (closed td : Json N) (settled shown : Cart N)
          → Settles closed settled
          → Shows td shown
          → KeepsInts
          → OneText (cart_json settled) (cart_json shown)
          → NoCollision (jose.dumps (cart_json settled)) (jose.dumps (cart_json shown))
          → (digest : String) × (bind_shown_confirmation conv jose td ≡ done digest)
            × (r : IntegrityResult) × (verify_wysiwys conv jose closed digest ≡ done r)
            × (r.ok ≡ true ↔ settled ≡ shown)
      unfolding verify_wysiwys bind_shown_confirmation sha256_b64u settled_canon shown_canon
      verify_wysiwys-bind_shown_confirmation closed td settled shown s t keeps apart free =
          let first = canon_of-States "amount" td (get_item "merchant_name" td) shown t in
          let second =
            canon_of-States "payment_amount" closed (get_item "payee" closed >>= get_item "name")
              settled s in
          let digest = digest_of conv jose (cart_json shown) in
          let decide = eq_iff (digest_of conv jose (cart_json settled)) digest in
          let r = compared conv jose digest (cart_json settled) in
          (
            digest,
            ap (λ o. o >>= λ canon. done (digest_of conv jose canon)) first,
            r,
            ap (λ o. o >>= λ canon. done (compared conv jose digest canon)) second,
            (
              (λ h. cart_json-inj keeps settled shown (apart (free (ground (arith, decide, h))))),
              λ same. ground (arith, decide, ap (λ c. digest_of conv jose (cart_json c)) same),
            ),
          )
