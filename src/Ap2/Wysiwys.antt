-- ===== src/Ap2/Wysiwys.antt =====
-- aegis/ap2/wysiwys.py: what settles is what the user was shown. Both documents are JSON values, so
-- a member may be missing and a number may not convert.
pub mod Binding
use finance.Base.{String, Bool, true, false, not, List, [], ◌∷◌, ◌==◌, if◌then◌else◌}
use finance.Base.Int.{ℤ}
use finance.Ap2.Json.{
  Json, null, number, text, array, object, Members, member, end, Numbers, is_text, items, iterate,
}
use finance.Ap2.Jws.{JoseOps}
use finance.Ap2.Mandates.{◌>>=◌}
use finance.Ap2.Sdjwt.{sha256_b64u}
use finance.Pipeline.Context.{Outcome, done, raised}

pub record IntegrityResult : Type 0 where
  pub ok : Bool
  pub code : String

-- `int(x)`, and `f"{float(x):.2f}"`, of a number and of a text
pub record Conversions (N : Type 0) : Type 0 where
  pub int_of_number : N → Outcome ℤ
  pub int_of_text : String → Outcome ℤ
  pub cents_of_number : N → Outcome String
  pub cents_of_text : String → Outcome String

module _ {N : Type 0} where
  abbrev pub member_of : String → Members N → Outcome (Json N)
  member_of k end = raised "KeyError"
  member_of k (member j v ms) = if is_text k j then done v else member_of k ms

  -- `node[k]`
  unfoldable pub get_item : String → Json N → Outcome (Json N)
  get_item k (object ms) = member_of k ms
  get_item k _ = raised "TypeError"

  abbrev pub amount_json : Json N → String → Json N
  amount_json currency value =
      object (member (text "currency") currency (member (text "value") (text value) end))

  -- the object that is hashed
  abbrev pub canon_json : Json N → Json N → List (Json N) → Json N
  canon_json amount merchant_name line_items = object (
      member (text "amount") amount (
        member (text "merchant_name") merchant_name
          (member (text "line_items") (array (items line_items)) end)))

module _ {N : Type 0} (conv : Conversions N) where
  unfoldable pub int_of : Json N → Outcome ℤ
  int_of (number n) = conv.int_of_number n
  int_of (text s) = conv.int_of_text s
  int_of _ = raised "TypeError"

  unfoldable pub cents_of : Json N → Outcome String
  cents_of (number n) = conv.cents_of_number n
  cents_of (text s) = conv.cents_of_text s
  cents_of _ = raised "TypeError"

  unfoldable pub canon_amount : Json N → Json N → Outcome (Json N)
  unfolding cents_of
  canon_amount currency value = do cents ← cents_of value; done (amount_json currency cents)

  module _ ⦃ns : Numbers N⦄ where
    abbrev pub line_json : Json N → ℤ → String → Json N
    line_json title qty price = object (
        member (text "title") title
          (member (text "qty") (number (ns.of_int qty)) (member (text "price") (text price) end)))

    abbrev pub canon_line : Json N → Outcome (Json N)
    canon_line li = do
      title ← get_item "title" li
      quantity ← get_item "quantity" li
      qty ← int_of quantity
      price ← get_item "price" li
      cents ← cents_of price
      done (line_json title qty cents)

    abbrev pub canon_lines : List (Json N) → Outcome (List (Json N))
    canon_lines [] = done []
    canon_lines (li ∷ lis) = do line ← canon_line li; lines ← canon_lines lis; done (line ∷ lines)

    unfoldable pub canon_line_items : Json N → Outcome (List (Json N))
    unfolding get_item int_of cents_of iterate
    canon_line_items node = iterate node >>= canon_lines

    -- The amount is under its key, and the merchant's name is read after it.
    abbrev pub canon_of : String → Json N → Outcome (Json N) → Outcome (Json N)
    canon_of amount_key doc name = do
      amount ← get_item amount_key doc
      currency ← get_item "currency" amount
      value ← get_item "value_usd" amount
      canonical ← canon_amount currency value
      merchant_name ← name
      line_items ← get_item "line_items" doc
      lines ← canon_line_items line_items
      done (canon_json canonical merchant_name lines)

    -- what `bind_shown_confirmation` hashes
    unfoldable pub shown_canon : Json N → Outcome (Json N)
    unfolding get_item canon_amount canon_line_items
    shown_canon td = canon_of "amount" td (get_item "merchant_name" td)

    -- what `verify_wysiwys` derives again
    unfoldable pub settled_canon : Json N → Outcome (Json N)
    unfolding get_item canon_amount canon_line_items
    settled_canon closed =
        canon_of "payment_amount" closed (get_item "payee" closed >>= get_item "name")

    module _ (jose : JoseOps (Json N)) where
      -- `S.sha256_b64u(S._json_bytes(...))`
      abbrev pub digest_of : Json N → String
      digest_of canon = sha256_b64u jose (jose.dumps canon)

      unfoldable pub bind_shown_confirmation : Json N → Outcome String
      unfolding shown_canon sha256_b64u
      bind_shown_confirmation td = do canon ← shown_canon td; done (digest_of canon)

      abbrev pub compared : String → Json N → IntegrityResult
      compared shown_digest canon =
          if not (digest_of canon == shown_digest)
          then (record { ok = false; code = "AGENT.WYSIWYS.DRIFT" })
          else (record { ok = true; code = "ok" })

      unfoldable pub verify_wysiwys : Json N → String → Outcome IntegrityResult
      unfolding settled_canon sha256_b64u
      verify_wysiwys closed shown_digest = do
        canon ← settled_canon closed
        done (compared shown_digest canon)
