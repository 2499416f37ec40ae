-- ===== src/Samples/Delegation.antt =====
-- An open mandate of 100 at one of two shops, and a closed one that buys tea, over toy encodings:
-- JSON is printed without dots or tildes and read back from the documents of the chain, a hash is the
-- text without them, and a signature is the key.
use finance.Ap2.Text.{is_char}
use Prim.Native.String.{◌++◌}
use finance.Base.{
  ℕ, zero, suc, String, true, false, Option, none, some, List, [], ◌∷◌, ◌==◌, ◌&&◌, ◌||◌,
  if◌then◌else◌,
}
use finance.Base.Int.{ℤ, pos, pos_part, leb_ℤ}
use finance.Pipeline.Context.{Outcome, done, raised}
use finance.Ap2.Json.{
  Numbers, Json, null, number, text, array, object, Items, nil, cons, Members, end, member, get,
}
use finance.Ap2.Jws.{JoseOps}
use finance.Ap2.Issuance.{Randomness}
use finance.Ap2.Mandates.{Chain, Purchase, Binding, build_chain, as_list}
use finance.Ap2.Verifier.{Ruling, Rule, VerifyContext}

instance abbrev pub whole : Numbers ℤ
whole = record {
  same = λ a b. leb_ℤ a b && leb_ℤ b a;
  truthy = λ a. if leb_ℤ a (pos 0) && leb_ℤ (pos 0) a then false else true;
  of_int = λ a. a;
}

abbrev pub tally : ℕ → String
tally zero = ""
tally (suc n) = "i" ++ tally n

abbrev without_marks : String → String
without_marks String.[] = ""
without_marks (String.◌∷◌ c s) =
    (if is_char b'.' c || is_char b'~' c then "-" else String.◌∷◌ c String.[]) ++ without_marks s

unfoldable mutual
  pub printed : Json ℤ → String
  printed null = "n"
  printed (number z) = tally (pos_part z) ++ "/"
  printed (text s) = "'" ++ without_marks s ++ "'"
  printed (array xs) = "[" ++ printed_items xs ++ "]"
  printed (object ms) = "{" ++ printed_members ms ++ "}"

  pub printed_items : Items ℤ → String
  printed_items nil = ""
  printed_items (cons x xs) = printed x ++ "," ++ printed_items xs

  pub printed_members : Members ℤ → String
  printed_members end = ""
  printed_members (member k v ms) = printed k ++ ":" ++ printed v ++ "," ++ printed_members ms

abbrev pub read_from : List (Json ℤ) → String → Option (Json ℤ)
read_from [] s = none
read_from (doc ∷ docs) s = if printed doc == s then some doc else read_from docs s

abbrev pub jose_of : List (Json ℤ) → JoseOps (Json ℤ)
jose_of docs = record {
  b64u_encode = λ s. s;
  b64u_decode = λ s. some s;
  dumps = printed;
  loads = read_from docs;
  sign_raw = λ key payload. key;
  verify_raw = λ key payload sig. sig == key;
  sha256 = without_marks;
}

abbrev pub field : String → Json ℤ → Members ℤ → Members ℤ
field k v ms = member (text k) v ms

abbrev pub amount : ℕ → Json ℤ
amount n = object (field "value_usd" (number (pos n)) (field "currency" (text "USD") end))

abbrev pub tea : Purchase ℤ
tea = record {
  payment_amount = amount 4;
  payee = object (field "id" (text "shop-a") end);
  line_items = array (cons (text "tea") nil);
}

abbrev pub answers_to : Binding ℤ
answers_to = record { closed_iat = pos 5; nonce = "n-1"; aud = "aegis" }

-- a constraint on the amount
abbrev pub ceiling : Json ℤ
ceiling = object (field "type" (text "ceiling") (field "max" (number (pos 100)) end))

abbrev pub steady : Randomness ℤ
steady = record { urandom = λ n size. tally (suc n); shuffle = λ n xs. xs }

abbrev value_in : Json ℤ → ℤ
value_in (object (member k (number n) ms)) = n
value_in _ = pos 0

abbrev within : Outcome (Json ℤ) → Outcome (Ruling ℤ)
within (raised e) = raised e
within (done paid) = done (record { ok = leb_ℤ (value_in paid) (pos 100); type = text "ceiling" })

abbrev pub ceiling_rule : Rule ℤ
ceiling_rule c closed facts = within (get "payment_amount" closed)

abbrev pub verifying : VerifyContext ℤ
verifying = record {
  now = pos 6;
  nonce = "n-1";
  registry = ("ceiling", ceiling_rule) ∷ [];
  issuer_resolver = λ iss. done (some "issuer");
  executed_fx_rate = none;
  velocity_observed = null;
}

abbrev pub built_with : JoseOps (Json ℤ) → Outcome (Chain ℤ)
built_with jose =
    build_chain jose steady ("issuer", "issuer") ("agent", "agent") "merchant" (ceiling ∷ [])
      ("shop-a" ∷ "shop-b" ∷ []) tea (pos 2) answers_to 1 1 none

abbrev pub chain_of : Outcome (Chain ℤ) → List String × String
chain_of (raised e) = ([], "")
chain_of (done c) = (as_list c, c.checkout_jwt)

-- The documents of the chain that is built.
abbrev pub header_of : String → Json ℤ
header_of typ = object (field "typ" (text typ) (field "alg" (text "EdDSA") end))

abbrev slot : String → Json ℤ
slot hash = object (field "..." (text hash) end)

abbrev pub open_doc : Json ℤ
open_doc = object (
    field "iss" (text "did:issuer:trusted-surface") (
      field "iat" (number (pos 2)) (
        field "cnf"
          (object (
            field "jwk"
              (object (
                field "kty" (text "OKP")
                  (field "crv" (text "Ed25519") (field "x" (text "agent") end))))
              end))
          (field "constraints" (array (cons ceiling nil)) (
            field "_sd" (array (cons (text "i") nil)) (
              field "allowed_merchants"
                (array (
                  cons (slot "['ii','shop-a',]")
                    (cons (slot "['iii','shop-b',]") (cons (slot "iiii") nil))))
                end))))))

abbrev compact : Json ℤ → Json ℤ → String → String
compact header payload key = printed header ++ "." ++ printed payload ++ "." ++ key

abbrev pub checkout_doc : Json ℤ
checkout_doc = object (
    field "merchant" tea.payee (
      field "line_items" tea.line_items
        (field "amount" tea.payment_amount (field "iat" (number (pos 5)) end))))

abbrev hash_named : String → Json ℤ → String → String
hash_named typ doc key = without_marks (compact (header_of typ) doc key)

abbrev pub closed_doc : Json ℤ
closed_doc = object (
    field "iss" (text "did:agent:shopping") (
      field "iat" (number (pos 5)) (
        field "open_iat" (number (pos 2)) (
          field "constraints" (array (cons ceiling nil)) (
            field "sd_hash" (text (hash_named "open-mandate+sd-jwt" open_doc "issuer")) (
              field "checkout_hash" (text (hash_named "checkout+jwt" checkout_doc "merchant")) (
                field "payment_amount" tea.payment_amount
                  (field "payee" tea.payee (field "line_items" tea.line_items end)))))))))

abbrev pub kb_doc : Json ℤ
kb_doc = object (
    field "nonce" (text "n-1") (
      field "aud" (text "aegis") (
        field "iat" (number (pos 5))
          (field "sd_hash" (text (hash_named "closed-mandate+sd-jwt" closed_doc "agent~")) end))))

abbrev disclosed_shop : String → String → Json ℤ
disclosed_shop salt shop = array (cons (text salt) (cons (text shop) nil))

abbrev pub documents : List (Json ℤ)
documents =
    header_of "open-mandate+sd-jwt"
    ∷ header_of "closed-mandate+sd-jwt"
    ∷ header_of "checkout+jwt"
    ∷ header_of "kb+jwt"
    ∷ open_doc
    ∷ closed_doc
    ∷ checkout_doc
    ∷ kb_doc
    ∷ disclosed_shop "ii" "shop-a"
    ∷ disclosed_shop "iii" "shop-b"
    ∷ []

abbrev pub toy : JoseOps (Json ℤ)
toy = jose_of documents

abbrev pub open_text : String
open_text =
    compact (header_of "open-mandate+sd-jwt") open_doc "issuer"
    ++ "~['ii','shop-a',]~['iii','shop-b',]~"

abbrev pub closed_text : String
closed_text =
    compact (header_of "closed-mandate+sd-jwt") closed_doc "agent"
    ++ "~"
    ++ compact (header_of "kb+jwt") kb_doc "agent"

abbrev pub checkout_text : String
checkout_text = compact (header_of "checkout+jwt") checkout_doc "merchant"

-- what the open mandate discloses
abbrev pub open_claimed : Json ℤ
open_claimed = object (
    field "iss" (text "did:issuer:trusted-surface") (
      field "iat" (number (pos 2)) (
        field "cnf"
          (object (
            field "jwk"
              (object (
                field "kty" (text "OKP")
                  (field "crv" (text "Ed25519") (field "x" (text "agent") end))))
              end))
          (field "constraints" (array (cons ceiling nil)) (
            field "allowed_merchants" (array (cons (text "shop-a") (cons (text "shop-b") nil)))
              end)))))
