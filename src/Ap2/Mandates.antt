-- ===== src/Ap2/Mandates.antt =====
-- aegis/ap2/mandates.py: open and closed mandates, and a whole chain of both.
use finance.Base.{ℕ, String, Option, none, some, List, [], ◌∷◌, map, if◌then◌else◌}
use finance.Pipeline.Context.{Outcome, done, raised}
use finance.Ap2.Json.{
  Numbers, Json, number, text, array, object, Members, end, member, items, truthy,
}
use finance.Ap2.Jws.{JoseOps, sign_jws}
use finance.Ap2.Sdjwt.{
  Sdjwt, serialize, encoded, sha256_b64u, sd_hash, issuer_hash, jwk_from_public, typed_header,
  make_kb_jwt,
}
use finance.Ap2.Disclosures.{Disclosure}
use finance.Ap2.Issuance.{Randomness, issue_sd_jwt}

pub record Chain (N : Type 0) : Type 0 where
  pub open_m : Sdjwt
  pub closed_m : Sdjwt
  pub issuer_pub : String
  pub agent_key : String
  pub agent_jwk : Json N
  pub checkout_jwt : String
  pub nonce : String
  pub aud : String
  pub open_iat : N
  pub closed_iat : N
  pub merchant_disclosures : List (Disclosure N)

unfoldable pub as_list : {N : Type 0} → Chain N → List String
as_list c = serialize c.open_m ∷ serialize c.closed_m ∷ []

infixl 5 ◌>>=◌
abbrev pub ◌>>=◌ : {A B : Type 0} → Outcome A → (A → Outcome B) → Outcome B
done a >>= f = f a
raised e >>= f = raised e

-- What a closed mandate is built from, beside the open one.
pub record Purchase (N : Type 0) : Type 0 where
  pub payment_amount : Json N
  pub payee : Json N
  pub line_items : Json N

-- who signs for, and whom the Key-Binding JWT answers
pub record Binding (N : Type 0) : Type 0 where
  pub closed_iat : N
  pub nonce : String
  pub aud : String

module _ {N : Type 0} ⦃ns : Numbers N⦄ (jose : JoseOps (Json N)) where
  unfoldable pub make_checkout_jwt : String → Json N → String
  make_checkout_jwt merchant_key checkout =
      sign_jws jose (typed_header jose "checkout+jwt") checkout merchant_key

  unfoldable pub open_claims : String → N → Json N → List (Json N) → Members N
  open_claims iss open_iat agent_jwk constraints = member (text "iss") (text iss) (
      member (text "iat") (number open_iat) (
        member (text "cnf") (object (member (text "jwk") agent_jwk end))
          (member (text "constraints") (array (items constraints)) end)))

  unfoldable pub build_open_mandate :
      Randomness N
      → String
      → String
      → N
      → Json N
      → List (Json N)
      → List String
      → ℕ
      → ℕ
      → Sdjwt × List (Disclosure N)
  build_open_mandate rand issuer_key iss open_iat agent_jwk constraints allowed_merchants decoys
        merchant_decoys =
      issue_sd_jwt jose rand issuer_key (open_claims iss open_iat agent_jwk constraints) []
        (("allowed_merchants", map text allowed_merchants) ∷ [])
        (member (text "typ") (text "open-mandate+sd-jwt") end) decoys
        (("allowed_merchants", merchant_decoys) ∷ [])

  -- `seal_closed`: signs a payload and attaches a Key-Binding JWT
  unfoldable pub seal_closed : Json N → String → Binding N → Outcome Sdjwt
  seal_closed payload key b =
      let closed : Sdjwt = record {
        issuer_jwt = sign_jws jose (typed_header jose "closed-mandate+sd-jwt") payload key;
        disclosures = [];
        kb_jwt = none;
      } in
      do
        hash ← sd_hash jose closed
        done
            (record closed { kb_jwt = some (make_kb_jwt jose key b.nonce b.aud b.closed_iat hash) })

  unfoldable pub closed_claims :
      String → N → N → List (Json N) → String → String → Purchase N → Json N
  closed_claims iss closed_iat open_iat constraints open_hash checkout_hash p = object (
      member (text "iss") (text iss) (
        member (text "iat") (number closed_iat) (
          member (text "open_iat") (number open_iat) (
            member (text "constraints") (array (items constraints)) (
              member (text "sd_hash") (text open_hash) (
                member (text "checkout_hash") (text checkout_hash) (
                  member (text "payment_amount") p.payment_amount (
                    member (text "payee") p.payee
                      (member (text "line_items") p.line_items end)))))))))

  unfoldable pub build_closed_mandate :
      String → String → Sdjwt → N → List (Json N) → String → Purchase N → Binding N → Outcome Sdjwt
  build_closed_mandate agent_key iss open_mandate open_iat constraints_canonical checkout_jwt p b =
      do
        opened ← issuer_hash jose open_mandate
        checkout_hash ← encoded checkout_jwt (sha256_b64u jose)
        seal_closed
            (closed_claims iss b.closed_iat open_iat constraints_canonical opened checkout_hash p)
            agent_key b

  -- the checkout that `build_chain` makes where it is given none
  unfoldable pub checkout_of : Purchase N → N → Json N
  checkout_of p closed_iat = object (
      member (text "merchant") p.payee (
        member (text "line_items") p.line_items
          (member (text "amount") p.payment_amount (member (text "iat") (number closed_iat) end))))

  -- `checkout or {...}`
  abbrev pub given_or : Option (Json N) → Json N → Json N
  given_or none default = default
  given_or (some c) default = if truthy c then c else default

  -- `build_chain` with the keys that `generate_keypair` gave it: private ones, and two public ones
  unfoldable pub build_chain :
      Randomness N
      → (String × String)
      → (String × String)
      → String
      → List (Json N)
      → List String
      → Purchase N
      → N
      → Binding N
      → ℕ
      → ℕ
      → Option (Json N)
      → Outcome (Chain N)
  build_chain rand (issuer_key, issuer_pub) (agent_key, agent_pub) merchant_key constraints
        allowed_merchants p open_iat b decoys merchant_decoys checkout =
      let agent_jwk = jwk_from_public jose agent_pub in
      let (open_m, discs) =
        build_open_mandate rand issuer_key "did:issuer:trusted-surface" open_iat agent_jwk
          constraints allowed_merchants decoys merchant_decoys in
      let checkout_jwt =
        make_checkout_jwt merchant_key (given_or checkout (checkout_of p b.closed_iat)) in
      do
        closed_m ←
            build_closed_mandate agent_key "did:agent:shopping" open_m open_iat constraints
              checkout_jwt p b
        done (record {
          open_m = open_m;
          closed_m = closed_m;
          issuer_pub = issuer_pub;
          agent_key = agent_key;
          agent_jwk = agent_jwk;
          checkout_jwt = checkout_jwt;
          nonce = b.nonce;
          aud = b.aud;
          open_iat = open_iat;
          closed_iat = b.closed_iat;
          merchant_disclosures = discs;
        })
