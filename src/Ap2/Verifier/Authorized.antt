-- ===== src/Ap2/Verifier/Authorized.antt =====
-- What a verified delegation chain has: each signature, each binding, and each constraint.
use finance.Base.{ℕ, String, Bool, true, List, all, ◌≡◌, refl, sym, ap, ◌∙◌, subst}
use finance.Pipeline.Context.{done}
use finance.Ap2.Json.{Numbers, Json, text, array, nil, get_or, get, same_json}
use finance.Ap2.Jws.{JoseOps, parse_jws}
use finance.Ap2.Sdjwt.{
  Sdjwt, parse, payload, encoded, sha256_b64u, sd_hash, issuer_hash, verify_kb_jwt, or_raise,
}
use finance.Ap2.Disclosures.{disclose}
use finance.Ap2.Verifier.{
  Ruling, VerifyContext, constraint_ctx, go, evaluate, Credentials, issuer_signed, holder_signed,
  disclosed, credentials, locked, bound, checked_out, constrained,
}
use finance.Ap2.Verifier.Steps.{
  >>=-go, require-go, call-go, attempt-go, present_or-go, require-go_last,
}
use finance.Ap2.Verifier.Signed.{
  Agree, Names, same_member-Agree, same_member-Agree_last, IsIssued, IsHeld, IsDisclosed,
  IsKeyBound, issuer_signed-IsIssued, holder_signed-IsHeld, disclosed-IsDisclosed,
}

module _ {N : Type 0} ⦃ns : Numbers N⦄ (jose : JoseOps (Json N)) (frames : ℕ)
    (ctx : VerifyContext N) where
  -- What the credentials of a chain are, once they are accepted.
  pub record IsAccepted (first final : String) (c : Credentials N) : Type 0 where
    pub open_m : c.open_m ≡ parse first
    pub closed_m : c.closed_m ≡ parse final
    pub opened : payload jose c.open_m ≡ done c.open_payload
    pub closed : payload jose c.closed_m ≡ done c.closed_payload
    pub issued : IsIssued jose frames ctx c.open_m c.open_payload
    pub held : IsHeld jose frames ctx c.open_payload c.closed_m c.cnf
    pub open_disclosed : IsDisclosed jose frames ctx c.open_m
    pub closed_disclosed : IsDisclosed jose frames ctx c.closed_m

  pub credentials-IsAccepted :
      (first final : String) (c : Credentials N)
      → credentials jose frames ctx first final ≡ go c
      → IsAccepted first final c
  unfolding credentials
  credentials-IsAccepted first final c h =
      let (open_payload, opened, h1) =
        attempt-go "invalid_credential" (payload jose (parse first)) _ h in
      let (closed_payload, closed, h2) =
        attempt-go "invalid_credential" (payload jose (parse final)) _ h1 in
      let (_, issuer, h3) =
        >>=-go (issuer_signed jose frames ctx (parse first) open_payload) _ h2 in
      let (cnf, holder, h4) = >>=-go (holder_signed jose frames open_payload (parse final)) _ h3 in
      let (claims, first_read, h5) = >>=-go (disclosed jose frames (parse first)) _ h4 in
      let (closed_claims, final_read, h6) = >>=-go (disclosed jose frames (parse final)) _ h5 in
      let made : Credentials N = record {
        open_m = parse first;
        closed_m = parse final;
        open_payload = open_payload;
        closed_payload = closed_payload;
        cnf = cnf;
      } in
      let same : made ≡ c = cc h6 in
      let accepted : IsAccepted first final made = record {
        open_m = refl;
        closed_m = refl;
        opened = opened;
        closed = closed;
        issued = issuer_signed-IsIssued jose frames ctx (parse first) open_payload issuer;
        held = holder_signed-IsHeld jose frames ctx open_payload (parse final) cnf holder;
        open_disclosed = disclosed-IsDisclosed jose frames ctx (parse first) claims first_read;
        closed_disclosed =
            disclosed-IsDisclosed jose frames ctx (parse final) closed_claims final_read;
      } in
      subst (IsAccepted first final) same accepted

  pub locked-Agree :
      (c : Credentials N) {u : Unit {0}}
      → locked jose frames c ≡ go u
      → Agree "constraints" c.open_payload "constraints" c.closed_payload
        × Agree "open_iat" c.closed_payload "iat" c.open_payload
  unfolding locked
  locked-Agree c h =
      let (first, h1) =
        same_member-Agree "constraints" "constraints" "invalid_mandate" c.open_payload
          c.closed_payload _ h in
      (
        first,
        same_member-Agree_last "open_iat" "iat" "invalid_mandate" c.closed_payload c.open_payload
            h1,
      )

  -- The closed mandate names the hash of the open mandate's JWT.
  abbrev pub IsRebound : Sdjwt → Json N → Type 0
  IsRebound open_m closed_payload =
      (hash : String) × (issuer_hash jose open_m ≡ done hash) × Names "sd_hash" closed_payload hash

  pub bound-IsKeyBound :
      (c : Credentials N) {u : Unit {0}}
      → bound jose frames ctx c ≡ go u
      → IsKeyBound jose frames ctx c.closed_m c.cnf × IsRebound c.open_m c.closed_payload
  unfolding bound
  bound-IsKeyBound c h =
      let (kb, there, h1) = present_or-go "invalid_credential" c.closed_m.kb_jwt _ h in
      let (hash, hashed, h2) = call-go (sd_hash jose c.closed_m) _ h1 in
      let (good, h3) =
        require-go (verify_kb_jwt jose kb c.cnf ctx.nonce hash) "invalid_credential" _ h2 in
      let (named, read, h4) = call-go (get "sd_hash" c.closed_payload) _ h3 in
      let (opened, hashed', h5) = call-go (issuer_hash jose c.open_m) _ h4 in
      (
        (kb, hash, there, hashed, good),
        (opened, hashed', (named, read, require-go_last _ "invalid_mandate" h5)),
      )

  -- The closed mandate names the hash of the merchant's checkout, and says what the checkout says.
  pub record IsCheckedOut (jwt : String) (closed_payload checkout : Json N) : Type 0 where
    pub hash : String
    pub hashed : encoded jwt (sha256_b64u jose) ≡ done hash
    pub named : Names "checkout_hash" closed_payload hash
    pub read : or_raise "ValueError" (parse_jws jose jwt) (λ parts. parts.1) ≡ done checkout
    pub amount : Agree "payment_amount" closed_payload "amount" checkout
    pub payee : Agree "payee" closed_payload "merchant" checkout
    pub line_items : Agree "line_items" closed_payload "line_items" checkout

  pub checked_out-IsCheckedOut :
      (jwt : String) (c : Credentials N) {u : Unit {0}}
      → checked_out jose frames jwt c ≡ go u
      → (checkout : Json N) × IsCheckedOut jwt c.closed_payload checkout
  unfolding checked_out
  checked_out-IsCheckedOut jwt c h =
      let (hash, hashed, h1) = call-go (encoded jwt (sha256_b64u jose)) _ h in
      let (named, read, h2) = call-go (get "checkout_hash" c.closed_payload) _ h1 in
      let (same, h3) = require-go (same_json named (text hash)) "invalid_mandate" _ h2 in
      let (checkout, parsed, h4) =
        attempt-go "invalid_mandate" (or_raise "ValueError" (parse_jws jose jwt) (λ parts. parts.1))
          _ h3 in
      let (amount, h5) =
        same_member-Agree "payment_amount" "amount" "invalid_mandate" c.closed_payload checkout _
          h4 in
      let (payee, h6) =
        same_member-Agree "payee" "merchant" "invalid_mandate" c.closed_payload checkout _ h5 in
      (
        checkout,
        record {
          hash = hash;
          hashed = hashed;
          named = (named, read, same);
          read = parsed;
          amount = amount;
          payee = payee;
          line_items =
              same_member-Agree_last "line_items" "line_items" "invalid_mandate" c.closed_payload
                checkout h6;
        },
      )

  -- Every constraint of the closed mandate was evaluated against the disclosed merchants, and passed.
  abbrev pub IsConstrained : Credentials N → List (Ruling N) → Type 0
  IsConstrained c results =
      (answer : Json N × Bool) × (merchants : Json N) × (disclose jose frames c.open_m
        ≡ done answer)
      × (get_or "allowed_merchants" (array nil) answer.0 ≡ done merchants)
      × (evaluate ctx.registry c.closed_payload (constraint_ctx ctx merchants) ≡ done results)
      × (all (λ r. r.ok) results ≡ true)

  pub constrained-IsConstrained :
      (c : Credentials N) (results : List (Ruling N))
      → constrained jose frames ctx c ≡ go results
      → IsConstrained c results
  unfolding constrained
  constrained-IsConstrained c results h =
      let (answer, read, h1) = call-go (disclose jose frames c.open_m) _ h in
      let (merchants, named, h2) = call-go (get_or "allowed_merchants" (array nil) answer.0) _ h1 in
      let (rulings, evaluated, h3) =
        call-go (evaluate ctx.registry c.closed_payload (constraint_ctx ctx merchants)) _ h2 in
      let (fine, h4) =
        require-go (all (λ r. r.ok) rulings) "unresolved_constraint" (go rulings) h3 in
      let same : rulings ≡ results = cc h4 in
      (
        answer,
        merchants,
        read,
        named,
        evaluated ∙ ap done same,
        sym (ap (all (λ (r : Ruling N). r.ok)) same) ∙ fine,
      )
