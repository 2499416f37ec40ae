-- ===== src/Ap2/Verifier/Signed.antt =====
-- What each check of the credentials of a delegation chain says, once it has passed.
use finance.Base.{ℕ, String, true, some, ◌≡◌, ap, ◌∙◌, subst}
use finance.Pipeline.Context.{done}
use finance.Ap2.Json.{Numbers, Json, text, object, end, get_or, get, truthy, same_json}
use finance.Ap2.Jws.{JoseOps, verify_jws}
use finance.Ap2.Sdjwt.{Sdjwt, sd_hash, public_raw_from_jwk, verify_kb_jwt}
use finance.Ap2.Disclosures.{disclose}
use finance.Ap2.Verifier.{
  VerifyContext, Step, go, ◌>>◌, same_member, issuer_signed, holder_signed, disclosed,
}
use finance.Ap2.Verifier.Steps.{>>=-go, require-go, call-go, present_or-go, require-go_last}

module _ {N : Type 0} ⦃ns : Numbers N⦄ where
  -- Both members can be read, and are equal.
  abbrev pub Agree : String → Json N → String → Json N → Type 0
  Agree k a j b =
      (v : Json N) × (w : Json N) × (get k a ≡ done v) × (get j b ≡ done w) × (same_json v w ≡ true)

  -- The member can be read, and is this text.
  abbrev pub Names : String → Json N → String → Type 0
  Names k a s = (v : Json N) × (get k a ≡ done v) × (same_json v (text s) ≡ true)

  pub same_member-Agree :
      {B : Type 0} (k j code : String) (a b : Json N) (next : Step B) {r : B}
      → (same_member k a j b code >> next) ≡ go r
      → Agree k a j b × (next ≡ go r)
  same_member-Agree k j code a b next h =
      let (_, met, rest) = >>=-go (same_member k a j b code) (λ _. next) h in
      let (v, left, met') = call-go (get k a) _ met in
      let (w, right, met'') = call-go (get j b) _ met' in
      ((v, w, left, right, require-go_last _ code met''), rest)

  pub same_member-Agree_last :
      (k j code : String) (a b : Json N) {u : Unit {0}}
      → same_member k a j b code ≡ go u
      → Agree k a j b
  same_member-Agree_last k j code a b h =
      let (v, left, h1) = call-go (get k a) _ h in
      let (w, right, h2) = call-go (get j b) _ h1 in (v, w, left, right, require-go_last _ code h2)

module _ {N : Type 0} ⦃ns : Numbers N⦄ (jose : JoseOps (Json N)) (frames : ℕ)
    (ctx : VerifyContext N) where
  -- The open mandate has a resolved issuer, under whose key its JWT verifies.
  abbrev pub IsIssued : Sdjwt → Json N → Type 0
  IsIssued open_m open_payload =
      (iss : Json N) × (key : String) × (get_or "iss" (text "") open_payload ≡ done iss)
      × (ctx.issuer_resolver iss ≡ done (some key))
      × (verify_jws jose open_m.issuer_jwt key ≡ true)

  -- The key that the open mandate endorses, under which the closed mandate's JWT verifies.
  abbrev pub IsHeld : Json N → Sdjwt → Json N → Type 0
  IsHeld open_payload closed_m cnf =
      (holder : Json N) × (key : String) × (get_or "cnf" (object end) open_payload ≡ done holder)
      × (get "jwk" holder ≡ done cnf)
      × (public_raw_from_jwk jose cnf ≡ some key)
      × (verify_jws jose closed_m.issuer_jwt key ≡ true)

  abbrev pub IsDisclosed : Sdjwt → Type 0
  IsDisclosed sd = (claims : Json N) × (disclose jose frames sd ≡ done (claims, true))

  -- The Key-Binding JWT verifies under the endorsed key for this nonce and this presentation.
  abbrev pub IsKeyBound : Sdjwt → Json N → Type 0
  IsKeyBound closed_m cnf =
      (kb : String) × (hash : String) × (closed_m.kb_jwt ≡ some kb)
      × (sd_hash jose closed_m ≡ done hash)
      × (verify_kb_jwt jose kb cnf ctx.nonce hash ≡ true)

  pub issuer_signed-IsIssued :
      (open_m : Sdjwt) (open_payload : Json N) {u : Unit {0}}
      → issuer_signed jose frames ctx open_m open_payload ≡ go u
      → IsIssued open_m open_payload
  unfolding issuer_signed
  issuer_signed-IsIssued open_m open_payload h =
      let (iss, read, h1) = call-go (get_or "iss" (text "") open_payload) _ h in
      let (found, resolved, h2) = call-go (ctx.issuer_resolver iss) _ h1 in
      let (key, known, h3) = present_or-go "invalid_credential" found _ h2 in
      (iss, key, read, rw (← known) resolved, require-go_last _ "invalid_credential" h3)

  pub holder_signed-IsHeld :
      (open_payload : Json N) (closed_m : Sdjwt) (cnf : Json N)
      → holder_signed jose frames open_payload closed_m ≡ go cnf
      → IsHeld open_payload closed_m cnf
  unfolding holder_signed
  holder_signed-IsHeld open_payload closed_m cnf h =
      let (holder, read, h1) = call-go (get_or "cnf" (object end) open_payload) _ h in
      let (jwk, named, h2) = call-go (get "jwk" holder) _ h1 in
      let (full, h3) = require-go (truthy jwk) "invalid_credential" _ h2 in
      let (key, known, h4) =
        present_or-go "invalid_credential" (public_raw_from_jwk jose jwk) _ h3 in
      let (good, h5) =
        require-go (verify_jws jose closed_m.issuer_jwt key) "invalid_credential" (go jwk) h4 in
      let same : jwk ≡ cnf = cc h5 in
      subst (IsHeld open_payload closed_m) same (holder, key, read, named, known, good)

  pub disclosed-IsDisclosed :
      (sd : Sdjwt) (claims : Json N) → disclosed jose frames sd ≡ go claims → IsDisclosed sd
  unfolding disclosed
  disclosed-IsDisclosed sd claims h =
      let (answer, got, h1) = call-go (disclose jose frames sd) _ h in
      let (fine, _) = require-go answer.1 "invalid_credential" (go answer.0) h1 in
      (answer.0, got ∙ ap (λ b. done (answer.0, b)) fine)
