-- ===== src/Ap2/Verifier/Sound.antt =====
-- What a delegation chain that verifies is worth.
use finance.Base.{ℕ, String, Bool, true, some, List, ◌∷◌, All, ◌≡◌, refl, sym, ap, ◌∙◌, arith}
use finance.Pipeline.Context.{done}
use finance.Ap2.Json.{Numbers, Json, array, nil, get_or}
use finance.Ap2.Jws.{JoseOps}
use finance.Ap2.Sdjwt.{last}
use finance.Ap2.Disclosures.{disclose}
use finance.Ap2.Verifier.{
  Ruling, VerifyContext, VerifyResult, constraint_ctx, Step, go, fail, crash, Credentials,
  credentials, locked, bound, checked_out, constrained, passed, answered, steps, constraints_in,
  verify_delegation_chain,
}
use finance.Ap2.Verifier.Steps.{>>=-go}
use finance.Ap2.Verifier.Rules.{IsRuled, evaluate-IsRuled}
use finance.Ap2.Verifier.Signed.{Agree, IsKeyBound}
use finance.Ap2.Verifier.Authorized.{
  IsAccepted, IsRebound, IsCheckedOut, IsConstrained, credentials-IsAccepted, locked-Agree,
  bound-IsKeyBound, checked_out-IsCheckedOut, constrained-IsConstrained,
}

module _ {N : Type 0} ⦃ns : Numbers N⦄ (jose : JoseOps (Json N)) (frames : ℕ)
    (ctx : VerifyContext N) where
  -- Each constraint of the closed mandate has a registered verifier that passes it, with the
  -- merchants that the open mandate discloses.
  abbrev pub AllRuled : Credentials N → Type 0
  AllRuled c =
      (answer : Json N × Bool) × (merchants : Json N) × (cs : List (Json N)) × (disclose jose frames
          c.open_m
        ≡ done answer)
      × (get_or "allowed_merchants" (array nil) answer.0 ≡ done merchants)
      × (constraints_in (get_or "constraints" (array nil) c.closed_payload) ≡ done cs)
      × All (IsRuled ctx.registry c.closed_payload (constraint_ctx ctx merchants)) cs

  -- Everything that a verified chain rests on.
  pub record IsAuthorized (first final jwt : String) (c : Credentials N) : Type 0 where
    pub accepted : IsAccepted jose frames ctx first final c
    pub constraints_kept : Agree "constraints" c.open_payload "constraints" c.closed_payload
    pub iat_linked : Agree "open_iat" c.closed_payload "iat" c.open_payload
    pub key_bound : IsKeyBound jose frames ctx c.closed_m c.cnf
    pub rebound : IsRebound jose frames ctx c.open_m c.closed_payload
    pub checkout : Json N
    pub checked : IsCheckedOut jose frames ctx jwt c.closed_payload checkout
    pub ruled : AllRuled c

  IsConstrained-AllRuled :
      (c : Credentials N) (results : List (Ruling N))
      → IsConstrained jose frames ctx c results
      → AllRuled c
  IsConstrained-AllRuled c results (answer, merchants, read, named, evaluated, fine) =
      let (cs, listed, ruled) =
        evaluate-IsRuled ctx.registry c.closed_payload (constraint_ctx ctx merchants) results
          evaluated fine in
      (answer, merchants, cs, read, named, listed, ruled)

  steps-IsAuthorized :
      (first final jwt : String) {found : Json N × List (Ruling N)}
      → steps jose frames ctx first final jwt ≡ go found
      → (c : Credentials N) × (c.closed_payload ≡ found.0) × IsAuthorized first final jwt c
  steps-IsAuthorized first final jwt h =
      let (c, met, h1) = >>=-go (credentials jose frames ctx first final) _ h in
      let (_, kept, h2) = >>=-go (locked jose frames c) _ h1 in
      let (_, held, h3) = >>=-go (bound jose frames ctx c) _ h2 in
      let (_, paid, h4) = >>=-go (checked_out jose frames jwt c) _ h3 in
      let (results, ruled, h5) = >>=-go (constrained jose frames ctx c) _ h4 in
      let (constraints, iat) = locked-Agree jose frames ctx c kept in
      let (key, open_hash) = bound-IsKeyBound jose frames ctx c held in
      let (checkout, checked) = checked_out-IsCheckedOut jose frames ctx jwt c paid in
      (
        c,
        cc h5,
        record {
          accepted = credentials-IsAccepted jose frames ctx first final c met;
          constraints_kept = constraints;
          iat_linked = iat;
          key_bound = key;
          rebound = open_hash;
          checkout = checkout;
          checked = checked;
          ruled =
              IsConstrained-AllRuled c results
                (constrained-IsConstrained jose frames ctx c results ruled);
        },
      )

  answered-go :
      (s : Step (Json N × List (Ruling N))) (r : VerifyResult N)
      → answered s ≡ done r
      → r.ok ≡ true
      → (found : Json N × List (Ruling N)) × (s ≡ go found) × (r ≡ passed found)
  answered-go (go found) r h fine = (found, refl, cc h)
  answered-go (fail code) r h fine = absurd (ground (arith, h, fine))
  answered-go (crash e) r h fine = absurd (ground (arith, h))

  pub verify_delegation_chain-IsAuthorized :
      (first second : String) (rest : List String) (jwt : String) (r : VerifyResult N)
      → verify_delegation_chain jose frames (first ∷ second ∷ rest) jwt ctx ≡ done r
      → r.ok ≡ true
      → (c : Credentials N) × (r.closed_payload ≡ some c.closed_payload)
        × IsAuthorized first (last second rest) jwt c
  unfolding verify_delegation_chain
  verify_delegation_chain-IsAuthorized first second rest jwt r h fine =
      let (found, went, same) =
        answered-go (steps jose frames ctx first (last second rest) jwt) r h fine in
      let (c, mine, authorized) = steps-IsAuthorized first (last second rest) jwt went in
      (c, ap (λ (v : VerifyResult N). v.closed_payload) same ∙ ap some (sym mine), authorized)
