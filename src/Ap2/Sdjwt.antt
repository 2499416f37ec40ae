-- ===== src/Ap2/Sdjwt.antt =====
-- The container of aegis/ap2/sdjwt.py: an issuer's JWT, disclosures and a Key-Binding JWT, joined by
-- tildes; its hashes; public keys as JWKs; the Key-Binding JWT.
pub mod Container
use Prim.Native.String.{◌++◌}
use finance.Base.{
  String, Bool, true, false, not, Option, none, some, List, [], ◌∷◌, map, filter, ◌==◌, ◌&&◌, ◌||◌,
  if◌then◌else◌, contains,
}
use finance.Base.Int.{ℤ}
use finance.Pipeline.Context.{Outcome, done, raised}
use finance.Ap2.Text.{split_on, join, is_ascii}
use finance.Ap2.Json.{
  Numbers, Json, null, number, text, array, object, nil, cons, end, member, get, same_json, find,
  elements, items,
}
use finance.Ap2.Jws.{JoseOps, sign_jws, parse_jws, verify_jws}

pub record Sdjwt : Type 0 where
  pub issuer_jwt : String
  pub disclosures : List String
  pub kb_jwt : Option String

-- `"~".join([issuer_jwt, *disclosures]) + "~"`
unfoldable pub presentation_without_kb : Sdjwt → String
presentation_without_kb sd = join "~" sd.issuer_jwt sd.disclosures ++ "~"

-- an empty KB-JWT adds nothing either
abbrev pub kb_text : Option String → String
kb_text none = ""
kb_text (some kb) = kb

unfoldable pub serialize : Sdjwt → String
serialize sd = presentation_without_kb sd ++ kb_text sd.kb_jwt

-- What stands before the last segment, and the last segment itself.
abbrev pub before_last : String → List String → List String
before_last s [] = []
before_last s (t ∷ ts) = s ∷ before_last t ts

abbrev pub last : String → List String → String
last s [] = s
last s (t ∷ ts) = last t ts

abbrev pub kb_segment : String → Option String
kb_segment String.[] = none
kb_segment kb = some kb

abbrev pub non_empty : String → Bool
non_empty s = not (s == "")

-- the segments after the issuer's JWT: a last one that is not empty is the KB-JWT
abbrev pub of_segments : List String → Sdjwt
of_segments [] = record { issuer_jwt = ""; disclosures = []; kb_jwt = none }
of_segments (issuer ∷ []) = record { issuer_jwt = issuer; disclosures = []; kb_jwt = none }
of_segments (issuer ∷ s ∷ rest) = record {
  issuer_jwt = issuer;
  disclosures = filter non_empty (before_last s rest);
  kb_jwt = kb_segment (last s rest);
}

unfoldable pub parse : String → Sdjwt
parse s = of_segments (split_on b'~' s)

-- `s.encode("ascii")`, then what is done with it
abbrev pub encoded : {A : Type 0} → String → (String → A) → Outcome A
encoded s f = if is_ascii s then done (f s) else raised "UnicodeEncodeError"

abbrev pub or_raise : {A B : Type 0} → String → Option A → (A → B) → Outcome B
or_raise e none f = raised e
or_raise e (some a) f = done (f a)

module _ {N : Type 0} ⦃ns : Numbers N⦄ (jose : JoseOps (Json N)) where
  unfoldable pub sha256_b64u : String → String
  sha256_b64u s = jose.b64u_encode (jose.sha256 s)

  unfoldable pub payload : Sdjwt → Outcome (Json N)
  payload sd = or_raise "ValueError" (parse_jws jose sd.issuer_jwt) (λ parts. parts.1)

  unfoldable pub header : Sdjwt → Outcome (Json N)
  header sd = or_raise "ValueError" (parse_jws jose sd.issuer_jwt) (λ parts. parts.0)

  unfoldable pub sd_hash : Sdjwt → Outcome String
  sd_hash sd = encoded (presentation_without_kb sd) sha256_b64u

  unfoldable pub issuer_hash : Sdjwt → Outcome String
  issuer_hash sd = encoded sd.issuer_jwt sha256_b64u

  unfoldable pub jwk_from_public : String → Json N
  jwk_from_public pub_raw = object (
      member (text "kty") (text "OKP") (
        member (text "crv") (text "Ed25519")
          (member (text "x") (text (jose.b64u_encode pub_raw)) end)))

  abbrev decoded : Json N → Option String
  decoded (text x) = jose.b64u_decode x
  decoded _ = none

  -- `none` where the code raises
  unfoldable pub public_raw_from_jwk : Json N → Option String
  public_raw_from_jwk (object ms) =
      if not (same_json (find "kty" null ms) (text "OKP"))
        || not (same_json (find "crv" null ms) (text "Ed25519"))
      then none
      else decoded (find "x" null ms)
  public_raw_from_jwk _ = none

  -- `sign_jws` of a header without `alg`, which it adds at the end
  abbrev pub typed_header : String → Json N
  typed_header typ =
      object (member (text "typ") (text typ) (member (text "alg") (text "EdDSA") end))

  unfoldable pub kb_payload : String → String → N → String → Json N
  kb_payload nonce aud iat hash = object (
      member (text "nonce") (text nonce) (
        member (text "aud") (text aud)
          (member (text "iat") (number iat) (member (text "sd_hash") (text hash) end))))

  unfoldable pub make_kb_jwt : String → String → String → N → String → String
  make_kb_jwt holder_key nonce aud iat hash =
      sign_jws jose (typed_header "kb+jwt") (kb_payload nonce aud iat hash) holder_key

  abbrev pub member_is : String → String → Json N → Bool
  member_is k s (object ms) = same_json (find k null ms) (text s)
  member_is k s _ = false

  abbrev pub under_key : String → Option String → Bool
  under_key kb none = false
  under_key kb (some public_raw) = verify_jws jose kb public_raw

  abbrev pub kb_checked :
      String → Json N → String → String → Option (Json N × Json N × String × String) → Bool
  kb_checked kb cnf_jwk expected_nonce expected_hash none = false
  kb_checked kb cnf_jwk expected_nonce expected_hash (some (h, p, _, _)) =
      member_is "typ" "kb+jwt" h
      && (member_is "nonce" expected_nonce p
          && (member_is "sd_hash" expected_hash p && under_key kb (public_raw_from_jwk cnf_jwk)))

  -- whatever raises gives False
  unfoldable pub verify_kb_jwt : String → Json N → String → String → Bool
  verify_kb_jwt kb cnf_jwk expected_nonce expected_hash =
      kb_checked kb cnf_jwk expected_nonce expected_hash (parse_jws jose kb)
