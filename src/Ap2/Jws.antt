-- ===== src/Ap2/Jws.antt =====
-- The JWS part of aegis/ap2/sdjwt.py: header, payload and signature, joined by dots.
pub mod Signing
use Prim.Native.String.{◌++◌}
use finance.Base.{String, Bool, false, Option, none, some, List, [], ◌∷◌}
use finance.Ap2.Text.{split_on}

-- base64url, JSON, Ed25519 and SHA-256: decoding fails where Python raises.
pub record JoseOps (J : Type 0) : Type 0 where
  pub b64u_encode : String → String
  pub b64u_decode : String → Option String
  pub dumps : J → String
  pub loads : String → Option J
  pub sign_raw : String → String → String
  pub verify_raw : String → String → String → Bool
  -- the digest of `hashlib.sha256`, as bytes
  pub sha256 : String → String

module _ {J : Type 0} (jose : JoseOps J) where
  -- the header already has its `alg`
  unfoldable pub sign_jws : J → J → String → String
  sign_jws header payload private_key =
      let signing_input =
        jose.b64u_encode (jose.dumps header) ++ ("." ++ jose.b64u_encode (jose.dumps payload)) in
      signing_input ++ ("." ++ jose.b64u_encode (jose.sign_raw private_key signing_input))

  abbrev both : Option String → Option J
  both none = none
  both (some text) = jose.loads text

  abbrev assembled : Option J → Option J → String → Option String → Option (J × J × String × String)
  assembled (some header) (some payload) signing_input (some sig) =
      some (header, payload, signing_input, sig)
  assembled _ _ signing_input _ = none

  abbrev from_parts : List String → Option (J × J × String × String)
  from_parts (h ∷ p ∷ s ∷ []) =
      assembled (both (jose.b64u_decode h)) (both (jose.b64u_decode p)) (h ++ ("." ++ p))
        (jose.b64u_decode s)
  from_parts _ = none

  -- header, payload, signing input and signature; `none` where the code raises
  unfoldable pub parse_jws : String → Option (J × J × String × String)
  parse_jws compact = from_parts (split_on b'.' compact)

  abbrev verified : String → Option (J × J × String × String) → Bool
  verified public_raw none = false
  verified public_raw (some (header, payload, signing_input, sig)) =
      jose.verify_raw public_raw signing_input sig

  unfoldable pub verify_jws : String → String → Bool
  verify_jws compact public_raw = verified public_raw (parse_jws compact)
