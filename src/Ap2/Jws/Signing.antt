-- ===== src/Ap2/Jws/Signing.antt =====
-- A signed JWS parses to what was signed, and verifies.
use Prim.Native.String.{◌++◌}
use text.Mathlib.TextLemmas.{append_assoc}
use finance.Base.{String, true, some, [], ◌∷◌, ◌≡◌, refl, ap, ◌∙◌}
use finance.Ap2.Jws.{JoseOps, sign_jws, parse_jws, verify_jws, verified}
use finance.Ap2.Text.{split_on, is_free, split_on-join, join}

-- base64url of this text has no dot, and decodes to it.
abbrev pub Encodes : {J : Type 0} → JoseOps J → String → Type 0
Encodes jose s =
    (is_free b'.' (jose.b64u_encode s) ≡ true) × (jose.b64u_decode (jose.b64u_encode s) ≡ some s)

three_parts :
    (a b c : String)
    → is_free b'.' a ≡ true
    → is_free b'.' b ≡ true
    → is_free b'.' c ≡ true
    → split_on b'.' ((a ++ ("." ++ b)) ++ ("." ++ c)) ≡ a ∷ b ∷ c ∷ []
unfolding join
three_parts a b c p q r =
    ap (split_on b'.') (append_assoc a ("." ++ b) ("." ++ c))
    ∙ ap (λ t. split_on b'.' (a ++ t)) (append_assoc "." b ("." ++ c))
    ∙ split_on-join b'.' "." a (b ∷ c ∷ []) refl (p, (q, (r, tt)))

module _ {J : Type 0} (jose : JoseOps J) where
  -- what `sign_jws` signs
  abbrev pub signing_input : J → J → String
  signing_input header payload =
      jose.b64u_encode (jose.dumps header) ++ ("." ++ jose.b64u_encode (jose.dumps payload))

  -- The three parts of a JWS for this header and payload under this key.
  abbrev pub CanSign : J → J → String → Type 0
  CanSign header payload key =
      Encodes jose (jose.dumps header)
      × Encodes jose (jose.dumps payload)
      × Encodes jose (jose.sign_raw key (signing_input header payload))

  -- A signed JWS parses to its header, its payload, what was signed and the signature, if
  -- base64url decodes what it has encoded, without a dot, and JSON reads what it has written.
  pub parse_jws-sign_jws :
      (header payload h p : J) (key : String)
      → CanSign header payload key
      → jose.loads (jose.dumps header) ≡ some h
      → jose.loads (jose.dumps payload) ≡ some p
      → parse_jws jose (sign_jws jose header payload key)
        ≡ some
            (h, p, signing_input header payload, jose.sign_raw key (signing_input header payload))
  unfolding sign_jws parse_jws
  parse_jws-sign_jws header payload h p key (ch, cp, cs) read_h read_p =
      let split =
        three_parts (jose.b64u_encode (jose.dumps header)) (jose.b64u_encode (jose.dumps payload))
          (jose.b64u_encode (jose.sign_raw key (signing_input header payload))) ch.0 cp.0 cs.0 in
      rw split (rw (ch.1, cp.1, cs.1) (rw (read_h, read_p) refl))

  -- It verifies under the key's public half, if a signature does.
  pub verify_jws-sign_jws :
      (header payload h p : J) (key public_raw : String)
      → CanSign header payload key
      → jose.loads (jose.dumps header) ≡ some h
      → jose.loads (jose.dumps payload) ≡ some p
      → jose.verify_raw public_raw
          (signing_input header payload)
          (jose.sign_raw key (signing_input header payload))
        ≡ true
      → verify_jws jose (sign_jws jose header payload key) public_raw ≡ true
  unfolding verify_jws
  verify_jws-sign_jws header payload h p key public_raw can read_h read_p good =
      ap (verified jose public_raw) (parse_jws-sign_jws header payload h p key can read_h read_p)
      ∙ good
