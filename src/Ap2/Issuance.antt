-- ===== src/Ap2/Issuance.antt =====
-- Issuing an SD-JWT, in aegis/ap2/sdjwt.py: `issue_sd_jwt`. What `os.urandom` and `random.shuffle`
-- give at their n-th call is a parameter.
use Prim.Native.Char.{code}
use finance.Base.{
  ℕ, zero, suc, ◌+◌, String, Bool, true, false, none, some, List, [], ◌∷◌, ◌++◌, map, ltb, leb,
  ◌&&◌, ◌||◌, if◌then◌else◌,
}
use finance.Base.Dict.{Dict, lookup}
use finance.Ap2.Json.{Numbers, Json, text, array, object, Members, end, member, items, has_key, put}
use finance.Ap2.Jws.{JoseOps, sign_jws}
use finance.Ap2.Sdjwt.{Sdjwt, sha256_b64u}
use finance.Ap2.Disclosures.{Disclosure, make_object_disclosure, make_array_disclosure, digest}

pub record Randomness (N : Type 0) : Type 0 where
  -- the bytes of the n-th call, which asks for so many
  pub urandom : ℕ → ℕ → String
  pub shuffle : ℕ → List (Json N) → List (Json N)

-- `a <= b`, by code points
abbrev at_most : String → String → Bool
at_most String.[] b = true
at_most (String.◌∷◌ c s) String.[] = false
at_most (String.◌∷◌ c s) (String.◌∷◌ d t) =
    ltb (code c) (code d) || (leb (code c) (code d) && at_most s t)

abbrev insert_sorted : String → List String → List String
insert_sorted s [] = s ∷ []
insert_sorted s (t ∷ ts) =
    let rest = insert_sorted s ts in if at_most s t then s ∷ t ∷ ts else t ∷ rest

abbrev pub sorted : List String → List String
sorted [] = []
sorted (s ∷ ss) = insert_sorted s (sorted ss)

module _ {N : Type 0} ⦃ns : Numbers N⦄ (jose : JoseOps (Json N)) (rand : Randomness N) where
  -- `_salt()` at the n-th call of `os.urandom`
  unfoldable pub fresh_salt : ℕ → String
  fresh_salt n = jose.b64u_encode (rand.urandom n 16)

  unfoldable pub decoy_digest : ℕ → String
  decoy_digest n = sha256_b64u jose (rand.urandom n 32)

  -- so many decoy digests, from the n-th call on
  unfoldable pub decoy_digests : ℕ → ℕ → List String
  decoy_digests zero n = []
  decoy_digests (suc count) n = decoy_digest n ∷ decoy_digests count (suc n)

  -- A disclosure for each object property, and the next call.
  unfoldable pub object_disclosures : Dict (Json N) → ℕ → List (Disclosure N) × ℕ
  object_disclosures [] n = ([], n)
  object_disclosures ((key, value) ∷ rest) n =
      let made = object_disclosures rest (suc n) in
      (make_object_disclosure jose key value (fresh_salt n) ∷ made.0, made.1)

  -- A disclosure for each element of one array.
  unfoldable pub array_disclosures : List (Json N) → ℕ → List (Disclosure N) × ℕ
  array_disclosures [] n = ([], n)
  array_disclosures (value ∷ rest) n =
      let made = array_disclosures rest (suc n) in
      (make_array_disclosure jose value (fresh_salt n) ∷ made.0, made.1)

  abbrev pub placeholder : String → Json N
  placeholder hash = object (member (text "...") (text hash) end)

  abbrev decoys_for : String → Dict ℕ → ℕ
  decoys_for name decoys = elim (lookup name decoys) [ none ↦ 0 | some n ↦ n ]

  -- the loop over `sd_array`: the payload, the disclosures and the next call
  unfoldable pub add_arrays :
      Dict (List (Json N)) → Dict ℕ → Members N → ℕ → Members N × List (Disclosure N)
  add_arrays [] decoys payload n = (payload, [])
  add_arrays ((name, values) ∷ rest) decoys payload n =
      let made = array_disclosures values n in
      let count = decoys_for name decoys in
      let elements =
        map (λ d. placeholder (digest jose d)) made.0
        ++ map placeholder (decoy_digests count made.1) in
      let more =
        add_arrays rest decoys
          (put (text name) (array (items (rand.shuffle (made.1 + count) elements))) payload)
          (suc (made.1 + count)) in
      (more.0, made.0 ++ more.1)

  -- `payload[_SD] = sorted(sd_digests)`, where there are any
  abbrev add_digests : List String → Members N → Members N
  add_digests [] payload = payload
  add_digests (d ∷ ds) payload =
      put (text "_sd") (array (items (map text (sorted (d ∷ ds))))) payload

  -- `h.setdefault("alg", "EdDSA")`
  abbrev pub with_alg : Members N → Members N
  with_alg header =
      if has_key (text "alg") header then header else put (text "alg") (text "EdDSA") header

  -- `header or {"typ": "sd-jwt"}`
  abbrev pub or_default : Members N → Members N
  or_default end = member (text "typ") (text "sd-jwt") end
  or_default header = header

  -- `None` for a dict is the empty one
  unfoldable pub issue_sd_jwt :
      String
      → Members N
      → Dict (Json N)
      → Dict (List (Json N))
      → Members N
      → ℕ
      → Dict ℕ
      → Sdjwt × List (Disclosure N)
  issue_sd_jwt signer_key claims sd_object sd_array header decoys sd_array_decoys =
      let made = object_disclosures sd_object 0 in
      let digests = map (digest jose) made.0 ++ decoy_digests decoys made.1 in
      let arrays =
        add_arrays sd_array sd_array_decoys (add_digests digests claims) (made.1 + decoys) in
      let disclosures = made.0 ++ arrays.1 in
      let jwt =
        sign_jws jose (object (with_alg (or_default header))) (object arrays.0) signer_key in
      (
        record { issuer_jwt = jwt; disclosures = map (λ d. d.raw) disclosures; kb_jwt = none },
        disclosures,
      )
