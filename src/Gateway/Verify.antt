-- ===== src/Gateway/Verify.antt =====
-- aegis/gateway/verify.py: every mandate of a bundle is signed by its declared signer.
use Prim.Native.Char.{code}
use Prim.Native.String.{◌++◌}
use finance.Base.{String, Option, none, some, not, ◌&&◌, ◌==◌, leb, if◌then◌else◌}
use finance.Base.Platform.{Crypto}
use finance.Models.{
  VerifiableCredentialProof, MandateBundle, Encoding, intent_payload, cart_payload, payment_payload,
}

-- `verification_method.split("#", 1)[0]`
unfoldable pub base_did : String → String
base_did String.[] = String.[]
base_did (String.◌∷◌ c s) =
    if leb (code c) b'#' && leb b'#' (code c) then String.[] else String.◌∷◌ c (base_did s)

-- `_verify_mandate`: `none` for a valid proof, else what is wrong with it. The payload is that of
-- the mandate's class.
module _ (cr : Crypto) (resolver : String → Option String) where
  abbrev verify_with_key : Option String → String → String → String → Option String
  verify_with_key none signer_did payload signature = some ("no public key for " ++ signer_did)
  verify_with_key (some pub_key) signer_did payload signature =
      if not (cr.verify pub_key payload signature)
      then some "signature verification failed"
      else none

  unfoldable pub verify_mandate : Option VerifiableCredentialProof → String → String → Option String
  verify_mandate none payload expected_signer = some "proof absent"
  verify_mandate (some proof) payload expected_signer =
      let signer_did = base_did proof.verification_method in
      if not (signer_did == expected_signer)
      then some ("proof signer " ++ (signer_did ++ (" != declared " ++ expected_signer)))
      else verify_with_key (resolver signer_did) signer_did payload proof.signature

pub data BundleCheck : Type 0 where
  accepted : BundleCheck
  rejected : String → String → BundleCheck

abbrev reject : String → Option String → BundleCheck → BundleCheck
reject kind none rest = rest
reject kind (some detail) rest = rejected "AGENT.SIG.INVALID" (kind ++ (": " ++ detail))

-- `verify_bundle`: the three mandates in turn, up to the first that fails.
module _ {F : Type 0} ⦃enc : Encoding F⦄ (cr : Crypto) (resolver : String → Option String) where
  unfoldable pub verify_bundle : MandateBundle F → BundleCheck
  verify_bundle b =
      let intent = b.intent in
      let cart = b.cart in
      let payment = b.payment in
      reject "IntentMandate"
        (verify_mandate cr resolver intent.proof (intent_payload intent) intent.signer_did)
        (reject "CartMandate"
          (verify_mandate cr resolver cart.proof (cart_payload cart) cart.merchant_did)
          (reject "PaymentMandate"
            (verify_mandate cr resolver payment.proof (payment_payload enc payment)
              payment.initiator_agent)
            accepted))
