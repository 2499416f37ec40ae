-- ===== src/Samples/Platform.antt =====
-- Models of `TextOps`, `Crypto` and `Encoding`: no pattern matches, a hash is its argument, and a
-- signature is the key before the payload.
use Prim.Native.String.{◌++◌}
use finance.Base.{false, ◌==◌, eq_refl}
use finance.Base.Int.{ℤ}
use finance.Base.Platform.{TextOps, Crypto, SignsCorrectly}
use finance.Models.{Encoding}

abbrev pub plain_text : TextOps
plain_text = record { search = λ p s. false; category = λ ch. "Ll"; lower = λ s. s }

abbrev pub toy_crypto : Crypto
toy_crypto = record {
  sha256_hex = λ s. s;
  sign = λ key payload. key ++ payload;
  verify = λ key payload signature. signature == key ++ payload;
  public_of = λ key. key;
}

pub toy_crypto_signs : SignsCorrectly toy_crypto
toy_crypto_signs key payload = eq_refl (key ++ payload)

instance abbrev pub ids : Encoding ℤ
ids = record {
  intent = λ m. m.mandate_id;
  cart = λ m. m.mandate_id;
  payment = λ m. m.mandate_id;
  envelope = λ e. e.decision_id ++ e.prev_envelope_hash;
  signed_envelope = λ e. e.decision_id ++ (e.prev_envelope_hash ++ e.signature);
  snapshot = λ b r now c. b.payment.mandate_id;
}
