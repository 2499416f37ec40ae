-- ===== src/Base/Platform.antt =====
-- What the program takes from the Python platform: regular expressions, Unicode tables and case
-- folding; SHA-256 and Ed25519. Byte strings and keys are texts.
use Prim.Native.Char.{Char}
use Prim.Native.String.{String}
use mathlib.Core.Path.{◌≡◌}
use mathlib.Core.Bool.{Bool, true}

pub record TextOps : Type 0 where
  -- `re.compile(pattern, re.I).search(text)` found something
  pub search : String → String → Bool
  -- `unicodedata.category`
  pub category : Char → String
  -- `str.lower`
  pub lower : String → String

pub record Crypto : Type 0 where
  pub sha256_hex : String → String
  -- `sign(private_key, payload)`
  pub sign : String → String → String
  -- `verify(public_key, payload, signature)`
  pub verify : String → String → String → Bool
  -- the public key of a private one
  pub public_of : String → String

-- A signature made with a key verifies under its public half.
abbrev pub SignsCorrectly : Crypto → Type 0
SignsCorrectly cr =
    (key payload : String) → cr.verify (cr.public_of key) payload (cr.sign key payload) ≡ true
