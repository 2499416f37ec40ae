-- ===== src/Storage/Keys.antt =====
-- `KeyRing` of aegis/crypto.py, and `PersistentKeyRing` of aegis/storage/keys.py: the table of its
-- schema. A key pair is its private key, which the caller's generator gives.
pub mod Reopening
use finance.Base.{String, Option, none, some, List, [], ◌∷◌}
use finance.Base.Dict.{Dict, lookup, insert}
use finance.Base.Platform.{Crypto}
use finance.Pipeline.Context.{Outcome, done, raised}

pub record KeyRing : Type 0 where
  pub pub_keys : Dict String
  pub priv_keys : Dict String

abbrev pub new_ring : KeyRing
new_ring = record { pub_keys = []; priv_keys = [] }

unfoldable pub register_pub : String → String → KeyRing → KeyRing
register_pub did key ring = record ring { pub_keys = insert did key ring.pub_keys }

unfoldable pub public_key : String → KeyRing → Option String
public_key did ring = lookup did ring.pub_keys

unfoldable pub private_key : String → KeyRing → Option String
private_key did ring = lookup did ring.priv_keys

-- `bytes.hex` and `bytes.fromhex`
pub record HexText : Type 0 where
  pub hex : String → String
  pub from_hex : String → Option String

-- the ring, and the rows of `did_public_keys`: a hex text for each did
pub record PersistentKeyRing : Type 0 where
  pub ring : KeyRing
  pub dir : Dict String

module _ (cr : Crypto) where
  unfoldable pub create : String → String → KeyRing → KeyRing
  create did sk ring = record {
    pub_keys = insert did (cr.public_of sk) ring.pub_keys;
    priv_keys = insert did sk ring.priv_keys;
  }

  abbrev signed_by_key : String → Option String → Outcome String
  signed_by_key payload none = raised "KeyError"
  signed_by_key payload (some sk) = done (cr.sign sk payload)

  unfoldable pub sign_as : String → String → KeyRing → Outcome String
  sign_as did payload ring = signed_by_key payload (lookup did ring.priv_keys)

module _ (h : HexText) where
  abbrev pub and_key : String → Option String → Dict String → Outcome (Dict String)
  and_key did none d = raised "ValueError"
  and_key did (some key) d = done (insert did key d)

  -- `all`: the dict of the rows
  abbrev pub all_keys : Dict String → Dict String → Outcome (Dict String)
  all_keys d [] = done d
  all_keys d ((did, text) ∷ rows) = elim (and_key did (h.from_hex text) d) [
    | raised e ↦ raised e
    | done d' ↦ all_keys d' rows
  ]

  abbrev pub register_all : KeyRing → Dict String → KeyRing
  register_all ring [] = ring
  register_all ring ((did, key) ∷ keys) = register_all (register_pub did key ring) keys

  abbrev pub ring_of : Dict String → Outcome (Dict String) → Outcome PersistentKeyRing
  ring_of rows (raised e) = raised e
  ring_of rows (done keys) = done (record { ring = register_all new_ring keys; dir = rows })

  -- `PersistentKeyRing(path)`, by the rows that are stored there
  unfoldable pub open_ring : Dict String → Outcome PersistentKeyRing
  open_ring rows = ring_of rows (all_keys [] rows)

  -- `PersistentKeyRing.create` and `register_pub`; `INSERT ... ON CONFLICT(did) DO UPDATE`
  unfoldable pub create_stored : Crypto → String → String → PersistentKeyRing → PersistentKeyRing
  create_stored cr did sk p = record {
    ring = create cr did sk p.ring;
    dir = insert did (h.hex (cr.public_of sk)) p.dir;
  }

  unfoldable pub register_stored : String → String → PersistentKeyRing → PersistentKeyRing
  register_stored did key p = record {
    ring = register_pub did key p.ring;
    dir = insert did (h.hex key) p.dir;
  }
