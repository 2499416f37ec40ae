-- ===== src/Storage/Keys/Reopening.antt =====
-- A key ring that is opened again on the rows that it has stored.
use finance.Base.{
  String, Option, none, some, List, [], ◌∷◌, ◌==◌, ◌≡◌, refl, sym, ap, ◌∙◌, subst, arith, eq_iff,
  Bool-cases, inl, inr,
}
use finance.Base.Dict.{Dict, lookup, insert, lookup-insert}
use finance.Base.Platform.{Crypto}
use finance.Pipeline.Context.{done}
use finance.Storage.Keys.{
  KeyRing, PersistentKeyRing, HexText, new_ring, public_key, private_key, register_pub, create,
  all_keys, register_all, ring_of, open_ring, create_stored, register_stored,
}

-- No key stands twice.
abbrev Unique : {V : Type 0} → Dict V → Type 0
Unique [] = Unit
Unique ((k, v) ∷ d) = (lookup k d ≡ none) × Unique d

Unique-insert : (k v : String) (d : Dict String) → Unique d → Unique (insert k v d)
Unique-insert k v [] h = (refl, tt)
Unique-insert k v ((j, w) ∷ d) h = elim (Bool-cases (j == k)) [
  | inl same ↦ rw same (subst (λ x. lookup x d ≡ none) ((eq_iff j k).0 same) h.0, h.1)
  | inr differ ↦ rw differ (
    ground (arith, lookup-insert k j v d, h.0, differ, eq_iff j k, eq_iff k j),
    Unique-insert k v d h.1,
  )
]

abbrev rebuilt : Dict String → Dict String → Dict String
rebuilt acc [] = acc
rebuilt acc ((k, v) ∷ d) = rebuilt (insert k v acc) d

abbrev or_else : Option String → Option String → Option String
or_else (some x) y = some x
or_else none y = y

or_else-none : (o : Option String) → or_else o none ≡ o
or_else-none none = refl
or_else-none (some x) = refl

lookup-rebuilt :
    (j : String) (acc d : Dict String)
    → Unique d
    → lookup j (rebuilt acc d) ≡ or_else (lookup j d) (lookup j acc)
lookup-rebuilt j acc [] h = refl
lookup-rebuilt j acc ((k, v) ∷ d) h =
    lookup-rebuilt j (insert k v acc) d h.1 ∙ elim (Bool-cases (k == j)) [
      | inl same ↦
          let absent : lookup j d ≡ none =
            subst (λ x. lookup x d ≡ none) ((eq_iff k j).0 same) h.0 in
          rw (lookup-insert k j v acc, same, absent) refl
      | inr differ ↦ rw (lookup-insert k j v acc, differ) refl
    ]

Unique-rebuilt : (acc d : Dict String) → Unique acc → Unique (rebuilt acc d)
Unique-rebuilt acc [] h = h
Unique-rebuilt acc ((k, v) ∷ d) h = Unique-rebuilt (insert k v acc) d (Unique-insert k v acc h)

-- a call that changes the ring
pub data KeyCall : Type 0 where
  created : String → String → KeyCall
  registered : String → String → KeyCall

module _ (h : HexText) where
  abbrev hexed : Dict String → Dict String
  hexed [] = []
  hexed ((k, v) ∷ d) = (k, h.hex v) ∷ hexed d

  hexed-insert :
      (k v : String) (d : Dict String) → hexed (insert k v d) ≡ insert k (h.hex v) (hexed d)
  hexed-insert k v [] = refl
  hexed-insert k v ((j, w) ∷ d) = elim (Bool-cases (j == k)) [
    | inl same ↦ rw same refl
    | inr differ ↦ rw differ (ap (λ x. (j, h.hex w) ∷ x) (hexed-insert k v d))
  ]

  all_keys-hexed :
      (acc d : Dict String)
      → ((key : String) → h.from_hex (h.hex key) ≡ some key)
      → all_keys h acc (hexed d) ≡ done (rebuilt acc d)
  all_keys-hexed acc [] reads = refl
  all_keys-hexed acc ((k, v) ∷ d) reads =
      rw (reads v, all_keys) (all_keys-hexed (insert k v acc) d reads)

  register_all-rebuilt :
      (ring : KeyRing) (d : Dict String)
      → register_all h ring d ≡ record ring { pub_keys = rebuilt ring.pub_keys d }
  unfolding register_pub
  register_all-rebuilt ring [] = refl
  register_all-rebuilt ring ((k, v) ∷ d) =
      register_all-rebuilt (record ring { pub_keys = insert k v ring.pub_keys }) d

  abbrev pub after_calls : Crypto → List KeyCall → PersistentKeyRing → PersistentKeyRing
  after_calls cr [] p = p
  after_calls cr (created did sk ∷ cs) p = after_calls cr cs (create_stored h cr did sk p)
  after_calls cr (registered did key ∷ cs) p = after_calls cr cs (register_stored h did key p)

  record IsStored (p : PersistentKeyRing) : Type 0 where
    unique : Unique p.ring.pub_keys
    rows : p.dir ≡ hexed p.ring.pub_keys

  insert-IsStored :
      (did key : String) (keys rows : Dict String)
      → rows ≡ hexed keys
      → insert did (h.hex key) rows ≡ hexed (insert did key keys)
  insert-IsStored did key keys rows same =
      ap (insert did (h.hex key)) same ∙ sym (hexed-insert did key keys)

  after_calls-IsStored :
      (cr : Crypto) (cs : List KeyCall) (p : PersistentKeyRing)
      → IsStored p
      → IsStored (after_calls cr cs p)
  unfolding create_stored register_stored create register_pub
  after_calls-IsStored cr [] p s = s
  after_calls-IsStored cr (created did sk ∷ cs) p s =
      after_calls-IsStored cr cs (create_stored h cr did sk p) (record {
        unique = Unique-insert did (cr.public_of sk) p.ring.pub_keys s.unique;
        rows = insert-IsStored did (cr.public_of sk) p.ring.pub_keys p.dir s.rows;
      })
  after_calls-IsStored cr (registered did key ∷ cs) p s =
      after_calls-IsStored cr cs (register_stored h did key p) (record {
        unique = Unique-insert did key p.ring.pub_keys s.unique;
        rows = insert-IsStored did key p.ring.pub_keys p.dir s.rows;
      })

  abbrev empty_store : PersistentKeyRing
  empty_store = record { ring = new_ring; dir = [] }

  -- Where `bytes.fromhex` reads what `bytes.hex` has written: after any keys are created and
  -- registered in a new store, the store opens again; every DID then has the public key that it
  -- had, and no private key is held.
  pub open_ring-after_calls :
      (cr : Crypto) (cs : List KeyCall) (did : String)
      → ((key : String) → h.from_hex (h.hex key) ≡ some key)
      → let p = after_calls cr cs empty_store in
        (again : PersistentKeyRing) × (open_ring h p.dir ≡ done again)
        × (public_key did again.ring ≡ public_key did p.ring)
        × (private_key did again.ring ≡ none)
  unfolding open_ring public_key private_key
  open_ring-after_calls cr cs did reads =
      let p = after_calls cr cs empty_store in
      let stored = after_calls-IsStored cr cs empty_store (record { unique = tt; rows = refl }) in
      let keys = p.ring.pub_keys in
      let same : lookup did (rebuilt [] keys) ≡ lookup did keys =
        lookup-rebuilt did [] keys stored.unique ∙ or_else-none (lookup did keys) in
      let ring = register_all h new_ring (rebuilt [] keys) in
      let registered_all = register_all-rebuilt new_ring (rebuilt [] keys) in
      (
        record { ring = ring; dir = p.dir },
        (ap (λ rows. ring_of h p.dir (all_keys h [] rows)) stored.rows
            ∙ ap (ring_of h p.dir) (all_keys-hexed [] keys reads)),
        (ap (λ (r : KeyRing). lookup did r.pub_keys) registered_all
            ∙ lookup-rebuilt did [] (rebuilt [] keys) (Unique-rebuilt [] keys tt)
            ∙ or_else-none (lookup did (rebuilt [] keys))
            ∙ same),
        ap (λ (r : KeyRing). lookup did r.priv_keys) registered_all,
      )
