-- ===== src/Ap2/Disclosures.antt =====
-- Disclosures of aegis/ap2/sdjwt.py: making and reading them, and `disclose`, which rebuilds the
-- revealed claims and checks that every disclosure belongs to them. A call of `walk` takes one of
-- the frames that Python has left, and raises `RecursionError` where there is none.
pub mod Offers
pub mod Walking
pub mod Integrity
pub mod Stopping
pub mod Termination
use finance.Base.{
  ℕ, zero, suc, String, Bool, true, false, not, Option, none, some, List, [], ◌∷◌, map, filter, all,
  ◌&&◌, ◌++◌, if◌then◌else◌, contains, add,
}
use finance.Base.Dict.{Dict, lookup, insert}
use finance.Pipeline.Context.{Outcome, done, raised}
use finance.Ap2.Text.{is_ascii}
use finance.Ap2.Json.{
  Numbers, Json, null, number, text, array, object, Items, nil, cons, Members, end, member, is_text,
  hashable, find, keys, elements, items, iterate, characters, put,
}
use finance.Ap2.Jws.{JoseOps, parse_jws}
use finance.Ap2.Sdjwt.{Sdjwt, payload, sha256_b64u}

pub data Kind : Type 0 where
  object_property array_element : Kind

abbrev pub is_object_property : Kind → Bool
is_object_property object_property = true
is_object_property array_element = false

pub record Disclosure (N : Type 0) : Type 0 where
  pub raw : String
  pub kind : Kind
  -- None for an array element
  pub key : Json N
  pub value : Json N

abbrev pub Dmap : Type 0 → Type 0
Dmap N = Dict (Disclosure N)

-- A computation that raises or adds to the digests used.
abbrev pub Walk : Type 0 → Type 0
Walk A = List String → Outcome (A × List String)

infixl 5 ◌>>=◌ ◌>>◌
abbrev pub ◌>>=◌ : {A B : Type 0} → Walk A → (A → Walk B) → Walk B
◌>>=◌ m f used = elim (m used) [ raised e ↦ raised e | done (a, used') ↦ f a used' ]

abbrev pub ◌>>◌ : {B : Type 0} → Walk (Unit {0}) → Walk B → Walk B
m >> k = m >>= λ _. k

abbrev pub pure : {A : Type 0} → A → Walk A
pure a used = done (a, used)

abbrev pub lift : {A : Type 0} → Outcome A → Walk A
lift (raised e) used = raised e
lift (done a) used = done (a, used)

-- `used.add(digest)`
abbrev pub use_digest : String → Walk (Unit {0})
use_digest digest used = done (tt, add digest used)

module _ {N : Type 0} where
  -- `len(arr)` and `arr[i]`: a dict has no key 1, a number has no length
  abbrev pub parts_of : Json N → List (Json N)
  parts_of (array xs) = elements xs
  parts_of (text s) = characters s
  parts_of _ = []

  abbrev pub of_parts : String → List (Json N) → Option (Disclosure N)
  of_parts raw (salt ∷ key ∷ value ∷ []) =
      some (record { raw = raw; kind = object_property; key = key; value = value })
  of_parts raw (salt ∷ value ∷ []) =
      some (record { raw = raw; kind = array_element; key = null; value = value })
  of_parts raw _ = none

  -- `dmap.get(digest)`
  abbrev pub find_digest : Dmap N → Json N → Walk (Option (Disclosure N))
  find_digest dmap (text digest) = pure (lookup digest dmap)
  find_digest dmap (array xs) = lift (raised "TypeError")
  find_digest dmap (object ms) = lift (raised "TypeError")
  find_digest dmap _ = pure none

  abbrev pub text_of : Json N → String
  text_of (text s) = s
  text_of _ = ""

  -- `isinstance(elem, dict) and set(elem.keys()) == {"..."}`
  abbrev pub is_placeholder : Json N → Bool
  is_placeholder (object (member k v ms)) = all (is_text "...") (k ∷ keys ms)
  is_placeholder _ = false

  abbrev pub placeholder_digest : Json N → Json N
  placeholder_digest (object ms) = find "..." null ms
  placeholder_digest _ = null

-- `used == set(dmap.keys())`
abbrev pub all_in : List String → List String → Bool
all_in xs ys = all (λ x. contains x ys) xs

abbrev pub same_set : List String → List String → Bool
same_set xs ys = all_in xs ys && all_in ys xs

module _ {N : Type 0} where
  abbrev pub digests_of : Dmap N → List String
  digests_of dmap = map (λ entry. entry.0) dmap

  abbrev pub concluded : Dmap N → Bool → Outcome (Json N × List String) → Outcome (Json N × Bool)
  concluded dmap sound (raised e) = raised e
  concluded dmap sound (done (processed, used)) =
      done (processed, sound && same_set used (digests_of dmap))

module _ {N : Type 0} ⦃ns : Numbers N⦄ where
  -- `out[key] = w`
  abbrev pub store : Json N → Json N → Members N → Walk (Members N)
  store key w out = if hashable key then pure (put key w out) else lift (raised "TypeError")

  module _ (self : Json N → Walk (Json N)) (dmap : Dmap N) where
    -- one digest of `_sd`
    unfoldable pub reveal : Json N → Members N → Option (Disclosure N) → Walk (Members N)
    reveal digest out none = pure out
    reveal digest out (some d) =
        if is_object_property d.kind
        then (do use_digest (text_of digest); w ← self d.value; store d.key w out)
        else pure out

    unfoldable pub walk_digests : List (Json N) → Members N → Walk (Members N)
    walk_digests [] out = pure out
    walk_digests (digest ∷ digests) out = do
      d ← find_digest dmap digest
      out' ← reveal digest out d
      walk_digests digests out'

    unfoldable pub walk_member : Json N → Json N → Members N → Walk (Members N)
    walk_member k v out =
        if is_text "_sd" k
        then (do digests ← lift (iterate v); walk_digests digests out)
        else (do w ← self v; pure (put k w out))

    unfoldable pub walk_members : Members N → Members N → Walk (Members N)
    walk_members end out = pure out
    walk_members (member k v ms) out = do out' ← walk_member k v out; walk_members ms out'

    -- a placeholder of `_ARRAY_KEY`: the element disclosed for it, or nothing
    unfoldable pub reveal_element : Json N → Option (Disclosure N) → Walk (List (Json N))
    reveal_element digest none = pure []
    reveal_element digest (some d) =
        if is_object_property d.kind
        then pure []
        else (do use_digest (text_of digest); w ← self d.value; pure (w ∷ []))

    unfoldable pub walk_element : Json N → Walk (List (Json N))
    walk_element elem =
        if is_placeholder elem
        then (do
          d ← find_digest dmap (placeholder_digest elem)
          reveal_element (placeholder_digest elem) d)
        else (do w ← self elem; pure (w ∷ []))

    unfoldable pub walk_items : Items N → Walk (List (Json N))
    walk_items nil = pure []
    walk_items (cons x xs) = do
      some_of ← walk_element x
      rest ← walk_items xs
      pure (some_of ++ rest)

    unfoldable pub walk_node : Json N → Walk (Json N)
    walk_node (object ms) = do out ← walk_members ms end; pure (object out)
    walk_node (array xs) = do ys ← walk_items xs; pure (array (items ys))
    walk_node node = pure node

  unfoldable pub walk : ℕ → Dmap N → Json N → Walk (Json N)
  walk zero dmap node = lift (raised "RecursionError")
  walk (suc frames) dmap node = walk_node (walk frames dmap) dmap node

  module _ (jose : JoseOps (Json N)) where
    abbrev loaded : Option String → Option (Json N)
    loaded none = none
    loaded (some s) = jose.loads s

    abbrev disclosure_of : String → Option (Json N) → Option (Disclosure N)
    disclosure_of raw none = none
    disclosure_of raw (some arr) = of_parts raw (parts_of arr)

    -- `none` where the code raises
    unfoldable pub parse_disclosure : String → Option (Disclosure N)
    parse_disclosure raw = disclosure_of raw (loaded (jose.b64u_decode raw))

    unfoldable pub make_object_disclosure : String → Json N → String → Disclosure N
    make_object_disclosure key value salt = record {
      raw =
          jose.b64u_encode
            (jose.dumps (array (cons (text salt) (cons (text key) (cons value nil)))));
      kind = object_property;
      key = text key;
      value = value;
    }

    unfoldable pub make_array_disclosure : Json N → String → Disclosure N
    make_array_disclosure value salt = record {
      raw = jose.b64u_encode (jose.dumps (array (cons (text salt) (cons value nil))));
      kind = array_element;
      key = null;
      value = value;
    }

    -- the property `digest`; what `b64u_decode` has read is ASCII, so `encode` does not raise
    unfoldable pub digest : Disclosure N → String
    digest d = sha256_b64u jose d.raw

    -- one round of the loop over `sdjwt.disclosures`: `dmap`
    -- and whether none is malformed
    abbrev pub collected : Option (Disclosure N) → Dmap N × Bool → Dmap N × Bool
    collected none (dmap, sound) = (dmap, false)
    collected (some d) (dmap, sound) = (insert (digest d) d dmap, sound)

    unfoldable pub collect : List String → Dmap N × Bool → Dmap N × Bool
    collect [] state = state
    collect (raw ∷ raws) state = collect raws (collected (parse_disclosure raw) state)

    abbrev pub disclose_payload : ℕ → Dmap N × Bool → Outcome (Json N) → Outcome (Json N × Bool)
    disclose_payload frames (dmap, sound) (raised e) = raised e
    disclose_payload frames (dmap, sound) (done node) =
        concluded dmap sound (walk frames dmap node [])

    -- `disclose(sdjwt)` with this many frames left
    unfoldable pub disclose : ℕ → Sdjwt → Outcome (Json N × Bool)
    disclose frames sd =
        disclose_payload frames (collect sd.disclosures ([], true)) (payload jose sd)

    abbrev pub is_kept : (String → Bool) → Option (Disclosure N) → Bool
    is_kept keep none = false
    is_kept keep (some d) = keep (digest d)

    abbrev pub is_parsed : Option (Disclosure N) → Bool
    is_parsed none = false
    is_parsed (some d) = true

    -- `present`, which raises at a disclosure that does not parse; `keep` is the test
    -- `in keep_digests`
    unfoldable pub present : Sdjwt → (String → Bool) → Outcome Sdjwt
    present sd keep =
        if all (λ raw. is_parsed (parse_disclosure raw)) sd.disclosures
        then done (record sd {
          disclosures = filter (λ raw. is_kept keep (parse_disclosure raw)) sd.disclosures;
        })
        else raised "ValueError"
