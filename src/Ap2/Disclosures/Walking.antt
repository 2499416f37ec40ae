-- ===== src/Ap2/Disclosures/Walking.antt =====
-- What `walk` adds to the digests used: only digests that a value it walks offers.
use finance.Base.{
  ℕ, zero, suc, String, Bool, true, Option, none, some, List, [], ◌∷◌, ◌++◌, all, ◌≡◌, refl, ◌&&◌,
  if◌then◌else◌, arith, Bool-cases, inl, inr,
}
use finance.Base.Dict.{lookup}
use finance.Pipeline.Context.{Outcome, done, raised}
use finance.Ap2.Json.{
  Numbers, Json, null, number, text, array, object, Items, nil, cons, Members, end, member, is_text,
  iterate, hashable,
}
use finance.Ap2.Disclosures.{
  Disclosure, Dmap, Walk, ◌>>=◌, pure, lift, use_digest, is_object_property, find_digest,
  is_placeholder, placeholder_digest, store, reveal, walk_digests, walk_member, walk_members,
  reveal_element, walk_element, walk_items, walk_node, walk,
}
use finance.Ap2.Disclosures.Offers.{texts, texts_of, offers, offers_members, offers_items}

all-append : (p : String → Bool) (xs ys : List String) → all p (xs ++ ys) ≡ (all p xs && all p ys)
all-append p [] ys = refl
all-append p (x ∷ xs) ys = ground (arith, all-append p xs ys)

-- Both parts of a list pass a test that the list passes.
pub all_parts :
    (p : String → Bool) (xs ys : List String)
    → all p (xs ++ ys) ≡ true
    → (all p xs ≡ true) × (all p ys ≡ true)
all_parts p xs ys h = ground (arith, all-append p xs ys)

module _ (p : String → Bool) where
  abbrev pub After : {A : Type 0} → Outcome (A × List String) → Type 0
  After (raised e) = Unit
  After (done (a, used)) = all p used ≡ true

  -- Every digest that the computation adds passes the test.
  abbrev pub Keeps : {A : Type 0} → Walk A → Type 0
  Keeps m = (used : List String) → all p used ≡ true → After (m used)

  After-bind :
      {A B : Type 0} (o : Outcome (A × List String)) (f : A → Walk B)
      → After o
      → ((a : A) → Keeps (f a))
      → After (elim o [ raised e ↦ raised e | done (a, used') ↦ f a used' ])
  After-bind (raised e) f h k = tt
  After-bind (done (a, used)) f h k = k a used h

  bind-Keeps :
      {A B : Type 0} (m : Walk A) (f : A → Walk B)
      → Keeps m
      → ((a : A) → Keeps (f a))
      → Keeps (m >>= f)
  bind-Keeps m f km kf used h = After-bind (m used) f (km used h) kf

  use_digest-Keeps : (g : String) → p g ≡ true → Keeps (use_digest g)
  use_digest-Keeps g pg used h = ground arith

  module _ {N : Type 0} ⦃ns : Numbers N⦄ where
    store-Keeps : (key w : Json N) (out : Members N) → Keeps (store key w out)
    store-Keeps key w out used h = elim (Bool-cases (hashable key)) [
      | inl yes' ↦ rw yes' h
      | inr no' ↦ rw no' tt
    ]

    module _ (self : Json N → Walk (Json N)) (dmap : Dmap N)
        (self-Keeps : (v : Json N) → all p (offers v) ≡ true → Keeps (self v))
        (values : (g : String) (d : Disclosure N)
          → lookup g dmap ≡ some d
          → all p (offers d.value) ≡ true) where
      reveal-Keeps :
          (g : String) (out : Members N) (o : Option (Disclosure N))
          → p g ≡ true
          → lookup g dmap ≡ o
          → Keeps (reveal self dmap (text g) out o)
      unfolding reveal
      reveal-Keeps g out none pg found = λ used h. h
      reveal-Keeps g out (some d) pg found = elim (Bool-cases (is_object_property d.kind)) [
        | inl prop ↦ rw prop (
            bind-Keeps (use_digest g) _ (use_digest-Keeps g pg) (λ _.
              bind-Keeps (self d.value) _ (self-Keeps d.value (values g d found))
                (λ w. store-Keeps d.key w out)))
        | inr elem ↦ rw elem (λ used h. h)
      ]

      walk_digests-Keeps :
          (digests : List (Json N)) (out : Members N)
          → all p (texts digests) ≡ true
          → Keeps (walk_digests self dmap digests out)
      unfolding walk_digests reveal
      walk_digests-Keeps [] out h = λ used k. k
      walk_digests-Keeps (text g ∷ gs) out h =
          bind-Keeps (reveal self dmap (text g) out (lookup g dmap)) _
            (reveal-Keeps g out (lookup g dmap) (ground (arith, h)) refl)
            (λ out'. walk_digests-Keeps gs out' (ground (arith, h)))
      walk_digests-Keeps (null ∷ gs) out h = walk_digests-Keeps gs out h
      walk_digests-Keeps (number n ∷ gs) out h = walk_digests-Keeps gs out h
      walk_digests-Keeps (array xs ∷ gs) out h = λ used k. tt
      walk_digests-Keeps (object ms ∷ gs) out h = λ used k. tt

      iterated-Keeps :
          (o : Outcome (List (Json N))) (out : Members N)
          → all p (texts_of o) ≡ true
          → Keeps (lift o >>= λ digests. walk_digests self dmap digests out)
      iterated-Keeps (raised e) out h = λ used k. tt
      iterated-Keeps (done digests) out h = walk_digests-Keeps digests out h

      walk_member-Keeps :
          (k v : Json N) (out : Members N)
          → all p (if is_text "_sd" k then texts_of (iterate v) else offers v) ≡ true
          → Keeps (walk_member self dmap k v out)
      unfolding walk_member
      walk_member-Keeps k v out h = elim (Bool-cases (is_text "_sd" k)) [
        | inl sd ↦ rw sd (iterated-Keeps (iterate v) out (rw sd at h))
        | inr plain ↦
            rw plain (bind-Keeps (self v) _ (self-Keeps v (rw plain at h)) (λ w used h. h))
      ]

      walk_members-Keeps :
          (ms out : Members N)
          → all p (offers_members ms) ≡ true
          → Keeps (walk_members self dmap ms out)
      unfolding walk_members offers
      walk_members-Keeps end out h = λ used k. k
      walk_members-Keeps (member k v ms) out h =
          let (this, rest) =
            all_parts p (if is_text "_sd" k then texts_of (iterate v) else offers v)
              (offers_members ms) h in
          bind-Keeps (walk_member self dmap k v out) _ (walk_member-Keeps k v out this)
            (λ out'. walk_members-Keeps ms out' rest)

      reveal_element-Keeps :
          (g : String) (o : Option (Disclosure N))
          → p g ≡ true
          → lookup g dmap ≡ o
          → Keeps (reveal_element self dmap (text g) o)
      unfolding reveal_element
      reveal_element-Keeps g none pg found = λ used h. h
      reveal_element-Keeps g (some d) pg found = elim (Bool-cases (is_object_property d.kind)) [
        | inl prop ↦ rw prop (λ used h. h)
        | inr elem ↦ rw elem (
            bind-Keeps (use_digest g) _ (use_digest-Keeps g pg) (λ _.
              bind-Keeps (self d.value) (λ w. pure (w ∷ [])) (self-Keeps d.value (values g d found))
                (λ w used h. h)))
      ]

      placeholder-Keeps :
          (g : Json N)
          → all p (texts (g ∷ [])) ≡ true
          → Keeps (find_digest dmap g >>= reveal_element self dmap g)
      unfolding reveal_element
      placeholder-Keeps (text g) h = reveal_element-Keeps g (lookup g dmap) (ground (arith, h)) refl
      placeholder-Keeps null h = λ used k. k
      placeholder-Keeps (number n) h = λ used k. k
      placeholder-Keeps (array xs) h = λ used k. tt
      placeholder-Keeps (object ms) h = λ used k. tt

      walk_element-Keeps :
          (x : Json N)
          → all p (if is_placeholder x then texts (placeholder_digest x ∷ []) else offers x) ≡ true
          → Keeps (walk_element self dmap x)
      unfolding walk_element
      walk_element-Keeps x h = elim (Bool-cases (is_placeholder x)) [
        | inl place ↦ rw place (placeholder-Keeps (placeholder_digest x) (rw place at h))
        | inr plain ↦
            rw plain (bind-Keeps (self x) _ (self-Keeps x (rw plain at h)) (λ w used h. h))
      ]

      walk_items-Keeps :
          (xs : Items N) → all p (offers_items xs) ≡ true → Keeps (walk_items self dmap xs)
      unfolding walk_items offers
      walk_items-Keeps nil h = λ used k. k
      walk_items-Keeps (cons x xs) h =
          let (this, rest) =
            all_parts p (if is_placeholder x then texts (placeholder_digest x ∷ []) else offers x)
              (offers_items xs) h in
          bind-Keeps (walk_element self dmap x) _ (walk_element-Keeps x this) (λ ys.
            bind-Keeps (walk_items self dmap xs) _ (walk_items-Keeps xs rest) (λ zs used h. h))

      walk_node-Keeps :
          (node : Json N) → all p (offers node) ≡ true → Keeps (walk_node self dmap node)
      unfolding walk_node offers
      walk_node-Keeps (object ms) h =
          bind-Keeps (walk_members self dmap ms end) _ (walk_members-Keeps ms end h)
            (λ out used h. h)
      walk_node-Keeps (array xs) h =
          bind-Keeps (walk_items self dmap xs) _ (walk_items-Keeps xs h) (λ ys used h. h)
      walk_node-Keeps null h = λ used k. k
      walk_node-Keeps (number n) h = λ used k. k
      walk_node-Keeps (text s) h = λ used k. k

    pub walk-Keeps :
        (dmap : Dmap N)
        → ((g : String) (d : Disclosure N) → lookup g dmap ≡ some d → all p (offers d.value) ≡ true)
        → (frames : ℕ) (node : Json N) → all p (offers node) ≡ true
        → Keeps (walk frames dmap node)
    unfolding walk
    walk-Keeps dmap values zero node h = λ used k. tt
    walk-Keeps dmap values (suc frames) node h =
        walk_node-Keeps (walk frames dmap) dmap (walk-Keeps dmap values frames) values node h
