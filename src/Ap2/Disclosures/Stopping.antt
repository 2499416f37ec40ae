-- ===== src/Ap2/Disclosures/Stopping.antt =====
-- A walk ends before the frames run out, where no disclosure discloses itself again.
use Prim.Native.Nat.{max}
use finance.Base.{
  ℕ, zero, suc, ◌≤◌, ◌<◌, String, Bool, false, Option, none, some, List, [], ◌∷◌, add, ◌==◌, ◌≡◌,
  refl, if◌then◌else◌, arith, Bool-cases, inl, inr,
}
use finance.Base.Dict.{lookup}
use finance.Pipeline.Context.{Outcome, done, raised}
use finance.Ap2.Json.{
  Numbers, Json, null, number, text, array, object, Items, nil, cons, Members, end, member, is_text,
  iterate, hashable,
}
use finance.Ap2.Disclosures.{
  Disclosure, Dmap, Walk, ◌>>=◌, pure, lift, is_object_property, find_digest, is_placeholder,
  placeholder_digest, store, reveal, walk_digests, walk_member, walk_members, reveal_element,
  walk_element, walk_items, walk_node, walk,
}
use finance.Ap2.Disclosures.Offers.{texts, texts_of}

-- the largest rank among digests
abbrev pub highest : (String → ℕ) → List String → ℕ
highest rank [] = 0
highest rank (g ∷ gs) = max (rank g) (highest rank gs)

-- How deep a value goes, where a digest that it offers goes as deep as its rank.
module _ {N : Type 0} (rank : String → ℕ) where
  unfoldable mutual
    pub height : Json N → ℕ
    height (object ms) = suc (height_members ms)
    height (array xs) = suc (height_items xs)
    height _ = 1

    pub height_members : Members N → ℕ
    height_members end = 0
    height_members (member k v ms) =
        max (if is_text "_sd" k then highest rank (texts_of (iterate v)) else height v)
          (height_members ms)

    pub height_items : Items N → ℕ
    height_items nil = 0
    height_items (cons x xs) =
        max
          (if is_placeholder x then highest rank (texts (placeholder_digest x ∷ [])) else height x)
          (height_items xs)

max_parts : (a b n : ℕ) → max a b ≤ n → (a ≤ n) × (b ≤ n)
max_parts a b n h = (omega (arith, h), omega (arith, h))

-- The frames ran out.
abbrev pub overflows : {A : Type 0} → Outcome A → Bool
overflows (raised e) = e == "RecursionError"
overflows (done a) = false

abbrev pub Stops : {A : Type 0} → Walk A → Type 0
Stops m = (used : List String) → overflows (m used) ≡ false

Stops-bind :
    {A B : Type 0} (o : Outcome (A × List String)) (f : A → Walk B)
    → overflows o ≡ false
    → ((a : A) → Stops (f a))
    → overflows (elim o [ raised e ↦ raised e | done (a, used') ↦ f a used' ]) ≡ false
Stops-bind (raised e) f h k = h
Stops-bind (done (a, used)) f h k = k a used

bind-Stops :
    {A B : Type 0} (m : Walk A) (f : A → Walk B)
    → Stops m
    → ((a : A) → Stops (f a))
    → Stops (m >>= f)
bind-Stops m f km kf used = Stops-bind (m used) f (km used) kf

-- `iterate` raises no RecursionError.
iterate-Stops : {N : Type 0} (v : Json N) → overflows (iterate v) ≡ false
unfolding iterate
iterate-Stops null = refl
iterate-Stops (number n) = refl
iterate-Stops (text s) = refl
iterate-Stops (array xs) = refl
iterate-Stops (object ms) = refl

module _ (rank : String → ℕ) {N : Type 0} ⦃ns : Numbers N⦄ where
  store-Stops : (key w : Json N) (out : Members N) → Stops (store key w out)
  store-Stops key w out used = elim (Bool-cases (hashable key)) [
    | inl yes' ↦ rw yes' refl
    | inr no' ↦ rw no' refl
  ]

  module _ (self : Json N → Walk (Json N)) (dmap : Dmap N) (frames : ℕ)
      (self-Stops : (v : Json N) → height rank v ≤ frames → Stops (self v))
      (values : (g : String) (d : Disclosure N)
        → lookup g dmap ≡ some d
        → height rank d.value ≤ rank g) where
    reveal-Stops :
        (g : String) (out : Members N) (o : Option (Disclosure N))
        → rank g ≤ frames
        → lookup g dmap ≡ o
        → Stops (reveal self dmap (text g) out o)
    unfolding reveal
    reveal-Stops g out none pg found = λ used. refl
    reveal-Stops g out (some d) pg found = elim (Bool-cases (is_object_property d.kind)) [
      | inl prop ↦ rw prop (λ used.
          bind-Stops (self d.value) (λ w. store d.key w out)
            (self-Stops d.value (omega (arith, values g d found))) (λ w. store-Stops d.key w out)
            (add g used))
      | inr elem ↦ rw elem (λ used. refl)
    ]

    walk_digests-Stops :
        (digests : List (Json N)) (out : Members N)
        → highest rank (texts digests) ≤ frames
        → Stops (walk_digests self dmap digests out)
    unfolding walk_digests reveal
    walk_digests-Stops [] out h = λ used. refl
    walk_digests-Stops (text g ∷ gs) out h =
        bind-Stops (reveal self dmap (text g) out (lookup g dmap)) _
          (reveal-Stops g out (lookup g dmap) (omega arith) refl)
          (λ out'. walk_digests-Stops gs out' (omega arith))
    walk_digests-Stops (null ∷ gs) out h = walk_digests-Stops gs out h
    walk_digests-Stops (number n ∷ gs) out h = walk_digests-Stops gs out h
    walk_digests-Stops (array xs ∷ gs) out h = λ used. refl
    walk_digests-Stops (object ms ∷ gs) out h = λ used. refl

    iterated-Stops :
        (o : Outcome (List (Json N))) (out : Members N)
        → overflows o ≡ false
        → highest rank (texts_of o) ≤ frames
        → Stops (lift o >>= λ digests. walk_digests self dmap digests out)
    iterated-Stops (raised e) out calm h = λ used. calm
    iterated-Stops (done digests) out calm h = walk_digests-Stops digests out h

    walk_member-Stops :
        (k v : Json N) (out : Members N)
        → (if is_text "_sd" k then highest rank (texts_of (iterate v)) else height rank v) ≤ frames
        → Stops (walk_member self dmap k v out)
    unfolding walk_member
    walk_member-Stops k v out h = elim (Bool-cases (is_text "_sd" k)) [
      | inl sd ↦ rw sd (iterated-Stops (iterate v) out (iterate-Stops v) (rw sd at h))
      | inr plain ↦ rw plain (bind-Stops (self v) _ (self-Stops v (rw plain at h)) (λ w used. refl))
    ]

    walk_members-Stops :
        (ms out : Members N)
        → height_members rank ms ≤ frames
        → Stops (walk_members self dmap ms out)
    unfolding walk_members height
    walk_members-Stops end out h = λ used. refl
    walk_members-Stops (member k v ms) out h =
        let (this, rest) =
          max_parts (if is_text "_sd" k then highest rank (texts_of (iterate v)) else height rank v)
            (height_members rank ms) frames h in
        bind-Stops (walk_member self dmap k v out) _ (walk_member-Stops k v out this)
          (λ out'. walk_members-Stops ms out' rest)

    reveal_element-Stops :
        (g : String) (o : Option (Disclosure N))
        → rank g ≤ frames
        → lookup g dmap ≡ o
        → Stops (reveal_element self dmap (text g) o)
    unfolding reveal_element
    reveal_element-Stops g none pg found = λ used. refl
    reveal_element-Stops g (some d) pg found = elim (Bool-cases (is_object_property d.kind)) [
      | inl prop ↦ rw prop (λ used. refl)
      | inr elem ↦ rw elem (λ used.
          bind-Stops (self d.value) (λ w. pure (w ∷ []))
            (self-Stops d.value (omega (arith, values g d found))) (λ w used'. refl) (add g used))
    ]

    placeholder-Stops :
        (g : Json N)
        → highest rank (texts (g ∷ [])) ≤ frames
        → Stops (find_digest dmap g >>= reveal_element self dmap g)
    unfolding reveal_element
    placeholder-Stops (text g) h = reveal_element-Stops g (lookup g dmap) (omega arith) refl
    placeholder-Stops null h = λ used. refl
    placeholder-Stops (number n) h = λ used. refl
    placeholder-Stops (array xs) h = λ used. refl
    placeholder-Stops (object ms) h = λ used. refl

    walk_element-Stops :
        (x : Json N)
        → (if is_placeholder x
            then highest rank (texts (placeholder_digest x ∷ []))
            else height rank x)
          ≤ frames
        → Stops (walk_element self dmap x)
    unfolding walk_element
    walk_element-Stops x h = elim (Bool-cases (is_placeholder x)) [
      | inl place ↦ rw place (placeholder-Stops (placeholder_digest x) (rw place at h))
      | inr plain ↦ rw plain (bind-Stops (self x) _ (self-Stops x (rw plain at h)) (λ w used. refl))
    ]

    walk_items-Stops :
        (xs : Items N) → height_items rank xs ≤ frames → Stops (walk_items self dmap xs)
    unfolding walk_items height
    walk_items-Stops nil h = λ used. refl
    walk_items-Stops (cons x xs) h =
        let (this, rest) =
          max_parts
            (if is_placeholder x
              then highest rank (texts (placeholder_digest x ∷ []))
              else height rank x)
            (height_items rank xs) frames h in
        bind-Stops (walk_element self dmap x) _ (walk_element-Stops x this) (λ ys.
          bind-Stops (walk_items self dmap xs) _ (walk_items-Stops xs rest) (λ zs used. refl))

    walk_node-Stops :
        (node : Json N) → height rank node ≤ suc frames → Stops (walk_node self dmap node)
    unfolding walk_node height
    walk_node-Stops (object ms) h =
        bind-Stops (walk_members self dmap ms end) _ (walk_members-Stops ms end (omega (arith, h)))
          (λ out used. refl)
    walk_node-Stops (array xs) h =
        bind-Stops (walk_items self dmap xs) _ (walk_items-Stops xs (omega (arith, h)))
          (λ ys used. refl)
    walk_node-Stops null h = λ used. refl
    walk_node-Stops (number n) h = λ used. refl
    walk_node-Stops (text s) h = λ used. refl

  height-pos : (node : Json N) → 0 < height rank node
  unfolding height
  height-pos null = omega arith
  height-pos (number n) = omega arith
  height-pos (text s) = omega arith
  height-pos (array xs) = omega arith
  height-pos (object ms) = omega arith

  pub walk-Stops :
      (dmap : Dmap N)
      → ((g : String) (d : Disclosure N) → lookup g dmap ≡ some d → height rank d.value ≤ rank g)
      → (frames : ℕ) (node : Json N) → height rank node ≤ frames
      → Stops (walk frames dmap node)
  unfolding walk
  walk-Stops dmap values zero node h = absurd (omega (arith, height-pos node, h))
  walk-Stops dmap values (suc frames) node h =
      walk_node-Stops (walk frames dmap) dmap frames (walk-Stops dmap values frames) values node h
