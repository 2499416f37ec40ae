-- ===== src/Ap2/Disclosures/Integrity.antt =====
-- Where `disclose` answers ok, each presented disclosure is one that the payload offers, or that
-- another presented disclosure offers.
use finance.Base.{
  ℕ, String, Bool, true, Option, none, some, List, [], ◌∷◌, ◌++◌, all, All, contains, ◌≡◌, refl, ap,
  ◌||◌, ◌&&◌, ◌==◌, arith, eq_iff, eq_refl, Bool-cases, inl, inr, subst,
}
use finance.Base.Dict.{lookup, insert}
use finance.Pipeline.Context.{Outcome, done, raised}
use finance.Ap2.Json.{Numbers, Json}
use finance.Ap2.Jws.{JoseOps}
use finance.Ap2.Sdjwt.{Sdjwt, payload}
use finance.Ap2.Disclosures.{
  Disclosure, Dmap, walk, parse_disclosure, digest, collected, collect, digests_of, all_in,
  same_set, concluded, disclose,
}
use finance.Ap2.Disclosures.Offers.{offers, offers_of_values}
use finance.Ap2.Disclosures.Walking.{all_parts, After, walk-Keeps}

all-of_contains :
    (p : String → Bool) (xs : List String)
    → ((g : String) → contains g xs ≡ true → p g ≡ true)
    → all p xs ≡ true
all-of_contains p [] h = refl
all-of_contains p (x ∷ xs) h =
    ground (arith, h x, eq_refl x, all-of_contains p xs (λ g here. h g (ground (arith, here))))

contains-of_all :
    (p : String → Bool) (g : String) (xs : List String)
    → all p xs ≡ true
    → contains g xs ≡ true
    → p g ≡ true
contains-of_all p g [] h here = cc
contains-of_all p g (x ∷ xs) h here = ground (arith, eq_iff g x, contains-of_all p g xs)

and_parts : {a b : Bool} → (a && b) ≡ true → (a ≡ true) × (b ≡ true)
and_parts {a} {b} h = ground (arith, h)

module _ {N : Type 0} where
  digests_of-insert :
      (g k : String) (d : Disclosure N) (dmap : Dmap N)
      → contains g (digests_of (insert k d dmap)) ≡ (g == k || contains g (digests_of dmap))
  digests_of-insert g k d [] = refl
  digests_of-insert g k d ((j, e) ∷ dmap) =
      ground (arith, eq_iff j k, eq_iff g k, eq_iff g j, digests_of-insert g k d dmap)

  some_inj : {a b : Disclosure N} → some a ≡ some b → a ≡ b
  some_inj h = cc h

  -- What every value of the map offers passes, so what each of them offers does.
  value_offers :
      (p : String → Bool) (dmap : Dmap N)
      → all p (offers_of_values dmap) ≡ true
      → (g : String) (d : Disclosure N) → lookup g dmap ≡ some d
      → all p (offers d.value) ≡ true
  value_offers p [] h g d found = absurd (ground (arith, found))
  value_offers p ((j, e) ∷ dmap) h g d found =
      let (this, rest) = all_parts p (offers e.value) (offers_of_values dmap) h in
      elim (Bool-cases (j == g)) [
        | inl same ↦
            subst (λ (o : Disclosure N). all p (offers o.value) ≡ true)
              (some_inj (rw same at found)) this
        | inr other ↦ value_offers p dmap rest g d (rw other at found)
      ]

module _ {N : Type 0} ⦃ns : Numbers N⦄ (jose : JoseOps (Json N)) where
  abbrev IsIn : Dmap N → String → Type 0
  IsIn dmap raw =
      (d : Disclosure N) × (parse_disclosure jose raw ≡ some d)
      × (contains (digest jose d) (digests_of dmap) ≡ true)

  collect-keeps :
      (g : String) (raws : List String) (state : Dmap N × Bool)
      → contains g (digests_of state.0) ≡ true
      → contains g (digests_of (collect jose raws state).0) ≡ true
  unfolding collect
  collect-keeps g [] state h = h
  collect-keeps g (raw ∷ raws) state h =
      collect-keeps g raws (collected jose (parse_disclosure jose raw) state)
        (still (parse_disclosure jose raw))
    where
      still :
          (o : Option (Disclosure N)) → contains g (digests_of (collected jose o state).0) ≡ true
      still none = h
      still (some d) = ground (arith, digests_of-insert g (digest jose d) d state.0, h)

  -- Nothing was malformed: each disclosure parses, and its digest is in the map.
  collect-IsIn :
      (raws : List String) (state : Dmap N × Bool)
      → (collect jose raws state).1 ≡ true
      → (state.1 ≡ true) × All (IsIn (collect jose raws state).0) raws
  unfolding collect
  collect-IsIn [] state h = (h, tt)
  collect-IsIn (raw ∷ raws) state h =
      let (before, rest) = collect-IsIn raws (collected jose (parse_disclosure jose raw) state) h in
      this (parse_disclosure jose raw) refl before rest
    where
      this :
          (o : Option (Disclosure N))
          → parse_disclosure jose raw ≡ o
          → (collected jose o state).1 ≡ true
          → All (IsIn (collect jose raws (collected jose o state)).0) raws
          → (state.1 ≡ true)
            × All (IsIn (collect jose raws (collected jose o state)).0) (raw ∷ raws)
      this none e before rest = absurd (ground (arith, before))
      this (some d) e before rest = (
        before,
        (
          (
            d,
            e,
            collect-keeps (digest jose d) raws (collected jose (some d) state) (
                ground (
                  arith,
                  digests_of-insert (digest jose d) (digest jose d) d state.0,
                  eq_refl (digest jose d),
                )),
          ),
          rest,
        ),
      )

  -- The text parses as a disclosure, and its digest is offered.
  abbrev pub IsOffered : Json N → Dmap N → String → Type 0
  IsOffered node dmap raw =
      (d : Disclosure N) × (parse_disclosure jose raw ≡ some d)
      × (contains (digest jose d) (offers node ++ offers_of_values dmap) ≡ true)

  -- the map from digests to the disclosures presented
  abbrev pub presented : Sdjwt → Dmap N
  presented sd = (collect jose sd.disclosures ([], true)).0

  concluded-done :
      (dmap : Dmap N) (sound : Bool) (o : Outcome (Json N × List String)) (processed : Json N)
      → concluded dmap sound o ≡ done (processed, true)
      → (used : List String) × (o ≡ done (processed, used))
        × ((sound ≡ true) × (same_set used (digests_of dmap) ≡ true))
  concluded-done dmap sound (raised e) processed h = absurd (ground (arith, h))
  concluded-done dmap sound (done (w, used)) processed h =
      let fine : (sound && same_set used (digests_of dmap)) ≡ true = cc h in
      let same : w ≡ processed = cc h in (used, ap (λ v. done (v, used)) same, and_parts fine)

  -- What is in the map is offered, once every digest of the map was used.
  All-IsOffered :
      (node : Json N) (dmap : Dmap N) (used raws : List String)
      → all (λ g. contains g (offers node ++ offers_of_values dmap)) used ≡ true
      → all_in (digests_of dmap) used ≡ true
      → All (IsIn dmap) raws
      → All (IsOffered node dmap) raws
  All-IsOffered node dmap used [] passed covered h = tt
  All-IsOffered node dmap used (raw ∷ raws) passed covered ((d, e, here), more) = (
    (
      d,
      e,
      contains-of_all (λ g. contains g (offers node ++ offers_of_values dmap)) (digest jose d) used
          passed
          (contains-of_all (λ g. contains g used) (digest jose d) (digests_of dmap) covered here),
    ),
    All-IsOffered node dmap used raws passed covered more,
  )

  -- Each digest that a walk of the payload uses is offered.
  used_offered :
      (frames : ℕ) (node : Json N) (dmap : Dmap N)
      → After (λ g. contains g (offers node ++ offers_of_values dmap)) (walk frames dmap node [])
  used_offered frames node dmap =
      let offered : List String = offers node ++ offers_of_values dmap in
      let p : String → Bool = λ g. contains g offered in
      let (ours, values) =
        all_parts p (offers node) (offers_of_values dmap)
          (all-of_contains p offered (λ g here. here)) in
      walk-Keeps p dmap (value_offers p dmap values) frames node ours [] refl

  -- Where `disclose` answers ok, each disclosure presented parses, and its digest is one that the
  -- payload offers, or one that the value of a presented disclosure offers.
  pub disclose-IsOffered :
      (frames : ℕ) (sd : Sdjwt) (node processed : Json N)
      → payload jose sd ≡ done node
      → disclose jose frames sd ≡ done (processed, true)
      → All (IsOffered node (presented sd)) sd.disclosures
  unfolding disclose
  disclose-IsOffered frames sd node processed paid h =
      let dmap = presented sd in
      let (used, walked, (sound, same)) =
        concluded-done dmap (collect jose sd.disclosures ([], true)).1 (walk frames dmap node [])
          processed (rw paid at h) in
      All-IsOffered node dmap used sd.disclosures
        (subst (After (λ g. contains g (offers node ++ offers_of_values dmap))) walked
          (used_offered frames node dmap))
        (and_parts same).1 (collect-IsIn sd.disclosures ([], true) sound).1
