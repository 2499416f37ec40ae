-- ===== src/Ap2/Disclosures/Termination.antt =====
-- `disclose` ends before the frames run out, where no disclosure discloses itself again.
use finance.Base.{
  All, eq_iff, subst, ℕ, ◌≤◌, String, Bool, false, some, List, [], ◌∷◌, ◌==◌, ◌≡◌, refl, arith,
  Bool-cases, inl, inr,
}
use finance.Base.Dict.{lookup}
use finance.Pipeline.Context.{Outcome, done, raised}
use finance.Ap2.Json.{Numbers, Json}
use finance.Ap2.Jws.{JoseOps}
use finance.Ap2.Sdjwt.{Sdjwt, payload}
use finance.Ap2.Disclosures.{Disclosure, Dmap, walk, concluded, disclose}
use finance.Ap2.Disclosures.Integrity.{presented}
use finance.Ap2.Disclosures.Stopping.{height, overflows, walk-Stops}

module _ (rank : String → ℕ) {N : Type 0} ⦃ns : Numbers N⦄ where
  concluded-overflows :
      (dmap : Dmap N) (sound : Bool) (o : Outcome (Json N × List String))
      → overflows o ≡ false
      → overflows (concluded dmap sound o) ≡ false
  concluded-overflows dmap sound (raised e) h = h
  concluded-overflows dmap sound (done (w, used)) h = refl

  values_low :
      (dmap : Dmap N)
      → All (λ entry. height rank entry.1.value ≤ rank entry.0) dmap
      → (g : String) (d : Disclosure N) → lookup g dmap ≡ some d
      → height rank d.value ≤ rank g
  values_low [] low g d found = absurd (ground (arith, found))
  values_low ((j, e) ∷ dmap) (first, rest) g d found = elim (Bool-cases (j == g)) [
    | inl same ↦
        let here : some e ≡ some d = rw same at found in
        let value : e ≡ d = cc here in
        let key : j ≡ g = (eq_iff j g).0 same in
        subst (λ k. height rank d.value ≤ rank k) key
          (subst (λ (v : Disclosure N). height rank v.value ≤ rank j) value first)
    | inr other ↦ values_low dmap rest g d (rw other at found)
  ]

  -- `disclose` does not run out of frames, where the payload is not deeper than they are and each
  -- presented disclosure is not deeper than the rank of its digest; the depth of a value counts a
  -- digest that it offers with its rank, so no disclosure may reveal itself.
  pub disclose-Stops :
      (jose : JoseOps (Json N)) (frames : ℕ) (sd : Sdjwt) (node : Json N)
      → payload jose sd ≡ done node
      → height rank node ≤ frames
      → All (λ entry. height rank entry.1.value ≤ rank entry.0) (presented jose sd)
      → overflows (disclose jose frames sd) ≡ false
  unfolding disclose
  disclose-Stops jose frames sd node paid low values = rw paid (
      concluded-overflows (presented jose sd) _ (walk frames (presented jose sd) node []) (
        walk-Stops rank (presented jose sd) (values_low (presented jose sd) values) frames node low
          []))
