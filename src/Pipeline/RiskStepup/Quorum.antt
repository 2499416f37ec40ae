-- ===== src/Pipeline/RiskStepup/Quorum.antt =====
-- Who is counted towards a step-up quorum.
use finance.Base.{
  length-discard-le, ◌+◌, ◌-◌, ◌≤◌, String, Bool, true, false, Option, some, List, [], ◌∷◌,
  contains, add, length, Distinct, ◌&&◌, ◌||◌, ◌==◌, eq_iff, eq_refl, ◌≡◌, refl, sym, ◌∙◌, arith,
  ◌≢◌, ◌↔◌, any, All, subst, Option-cases, if◌then◌else◌, inl, inr, Bool-cases, discard,
  contains-discard,
}
use finance.Base.Dict.{Dict}
use finance.Base.Platform.{Crypto}
use finance.Models.{StepUpChallenge}
use finance.Pipeline.RiskStepup.{counts, valid_signers, verify_quorum}

pub Distinct-add : (s : String) (xs : List String) → Distinct xs → Distinct (add s xs)
Distinct-add s xs d = ground arith

pub contains-add :
    (s t : String) (xs : List String) → contains t (add s xs) ≡ (t == s || contains t xs)
contains-add s t xs = ground (arith, eq_iff t s)

length-discard-lt :
    (s : String) (xs : List String) → contains s xs ≡ true → length (discard s xs) + 1 ≤ length xs
length-discard-lt s [] h = absurd (cc)
length-discard-lt s (x ∷ xs) h = ground (arith, length-discard-lt s xs, length-discard-le s xs)

All-contains {κ} :
    {P : String → Type κ} (xs : List String)
    → ((s : String) → contains s xs ≡ true → P s)
    → All P xs
All-contains [] h = tt
All-contains {P = P} (x ∷ xs) h =
    (h x (ground (arith, eq_refl x)), All-contains {P = P} xs (λ s m. h s (ground (arith, m))))

-- A list without repeats is no longer than a list that holds its elements.
pub length-le-contains :
    (xs ys : List String)
    → Distinct xs
    → ((s : String) → contains s xs ≡ true → contains s ys ≡ true)
    → length xs ≤ length ys
length-le-contains [] ys d h = omega arith
length-le-contains (x ∷ xs) ys d h =
    let shorter : (s : String) → contains s xs ≡ true → contains s (discard x ys) ≡ true =
      λ s m. ground (arith, h s, contains-discard x s ys, eq_iff x s, eq_iff s x, d.0) in
    let rest = length-le-contains xs (discard x ys) (d.1) shorter in
    let here : contains x (x ∷ xs) ≡ true = ground (arith, eq_refl x) in
    omega (arith, rest, length-discard-lt x ys (h x here))

module _ (cr : Crypto) (pubkey_resolver : String → Option String)
    (challenge : StepUpChallenge) where
  -- some contribution of the signer counts
  abbrev pub has_signed : String → Dict String → Bool
  has_signed signer [] = false
  has_signed signer ((did, sig) ∷ contributions) =
      (signer == did && counts cr pubkey_resolver challenge did sig)
      || has_signed signer contributions

  pub Distinct-valid_signers :
      (contributions : Dict String) (signers : List String)
      → Distinct signers
      → Distinct (valid_signers cr pubkey_resolver challenge contributions signers)
  unfolding valid_signers
  Distinct-valid_signers [] signers d = d
  Distinct-valid_signers ((did, sig) ∷ contributions) signers d =
      Distinct-valid_signers contributions
        (if counts cr pubkey_resolver challenge did sig then add did signers else signers)
        (ground (arith, Distinct-add did signers d))

  pub contains-valid_signers :
      (signer : String) (contributions : Dict String) (signers : List String)
      → contains signer (valid_signers cr pubkey_resolver challenge contributions signers)
        ≡ (contains signer signers || has_signed signer contributions)
  unfolding valid_signers
  contains-valid_signers signer [] signers = ground arith
  contains-valid_signers signer ((did, sig) ∷ contributions) signers =
      contains-valid_signers signer contributions
        (if counts cr pubkey_resolver challenge did sig then add did signers else signers)
      ∙ ground (arith, contains-add did signer signers)

  -- The signer is eligible, is not the initiator, and has a key under which one of its
  -- contributions verifies as a signature of the cart hash.
  abbrev pub Approves : Dict String → String → Type 0
  Approves contributions signer =
      (signer ≢ challenge.initiator)
      × (contains signer challenge.eligible_approvers ≡ true)
      × ((key : String) × (sig : String) × (pubkey_resolver signer ≡ some key)
          × (any (λ c. c.0 == signer && c.1 == sig) contributions ≡ true)
          × (cr.verify key challenge.cart_hash sig ≡ true))

  counts-Approves :
      (signer sig : String) (contributions : Dict String)
      → counts cr pubkey_resolver challenge signer sig ≡ true
      → Approves ((signer, sig) ∷ contributions) signer
  counts-Approves signer sig contributions h =
      let same : (signer == signer) ≡ true = eq_refl signer in
      let twice : (sig == sig) ≡ true = eq_refl sig in
      elim (Option-cases (pubkey_resolver signer)) [
        | inl unknown ↦ absurd (ground (arith, rw unknown at h))
        | inr (key, known) ↦
            let h' = rw known at h in
            (
              ground (arith, h', eq_iff signer challenge.initiator),
              ground (arith, h'),
              (key, sig, known, ground (arith, same, twice), ground (arith, h')),
            )
      ]

  has_signed-Approves :
      (signer : String) (contributions : Dict String)
      → has_signed signer contributions ≡ true
      → Approves contributions signer
  has_signed-Approves signer [] h = absurd (cc)
  has_signed-Approves signer ((did, s) ∷ contributions) h =
      elim (Bool-cases (signer == did && counts cr pubkey_resolver challenge did s)) [
        | inl here ↦
            let same : signer ≡ did = ground (arith, eq_iff signer did) in
            subst (Approves ((did, s) ∷ contributions)) (sym same)
              (counts-Approves did s contributions (ground arith))
        | inr there ↦
            let (other, eligible, (key, sig, known, given, verifies)) =
              has_signed-Approves signer contributions (ground arith) in
            (other, eligible, (key, sig, known, ground arith, verifies))
      ]

  -- The quorum is satisfied exactly when `required_m` signers, no one of them counted twice, have
  -- each given a contribution that counts, and each of them is eligible, is not the initiator, and
  -- has signed the hash of the cart. What is reported as missing is the rest of `required_m`.
  pub verify_quorum_lem :
      (contributions : Dict String)
      → let (satisfied, remaining) = verify_quorum cr pubkey_resolver challenge contributions in
        (signers : List String) × Distinct signers
        × ((s : String) → contains s signers ≡ has_signed s contributions)
        × All (Approves contributions) signers
        × (satisfied ≡ true ↔ challenge.required_m ≤ length signers)
        × (remaining ≡ challenge.required_m - length signers)
  unfolding verify_quorum
  verify_quorum_lem contributions =
      let signers = valid_signers cr pubkey_resolver challenge contributions [] in
      let same : (s : String) → contains s signers ≡ has_signed s contributions =
        λ s. contains-valid_signers s contributions [] in
      (
        signers,
        Distinct-valid_signers contributions [] tt,
        same,
        All-contains signers (λ s h. has_signed-Approves s contributions (sym (same s) ∙ h)),
        ground arith,
        refl,
      )

  -- A quorum that asks for more signers than the list of guardians has different names is never
  -- satisfied, however often a guardian is listed.
  pub verify_quorum-few :
      (guardians : List String) (contributions : Dict String)
      → ((s : String)
          → contains s challenge.eligible_approvers ≡ true
          → contains s guardians ≡ true)
      → length guardians + 1 ≤ challenge.required_m
      → (verify_quorum cr pubkey_resolver challenge contributions).0 ≡ false
  verify_quorum-few guardians contributions cover few =
      let (signers, distinct, same, _, enough, _) = verify_quorum_lem contributions in
      let covered : length signers ≤ length guardians =
        length-le-contains signers guardians distinct
          (λ s h. cover s ((has_signed-Approves s contributions (sym (same s) ∙ h)).1)) in
      elim (Bool-cases ((verify_quorum cr pubkey_resolver challenge contributions).0)) [
        | inl all ↦ absurd (omega (arith, covered, few, enough.0 all))
        | inr missing ↦ missing
      ]
