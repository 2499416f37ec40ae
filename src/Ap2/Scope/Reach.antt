-- ===== src/Ap2/Scope/Reach.antt =====
-- A scope under any sequence of reservations and receipts.
use finance.Base.{
  ℕ, ◌+◌, ◌≤◌, String, true, false, not, ◌&&◌, ◌||◌, eq_iff, none, List, [], ◌∷◌, contains,
  Distinct, length, contains-discard, length-discard-le, Bool-cases, inl, inr, ◌≡◌, refl, ap, arith,
}
use finance.Base.Dict.{lookup}
use finance.Base.Float.{FloatOps}
use finance.Base.Int.{ℤ, pos, ◌+ℤ◌, ◌-ℤ◌, int_laws, pos_part, neg_part}
use finance.Ap2.Jws.{JoseOps}
use finance.Ap2.Scope.{
  MandateReceipt, OpenMandateScope, error, reserve, apply_receipt, open_scope, ScopeStore,
  double_spend, is_none_left,
}

one_less : (a c : ℤ) (n : ℕ) → a +ℤ pos n ≡ c → (a -ℤ pos 1) +ℤ pos (n + 1) ≡ c
one_less a c n h = omega (int_laws, ap pos_part h, ap neg_part h)

-- what a client asks of the ledger
pub data ScopeEvent (F : Type 0) : Type 0 where
  reservation : String → F → ScopeEvent F
  receipt : MandateReceipt F → ScopeEvent F

module _ {F J : Type 0} ⦃fl : FloatOps F⦄ (jose : JoseOps J) (verifier_pub : String) where
  unfoldable pub step : ScopeEvent F → OpenMandateScope F → OpenMandateScope F
  step (reservation hash amount) scope = (reserve hash amount scope).1
  step (receipt r) scope = (apply_receipt jose verifier_pub r scope).1

  unfoldable pub steps : List (ScopeEvent F) → OpenMandateScope F → OpenMandateScope F
  steps [] scope = scope
  steps (e ∷ es) scope = steps es (step e scope)

  -- Of an authority for `count` payments: at most one is outstanding, none is settled twice, none is
  -- both settled and outstanding, and each settled one has used up one of the count.
  pub record IsSound (count : ℤ) (scope : OpenMandateScope F) : Type 0 where
    pub single : length scope.outstanding ≤ 1
    pub once : Distinct scope.consumed_hashes
    pub apart :
        (h : String) → (contains h scope.outstanding && contains h scope.consumed_hashes) ≡ false
    pub counted : scope.remaining_count +ℤ pos (length scope.consumed_hashes) ≡ count

  reserve-IsSound :
      (count : ℤ) (hash : String) (amount : F) (scope : OpenMandateScope F)
      → IsSound count scope
      → IsSound count (reserve hash amount scope).1
  unfolding reserve
  reserve-IsSound count hash amount scope sound = record {
    single = ground (arith, sound.single);
    once = ground (arith, sound.once);
    apart = λ h. ground (arith, sound.apart h, eq_iff h hash);
    counted = ground (arith, sound.counted);
  }

  apply_receipt-IsSound :
      (count : ℤ) (r : MandateReceipt F) (scope : OpenMandateScope F)
      → IsSound count scope
      → IsSound count (apply_receipt jose verifier_pub r scope).1
  unfolding apply_receipt
  apply_receipt-IsSound count r scope sound = record {
    single = ground (arith, sound.single, length-discard-le r.reference scope.outstanding);
    once = ground (arith, sound.once);
    apart = λ h. ground (
      arith,
      sound.apart h,
      eq_iff h r.reference,
      eq_iff r.reference h,
      contains-discard r.reference h scope.outstanding,
    );
    counted =
        ground (
          arith,
          sound.counted,
          one_less scope.remaining_count count (length scope.consumed_hashes),
        );
  }

  step-IsSound :
      (count : ℤ) (e : ScopeEvent F) (scope : OpenMandateScope F)
      → IsSound count scope
      → IsSound count (step e scope)
  unfolding step
  step-IsSound count (reservation hash amount) scope = reserve-IsSound count hash amount scope
  step-IsSound count (receipt r) scope = apply_receipt-IsSound count r scope

  steps-IsSound :
      (count : ℤ) (es : List (ScopeEvent F)) (scope : OpenMandateScope F)
      → IsSound count scope
      → IsSound count (steps es scope)
  unfolding steps
  steps-IsSound count [] scope sound = sound
  steps-IsSound count (e ∷ es) scope sound =
      steps-IsSound count es (step e scope) (step-IsSound count e scope sound)

  -- After any reservations and receipts on a freshly opened scope, at most one closed mandate is
  -- outstanding, none is settled twice, none is both, and the count that is left is the count that
  -- was opened less the closed mandates that have settled.
  pub steps-open_scope :
      (mandate_id : String) (count : ℤ) (value : F) (store : ScopeStore F)
      (es : List (ScopeEvent F))
      → lookup mandate_id store ≡ none
      → IsSound count (steps es (open_scope mandate_id count value store).0)
  unfolding open_scope
  steps-open_scope mandate_id count value store es unknown = rw unknown (
      steps-IsSound count es _
        (record { single = omega arith; once = tt; apart = λ h. refl; counted = omega int_laws }))

module _ {F : Type 0} ⦃fl : FloatOps F⦄ where
  -- Whatever was reserved before, a second closed mandate is refused while one is outstanding, and a
  -- settled one is refused for ever; the scope stays as it was.
  pub reserve_overlap :
      (hash : String) (amount : F) (scope : OpenMandateScope F)
      → (contains hash scope.consumed_hashes || not (is_none_left scope.outstanding)) ≡ true
      → (message : String) × (reserve hash amount scope ≡ (error (double_spend message), scope))
  unfolding reserve
  reserve_overlap hash amount scope h = elim (Bool-cases (contains hash scope.consumed_hashes)) [
    | inl settled ↦ rw settled ("closed mandate already settled", refl)
    | inr new ↦
        let busy : is_none_left scope.outstanding ≡ false = ground (arith, h, new) in
        elim (Bool-cases (contains hash scope.outstanding)) [
          | inl reserved ↦ rw (new, busy, reserved) ("closed mandate already reserved", refl)
          | inr other ↦
              rw (new, busy, other) ("overlapping closed mandate outstanding — await receipt", refl)
        ]
  ]
