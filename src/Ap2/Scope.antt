-- ===== src/Ap2/Scope.antt =====
-- aegis/ap2/scope_ledger.py: the authority that is left of an open mandate.
pub mod Reach
use finance.Base.{
  ℕ, String, Bool, true, false, not, ◌&&◌, ◌==◌, Option, none, some, List, [], ◌∷◌, contains, add,
  discard, if◌then◌else◌,
}
use finance.Base.Dict.{Dict, lookup, insert}
use finance.Base.Float.{FloatOps, lit, ◌⊕◌, ◌⊖◌, ◌<?◌}
use finance.Base.Int.{ℤ, pos, ◌-ℤ◌, ltb_ℤ}
use finance.Ap2.Jws.{JoseOps, verify_jws}

pub record MandateReceipt (F : Type 0) : Type 0 where
  pub reference : String
  pub result : String
  pub amount_usd : F
  pub issued_at : ℤ
  pub mandate_id : String
  pub raw_jwt : String

pub record OpenMandateScope (F : Type 0) : Type 0 where
  pub mandate_id : String
  pub remaining_count : ℤ
  pub remaining_value_usd : F
  pub consumed_hashes : List String
  pub outstanding : List String

pub record Reservation : Type 0 where
  pub mandate_id : String
  pub sd_hash : String

-- the exceptions, by their messages
pub data ScopeError : Type 0 where
  double_spend scope_exceeded receipt_invalid : String → ScopeError

pub data ScopeReply (A : Type 0) : Type 0 where
  ok : A → ScopeReply A
  error : ScopeError → ScopeReply A

abbrev pub ScopeStore : Type 0 → Type 0
ScopeStore F = Dict (OpenMandateScope F)

abbrev pub is_none_left : List String → Bool
is_none_left [] = true
is_none_left (h ∷ hs) = false

module _ {F : Type 0} where
  unfoldable pub put : OpenMandateScope F → ScopeStore F → ScopeStore F
  put scope store = insert scope.mandate_id scope store

  abbrev existing_or :
      Option (OpenMandateScope F)
      → OpenMandateScope F
      → ScopeStore F
      → OpenMandateScope F × ScopeStore F
  existing_or (some existing) scope store = (existing, store)
  existing_or none scope store = (scope, insert scope.mandate_id scope store)

  -- A live scope is never reset.
  unfoldable pub open_scope : String → ℤ → F → ScopeStore F → OpenMandateScope F × ScopeStore F
  open_scope mandate_id count value_usd store =
      existing_or (lookup mandate_id store)
        (record {
          mandate_id = mandate_id;
          remaining_count = count;
          remaining_value_usd = value_usd;
          consumed_hashes = [];
          outstanding = [];
        })
        store

module _ {F : Type 0} ⦃fl : FloatOps F⦄ where
  -- `reserve`: the reply, and the scope as it then is; the ledger stores a scope that changed.
  unfoldable pub reserve :
      String → F → OpenMandateScope F → ScopeReply Reservation × OpenMandateScope F
  reserve closed_sd_hash amount_usd scope =
      if contains closed_sd_hash scope.consumed_hashes
      then (error (double_spend "closed mandate already settled"), scope)
      else if not (is_none_left scope.outstanding)
          && not (contains closed_sd_hash scope.outstanding)
      then (error (double_spend "overlapping closed mandate outstanding — await receipt"), scope)
      else if contains closed_sd_hash scope.outstanding
      then (error (double_spend "closed mandate already reserved"), scope)
      else if ltb_ℤ scope.remaining_count (pos 1)
      then (error (scope_exceeded "no remaining count authority"), scope)
      else if (scope.remaining_value_usd ⊕ lit 1 9) <? amount_usd
      then (error (scope_exceeded "beyond remaining value authority"), scope)
      else (
        ok (record { mandate_id = scope.mandate_id; sd_hash = closed_sd_hash }),
        record scope { outstanding = add closed_sd_hash scope.outstanding },
      )

  module _ {J : Type 0} (jose : JoseOps J) (verifier_pub : String) where
    -- `MandateReceipt.verify`
    unfoldable pub verify_receipt : MandateReceipt F → Bool
    verify_receipt receipt =
        not (receipt.raw_jwt == "") && verify_jws jose receipt.raw_jwt verifier_pub

    abbrev released : MandateReceipt F → OpenMandateScope F → OpenMandateScope F
    released receipt scope = record scope {
      outstanding = discard receipt.reference scope.outstanding;
    }

    -- a success that is not known yet
    abbrev consumed : MandateReceipt F → OpenMandateScope F → OpenMandateScope F
    consumed receipt scope = record scope {
      outstanding = discard receipt.reference scope.outstanding;
      consumed_hashes = add receipt.reference scope.consumed_hashes;
      remaining_count = scope.remaining_count -ℤ pos 1;
      remaining_value_usd = scope.remaining_value_usd ⊖ receipt.amount_usd;
    }

    unfoldable pub apply_receipt :
        MandateReceipt F → OpenMandateScope F → ScopeReply Unit × OpenMandateScope F
    apply_receipt receipt scope =
        if not (verify_receipt receipt)
        then (error (receipt_invalid "receipt signature invalid or missing"), scope)
        else if receipt.result == "success"
            && not (contains receipt.reference scope.consumed_hashes)
        then (ok tt, consumed receipt scope)
        else (ok tt, released receipt scope)
