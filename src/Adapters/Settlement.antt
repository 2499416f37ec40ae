-- ===== src/Adapters/Settlement.antt =====
-- aegis/adapters/settlement.py: the gate between a decision and a settlement rail.
pub mod Gate
pub mod Authority
use Prim.Native.String.{◌++◌}
use mathlib.Core.List.{◌++◌ as append}
use finance.Base.{String, Bool, true, List, ◌∷◌, [], not, ◌==◌, if◌then◌else◌}
use finance.Base.Platform.{Crypto}
use finance.Ledger.Store.{DecisionLedger, verify_signature}
use finance.Models.{DecisionEnvelope, PaymentMandate, Encoding, Verdict, allow, step_up, block}

pub record SettlementResult : Type 0 where
  pub settled : Bool
  pub rail : String
  pub settlement_ref : String
  pub decision_id : String

-- `SettlementRefused`, by its message
pub data Settlement : Type 0 where
  result : SettlementResult → Settlement
  refused : String → Settlement

-- A rail with its own state: `submit` gives the reference of the transfer.
pub record SettlementAdapter (S : Type 0) : Type 0 where
  pub rail : String
  pub submit : PaymentMandate → S → S × String

-- `SimulatorAdapter`: the state is the list of the references of settled payments; `uuid4` gives
-- the next one.
unfoldable pub simulator : (List String → String) → SettlementAdapter (List String)
simulator next_ref = record {
  rail = "sim";
  submit = λ payment refs. let ref = "sim-" ++ next_ref refs in (append refs (ref ∷ []), ref);
}

module _ {F S : Type 0} ⦃enc : Encoding F⦄ (cr : Crypto) (adapter : SettlementAdapter S) where
  -- `adapter.submit` and the result of `settle`
  abbrev pub submitted : DecisionEnvelope F → PaymentMandate → S → S × Settlement
  submitted envelope payment s =
      let (s', ref) = adapter.submit payment s in
      (
        s',
        result (record {
          settled = true;
          rail = adapter.rail;
          settlement_ref = ref;
          decision_id = envelope.decision_id;
        }),
      )

  -- step 3 of `settle`
  abbrev pub verdict_gate :
      Verdict → DecisionEnvelope F → PaymentMandate → Bool → S → S × Settlement
  verdict_gate allow envelope payment quorum_satisfied s = submitted envelope payment s
  verdict_gate step_up envelope payment quorum_satisfied s =
      if not quorum_satisfied
      then (s, refused "STEP_UP verdict but quorum not satisfied")
      else submitted envelope payment s
  verdict_gate block envelope payment quorum_satisfied s =
      (s, refused "verdict BLOCK does not permit settlement")

  unfoldable pub settle :
      DecisionEnvelope F → PaymentMandate → DecisionLedger F → Bool → S → S × Settlement
  settle envelope payment ledger quorum_satisfied s =
      if not (verify_signature cr ledger.signing_pub envelope)
      then (s, refused "decision envelope signature invalid")
      else if not (envelope.mandate_id == payment.mandate_id)
      then (s, refused "envelope does not authorize this payment mandate")
      else verdict_gate envelope.verdict envelope payment quorum_satisfied s
