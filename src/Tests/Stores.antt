-- ===== src/Tests/Stores.antt =====
-- Windows, approvals, shares and compiled constraints at concrete inputs.
use finance.Base.{
  List, length, String, true, false, some, [], ◌∷◌, ◌++◌, ◌≡◌, ◌≢◌, ◌⊎◌, refl, arith, eq_iff,
  if◌then◌else◌,
}
use finance.Base.Dict.{lookup}
use finance.Base.Float.{◌⊖◌, ◌≤?◌, ◌<?◌}
use finance.Base.Int.{ℤ, pos}
use finance.Config.{reg_e_consumer_cap_ratio}
use finance.Ap2.Constraints.{default_registry}
use finance.Ap2.Constraints.Compile.{
  Agrees, compile_spend_curve, compile_mcc_allowlist, compile_fx_slippage_bound,
  compile_merchant_allowlist, compile_velocity_envelope, default_registry-Agrees,
}
use finance.Gateway.Routes.{ok, StepUpApproval, contribute, approve}
use finance.Gateway.Routes.Approval.{IsOther, approve_lem}
use finance.Ledger.Store.{get}
use finance.Samples.Rows.{refusal}
use finance.Models.{ControlEvidence, DecisionEnvelope, StepUpChallenge, step_up}
use finance.Pipeline.Context.{Outcome, done}
use finance.Pipeline.Liability.{apportion}
use finance.Pipeline.Liability.Floor.{apportion_floor}
use finance.Pipeline.Orchestrator.{Services, Orchestrator}
use finance.Pipeline.RiskStepup.{verify_quorum}
use finance.State.Velocity.{VelocityStore, record_entry, seed, window}
use finance.State.Velocity.Window.{window-record_entry, window-seed}
use finance.Samples.Fixed.{fixed}
use finance.Samples.Platform.{ids}
use finance.Samples.Bundle.{services, start, quorum_of_two, all_met}

abbrev transfers : VelocityStore ℤ
transfers = ("vel", (pos 10000, pos 5) ∷ (pos 90000, pos 7) ∷ []) ∷ ("struct", []) ∷ []

other_key : ◌≢◌ {A = String} "struct" "vel"
other_key e = ground (arith, e, eq_iff "struct" "vel")

window-record_entry_example :
    ((window "vel" (pos 100000) (pos 50000) (record_entry "vel" (pos 100000) (pos 9) transfers)).0
      ≡ (window "vel" (pos 100000) (pos 50000) transfers).0
        ++ (if (pos 100000 ⊖ pos 50000) ≤? pos 100000 then (pos 100000, pos 9) ∷ [] else []))
    × (lookup "struct" (record_entry "vel" (pos 100000) (pos 9) transfers)
        ≡ lookup "struct" transfers)
window-record_entry_example =
    window-record_entry "vel" "struct" (pos 100000) (pos 9) (pos 100000) (pos 50000) transfers
      other_key

window-seed_example :
    let w₁ = (window "struct" (pos 100000) (pos 50000) transfers).0 in
    let w₂ = (window "vel" (pos 100000) (pos 50000) transfers).0 in
    let copy = seed (("struct", w₁) ∷ ("vel", w₂) ∷ []) [] in
    ((window "struct" (pos 100000) (pos 50000) copy).0 ≡ w₁)
    × ((window "vel" (pos 100000) (pos 50000) copy).0 ≡ w₂)
window-seed_example = window-seed "struct" "vel" (pos 100000) (pos 50000) transfers other_key

abbrev no_stepup : ControlEvidence
no_stepup = record all_met { user_completed_required_stepup = false }

apportion_floor_example :
    let share : ℤ = (apportion no_stepup true).0.user in
    (share ≡ reg_e_consumer_cap_ratio) ⊎ ((reg_e_consumer_cap_ratio <? share) ≡ false)
apportion_floor_example = apportion_floor no_stepup

abbrev kept : ℤ → Outcome ℤ
kept x = done x

default_registry-Agrees_example :
    let reg = default_registry kept in
    Agrees reg (compile_spend_curve kept (pos 5) (pos 6))
    × Agrees reg (compile_mcc_allowlist ("5411" ∷ []))
    × Agrees reg (compile_fx_slippage_bound (pos 7) (pos 8) "USD")
    × Agrees reg compile_merchant_allowlist
    × Agrees reg (compile_velocity_envelope (pos 2) (pos 9) (pos 86400))
default_registry-Agrees_example =
    default_registry-Agrees kept (pos 5) (pos 6) (pos 7) (pos 8) (pos 9) ("5411" ∷ []) "USD" (pos 2)
      (pos 86400)

abbrev system : Services ℤ
system = services (pos 0)

abbrev first_approval : StepUpApproval
first_approval = record { signer_did = "did:g1"; signature = "did:g1cart-1" }

abbrev asked : DecisionEnvelope ℤ
asked = record refusal { verdict = step_up; stepup = some quorum_of_two }

abbrev waiting : Orchestrator ℤ
waiting = record start {
  ledger = record (start.ledger) { entries = asked ∷ []; by_id = ("dec-1", asked) ∷ [] };
  stepup = ("ch-1", quorum_of_two) ∷ [];
}

abbrev with_first : StepUpChallenge
with_first = contribute first_approval quorum_of_two

abbrev asked_of_one : DecisionEnvelope ℤ
asked_of_one = record asked { stepup = some with_first }

no-IsOther :
    (e : DecisionEnvelope ℤ) → get "dec-2" waiting.ledger ≡ some e → IsOther quorum_of_two e
unfolding get
no-IsOther e found = absurd (ground (arith, found))

asked_found : get "dec-1" waiting.ledger ≡ some asked
unfolding get
asked_found = refl

g2_differs : ◌≢◌ {A = String} "did:g2" "did:g1"
g2_differs e = ground (arith, e, eq_iff "did:g2" "did:g1")

approve_lem_example :
    let (orch', response) = approve system "ch-1" first_approval waiting in
    let quorum =
      verify_quorum system.crypto system.public_key with_first with_first.contributions in
    (response ≡ ok (record { satisfied = quorum.0; remaining = quorum.1 }))
    × (lookup "ch-1" orch'.stepup ≡ some with_first)
    × (lookup "did:g1" with_first.contributions ≡ some "did:g1cart-1")
    × (lookup "did:g2" with_first.contributions ≡ lookup "did:g2" quorum_of_two.contributions)
    × (get "dec-1" orch'.ledger ≡ some asked_of_one)
    × ((before' : List (DecisionEnvelope ℤ)) × (after' : List (DecisionEnvelope ℤ))
        × (orch'.ledger.entries ≡ before' ++ (asked_of_one ∷ after'))
        × (length before' ≡ 0))
    × (get "dec-2" orch'.ledger ≡ get "dec-2" waiting.ledger)
    × (orch'.ledger.backend ≡ waiting.ledger.backend)
approve_lem_example =
    approve_lem system quorum_of_two first_approval "did:g2" waiting "dec-1" "dec-2" asked [] []
      refl g2_differs asked_found refl refl no-IsOther
