-- ===== src/Tests.antt =====
-- The theorems at concrete inputs, and runs of the definitions.
mod Parts
mod Disputes
mod Stores
mod Stages
mod Mandates
mod Storage
use finance.Base.{
  Bool, true, false, none, some, [], ◌∷◌, ◌++◌, String, List, Distinct, All, ◌≡◌, ◌≢◌, refl, arith,
  contains, any, ◌==◌, Option, ◌⊎◌, ◌↔◌, ◌≤◌, ◌-◌, length,
}
use finance.Base.Dict.{lookup}
use finance.Base.Int.{ℤ, pos, ◌+ℤ◌, ◌-ℤ◌, ◌*ℤ◌}
use finance.Models.{allow, step_up, ListProvenance, StepUpChallenge, DecisionEnvelope}
use finance.Gateway.Verify.{accepted, rejected, verify_bundle}
use finance.Ledger.Store
use finance.Ledger.Store.{get, head_hash, verify_chain, open_ledger, opened, DecisionLedger}
use finance.Ledger.Store.Chain.{IsIntact, append-IsIntact, open_ledger-IsIntact}
use finance.Ledger.Store.Tamper.{NoCollision, verify_chain-inj}
use finance.Pipeline.Context.{new_context, raised}
use finance.Pipeline.Orchestrator.{Services, evaluate, run_pipeline}
use finance.Pipeline.Orchestrator.Authority.{EnvelopeOf, evaluate_cleared}
use finance.Pipeline.Orchestrator.Passage.{Passage}
use finance.Pipeline.Orchestrator.Challenge.{IsAnswerable}
use finance.Pipeline.Orchestrator.Records.{
  evaluate_recorded, evaluate_challenge, evaluate_no_challenge,
}
use finance.Pipeline.Orchestrator.Failclosed.{IsRefused, evaluate_rejected, evaluate_raised}
use finance.Pipeline.ReasonCodes.{unique_codes}
use finance.Pipeline.ReasonCodes.Codes.{unique_codes_lem}
use finance.Pipeline.RiskStepup.{verify_quorum}
use finance.Pipeline.RiskStepup.Quorum.{has_signed, Approves, verify_quorum_lem, verify_quorum-few}
use finance.Adapters.Settlement.{
  Settlement, SettlementAdapter, SettlementResult, result, settle, simulator, submitted,
}
use finance.Adapters.Settlement.Gate.{authorizes, WasRefused, settle_lem}
use finance.Adapters.Settlement.Authority.{settle-evaluate}
use finance.Samples.Fixed.{fixed}
use finance.Samples.Platform.{ids, toy_crypto, toy_crypto_signs}
use finance.Samples.Bundle.{
  coffee, all_met, services, fresh, start, empty_ledger, forged, broken_embedder, quorum_of_two,
  approvals,
}

everything : Bool
unfolding finance.Ap2.Scope.reserve finance.Ap2.Scope.apply_receipt finance.Ap2.Scope.open_scope
    finance.Ap2.Scope.verify_receipt finance.Ap2.Scope.Reach.step finance.Ap2.Scope.Reach.steps
    finance.Ap2.Text.split_on finance.Ap2.Jws.parse_jws finance.Ap2.Jws.verify_jws
    finance.Ap2.Constraints.evaluate finance.Ap2.Constraints.evaluate_all
    finance.Ap2.Constraints.register finance.Ap2.Constraints.default_registry
    finance.Ap2.Constraints.verify_spend_curve finance.Ap2.Constraints.verify_mcc_allowlist
    finance.Ap2.Constraints.verify_fx_slippage_bound
    finance.Ap2.Constraints.verify_merchant_allowlist
    finance.Ap2.Constraints.verify_velocity_envelope finance.Pipeline.Orchestrator.Replay.replay
    finance.Pipeline.Orchestrator.Replay.rerun finance.Pipeline.Orchestrator.Replay.compare_runs
    finance.Screening.Recorded.recorded_provider finance.Ledger.Backend.archive_for
    finance.Ledger.Store.archive_for finance.State.Velocity.seed finance.Adapters.Settlement.settle
    finance.Adapters.Settlement.simulator finance.Base.Int.◌*ℤ◌ finance.Base.Int.◌+ℤ◌
    finance.Base.Int.◌-ℤ◌ finance.Data.Reference.add_owners finance.Data.Reference.is_sanctioned
    finance.Data.Reference.owners_of finance.Data.Reference.sanctioned_share
    finance.Data.Reference.share_levels finance.Data.Reference.travel_rule_threshold
    finance.Gateway.Verify.base_did finance.Gateway.Verify.verify_bundle
    finance.Gateway.Verify.verify_mandate finance.Ledger.Backend.append
    finance.Ledger.Backend.init_meta finance.Ledger.Store.append finance.Ledger.Store.entry_hash
    finance.Ledger.Store.first_bad finance.Ledger.Store.get finance.Ledger.Store.head_hash
    finance.Ledger.Store.index finance.Ledger.Store.open_ledger finance.Ledger.Store.seal
    finance.Ledger.Store.verify_chain finance.Ledger.Store.verify_signature
    finance.Pipeline.Adversarial.after_similarity finance.Pipeline.Adversarial.has_hidden_unicode
    finance.Pipeline.Adversarial.judge finance.Pipeline.Adversarial.price_breach
    finance.Pipeline.Adversarial.run finance.Pipeline.Adversarial.scan_injection
    finance.Pipeline.Context.add_signal finance.Pipeline.Context.has_hard_block
    finance.Pipeline.Context.new_context finance.Pipeline.Context.record_model
    finance.Pipeline.Jurisdiction.applicable_threshold finance.Pipeline.Jurisdiction.is_eu_buyer
    finance.Pipeline.Jurisdiction.is_restricted finance.Pipeline.Jurisdiction.run
    finance.Pipeline.Jurisdiction.travel_rule_fields_present finance.Pipeline.Liability.add_shares
    finance.Pipeline.Liability.apportion finance.Pipeline.Liability.control_weights
    finance.Pipeline.Liability.is_unauthorized finance.Pipeline.Liability.normalize
    finance.Pipeline.Liability.redistribute finance.Pipeline.Liability.run
    finance.Pipeline.Orchestrator.after_adversarial finance.Pipeline.Orchestrator.after_gate
    finance.Pipeline.Orchestrator.after_pipeline finance.Pipeline.Orchestrator.after_sanctions
    finance.Pipeline.Orchestrator.after_structuring finance.Pipeline.Orchestrator.conclude
    finance.Pipeline.Orchestrator.evaluate finance.Pipeline.Orchestrator.finalize
    finance.Pipeline.Orchestrator.finalize_failclosed finance.Pipeline.Orchestrator.guard_skipped
    finance.Pipeline.Orchestrator.run_pipeline finance.Pipeline.ReasonCodes.build_envelope
    finance.Pipeline.ReasonCodes.unique_codes finance.Pipeline.RiskStepup.cart_hash
    finance.Pipeline.RiskStepup.make_challenge finance.Pipeline.RiskStepup.required_quorum
    finance.Pipeline.RiskStepup.resolve finance.Pipeline.RiskStepup.run
    finance.Pipeline.RiskStepup.score_and_resolve finance.Pipeline.RiskStepup.valid_signers
    finance.Pipeline.RiskStepup.verify_quorum finance.Pipeline.Sanctions.after_answer
    finance.Pipeline.Sanctions.after_provenance finance.Pipeline.Sanctions.candidate_names
    finance.Pipeline.Sanctions.is_stale finance.Pipeline.Sanctions.ownership_check
    finance.Pipeline.Sanctions.provider_unavailable finance.Pipeline.Sanctions.run
    finance.Pipeline.Sanctions.screen_candidates finance.Pipeline.Sanctions.screen_names
    finance.Pipeline.Sanctions.screen_with finance.Pipeline.Sanctions.unique_names
    finance.Pipeline.Structuring.assess finance.Pipeline.Structuring.beneficiary_ref
    finance.Pipeline.Structuring.is_cluster finance.Pipeline.Structuring.over_cap
    finance.Pipeline.Structuring.run finance.State.Stepup.put finance.State.Velocity.recent
    finance.State.Velocity.record_entry finance.State.Velocity.window
everything = true

abbrev calm : Services ℤ
calm = services (pos 120000)

abbrev risky : Services ℤ
risky = services (pos 500000)

allowed : (evaluate calm fresh coffee all_met (pos 10000) start).1.verdict ≡ allow
unfolding everything
allowed = refl

asked : (evaluate risky fresh coffee all_met (pos 10000) start).1.verdict ≡ step_up
unfolding everything
asked = refl

forgery :
    verify_bundle toy_crypto (λ did. some did) forged
    ≡ rejected "AGENT.SIG.INVALID" "CartMandate: proof signer did:user != declared did:shop"
unfolding everything
forgery = refl

empty_ledger-IsIntact : IsIntact toy_crypto empty_ledger
unfolding everything
empty_ledger-IsIntact = record {
  own_key = refl;
  chained = refl;
  stored = refl;
  indexed = refl;
  bound = refl;
}

abbrev cleared_env : DecisionEnvelope ℤ
cleared_env = (evaluate calm fresh coffee all_met (pos 10000) start).1

evaluate_cleared_example :
    (verify_bundle toy_crypto (λ did. some did) coffee ≡ accepted)
    × ((prov : ListProvenance ℤ) × Passage calm calm.screening []
          (new_context toy_crypto coffee all_met (pos 10000))
          prov
        × EnvelopeOf (new_context toy_crypto coffee all_met (pos 10000)) prov cleared_env)
evaluate_cleared_example =
    evaluate_cleared calm fresh coffee all_met (pos 10000) start (λ e. ground (arith, e, allowed))

evaluate_recorded_example :
    let (orch', env) = evaluate calm fresh coffee all_met (pos 10000) start in
    IsIntact toy_crypto orch'.ledger
    × (orch'.ledger.entries ≡ [] ++ env ∷ [])
    × (get "dec-1" orch'.ledger ≡ some env)
evaluate_recorded_example =
    evaluate_recorded calm fresh toy_crypto_signs coffee all_met (pos 10000) start
      empty_ledger-IsIntact

evaluate_challenge_example :
    let (orch', env) = evaluate risky fresh coffee all_met (pos 10000) start in
    (ch : StepUpChallenge) × (env.stepup ≡ some ch)
    × (lookup ch.challenge_id orch'.stepup ≡ some ch)
    × IsAnswerable ch.initiator ch
evaluate_challenge_example =
    evaluate_challenge risky fresh toy_crypto_signs coffee all_met (pos 10000) start
      empty_ledger-IsIntact asked

evaluate_no_challenge_example : (evaluate calm fresh coffee all_met (pos 10000) start).0.stepup ≡ []
evaluate_no_challenge_example =
    evaluate_no_challenge calm fresh toy_crypto_signs coffee all_met (pos 10000) start
      empty_ledger-IsIntact (λ e. ground (arith, e, allowed))

evaluate_rejected_example :
    let r = evaluate calm fresh forged all_met (pos 10000) start in
    IsRefused "AGENT.SIG.INVALID" r × (r.0.velocity ≡ []) × (r.0.stepup ≡ [])
evaluate_rejected_example =
    evaluate_rejected calm fresh "AGENT.SIG.INVALID"
      "CartMandate: proof signer did:user != declared did:shop" forged all_met (pos 10000) start
      forgery

genuine : verify_bundle toy_crypto (λ did. some did) coffee ≡ accepted
unfolding everything
genuine = refl

crashed :
    (run_pipeline broken_embedder broken_embedder.screening "ch-1" []
      (new_context toy_crypto coffee all_met (pos 10000))).0
    ≡ raised "model"
unfolding everything
crashed = refl

evaluate_raised_example :
    let run =
      run_pipeline broken_embedder broken_embedder.screening "ch-1" []
        (new_context toy_crypto coffee all_met (pos 10000)) in
    let (orch', env) = evaluate broken_embedder fresh coffee all_met (pos 10000) start in
    IsRefused "AGENT.SYS.FAILCLOSED" (orch', env) × (orch'.velocity ≡ run.2) × (orch'.stepup ≡ [])
evaluate_raised_example =
    evaluate_raised broken_embedder fresh "model" coffee all_met (pos 10000) start genuine crashed

append-IsIntact_example :
    let (l', env') = Store.append toy_crypto cleared_env none empty_ledger in
    IsIntact toy_crypto l'
    × (l'.entries ≡ [] ++ env' ∷ [])
    × (get cleared_env.decision_id l' ≡ some env')
    × (env'.prev_envelope_hash ≡ head_hash empty_ledger)
    × (head_hash l' ≡ env'.this_hash)
append-IsIntact_example =
    append-IsIntact toy_crypto toy_crypto_signs cleared_env none empty_ledger empty_ledger-IsIntact

abbrev one_entry : DecisionLedger ℤ
one_entry = (Store.append toy_crypto cleared_env none empty_ledger).0

one_entry-IsIntact : IsIntact toy_crypto one_entry
one_entry-IsIntact =
    (append-IsIntact toy_crypto toy_crypto_signs cleared_env none empty_ledger
      empty_ledger-IsIntact).0

open_ledger-IsIntact_example :
    open_ledger toy_crypto one_entry.signing_key one_entry.signing_pub one_entry.backend
    ≡ opened one_entry
open_ledger-IsIntact_example = open_ledger-IsIntact toy_crypto one_entry one_entry-IsIntact

no_collision : NoCollision toy_crypto one_entry.entries one_entry.entries
unfolding everything
no_collision = ((λ e. refl), tt)

verify_chain-inj_example : one_entry.entries ≡ one_entry.entries
verify_chain-inj_example =
    verify_chain-inj toy_crypto one_entry one_entry one_entry-IsIntact.chained
      one_entry-IsIntact.chained refl refl no_collision

unique_codes_lem_example :
    Distinct (unique_codes [] cleared_env.signals)
    × ((code : String)
        → contains code (unique_codes [] cleared_env.signals)
          ≡ any (λ s. code == s.code) cleared_env.signals)
unique_codes_lem_example = unique_codes_lem cleared_env.signals

abbrev by_did : String → Option String
by_did did = some did

verify_quorum_lem_example :
    let (satisfied, remaining) = verify_quorum toy_crypto by_did quorum_of_two approvals in
    (signers : List String) × Distinct signers
    × ((s : String) → contains s signers ≡ has_signed toy_crypto by_did quorum_of_two s approvals)
    × All (Approves toy_crypto by_did quorum_of_two approvals) signers
    × (satisfied ≡ true ↔ 2 ≤ length signers)
    × (remaining ≡ 2 - length signers)
verify_quorum_lem_example = verify_quorum_lem toy_crypto by_did quorum_of_two approvals

two_approved : verify_quorum toy_crypto by_did quorum_of_two approvals ≡ (true, 0)
unfolding everything
two_approved = refl

-- one guardian, listed twice
abbrev twice_listed : StepUpChallenge
twice_listed = record quorum_of_two { eligible_approvers = "did:g1" ∷ "did:g1" ∷ [] }

verify_quorum-few_example : (verify_quorum toy_crypto by_did twice_listed approvals).0 ≡ false
verify_quorum-few_example =
    verify_quorum-few toy_crypto by_did twice_listed ("did:g1" ∷ []) approvals
      (λ s h. ground (arith, h)) (omega arith)

abbrev rail : SettlementAdapter (List String)
rail = simulator (λ refs. "0")

settle_lem_example :
    let r = settle toy_crypto rail cleared_env coffee.payment one_entry false [] in
    let authority = authorizes toy_crypto rail cleared_env coffee.payment one_entry false in
    ((authority ≡ true) × (r ≡ submitted toy_crypto rail cleared_env coffee.payment []))
    ⊎ ((authority ≡ false) × WasRefused [] r)
settle_lem_example = settle_lem toy_crypto rail cleared_env coffee.payment one_entry false []

abbrev receipt : SettlementResult
receipt = record { settled = true; rail = "sim"; settlement_ref = "sim-0"; decision_id = "dec-1" }

paid :
    settle toy_crypto rail cleared_env coffee.payment one_entry false []
    ≡ ("sim-0" ∷ [], result receipt)
unfolding everything
paid = refl

settle-evaluate_example :
    (coffee.payment.mandate_id ≡ coffee.payment.mandate_id)
    × (verify_bundle toy_crypto (λ did. some did) coffee ≡ accepted)
    × ((prov : ListProvenance ℤ) × Passage calm calm.screening []
          (new_context toy_crypto coffee all_met (pos 10000))
          prov)
settle-evaluate_example =
    settle-evaluate calm fresh coffee all_met (pos 10000) start rail coffee.payment one_entry false
      [] ("sim-0" ∷ []) receipt paid
