-- ===== src/Tests/Parts.antt =====
-- Runs of the parts beside the pipeline, and their theorems at concrete inputs.
use finance.Base.{
  Bool, true, false, none, some, [], ◌∷◌, ◌++◌, String, List, Distinct, All, ◌≡◌, ◌≢◌, refl, arith,
  contains, any, ◌==◌, Option, ◌⊎◌, not, ◌||◌, ◌↔◌, ◌≤◌, ◌-◌, length,
}
use finance.Base.Int.{ℤ, pos, ◌+ℤ◌, ◌-ℤ◌, ◌*ℤ◌}
use finance.Models.{allow, DecisionEnvelope}
use finance.Gateway.Verify.{accepted, rejected, verify_bundle}
use finance.Ledger.Store
use finance.Ledger.Store.{get, head_hash, verify_chain, open_ledger, opened, DecisionLedger}
use finance.Pipeline.Context.{new_context, raised, Outcome, done}
use finance.Pipeline.Orchestrator.{Services, Fresh, evaluate, run_pipeline}
use finance.Pipeline.ReasonCodes.{unique_codes}
use finance.Pipeline.RiskStepup.{verify_quorum}
use finance.Adapters.Settlement.{
  Settlement, SettlementAdapter, SettlementResult, result, settle, simulator, submitted,
}
use finance.Samples.Fixed.{fixed}
use finance.Samples.Platform.{ids, toy_crypto, toy_crypto_signs}
use finance.Samples.Bundle.{coffee, all_met, services, fresh, start, empty_ledger}
use finance.Ap2.Constraints
use finance.Ap2.Constraints.{default_registry, passed}
use finance.Ap2.Constraints.Registry.{IsEnforced, evaluate-IsEnforced}
use finance.Ap2.Scope.{OpenMandateScope, open_scope, reserve, error, double_spend, is_none_left}
use finance.Ap2.Scope.Reach.{steps, IsSound, steps-open_scope, reserve_overlap}
use finance.Ledger.Evidence.{EvidenceBundle, export_evidence, verify_evidence, same_world}
use finance.Ledger.Evidence.Export.{export_evidence-append}
use finance.Pipeline.Orchestrator.Replay.{replay}
use finance.Pipeline.Orchestrator.Replay.Reproduction.{matching, replay-evaluate}
use finance.Ledger.Backend.{EvaluationArchive}
use finance.Samples.Mandates.{toy_jose, purchases, groceries, quiet}

everything : Bool
unfolding finance.Ap2.Scope.reserve finance.Ap2.Scope.apply_receipt finance.Ap2.Scope.open_scope
    finance.Ap2.Scope.verify_receipt finance.Ap2.Scope.Reach.step finance.Ap2.Scope.Reach.steps
    finance.Ap2.Text.split_on finance.Ap2.Jws.parse_jws finance.Ap2.Jws.verify_jws
    finance.Ap2.Constraints.evaluate finance.Ap2.Constraints.evaluate_all
    finance.Ap2.Constraints.register finance.Ap2.Constraints.default_registry
    finance.Ap2.Constraints.verify_spend_curve finance.Ap2.Constraints.verify_mcc_allowlist
    finance.Ap2.Constraints.verify_fx_slippage_bound
    finance.Ap2.Constraints.verify_merchant_allowlist
    finance.Ap2.Constraints.verify_velocity_envelope finance.Pipeline.Orchestrator.Replay.replay
    finance.Pipeline.Orchestrator.Replay.rerun finance.Pipeline.Orchestrator.Replay.compare_runs
    finance.Screening.Recorded.recorded_provider finance.Ledger.Backend.archive_for
    finance.Ledger.Store.archive_for finance.State.Velocity.seed finance.Adapters.Settlement.settle
    finance.Adapters.Settlement.simulator finance.Base.Int.◌*ℤ◌ finance.Base.Int.◌+ℤ◌
    finance.Base.Int.◌-ℤ◌ finance.Data.Reference.add_owners finance.Data.Reference.is_sanctioned
    finance.Data.Reference.owners_of finance.Data.Reference.sanctioned_share
    finance.Data.Reference.share_levels finance.Data.Reference.travel_rule_threshold
    finance.Gateway.Verify.base_did finance.Gateway.Verify.verify_bundle
    finance.Gateway.Verify.verify_mandate finance.Ledger.Backend.append
    finance.Ledger.Backend.init_meta finance.Ledger.Store.append finance.Ledger.Store.entry_hash
    finance.Ledger.Store.first_bad finance.Ledger.Store.get finance.Ledger.Store.head_hash
    finance.Ledger.Store.index finance.Ledger.Store.open_ledger finance.Ledger.Store.seal
    finance.Ledger.Store.verify_chain finance.Ledger.Store.verify_signature
    finance.Pipeline.Adversarial.after_similarity finance.Pipeline.Adversarial.has_hidden_unicode
    finance.Pipeline.Adversarial.judge finance.Pipeline.Adversarial.price_breach
    finance.Pipeline.Adversarial.run finance.Pipeline.Adversarial.scan_injection
    finance.Pipeline.Context.add_signal finance.Pipeline.Context.has_hard_block
    finance.Pipeline.Context.new_context finance.Pipeline.Context.record_model
    finance.Pipeline.Jurisdiction.applicable_threshold finance.Pipeline.Jurisdiction.is_eu_buyer
    finance.Pipeline.Jurisdiction.is_restricted finance.Pipeline.Jurisdiction.run
    finance.Pipeline.Jurisdiction.travel_rule_fields_present finance.Pipeline.Liability.add_shares
    finance.Pipeline.Liability.apportion finance.Pipeline.Liability.control_weights
    finance.Pipeline.Liability.is_unauthorized finance.Pipeline.Liability.normalize
    finance.Pipeline.Liability.redistribute finance.Pipeline.Liability.run
    finance.Pipeline.Orchestrator.after_adversarial finance.Pipeline.Orchestrator.after_gate
    finance.Pipeline.Orchestrator.after_pipeline finance.Pipeline.Orchestrator.after_sanctions
    finance.Pipeline.Orchestrator.after_structuring finance.Pipeline.Orchestrator.conclude
    finance.Pipeline.Orchestrator.evaluate finance.Pipeline.Orchestrator.finalize
    finance.Pipeline.Orchestrator.finalize_failclosed finance.Pipeline.Orchestrator.guard_skipped
    finance.Pipeline.Orchestrator.run_pipeline finance.Pipeline.ReasonCodes.build_envelope
    finance.Pipeline.ReasonCodes.unique_codes finance.Pipeline.RiskStepup.cart_hash
    finance.Pipeline.RiskStepup.make_challenge finance.Pipeline.RiskStepup.required_quorum
    finance.Pipeline.RiskStepup.resolve finance.Pipeline.RiskStepup.run
    finance.Pipeline.RiskStepup.score_and_resolve finance.Pipeline.RiskStepup.valid_signers
    finance.Pipeline.RiskStepup.verify_quorum finance.Pipeline.Sanctions.after_answer
    finance.Pipeline.Sanctions.after_provenance finance.Pipeline.Sanctions.candidate_names
    finance.Pipeline.Sanctions.is_stale finance.Pipeline.Sanctions.ownership_check
    finance.Pipeline.Sanctions.provider_unavailable finance.Pipeline.Sanctions.run
    finance.Pipeline.Sanctions.screen_candidates finance.Pipeline.Sanctions.screen_names
    finance.Pipeline.Sanctions.screen_with finance.Pipeline.Sanctions.unique_names
    finance.Pipeline.Structuring.assess finance.Pipeline.Structuring.beneficiary_ref
    finance.Pipeline.Structuring.is_cluster finance.Pipeline.Structuring.over_cap
    finance.Pipeline.Structuring.run finance.State.Stepup.put finance.State.Velocity.recent
    finance.State.Velocity.record_entry finance.State.Velocity.window
everything = true

abbrev calm : Services ℤ
calm = services (pos 120000)

abbrev opened_scope : OpenMandateScope ℤ
opened_scope = (open_scope "open-1" (pos 3) (pos 500000) []).0

abbrev after_purchases : OpenMandateScope ℤ
after_purchases = steps toy_jose "v" purchases opened_scope

steps-open_scope_example : IsSound toy_jose "v" (pos 3) after_purchases
steps-open_scope_example =
    steps-open_scope toy_jose "v" "open-1" (pos 3) (pos 500000) [] purchases refl

bought_once :
    (after_purchases.remaining_count ≡ pos 2)
    × (after_purchases.consumed_hashes ≡ "a" ∷ [])
    × (after_purchases.outstanding ≡ "b" ∷ [])
unfolding everything
bought_once = (refl, refl, refl)

outstanding_b :
    (contains "c" after_purchases.consumed_hashes || not (is_none_left after_purchases.outstanding))
    ≡ true
unfolding everything
outstanding_b = refl

reserve_overlap_example :
    (message : String) × (reserve "c" (pos 1) after_purchases
      ≡ (error (double_spend message), after_purchases))
reserve_overlap_example = reserve_overlap "c" (pos 1) after_purchases outstanding_b

abbrev never_halved : ℤ → Outcome ℤ
never_halved x = done (pos 10000)

within :
    Constraints.evaluate (default_registry never_halved) groceries quiet
    ≡ done (passed "com.aegis.mcc_allowlist" ∷ passed "com.aegis.velocity_envelope" ∷ [])
unfolding everything
within = refl

evaluate-IsEnforced_example :
    All (IsEnforced (default_registry never_halved) groceries quiet) groceries.constraints
    × (length groceries.constraints ≡ 2)
evaluate-IsEnforced_example =
    evaluate-IsEnforced (default_registry never_halved) groceries quiet
      (passed "com.aegis.mcc_allowlist" ∷ passed "com.aegis.velocity_envelope" ∷ []) within refl

abbrev cleared_env : DecisionEnvelope ℤ
cleared_env = (evaluate calm fresh coffee all_met (pos 10000) start).1

abbrev cleared_archive : EvaluationArchive ℤ
cleared_archive = record {
  bundle = coffee;
  now = pos 10000;
  controls = all_met;
  velocity_snapshot = [];
  screening_snapshot = record { provenance = none; queries = []; error = none };
}

export_evidence-append_example :
    (bundle : EvidenceBundle ℤ) × (export_evidence
        (Store.append toy_crypto cleared_env (some cleared_archive) empty_ledger).0
        cleared_env.decision_id
      ≡ some bundle)
    × ((verify_evidence toy_crypto bundle).0
        ≡ same_world toy_crypto (some cleared_archive) cleared_env)
export_evidence-append_example =
    export_evidence-append toy_crypto toy_crypto_signs cleared_env cleared_archive empty_ledger refl

-- a replay of the decision on its own archive
reproduced :
    replay calm fresh "dec-1" (evaluate calm fresh coffee all_met (pos 10000) start).0
    ≡ done (record {
      decision_id = "dec-1";
      original_verdict = allow;
      reproduced_verdict = allow;
      matches_original = true;
      world_snapshot_matches = true;
      reason_codes_match = true;
    })
unfolding everything
reproduced = refl

abbrev later : Fresh
later = record { decision_id = "dec-2"; challenge_id = "ch-2"; ts = "2026-07-02T00:00:00Z" }

calm_concludes :
    (run_pipeline calm calm.screening fresh.challenge_id start.velocity
      (new_context calm.crypto coffee all_met (pos 10000))).0
    ≡ done allow
unfolding everything
calm_concludes = refl

replay-evaluate_example :
    let (orch', env) = evaluate calm fresh coffee all_met (pos 10000) start in
    replay calm later "dec-1" orch' ≡ done (matching "dec-1" env.verdict)
replay-evaluate_example =
    replay-evaluate calm fresh later coffee all_met (pos 10000) start allow refl calm_concludes
