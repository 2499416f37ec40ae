-- ===== src/Samples/Rows.antt =====
-- A refusal as it is stored, and a codec that knows it; a scope, and a codec of its sets.
use finance.Base.{String, List, none, some, [], ◌∷◌, ◌==◌, if◌then◌else◌}
use finance.Ap2.Text.{join, split_on}
use finance.Ap2.Scope.{OpenMandateScope}
use finance.Storage.Scope.{SetText}
use finance.Base.Int.{ℤ, pos}
use finance.Ledger.Backend.{EvaluationArchive}
use finance.Models.{DecisionEnvelope, block}
use finance.Samples.Bundle.{coffee, all_met}
use finance.Storage.Ledger.{RowText}

abbrev pub refusal : DecisionEnvelope ℤ
refusal = record {
  decision_id = "dec-1";
  mandate_id = "pay-1";
  verdict = block;
  reason_codes = [];
  signals = [];
  risk_score = pos 0;
  model_provenance = [];
  screening = none;
  liability = record { user = pos 0; agent_developer = pos 0; merchant = pos 0; psp = pos 0 };
  liability_basis = "";
  stepup = none;
  sar_draft = none;
  ruleset_version = "r1";
  world_snapshot_hash = "w";
  prev_envelope_hash = "p";
  this_hash = "h";
  ts = "t";
  signature = "s";
}

abbrev pub refusal_archive : EvaluationArchive ℤ
refusal_archive = record {
  bundle = coffee;
  now = pos 10000;
  controls = all_met;
  velocity_snapshot = [];
  screening_snapshot = record { provenance = none; queries = []; error = none };
}

abbrev pub rows_of : RowText ℤ
rows_of = record {
  dump_envelope = λ e. e.decision_id;
  load_envelope = λ s. if s == "dec-1" then some refusal else none;
  dump_archive = λ a. "archive";
  load_archive = λ s. if s == "archive" then some refusal_archive else none;
}

abbrev comma_join : List String → String
comma_join [] = ""
comma_join (x ∷ xs) = join "," x xs

-- sets of up to one text
abbrev pub set_text : SetText
set_text = record {
  dump_sorted = comma_join;
  load_set = λ s. if s == "" then some [] else some (split_on b',' s);
}

abbrev pub half_spent : OpenMandateScope ℤ
half_spent = record {
  mandate_id = "open-1";
  remaining_count = pos 2;
  remaining_value_usd = pos 300000;
  consumed_hashes = "a" ∷ [];
  outstanding = "b" ∷ [];
}
