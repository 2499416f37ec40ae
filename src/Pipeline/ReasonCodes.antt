-- ===== src/Pipeline/ReasonCodes.antt =====
-- aegis/pipeline/f7_reasoncodes.py: the decision envelope, before the ledger signs it.
pub mod Codes
use finance.Base.{String, Option, none, some, List, [], ◌∷◌, contains, if◌then◌else◌}
use finance.Base.Float.{FloatOps, lit}
use finance.Models.{Signal, Verdict, Liability, DecisionEnvelope}
use finance.Pipeline.Context.{DecisionContext, mandate_id}

module _ {F : Type 0} where
  -- the loop over the signals, with the codes that have been seen
  unfoldable pub unique_codes : List String → List (Signal F) → List String
  unique_codes seen [] = []
  unique_codes seen (s ∷ ss) =
      let repeated = unique_codes seen ss in
      let fresh = s.code ∷ unique_codes (s.code ∷ seen) ss in
      if contains s.code seen then repeated else fresh

module _ {F : Type 0} ⦃fl : FloatOps F⦄ where
  -- An empty dict where Feature 6 has not run.
  abbrev or_nobody : Option (Liability F) → Liability F
  or_nobody (some w) = w
  or_nobody none = record {
    user = lit 0 0;
    agent_developer = lit 0 0;
    merchant = lit 0 0;
    psp = lit 0 0;
  }

  unfoldable pub build_envelope : String → String → DecisionContext F → Verdict → DecisionEnvelope F
  unfolding unique_codes
  build_envelope decision_id ts ctx verdict = record {
    decision_id = decision_id;
    mandate_id = mandate_id ctx;
    verdict = verdict;
    reason_codes = unique_codes [] ctx.signals;
    signals = ctx.signals;
    risk_score = fl.round 2 ctx.risk_score;
    model_provenance = ctx.models_used;
    screening = ctx.screening_provenance;
    liability = or_nobody ctx.liability;
    liability_basis = ctx.liability_basis;
    stepup = ctx.stepup;
    sar_draft = ctx.sar_draft;
    ruleset_version = ctx.ruleset_version;
    world_snapshot_hash = ctx.world_snapshot_hash;
    prev_envelope_hash = "";
    this_hash = "";
    ts = ts;
    signature = "";
  }
