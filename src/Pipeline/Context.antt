-- ===== src/Pipeline/Context.antt =====
-- aegis/pipeline/context.py: the state that the stages read and write. A stage that raises leaves
-- what it has written so far.
pub mod Signals
use finance.Base.{String, Bool, none, Option, List, [], ◌∷◌, ◌++◌, any, if◌then◌else◌, not}
use finance.Base.Dict.{Dict, insert}
use finance.Base.Float.{FloatOps, lit, min, max, ◌⊕◌}
use finance.Base.Platform.{Crypto}
use finance.Config.{ruleset_version}
use finance.Models.{
  MandateBundle, Signal, StepUpChallenge, ControlEvidence, ScreeningCandidate, ListProvenance,
  SarDraft, Liability, Encoding,
}
use finance.State.Velocity.{Entries}

pub record DecisionContext (F : Type 0) : Type 0 where
  pub bundle : MandateBundle F
  pub ruleset_version : String
  pub controls : ControlEvidence
  pub now : F
  pub signals : List (Signal F)
  pub risk_score : F
  pub models_used : Dict String
  pub stepup : Option StepUpChallenge
  pub sar_draft : Option (SarDraft F)
  pub liability : Option (Liability F)
  pub liability_basis : String
  pub velocity_snapshot : Dict (Entries F)
  pub screening_provenance : Option (ListProvenance F)
  pub screening_log : Dict (List (ScreeningCandidate F))
  pub screening_error : Option String
  pub world_snapshot_hash : String

module _ {F : Type 0} where
  abbrev pub mandate_id : DecisionContext F → String
  mandate_id ctx = ctx.bundle.payment.mandate_id

  abbrev pub initiator : DecisionContext F → String
  initiator ctx = ctx.bundle.payment.initiator_agent

  unfoldable pub record_model : String → String → DecisionContext F → DecisionContext F
  record_model name version ctx = record ctx { models_used = insert name version ctx.models_used }

  unfoldable pub has_hard_block : DecisionContext F → Bool
  has_hard_block ctx = any (λ s. s.hard_block) ctx.signals

module _ {F : Type 0} ⦃fl : FloatOps F⦄ where
  -- A risk delta that is not 0 only raises the score, which stops at 100.
  unfoldable pub add_signal : Signal F → DecisionContext F → DecisionContext F
  add_signal signal ctx =
      let recorded = record ctx { signals = ctx.signals ++ signal ∷ [] } in
      if not (fl.same signal.risk_delta (lit 0 0))
      then (record recorded {
        risk_score = min (lit 100 0) (ctx.risk_score ⊕ max (lit 0 0) signal.risk_delta);
      })
      else recorded

  -- `DecisionContext(bundle=..., controls=..., now=...)` with `__post_init__`
  unfoldable pub new_context :
      ⦃enc : Encoding F⦄ → Crypto → MandateBundle F → ControlEvidence → F → DecisionContext F
  new_context ⦃enc⦄ cr bundle controls now = record {
    bundle = bundle;
    ruleset_version = ruleset_version;
    controls = controls;
    now = now;
    signals = [];
    risk_score = lit 0 0;
    models_used = [];
    stepup = none;
    sar_draft = none;
    liability = none;
    liability_basis = "";
    velocity_snapshot = [];
    screening_provenance = none;
    screening_log = [];
    screening_error = none;
    world_snapshot_hash = cr.sha256_hex (enc.snapshot bundle ruleset_version now controls);
  }

-- What a stage returns beside the context: a value, or the exception that it raised.
pub data Outcome (A : Type 0) : Type 0 where
  done : A → Outcome A
  raised : String → Outcome A

-- What a call outside the program answers: a value, `ScreeningUnavailable`, or another exception.
pub data Reply (A : Type 0) : Type 0 where
  answer : A → Reply A
  unavailable : String → Reply A
  crash : String → Reply A

abbrev pub Stage : Type 0 → Type 0 → Type 0
Stage F A = DecisionContext F → Outcome A × DecisionContext F
