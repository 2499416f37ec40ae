-- ===== src/Pipeline/Context/Signals.antt =====
-- What `add_signal` changes: the list of signals and the risk score, and nothing else.
use finance.Base.{String, Option, true, [], ◌∷◌, ◌++◌, ◌||◌, ◌≡◌, any-append, arith}
use finance.Base.Float.{FloatOps, FloatLaws, lit, ◌≤?◌, ◌⊕◌}
use finance.Models.{Signal, MandateBundle, ControlEvidence, ListProvenance}
use finance.Pipeline.Context.{DecisionContext, add_signal, has_hard_block}

-- What the caller gave, and what the screen recorded of its source: the stages after Feature 2 keep
-- it.
pub record Inputs (F : Type 0) : Type 0 where
  pub bundle : MandateBundle F
  pub now : F
  pub ruleset_version : String
  pub world_snapshot_hash : String
  pub controls : ControlEvidence
  pub screening_provenance : Option (ListProvenance F)

abbrev pub inputs : {F : Type 0} → DecisionContext F → Inputs F
inputs ctx = record {
  bundle = ctx.bundle;
  now = ctx.now;
  ruleset_version = ctx.ruleset_version;
  world_snapshot_hash = ctx.world_snapshot_hash;
  controls = ctx.controls;
  screening_provenance = ctx.screening_provenance;
}

module _ {F : Type 0} ⦃fl : FloatOps F⦄ (s : Signal F) (ctx : DecisionContext F) where
  pub signals-add_signal : (add_signal s ctx).signals ≡ ctx.signals ++ s ∷ []
  unfolding add_signal
  signals-add_signal = ground arith

  pub has_hard_block-add_signal :
      has_hard_block (add_signal s ctx) ≡ (has_hard_block ctx || s.hard_block)
  unfolding has_hard_block
  has_hard_block-add_signal =
      rw signals-add_signal
        (ground (arith, any-append (λ (t : Signal F). t.hard_block) ctx.signals (s ∷ [])))

  pub inputs-add_signal : inputs (add_signal s ctx) ≡ inputs ctx
  unfolding add_signal
  inputs-add_signal = ground arith

  pub stepup-add_signal : (add_signal s ctx).stepup ≡ ctx.stepup
  unfolding add_signal
  stepup-add_signal = ground arith

  pub snapshot-add_signal : (add_signal s ctx).velocity_snapshot ≡ ctx.velocity_snapshot
  unfolding add_signal
  snapshot-add_signal = ground arith

  -- Under the order laws of floats, a signal never lowers a risk score that lies in 0..100, and
  -- keeps it there, whatever its delta.
  pub risk-add_signal :
      FloatLaws fl
      → lit 0 0 ≤? ctx.risk_score ≡ true
      → ctx.risk_score ≤? lit 100 0 ≡ true
      → (ctx.risk_score ≤? (add_signal s ctx).risk_score ≡ true)
        × ((add_signal s ctx).risk_score ≤? lit 100 0 ≡ true)
  unfolding add_signal
  risk-add_signal laws h k = ground (
    arith,
    laws.num (lit 0 0) ctx.risk_score h,
    laws.zero_num,
    laws.hundred_num,
    laws.less→less_eq (lit 0 0) s.risk_delta,
    laws.grows ctx.risk_score s.risk_delta,
    laws.grows ctx.risk_score (lit 0 0),
    laws.less→less_eq (ctx.risk_score ⊕ s.risk_delta) (lit 100 0),
    laws.less→less_eq (ctx.risk_score ⊕ lit 0 0) (lit 100 0),
  )
