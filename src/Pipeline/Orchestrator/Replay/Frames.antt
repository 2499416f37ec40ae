-- ===== src/Pipeline/Orchestrator/Replay/Frames.antt =====
-- What a stage leaves of the fields that a decision's archive holds.
use finance.Base.{String, Option, none, some, List, [], ◌∷◌, ◌≡◌, refl, arith}
use finance.Base.Dict.{Dict}
use finance.Base.Float.{FloatOps}
use finance.Base.Platform.{TextOps, Crypto}
use finance.Models.{
  Encoding, MandateBundle, ControlEvidence, ListProvenance, ScreeningCandidate, Signal,
}
use finance.Pipeline.Context.{DecisionContext, add_signal, record_model, Outcome, done, raised}
use finance.Pipeline.Jurisdiction
use finance.Pipeline.Jurisdiction.{hard_signal}
use finance.Pipeline.Sanctions.{pep_signal, screen_candidates, ownership_check}
use finance.Pipeline.Structuring.{assess, structuring_signal}
use finance.Pipeline.Adversarial
use finance.Pipeline.Adversarial.{judge, drift_signal, DriftEmbedder, after_similarity}
use finance.Pipeline.RiskStepup
use finance.Pipeline.RiskStepup.{RiskModel, resolve, score_and_resolve, unattended_signal}
use finance.Data.Reference.{OwnershipGraph}
use finance.State.Velocity.{Entries}

pub record Archived (F : Type 0) : Type 0 where
  pub bundle : MandateBundle F
  pub now : F
  pub controls : ControlEvidence
  pub world_snapshot_hash : String
  pub velocity_snapshot : Dict (Entries F)
  pub screening_provenance : Option (ListProvenance F)
  pub screening_log : Dict (List (ScreeningCandidate F))

abbrev pub archived : {F : Type 0} → DecisionContext F → Archived F
archived ctx = record {
  bundle = ctx.bundle;
  now = ctx.now;
  controls = ctx.controls;
  world_snapshot_hash = ctx.world_snapshot_hash;
  velocity_snapshot = ctx.velocity_snapshot;
  screening_provenance = ctx.screening_provenance;
  screening_log = ctx.screening_log;
}

module _ {F : Type 0} ⦃fl : FloatOps F⦄ where
  pub archived-add_signal :
      (s : Signal F) (ctx : DecisionContext F) → archived (add_signal s ctx) ≡ archived ctx
  unfolding add_signal
  archived-add_signal s ctx = ground arith

  pub archived-jurisdiction :
      (ctx : DecisionContext F) → archived (Jurisdiction.run ctx) ≡ archived ctx
  unfolding Jurisdiction.run
  archived-jurisdiction ctx = ground (
    arith,
    archived-add_signal (hard_signal "AGENT.JUR.RAIL_INELIGIBLE" "f1_jurisdiction") ctx,
    archived-add_signal (hard_signal "AGENT.JUR.TRAVELRULE_MISSING" "f1_jurisdiction") ctx,
    archived-add_signal (hard_signal "AGENT.JUR.DATA_RESIDENCY" "f1_jurisdiction") ctx,
  )

  pub archived-screen_candidates :
      (cands : List (ScreeningCandidate F)) (ctx : DecisionContext F)
      → archived (screen_candidates cands ctx).1 ≡ archived ctx
  unfolding screen_candidates
  archived-screen_candidates [] ctx = refl
  archived-screen_candidates (c ∷ cs) ctx = ground (
    arith,
    archived-screen_candidates cs ctx,
    archived-screen_candidates cs (add_signal pep_signal ctx),
    archived-add_signal pep_signal ctx,
    archived-add_signal (hard_signal "AGENT.SANC.SDN_HIT" "f2_sanctions") ctx,
  )

  pub archived-ownership_check :
      (graph : OwnershipGraph F) (account : Option String) (ctx : DecisionContext F)
      → archived (ownership_check graph account ctx) ≡ archived ctx
  unfolding ownership_check
  archived-ownership_check graph none ctx = refl
  archived-ownership_check graph (some a) ctx =
      ground (arith, archived-add_signal (hard_signal "AGENT.SANC.OFAC_50PCT" "f2_sanctions") ctx)

  pub archived-assess :
      (w v : Entries F) (ctx : DecisionContext F) → archived (assess w v ctx) ≡ archived ctx
  unfolding assess
  archived-assess w v ctx = ground (
    arith,
    archived-add_signal (hard_signal "AGENT.AML.VELOCITY_EXCEEDED" "f3_structuring") ctx,
    archived-add_signal structuring_signal ctx,
  )

  pub archived-record_model :
      (name version : String) (ctx : DecisionContext F)
      → archived (record_model name version ctx) ≡ archived ctx
  unfolding record_model
  archived-record_model name version ctx = refl

  pub archived-judge :
      (text : TextOps) (sim : F) (ctx : DecisionContext F)
      → archived (judge text sim ctx) ≡ archived ctx
  unfolding judge
  archived-judge text sim ctx = ground (
    arith,
    archived-add_signal (hard_signal "AGENT.SEC.INTENT_DRIFT" "f4_adversarial") ctx,
    archived-add_signal drift_signal ctx,
  )

  pub archived-adversarial :
      (text : TextOps) (embedder : DriftEmbedder F) (ctx : DecisionContext F)
      → archived (Adversarial.run text embedder ctx).1 ≡ archived ctx
  unfolding Adversarial.run record_model
  archived-adversarial text embedder ctx =
      after_similarity_lem (embedder.cosine_similarity _ _)
        (record_model embedder.name embedder.version ctx)
    where
      after_similarity_lem :
          (o : Outcome F) (d : DecisionContext F)
          → archived (after_similarity text o d).1 ≡ archived d
      after_similarity_lem (done sim) d = archived-judge text sim d
      after_similarity_lem (raised e) d = refl

  module _ ⦃enc : Encoding F⦄ (cr : Crypto) where
    archived-resolve :
        (challenge_id : String) (ctx : DecisionContext F)
        → archived (resolve cr challenge_id ctx).1 ≡ archived ctx
    unfolding resolve
    archived-resolve challenge_id ctx = ground arith

    archived-score_and_resolve :
        (model : RiskModel F) (challenge_id : String) (ctx : DecisionContext F)
        → archived (score_and_resolve cr model challenge_id ctx).1 ≡ archived ctx
    unfolding score_and_resolve
    archived-score_and_resolve model challenge_id ctx =
        archived-resolve challenge_id (record ctx { risk_score = _ })

    pub archived-risk :
        (model : RiskModel F) (challenge_id : String) (ctx : DecisionContext F)
        → archived (RiskStepup.run cr model challenge_id ctx).1 ≡ archived ctx
    unfolding RiskStepup.run
    archived-risk model challenge_id ctx = ground (
      arith,
      known_kept,
      archived-score_and_resolve model challenge_id known,
      archived-score_and_resolve model challenge_id (add_signal unattended_signal known),
      archived-add_signal unattended_signal known,
      archived-add_signal (hard_signal "AGENT.HNP.UNBOUNDED_AUTHORITY" "f5_risk_stepup") known,
    )
      where
        known : DecisionContext F
        known = record_model model.name model.version ctx

        known_kept : archived known ≡ archived ctx
        known_kept = archived-record_model model.name model.version ctx
