-- ===== src/Pipeline/Orchestrator/Replay/Stages.antt =====
-- `_run_pipeline`, run again from the start on what a decision archived.
use finance.Base.{
  String, true, Option, none, List, [], ◌≡◌, refl, sym, ap, ◌∙◌, arith, Bool-cases, inl, inr,
}
use finance.Base.Dict.{Dict}
use finance.Base.Float.{FloatOps}
use finance.Ledger.Backend.{ScreeningSnapshot}
use finance.Models.{Encoding, Verdict, allow, step_up, block, ListProvenance, ScreeningCandidate}
use finance.Pipeline.Context.{DecisionContext, has_hard_block, Outcome, done, raised}
use finance.Pipeline.Context.Signals.{Inputs}
use finance.Pipeline.Jurisdiction
use finance.Pipeline.Sanctions
use finance.Pipeline.Sanctions.{ScreeningProvider, mark_screened}
use finance.Pipeline.Structuring
use finance.Pipeline.Orchestrator.{Services, guard_skipped, after_sanctions, run_pipeline}
use finance.Pipeline.Orchestrator.Passage.{run_pipeline_lem}
use finance.Pipeline.Orchestrator.Replay.Frames.{Archived, archived-jurisdiction, archived-assess}
use finance.Pipeline.Orchestrator.Replay.Feature2.{
  given, given_in, given-sanctions, sanctions-again,
}
use finance.Pipeline.Orchestrator.Replay.Reruns.{
  Reproduces, archived-after_structuring, screened-after_sanctions, after_sanctions-again,
}
use finance.Screening.Recorded.{recorded_provider}
use finance.State.Velocity.{Entries, VelocityStore, seed}

module _ {F : Type 0} ⦃fl : FloatOps F⦄ ⦃enc : Encoding F⦄ (svc : Services F)
    (cid cid' : String) where
  after_sanctions-done :
      (r : Outcome Unit × DecisionContext F) (t : VelocityStore F) (v : Verdict)
      → (after_sanctions svc cid r t).0 ≡ done v
      → r.0 ≡ done tt
  unfolding after_sanctions
  after_sanctions-done (raised e, ctx) t v ended = absurd (ground (arith, ended))
  after_sanctions-done (done _, ctx) t v ended = refl

  after_firewall-again :
      (ctx : DecisionContext F) (t : VelocityStore F) (snap : ScreeningSnapshot F)
      (windows : Dict (Entries F)) (v : Verdict)
      → ctx.screening_log ≡ []
      → ctx.screening_provenance ≡ none
      → let r = after_sanctions svc cid (Sanctions.run svc.text svc.screening svc.graph ctx) t in
        snap.queries ≡ r.1.screening_log
        → snap.provenance ≡ r.1.screening_provenance
        → windows ≡ r.1.velocity_snapshot
        → r.0 ≡ done v
        → Reproduces r (
            after_sanctions svc cid'
              (Sanctions.run svc.text (recorded_provider snap) svc.graph ctx)
              (seed windows []))
  after_firewall-again ctx t snap windows v fresh unknown held sourced timed ended =
      let s = Sanctions.run svc.text svc.screening svc.graph ctx in
      let same = screened-after_sanctions svc cid cid' s t in
      after_sanctions-again svc cid cid' s
        (Sanctions.run svc.text (recorded_provider snap) svc.graph ctx) t windows
        (sanctions-again svc.text svc.screening svc.graph snap ctx tt fresh unknown
          (held
            ∙ ap (λ (p : Option (ListProvenance F) × Dict (List (ScreeningCandidate F))). p.1) same)
          (sourced
            ∙ ap (λ (p : Option (ListProvenance F) × Dict (List (ScreeningCandidate F))). p.0) same)
          (after_sanctions-done s t v ended))
        timed

  -- The pipeline concludes the same on the recorded answers and the recorded windows.
  pub run_pipeline-again :
      (ctx : DecisionContext F) (t : VelocityStore F) (snap : ScreeningSnapshot F)
      (windows : Dict (Entries F)) (v : Verdict)
      → ctx.screening_log ≡ []
      → ctx.screening_provenance ≡ none
      → let r = run_pipeline svc svc.screening cid t ctx in
        snap.queries ≡ r.1.screening_log
        → snap.provenance ≡ r.1.screening_provenance
        → windows ≡ r.1.velocity_snapshot
        → r.0 ≡ done v
        → Reproduces r (run_pipeline svc (recorded_provider snap) cid' (seed windows []) ctx)
  unfolding run_pipeline
  run_pipeline-again ctx t snap windows v fresh unknown held sourced timed ended =
      let c = Jurisdiction.run ctx in
      elim (Bool-cases (has_hard_block c)) [
        | inl hard ↦ rw hard (refl, refl)
        | inr soft ↦ rw soft (
            after_firewall-again c t snap windows v
              (ap (λ (a : Archived F). a.screening_log) (archived-jurisdiction ctx) ∙ fresh)
              (ap (λ (a : Archived F). a.screening_provenance) (archived-jurisdiction ctx)
                ∙ unknown)
              (rw soft at held) (rw soft at sourced) (rw soft at timed) (rw soft at ended))
      ]

  given-structuring :
      (t : VelocityStore F) (ctx : DecisionContext F) → given (Structuring.run t ctx).1 ≡ given ctx
  unfolding Structuring.run
  given-structuring t ctx = ap given_in (archived-assess _ _ _)

  given-after_sanctions :
      (r : Outcome Unit × DecisionContext F) (t : VelocityStore F)
      → given (after_sanctions svc cid r t).1 ≡ given (r.1)
  unfolding after_sanctions
  given-after_sanctions (raised e, ctx) t = refl
  given-after_sanctions (done _, ctx) t = elim (Bool-cases (has_hard_block ctx)) [
    | inl hard ↦ rw hard refl
    | inr soft ↦ rw soft (
        ap given_in (
          archived-after_structuring svc cid cid' (Structuring.run t ctx).0
            (Structuring.run t ctx).1)
        ∙ given-structuring t ctx)
  ]

  -- Where the caller already has the sanctions screen in the controls, the run keeps what it gave.
  pub given-run_pipeline :
      (screening : ScreeningProvider F) (t : VelocityStore F) (ctx : DecisionContext F)
      → ctx.controls.psp_ran_sanctions_screen ≡ true
      → given (run_pipeline svc screening cid t ctx).1 ≡ given ctx
  unfolding run_pipeline
  given-run_pipeline screening t ctx screens =
      let c = Jurisdiction.run ctx in
      let kept : given c ≡ given ctx = ap given_in (archived-jurisdiction ctx) in
      let known : c.controls.psp_ran_sanctions_screen ≡ true =
        ap (λ (a : Archived F). a.controls.psp_ran_sanctions_screen) (archived-jurisdiction ctx)
        ∙ screens in
      let marked : given (mark_screened c) ≡ given c =
        ap
          (λ b. (
            c.bundle,
            c.now,
            record (c.controls) { psp_ran_sanctions_screen = b },
            c.world_snapshot_hash,
          ))
          (sym known) in
      elim (Bool-cases (has_hard_block c)) [
        | inl hard ↦ rw hard kept
        | inr soft ↦ rw soft (
            given-after_sanctions (Sanctions.run svc.text screening svc.graph c) t
            ∙ given-sanctions svc.text screening svc.graph empty_snapshot c
            ∙ marked
            ∙ kept)
      ]
    where
      empty_snapshot : ScreeningSnapshot F
      empty_snapshot = record { provenance = none; queries = []; error = none }

  -- The guard at the head of `_finalize` leaves what the pipeline concludes.
  pub guard_skipped-run_pipeline :
      (t : VelocityStore F) (ctx : DecisionContext F) (v : Verdict)
      → (run_pipeline svc svc.screening cid t ctx).0 ≡ done v
      → let c = (run_pipeline svc svc.screening cid t ctx).1 in guard_skipped c v ≡ (c, v)
  unfolding guard_skipped
  guard_skipped-run_pipeline t ctx block ended = refl
  guard_skipped-run_pipeline t ctx allow ended =
      let (prov, _, (_, same)) =
        run_pipeline_lem svc cid svc.screening t ctx
          (allow, ended, λ e. absurd (ground (arith, e))) in
      rw (ap (λ (i : Inputs F). i.screening_provenance) same) refl
  guard_skipped-run_pipeline t ctx step_up ended =
      let (prov, _, (_, same)) =
        run_pipeline_lem svc cid svc.screening t ctx
          (step_up, ended, λ e. absurd (ground (arith, e))) in
      rw (ap (λ (i : Inputs F). i.screening_provenance) same) refl
