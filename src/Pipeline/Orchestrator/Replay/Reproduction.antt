-- ===== src/Pipeline/Orchestrator/Replay/Reproduction.antt =====
-- `replay` of aegis/pipeline/orchestrator.py, on the orchestrator that `evaluate` leaves.
use finance.Base.{String, true, none, List, [], ◌∷◌, ◌≡◌, refl, sym, ap, ◌∙◌, subst, arith, eq_refl}
use finance.Base.Dict.{lookup-insert_self}
use finance.Base.Float.{FloatOps}
use finance.Gateway.Verify.{BundleCheck, accepted, rejected, verify_bundle}
use finance.Ledger.Backend
use finance.Ledger.Store
use finance.Models.{
  MandateBundle, ControlEvidence, Encoding, Verdict, allow, step_up, block, Signal,
  DecisionEnvelope,
}
use finance.Pipeline.Context.{DecisionContext, new_context, add_signal, Outcome, done, raised}
use finance.Pipeline.Jurisdiction.{hard_signal}
use finance.Pipeline.Liability
use finance.Pipeline.ReasonCodes.{build_envelope, unique_codes}
use finance.Pipeline.Orchestrator.{
  Services, Orchestrator, Fresh, Run, archive_of, guard_skipped, run_pipeline, conclude, finalize,
  after_pipeline, after_gate, evaluate,
}
use finance.Pipeline.Orchestrator.Replay.{
  ReplayResult, same_verdict, same_codes, compare_runs, rerun, replay,
}
use finance.Pipeline.Orchestrator.Replay.Feature2.{given, given_in}
use finance.Pipeline.Orchestrator.Replay.Frames.{archived-add_signal}
use finance.Pipeline.Orchestrator.Replay.Reruns.{told, Reproduces}
use finance.Pipeline.Orchestrator.Replay.Stages.{
  run_pipeline-again, given-run_pipeline, guard_skipped-run_pipeline,
}

-- a replay that finds what was decided
abbrev pub matching : String → Verdict → ReplayResult
matching id v = record {
  decision_id = id;
  original_verdict = v;
  reproduced_verdict = v;
  matches_original = true;
  world_snapshot_matches = true;
  reason_codes_match = true;
}

same_verdict_refl : (v : Verdict) → same_verdict v v ≡ true
same_verdict_refl allow = refl
same_verdict_refl step_up = refl
same_verdict_refl block = refl

same_codes_refl : (codes : List String) → same_codes codes codes ≡ true
same_codes_refl [] = refl
same_codes_refl (c ∷ codes) = ground (arith, eq_refl c, same_codes_refl codes)

module _ {F : Type 0} ⦃fl : FloatOps F⦄ ⦃enc : Encoding F⦄ (svc : Services F)
    (fresh fresh' : Fresh) where
  -- a run with the verdict, the signals and the world snapshot of the decision
  compare_runs-matching :
      (ctx : DecisionContext F) (v : Verdict) (orch : Orchestrator F) (s : Run F)
      → s.0 ≡ done v
      → told (s.1) ≡ told ctx
      → compare_runs svc fresh' fresh.decision_id (conclude svc fresh (ctx, v) orch).1 s
        ≡ done (matching fresh.decision_id (conclude svc fresh (ctx, v) orch).1.verdict)
  unfolding compare_runs conclude Store.append Store.seal build_envelope Liability.run
  compare_runs-matching ctx v orch (o, d, t) ended alike =
      let signals : d.signals ≡ ctx.signals = ap (λ (p : List (Signal F) × String). p.0) alike in
      let world : d.world_snapshot_hash ≡ ctx.world_snapshot_hash =
        ap (λ (p : List (Signal F) × String). p.1) alike in
      rw
        (
          ended,
          signals,
          world,
          same_verdict_refl v,
          eq_refl (ctx.world_snapshot_hash),
          same_codes_refl (unique_codes [] ctx.signals),
        )
        refl

  -- A replay of what `_finalize` has just stored compares it with a rerun of the archived context.
  replay-conclude :
      (ctx : DecisionContext F) (v : Verdict) (orch : Orchestrator F)
      → let (orch', env) = conclude svc fresh (ctx, v) orch in
        replay svc fresh' fresh.decision_id orch'
        ≡ compare_runs svc fresh' fresh.decision_id env (
            rerun svc fresh'
              (verify_bundle svc.crypto svc.public_key ctx.bundle)
              (archive_of ctx)
              (new_context svc.crypto ctx.bundle ctx.controls ctx.now))
  unfolding replay conclude Store.append Store.seal Store.get Store.archive_for Backend.append
      Backend.archive_for build_envelope Liability.run
  replay-conclude ctx v orch =
      rw
        (
          lookup-insert_self fresh.decision_id _ orch.ledger.by_id,
          lookup-insert_self fresh.decision_id (archive_of ctx) orch.ledger.backend.archives,
        )
        refl

  -- A decision is reproduced where its context kept what the caller gave, and the rerun has its
  -- verdict, its signals and its world snapshot.
  replayed :
      (check : BundleCheck) (ctx c : DecisionContext F) (v : Verdict) (orch : Orchestrator F)
      → verify_bundle svc.crypto svc.public_key ctx.bundle ≡ check
      → new_context svc.crypto ctx.bundle ctx.controls ctx.now ≡ ctx
      → given c ≡ given ctx
      → let s = rerun svc fresh' check (archive_of c) ctx in
        (s.0 ≡ done v) × (told (s.1) ≡ told c)
        → let (orch', env) = conclude svc fresh (c, v) orch in
          replay svc fresh' fresh.decision_id orch' ≡ done (matching fresh.decision_id env.verdict)
  replayed check ctx c v orch checked new kept alike =
      let compare : Run F → Outcome ReplayResult =
        compare_runs svc fresh' fresh.decision_id (conclude svc fresh (c, v) orch).1 in
      replay-conclude c v orch
      ∙ ap
          (λ (g : MandateBundle F × F × ControlEvidence × String). compare (
            rerun svc fresh' (verify_bundle svc.crypto svc.public_key (g.0)) (archive_of c)
              (new_context svc.crypto (g.0) (g.2) (g.1))))
          kept
      ∙ ap
          (λ k. compare (
            rerun svc fresh' k (archive_of c)
              (new_context svc.crypto ctx.bundle ctx.controls ctx.now)))
          checked
      ∙ ap (λ d. compare (rerun svc fresh' check (archive_of c) d)) new
      ∙ compare_runs-matching c v orch _ (alike.0) (alike.1)

  after_pipeline-done :
      (r : Run F) (orch : Orchestrator F) (v : Verdict)
      → r.0 ≡ done v
      → after_pipeline svc fresh r orch
        ≡ finalize svc fresh (r.1) v (record orch { velocity = r.2 })
  unfolding after_pipeline
  after_pipeline-done (o, ctx, t) orch v ended = rw ended refl

  Reproduces-done :
      (r s : Run F) (v : Verdict)
      → r.0 ≡ done v
      → Reproduces r s
      → (s.0 ≡ done v) × (told (s.1) ≡ told (r.1))
  Reproduces-done (raised e, ctx, t) s v ended same = absurd (ground (arith, ended))
  Reproduces-done (done w, ctx, t) s v ended same = (same.0 ∙ ended, same.1)

  after_gate-replayed :
      (check : BundleCheck) (ctx : DecisionContext F) (orch : Orchestrator F) (v : Verdict)
      → verify_bundle svc.crypto svc.public_key ctx.bundle ≡ check
      → new_context svc.crypto ctx.bundle ctx.controls ctx.now ≡ ctx
      → ctx.screening_log ≡ []
      → ctx.screening_provenance ≡ none
      → ctx.controls.psp_ran_sanctions_screen ≡ true
      → (run_pipeline svc svc.screening fresh.challenge_id orch.velocity ctx).0 ≡ done v
      → let (orch', env) = after_gate svc fresh check ctx orch in
        replay svc fresh' fresh.decision_id orch' ≡ done (matching fresh.decision_id env.verdict)
  unfolding after_gate finalize guard_skipped rerun
  after_gate-replayed (rejected code detail) ctx orch v checked new log prov screens ended =
      let failed = add_signal (hard_signal code "verify_signatures") ctx in
      replayed (rejected code detail) ctx failed block orch checked new
        (ap given_in (archived-add_signal (hard_signal code "verify_signatures") ctx)) (refl, refl)
  after_gate-replayed accepted ctx orch v checked new log prov screens ended =
      let r = run_pipeline svc svc.screening fresh.challenge_id orch.velocity ctx in
      let after = record orch { velocity = r.2 } in
      let same : after_pipeline svc fresh r orch ≡ conclude svc fresh (r.1, v) after =
        after_pipeline-done r orch v ended
        ∙ ap (λ p. conclude svc fresh p after)
            (guard_skipped-run_pipeline svc fresh.challenge_id fresh'.challenge_id orch.velocity ctx
              v ended) in
      let again =
        run_pipeline-again svc fresh.challenge_id fresh'.challenge_id ctx orch.velocity
          (archive_of (r.1)).screening_snapshot (archive_of (r.1)).velocity_snapshot v log prov refl
          refl refl ended in
      subst
        (λ (p : Orchestrator F × DecisionEnvelope F).
          replay svc fresh' fresh.decision_id (p.0)
          ≡ done (matching fresh.decision_id (p.1).verdict))
        (sym same)
        (replayed accepted ctx (r.1) v after checked new
          (given-run_pipeline svc fresh.challenge_id fresh'.challenge_id svc.screening orch.velocity
            ctx screens)
          (Reproduces-done r _ v ended again))

  -- Where the caller's controls already say that the sanctions screen ran, and no stage raises: a
  -- replay of the decision from its archive finds the verdict, the reason codes and the world
  -- snapshot of the decision.
  pub replay-evaluate :
      (bundle : MandateBundle F) (controls : ControlEvidence) (now : F) (orch : Orchestrator F)
      (v : Verdict)
      → controls.psp_ran_sanctions_screen ≡ true
      → (run_pipeline svc svc.screening fresh.challenge_id orch.velocity
          (new_context svc.crypto bundle controls now)).0
        ≡ done v
      → let (orch', env) = evaluate svc fresh bundle controls now orch in
        replay svc fresh' fresh.decision_id orch' ≡ done (matching fresh.decision_id env.verdict)
  unfolding evaluate new_context
  replay-evaluate bundle controls now orch v screens ended =
      after_gate-replayed (verify_bundle svc.crypto svc.public_key bundle)
        (new_context svc.crypto bundle controls now) orch v refl refl refl refl screens ended
