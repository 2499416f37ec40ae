-- ===== src/Pipeline/Orchestrator/Replay/Feature2.antt =====
-- Feature 2, repeated on the recorded answers of a decision.
use finance.Base.{
  String, Bool, true, false, Option, none, some, List, [], ◌∷◌, ◌≡◌, refl, sym, ap, ◌∙◌, subst,
  arith, Bool-cases, inl, inr,
}
use finance.Base.Dict.{lookup}
use finance.Base.Float.{FloatOps}
use finance.Base.Platform.{TextOps}
use finance.Data.Reference.{OwnershipGraph}
use finance.Ledger.Backend.{ScreeningSnapshot}
use finance.Models.{MandateBundle, ControlEvidence, ListProvenance, ScreeningCandidate}
use finance.Pipeline.Context.{
  DecisionContext, Outcome, done, raised, Reply, answer, unavailable, crash,
}
use finance.Pipeline.Jurisdiction.{hard_signal}
use finance.Pipeline.Sanctions.{
  ScreeningProvider, candidate_names, provider_unavailable, is_stale, screen_candidates,
  after_answer, screen_names, then_ownership, screen_with, after_provenance, mark_screened, run,
}
use finance.Pipeline.Sanctions.Names.{hard-provider_unavailable}
use finance.Pipeline.Orchestrator.Replay.Frames.{
  Archived, archived, archived-add_signal, archived-screen_candidates, archived-ownership_check,
}
use finance.Screening.Recorded.{recorded_provider, recorded_provenance}
use finance.Pipeline.Orchestrator.Replay.Screens.{
  Alike, same_end, both_blocked, blank-provider_unavailable, logged, after_cands, Unscreened, again,
  screen_names-again,
}
use finance.Pipeline.Orchestrator.Replay.Candidates.{Distinct-candidate_names}

module _ {F : Type 0} ⦃fl : FloatOps F⦄ where
  abbrev pub provenance_of : DecisionContext F → Option (ListProvenance F)
  provenance_of ctx = ctx.screening_provenance

  -- what the caller gave, and the hash of it
  abbrev pub given : DecisionContext F → MandateBundle F × F × ControlEvidence × String
  given ctx = (ctx.bundle, ctx.now, ctx.controls, ctx.world_snapshot_hash)

  abbrev pub given_in : Archived F → MandateBundle F × F × ControlEvidence × String
  given_in a = (a.bundle, a.now, a.controls, a.world_snapshot_hash)

  abbrev fixed :
      DecisionContext F
      → (MandateBundle F × F × ControlEvidence × String) × Option (ListProvenance F)
  fixed ctx = (given ctx, provenance_of ctx)

  abbrev fixed_in :
      Archived F → (MandateBundle F × F × ControlEvidence × String) × Option (ListProvenance F)
  fixed_in a = (given_in a, a.screening_provenance)

  archived-provider_unavailable :
      (e : String) (ctx : DecisionContext F) → archived (provider_unavailable e ctx) ≡ archived ctx
  unfolding provider_unavailable
  archived-provider_unavailable e ctx =
      archived-add_signal _ (record ctx { screening_error = some e })

  fixed-after_answer :
      (n : String) (rest : DecisionContext F → Outcome Bool × DecisionContext F)
      (reply : Reply (List (ScreeningCandidate F))) (ctx : DecisionContext F)
      → ((d : DecisionContext F) → fixed (rest d).1 ≡ fixed d)
      → fixed (after_answer n rest reply ctx).1 ≡ fixed ctx
  unfolding after_answer provider_unavailable
  fixed-after_answer n rest (unavailable e) ctx kept =
      ap fixed_in (archived-add_signal _ (record ctx { screening_error = some e }))
  fixed-after_answer n rest (crash e) ctx kept = refl
  fixed-after_answer n rest (answer cands) ctx kept =
      let same : fixed (after_cands n cands ctx) ≡ fixed ctx =
        ap fixed_in (archived-screen_candidates cands (logged n cands ctx)) in
      elim (Bool-cases (screen_candidates cands (logged n cands ctx)).0) [
        | inl hit ↦ rw hit same
        | inr clean ↦ rw clean (kept (after_cands n cands ctx) ∙ same)
      ]

  fixed-screen_names :
      (provider : ScreeningProvider F) (names : List String) (ctx : DecisionContext F)
      → fixed (screen_names provider names ctx).1 ≡ fixed ctx
  unfolding screen_names
  fixed-screen_names provider [] ctx = refl
  fixed-screen_names provider (n ∷ names) ctx =
      fixed-after_answer n (screen_names provider names) (provider.screen n) ctx
        (fixed-screen_names provider names)

  archived-then_ownership :
      (graph : OwnershipGraph F) (r : Outcome Bool × DecisionContext F)
      → archived (then_ownership graph r).1 ≡ archived (r.1)
  archived-then_ownership graph (raised e, ctx) = refl
  archived-then_ownership graph (done true, ctx) = refl
  archived-then_ownership graph (done false, ctx) = archived-ownership_check graph _ ctx

  then_ownership-Alike :
      (graph : OwnershipGraph F) (r s : Outcome Bool × DecisionContext F)
      → Alike true r s
      → Alike tt (then_ownership graph r) (then_ownership graph s)
  then_ownership-Alike graph r s (same_end _ _ e) = same_end _ _ (ap (then_ownership graph) e)
  then_ownership-Alike graph _ _ (both_blocked c d e h) = both_blocked c d e h

  then_ownership-done :
      (graph : OwnershipGraph F) (r : Outcome Bool × DecisionContext F) (u : Unit {0})
      → (then_ownership graph r).0 ≡ done u
      → (b : Bool) × (r.0 ≡ done b)
  then_ownership-done graph (raised e, ctx) u h = absurd (ground (arith, h))
  then_ownership-done graph (done b, ctx) u h = (b, refl)

  module _ (text : TextOps) (provider : ScreeningProvider F) (graph : OwnershipGraph F)
      (snap : ScreeningSnapshot F) where
    screen_with-again :
        (prov : ListProvenance F) (ctx : DecisionContext F) (u : Unit {0})
        → ctx.screening_log ≡ []
        → snap.queries ≡ (screen_with text provider graph prov ctx).1.screening_log
        → (screen_with text provider graph prov ctx).0 ≡ done u
        → Alike tt
            (screen_with text provider graph prov ctx)
            (screen_with text (recorded_provider snap) graph prov ctx)
    unfolding screen_with candidate_names
    screen_with-again prov ctx u fresh held ended =
        let known = record ctx { screening_provenance = some prov } in
        let names = candidate_names text known in
        let first = screen_names provider names known in
        elim (Bool-cases (is_stale ctx.now prov.generated_at)) [
          | inl stale ↦ rw stale (same_end _ _ refl)
          | inr current ↦
              let held' : snap.queries ≡ first.1.screening_log =
                rw current at held
                ∙ ap (λ (a : Archived F). a.screening_log) (archived-then_ownership graph first) in
              let (b, went) = then_ownership-done graph first u (rw current at ended) in
              rw current (
                then_ownership-Alike graph first (again provider snap names known) (
                  screen_names-again provider snap names known b
                    (Distinct-candidate_names text known) (all_new names known fresh) held' went))
        ]
      where
        all_new :
            (names : List String) (d : DecisionContext F)
            → d.screening_log ≡ []
            → Unscreened d.screening_log names
        all_new [] d e = tt
        all_new (n ∷ names) d e = (ap (lookup n) e, all_new names d e)

    fixed-screen_with :
        (prov : ListProvenance F) (ctx : DecisionContext F)
        → fixed (screen_with text provider graph prov ctx).1 ≡ (given ctx, some prov)
    unfolding screen_with
    fixed-screen_with prov ctx =
        let known = record ctx { screening_provenance = some prov } in
        elim (Bool-cases (is_stale ctx.now prov.generated_at)) [
          | inl stale ↦ rw stale (
              ap fixed_in
                (archived-add_signal (hard_signal "AGENT.SANC.STALE_LIST" "f2_sanctions") known))
          | inr current ↦ rw current (
              ap fixed_in (
                archived-then_ownership graph
                  (screen_names provider (candidate_names text known) known))
              ∙ fixed-screen_names provider (candidate_names text known) known)
        ]

    after_provenance-again :
        (reply : Reply (ListProvenance F)) (ctx : DecisionContext F) (u : Unit {0})
        → ctx.screening_log ≡ []
        → ctx.screening_provenance ≡ none
        → snap.queries ≡ (after_provenance text provider graph reply ctx).1.screening_log
        → snap.provenance ≡ provenance_of (after_provenance text provider graph reply ctx).1
        → (after_provenance text provider graph reply ctx).0 ≡ done u
        → Alike tt (after_provenance text provider graph reply ctx) (
            after_provenance text
              (recorded_provider snap)
              graph
              (recorded_provenance snap snap.provenance)
              ctx)
    unfolding after_provenance
    after_provenance-again (unavailable e) ctx u fresh unknown held sourced ended =
        let none_there : snap.provenance ≡ none =
          sourced
          ∙ ap (λ (a : Archived F). a.screening_provenance) (archived-provider_unavailable e ctx)
          ∙ unknown in
        rw none_there (
          both_blocked (provider_unavailable e ctx) _ (blank-provider_unavailable e _ ctx)
            (hard-provider_unavailable e ctx))
    after_provenance-again (crash e) ctx u fresh unknown held sourced ended =
        absurd (ground (arith, ended))
    after_provenance-again (answer prov) ctx u fresh unknown held sourced ended =
        subst
          (λ k.
            Alike tt (screen_with text provider graph prov ctx) (
              after_provenance text (recorded_provider snap) graph (recorded_provenance snap k)
                ctx))
          (sym (
            sourced
            ∙ ap
                (λ (x : (MandateBundle F × F × ControlEvidence × String)
                    × Option (ListProvenance F)).
                  x.1)
                (fixed-screen_with prov ctx)))
          (screen_with-again prov ctx u fresh held ended)

    -- Feature 2 ends as it did, if its screening was recorded; the message of a provider that could
    -- not be reached may differ.
    pub sanctions-again :
        (ctx : DecisionContext F) (u : Unit {0})
        → ctx.screening_log ≡ []
        → ctx.screening_provenance ≡ none
        → snap.queries ≡ (run text provider graph ctx).1.screening_log
        → snap.provenance ≡ provenance_of (run text provider graph ctx).1
        → (run text provider graph ctx).0 ≡ done u
        → Alike tt (run text provider graph ctx) (run text (recorded_provider snap) graph ctx)
    unfolding run recorded_provider
    sanctions-again ctx u fresh unknown held sourced ended =
        after_provenance-again provider.provenance (mark_screened ctx) u fresh unknown held sourced
          ended

    given-after_provenance :
        (reply : Reply (ListProvenance F)) (ctx : DecisionContext F)
        → given (after_provenance text provider graph reply ctx).1 ≡ given ctx
    unfolding after_provenance
    given-after_provenance (unavailable e) ctx = ap given_in (archived-provider_unavailable e ctx)
    given-after_provenance (crash e) ctx = refl
    given-after_provenance (answer prov) ctx =
        ap
          (λ (x : (MandateBundle F × F × ControlEvidence × String) × Option (ListProvenance F)).
            x.0)
          (fixed-screen_with prov ctx)

    pub given-sanctions :
        (ctx : DecisionContext F)
        → given (run text provider graph ctx).1 ≡ given (mark_screened ctx)
    unfolding run
    given-sanctions ctx = given-after_provenance provider.provenance (mark_screened ctx)
