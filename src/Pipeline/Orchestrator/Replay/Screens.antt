-- ===== src/Pipeline/Orchestrator/Replay/Screens.antt =====
-- A screen that is repeated on the recorded answers.
use finance.Base.{
  String, Bool, true, false, none, some, List, [], ◌∷◌, contains, Distinct, All, ◌==◌, ◌≡◌, refl,
  sym, ap, ◌∙◌, subst, arith, eq_iff, if◌then◌else◌, Bool-cases, inl, inr,
}
use finance.Base.Dict.{Dict, lookup, insert, lookup-insert, lookup-insert_self}
use finance.Base.Float.{FloatOps}
use finance.Ledger.Backend.{ScreeningSnapshot}
use finance.Models.{ScreeningCandidate}
use finance.Pipeline.Context.{
  DecisionContext, add_signal, has_hard_block, Outcome, done, Reply, answer, unavailable, crash,
}
use finance.Pipeline.Sanctions.{
  ScreeningProvider, provider_unavailable, screen_candidates, after_answer, screen_names,
}
use finance.Pipeline.Sanctions.Names.{hard-provider_unavailable}
use finance.Pipeline.Orchestrator.Replay.Frames.{
  Archived, archived-add_signal, archived-screen_candidates,
}
use finance.Screening.Recorded.{recorded_provider, recorded_candidates}

module _ {F : Type 0} ⦃fl : FloatOps F⦄ where
  -- the context without the message of a provider that could not be reached
  abbrev pub blank : DecisionContext F → DecisionContext F
  blank ctx = record ctx { screening_error = none }

  -- The same end of a stage: the same context, or two that differ in that message, once blocked.
  pub data Alike {A : Type 0} (stop : A)
      : Outcome A × DecisionContext F → Outcome A × DecisionContext F → Type 0 where
    same_end : (r s : Outcome A × DecisionContext F) → r ≡ s → Alike stop r s
    both_blocked :
        (c d : DecisionContext F)
        → blank c ≡ blank d
        → has_hard_block c ≡ true
        → Alike stop (done stop, c) (done stop, d)

  pub blank-provider_unavailable :
      (e e' : String) (ctx : DecisionContext F)
      → blank (provider_unavailable e ctx) ≡ blank (provider_unavailable e' ctx)
  unfolding provider_unavailable add_signal
  blank-provider_unavailable e e' ctx = ground arith

  pub log-provider_unavailable :
      (e : String) (ctx : DecisionContext F)
      → (provider_unavailable e ctx).screening_log ≡ ctx.screening_log
  unfolding provider_unavailable
  log-provider_unavailable e ctx =
      ap (λ (a : Archived F). a.screening_log)
        (archived-add_signal _ (record ctx { screening_error = some e }))

  log-screen_candidates :
      (cands : List (ScreeningCandidate F)) (ctx : DecisionContext F)
      → (screen_candidates cands ctx).1.screening_log ≡ ctx.screening_log
  log-screen_candidates cands ctx =
      ap (λ (a : Archived F). a.screening_log) (archived-screen_candidates cands ctx)

  abbrev pub logged : String → List (ScreeningCandidate F) → DecisionContext F → DecisionContext F
  logged name cands ctx = record ctx { screening_log = insert name cands ctx.screening_log }

  -- the context after the candidates of a name
  abbrev pub after_cands :
      String → List (ScreeningCandidate F) → DecisionContext F → DecisionContext F
  after_cands name cands ctx = (screen_candidates cands (logged name cands ctx)).1

  log-after_answer :
      (name n : String) (rest : DecisionContext F → Outcome Bool × DecisionContext F)
      (reply : Reply (List (ScreeningCandidate F))) (ctx : DecisionContext F)
      → (n == name) ≡ false
      → ((d : DecisionContext F)
          → lookup name (rest d).1.screening_log ≡ lookup name d.screening_log)
      → lookup name (after_answer n rest reply ctx).1.screening_log ≡ lookup name ctx.screening_log
  unfolding after_answer
  log-after_answer name n rest (unavailable e) ctx differs kept =
      ap (lookup name) (log-provider_unavailable e ctx)
  log-after_answer name n rest (crash e) ctx differs kept = refl
  log-after_answer name n rest (answer cands) ctx differs kept =
      let one = after_cands n cands ctx in
      let same : lookup name one.screening_log ≡ lookup name ctx.screening_log =
        ap (lookup name) (log-screen_candidates cands (logged n cands ctx))
        ∙ lookup-insert n name cands ctx.screening_log
        ∙ ap (λ b. if b then some cands else lookup name ctx.screening_log) differs in
      elim (Bool-cases (screen_candidates cands (logged n cands ctx)).0) [
        | inl hit ↦ rw hit same
        | inr clean ↦ rw clean (kept one ∙ same)
      ]

  -- The log of a screen holds nothing new for a name that is not screened.
  log-screen_names :
      (provider : ScreeningProvider F) (name : String) (names : List String)
      (ctx : DecisionContext F)
      → contains name names ≡ false
      → lookup name (screen_names provider names ctx).1.screening_log
        ≡ lookup name ctx.screening_log
  unfolding screen_names
  log-screen_names provider name [] ctx h = refl
  log-screen_names provider name (n ∷ names) ctx h =
      log-after_answer name n (screen_names provider names) (provider.screen n) ctx
        (ground (arith, h, eq_iff name n, eq_iff n name))
        (λ d. log-screen_names provider name names d (ground (arith, h)))

  -- None of the names has been screened.
  abbrev pub Unscreened : Dict (List (ScreeningCandidate F)) → List String → Type 0
  Unscreened log = All (λ n. lookup n log ≡ none)

  Unscreened-insert :
      (n : String) (cands : List (ScreeningCandidate F)) (log : Dict (List (ScreeningCandidate F)))
      (names : List String)
      → contains n names ≡ false
      → Unscreened log names
      → Unscreened (insert n cands log) names
  Unscreened-insert n cands log [] h all = tt
  Unscreened-insert n cands log (m ∷ names) h (first, rest) = (
    ground (arith, h, first, lookup-insert n m cands log, eq_iff n m),
    Unscreened-insert n cands log names (ground (arith, h)) rest,
  )

  module _ (provider : ScreeningProvider F) (snap : ScreeningSnapshot F) where
    -- the loop over the names, with the recorded answers
    abbrev pub again : List String → DecisionContext F → Outcome Bool × DecisionContext F
    again = screen_names (recorded_provider snap)

    -- One round: the rest of the loop is given.
    round-again :
        (n : String) (names : List String) (reply : Reply (List (ScreeningCandidate F)))
        (ctx : DecisionContext F) (b : Bool)
        → lookup n ctx.screening_log ≡ none
        → contains n names ≡ false
        → snap.queries ≡ (after_answer n (screen_names provider names) reply ctx).1.screening_log
        → (after_answer n (screen_names provider names) reply ctx).0 ≡ done b
        → ((cands : List (ScreeningCandidate F))
            → let one = after_cands n cands ctx in
              snap.queries ≡ (screen_names provider names one).1.screening_log
              → (screen_names provider names one).0 ≡ done b
              → Alike true (screen_names provider names one) (again names one))
        → Alike true
            (after_answer n (screen_names provider names) reply ctx)
            (after_answer n (again names) (recorded_candidates snap n (lookup n snap.queries)) ctx)
    unfolding after_answer
    round-again n names (unavailable e) ctx b new alone held ended rest =
        let unknown : lookup n snap.queries ≡ none =
          ap (lookup n) held ∙ ap (lookup n) (log-provider_unavailable e ctx) ∙ new in
        rw unknown (
          both_blocked (provider_unavailable e ctx) _ (blank-provider_unavailable e _ ctx)
            (hard-provider_unavailable e ctx))
    round-again n names (crash e) ctx b new alone held ended rest = absurd (ground (arith, ended))
    round-again n names (answer cands) ctx b new alone held ended rest =
        let one = after_cands n cands ctx in
        let mine : lookup n one.screening_log ≡ some cands =
          ap (lookup n) (log-screen_candidates cands (logged n cands ctx))
          ∙ lookup-insert_self n cands ctx.screening_log in
        elim (Bool-cases (screen_candidates cands (logged n cands ctx)).0) [
          | inl hit ↦
              let known : lookup n snap.queries ≡ some cands =
                ap (lookup n) (rw hit at held) ∙ mine in
              rw (known, hit) (same_end _ _ refl)
          | inr clean ↦
              let held' : snap.queries ≡ (screen_names provider names one).1.screening_log =
                rw clean at held in
              let known : lookup n snap.queries ≡ some cands =
                ap (lookup n) held' ∙ log-screen_names provider n names one alone ∙ mine in
              rw (known, clean) (rest cands held' (rw clean at ended))
        ]

    pub screen_names-again :
        (names : List String) (ctx : DecisionContext F) (b : Bool)
        → Distinct names
        → Unscreened ctx.screening_log names
        → snap.queries ≡ (screen_names provider names ctx).1.screening_log
        → (screen_names provider names ctx).0 ≡ done b
        → Alike true (screen_names provider names ctx) (again names ctx)
    unfolding screen_names recorded_provider
    screen_names-again [] ctx b distinct new held ended = same_end _ _ refl
    screen_names-again (n ∷ names) ctx b distinct new held ended =
        round-again n names (provider.screen n) ctx b new.0 distinct.0 held ended
          (λ cands held' ended'.
            screen_names-again names (after_cands n cands ctx) b distinct.1
              (subst (λ log. Unscreened log names)
                (sym (log-screen_candidates cands (logged n cands ctx)))
                (Unscreened-insert n cands ctx.screening_log names distinct.0 new.1))
              held' ended')
