-- ===== src/Pipeline/Sanctions/Names.antt =====
-- What the screen of the names leaves: a hard block, or an answer without a hit for every name.
use finance.Base.{
  String, Bool, true, false, some, List, [], ◌∷◌, all, All, ◌||◌, ◌≡◌, refl, ◌∙◌, inl, inr,
  Bool-cases, arith, not,
}
use finance.Base.Float.{FloatOps, ◌<?◌}
use finance.Config.{sanctions_match_threshold}
use finance.Models.{ScreeningCandidate}
use finance.Pipeline.Context.{
  DecisionContext, add_signal, has_hard_block, Outcome, done, raised, Reply, answer, unavailable,
  crash,
}
use finance.Base.Dict.{insert}
use finance.Pipeline.Context.Signals.{inputs, inputs-add_signal, has_hard_block-add_signal}
use finance.Pipeline.Jurisdiction.{hard_signal}
use finance.Pipeline.Sanctions.{
  ScreeningProvider, pep_signal, provider_unavailable, screen_candidates, after_answer,
  screen_names,
}

module _ {F : Type 0} ⦃fl : FloatOps F⦄ where
  -- A candidate that does not block: below the acceptance threshold, or a PEP.
  abbrev pub harmless : ScreeningCandidate F → Bool
  harmless c = (c.score <? sanctions_match_threshold) || c.is_pep

  -- The provider has answered for the name, and nothing in the answer blocks.
  abbrev pub IsCleared : ScreeningProvider F → String → Type 0
  IsCleared provider name =
      (cands : List (ScreeningCandidate F)) × (provider.screen name ≡ answer cands)
      × (all harmless cands ≡ true)

  pub has_hard_block-hard :
      (code stage : String) (ctx : DecisionContext F)
      → has_hard_block (add_signal (hard_signal code stage) ctx) ≡ true
  has_hard_block-hard code stage ctx =
      ground (arith, has_hard_block-add_signal (hard_signal code stage) ctx)

  -- The loop over the candidates returns early exactly when one of them blocks, and that is the
  -- only hard block that it adds.
  done-screen_candidates :
      (cands : List (ScreeningCandidate F)) (ctx : DecisionContext F)
      → (screen_candidates cands ctx).0 ≡ not (all harmless cands)
  unfolding screen_candidates
  done-screen_candidates [] ctx = refl
  done-screen_candidates (c ∷ cs) ctx =
      ground (
        arith,
        done-screen_candidates cs ctx,
        done-screen_candidates cs (add_signal pep_signal ctx),
      )

  hard-screen_candidates :
      (cands : List (ScreeningCandidate F)) (ctx : DecisionContext F)
      → has_hard_block (screen_candidates cands ctx).1
        ≡ (has_hard_block ctx || not (all harmless cands))
  unfolding screen_candidates
  hard-screen_candidates [] ctx = ground arith
  hard-screen_candidates (c ∷ cs) ctx = ground (
    arith,
    hard-screen_candidates cs ctx,
    hard-screen_candidates cs (add_signal pep_signal ctx),
    has_hard_block-add_signal pep_signal ctx,
    has_hard_block-hard "AGENT.SANC.SDN_HIT" "f2_sanctions" ctx,
  )

  inputs-screen_candidates :
      (cands : List (ScreeningCandidate F)) (ctx : DecisionContext F)
      → inputs (screen_candidates cands ctx).1 ≡ inputs ctx
  unfolding screen_candidates
  inputs-screen_candidates [] ctx = refl
  inputs-screen_candidates (c ∷ cs) ctx = ground (
    arith,
    inputs-screen_candidates cs ctx,
    inputs-screen_candidates cs (add_signal pep_signal ctx),
    inputs-add_signal pep_signal ctx,
    inputs-add_signal (hard_signal "AGENT.SANC.SDN_HIT" "f2_sanctions") ctx,
  )

  -- How the loop over the names ended.
  abbrev pub NamesPost :
      ScreeningProvider F
      → List String
      → DecisionContext F
      → Outcome Bool × DecisionContext F
      → Type 0
  NamesPost provider names ctx (raised e, ctx') = (inputs ctx' ≡ inputs ctx)
  NamesPost provider names ctx (done true, ctx') =
      (inputs ctx' ≡ inputs ctx) × (has_hard_block ctx' ≡ true)
  NamesPost provider names ctx (done false, ctx') =
      (inputs ctx' ≡ inputs ctx)
      × (has_hard_block ctx' ≡ has_hard_block ctx)
      × All (IsCleared provider) names

  -- One name put before a screen of the rest.
  NamesPost-cons :
      (provider : ScreeningProvider F) (name : String) (names : List String)
      (c d : DecisionContext F) (r : Outcome Bool × DecisionContext F)
      → inputs d ≡ inputs c
      → has_hard_block d ≡ has_hard_block c
      → IsCleared provider name
      → NamesPost provider names d r
      → NamesPost provider (name ∷ names) c r
  NamesPost-cons provider name names c d (raised e, ctx') k h cleared post = post ∙ k
  NamesPost-cons provider name names c d (done true, ctx') k h cleared post = (post.0 ∙ k, post.1)
  NamesPost-cons provider name names c d (done false, ctx') k h cleared post =
      (post.0 ∙ k, post.1 ∙ h, (cleared, post.2))

  inputs-provider_unavailable :
      (e : String) (ctx : DecisionContext F) → inputs (provider_unavailable e ctx) ≡ inputs ctx
  unfolding provider_unavailable
  inputs-provider_unavailable e ctx = inputs-add_signal _ (record ctx { screening_error = some e })

  pub hard-provider_unavailable :
      (e : String) (ctx : DecisionContext F) → has_hard_block (provider_unavailable e ctx) ≡ true
  unfolding provider_unavailable
  hard-provider_unavailable e ctx =
      has_hard_block-hard _ _ (record ctx { screening_error = some e })

  -- What `NamesPost` says of a round, for any rest of the loop that satisfies it.
  after_answer_lem :
      (provider : ScreeningProvider F) (name : String) (names : List String)
      (r : Reply (List (ScreeningCandidate F))) (ctx : DecisionContext F)
      → provider.screen name ≡ r
      → ((d : DecisionContext F) → NamesPost provider names d (screen_names provider names d))
      → NamesPost provider
          (name ∷ names)
          ctx
          (after_answer name (screen_names provider names) r ctx)
  unfolding after_answer has_hard_block
  after_answer_lem provider name names (unavailable e) ctx p rest =
      (inputs-provider_unavailable e ctx, hard-provider_unavailable e ctx)
  after_answer_lem provider name names (crash e) ctx p rest = refl
  after_answer_lem provider name names (answer cands) ctx p rest =
      elim (Bool-cases (all harmless cands)) [
        | inl fine ↦
            rw (done-screen_candidates cands logged, fine)
              (NamesPost-cons provider name names ctx screened _ kept
                (ground (arith, hard-screen_candidates cands logged)) (cands, p, fine)
                (rest screened))
        | inr bad ↦
            rw (done-screen_candidates cands logged, bad)
              (kept, ground (arith, hard-screen_candidates cands logged))
      ]
    where
      logged : DecisionContext F
      logged = record ctx { screening_log = insert name cands ctx.screening_log }

      screened : DecisionContext F
      screened = (screen_candidates cands logged).1

      kept : inputs screened ≡ inputs ctx
      kept = inputs-screen_candidates cands logged

  pub screen_names_lem :
      (provider : ScreeningProvider F) (names : List String) (ctx : DecisionContext F)
      → NamesPost provider names ctx (screen_names provider names ctx)
  unfolding screen_names
  screen_names_lem provider [] ctx = (refl, refl, tt)
  screen_names_lem provider (name ∷ names) ctx =
      after_answer_lem provider name names (provider.screen name) ctx refl
        (screen_names_lem provider names)
