-- ===== src/Pipeline/Sanctions/Screen.antt =====
-- Feature 2 lets a decision pass only after every name has been screened.
use finance.Base.{
  String, Bool, true, false, Option, none, some, All, ◌&&◌, ◌≡◌, refl, sym, ap, ◌∙◌, inl, inr,
  Bool-cases, arith,
}
use mathlib.Core.Bool.{false≢true}
use finance.Base.Float.{FloatOps, ◌≤?◌}
use finance.Base.Platform.{TextOps}
use finance.Config.{ofac_ownership_block_ratio}
use finance.Data.Reference.{OwnershipGraph, sanctioned_share}
use finance.Models.{Signal, truthy, ListProvenance}
use finance.Pipeline.Context.{
  DecisionContext, has_hard_block, Outcome, done, raised, Reply, answer, unavailable, crash,
}
use finance.Pipeline.Context.Signals.{Inputs, inputs, inputs-add_signal, has_hard_block-add_signal}
use finance.Pipeline.Jurisdiction.{hard_signal}
use finance.Pipeline.Sanctions.{
  ScreeningProvider, candidate_names, is_stale, then_ownership, ownership_check, screen_with,
  after_provenance, mark_screened, run,
}
use finance.Pipeline.Sanctions.Names.{
  IsCleared, has_hard_block-hard, NamesPost, hard-provider_unavailable, screen_names_lem,
}

module _ {F : Type 0} ⦃fl : FloatOps F⦄ where
  -- an account of which sanctioned parties own the blocking share
  abbrev pub majority_owned : OwnershipGraph F → Option String → Bool
  majority_owned graph none = false
  majority_owned graph (some account) =
      truthy (some account) && (ofac_ownership_block_ratio ≤? sanctioned_share graph account)

  -- Feature 2 saw current data, cleared every name and found the ownership below the ratio.
  pub record Screened (text : TextOps) (provider : ScreeningProvider F) (graph : OwnershipGraph F)
      (ctx : DecisionContext F) (prov : ListProvenance F) : Type 0 where
    pub sourced : provider.provenance ≡ answer prov
    pub fresh : is_stale ctx.now prov.generated_at ≡ false
    pub cleared : All (IsCleared provider) (candidate_names text ctx)
    pub owned : majority_owned graph ctx.bundle.cart.beneficiary.account_ref ≡ false

  -- the context after a screen against the lists of `prov`
  abbrev pub marked : ListProvenance F → DecisionContext F → DecisionContext F
  marked prov ctx = record (mark_screened ctx) { screening_provenance = some prov }

  -- What is known after a stage that may raise, if it passes the decision on.
  abbrev Passed :
      TextOps
      → ScreeningProvider F
      → OwnershipGraph F
      → DecisionContext F
      → Outcome Unit × DecisionContext F
      → Type 0
  Passed text provider graph ctx (raised e, ctx') = Unit
  Passed text provider graph ctx (done _, ctx') =
      has_hard_block ctx' ≡ false
      → (prov : ListProvenance F) × Screened text provider graph ctx prov
        × (inputs ctx' ≡ inputs (marked prov ctx))
        × (has_hard_block ctx ≡ false)

  ownership_check_lem :
      (graph : OwnershipGraph F) (account : Option String) (ctx : DecisionContext F)
      → has_hard_block (ownership_check graph account ctx) ≡ false
      → (inputs (ownership_check graph account ctx) ≡ inputs ctx)
        × (has_hard_block ctx ≡ false)
        × (majority_owned graph account ≡ false)
  unfolding ownership_check
  ownership_check_lem graph none ctx h = (refl, h, refl)
  ownership_check_lem graph (some account) ctx h = (
    ground (arith, inputs-add_signal stop ctx),
    ground (arith, has_hard_block-add_signal stop ctx),
    ground (arith, has_hard_block-add_signal stop ctx),
  )
    where
      stop : Signal F
      stop = hard_signal "AGENT.SANC.OFAC_50PCT" "f2_sanctions"

  then_ownership_lem :
      (text : TextOps) (provider : ScreeningProvider F) (graph : OwnershipGraph F)
      (prov : ListProvenance F) (ctx : DecisionContext F) (r : Outcome Bool × DecisionContext F)
      → provider.provenance ≡ answer prov
      → is_stale ctx.now prov.generated_at ≡ false
      → NamesPost provider (candidate_names text ctx) (marked prov ctx) r
      → Passed text provider graph ctx (then_ownership graph r)
  unfolding has_hard_block
  then_ownership_lem text provider graph prov ctx (raised e, ctx') s f post = tt
  then_ownership_lem text provider graph prov ctx (done true, ctx') s f post =
      λ h. absurd (false≢true (sym h ∙ post.1))
  then_ownership_lem text provider graph prov ctx (done false, ctx') s f post = λ h.
      let below = ownership_check_lem graph ctx'.bundle.cart.beneficiary.account_ref ctx' h in
      let same_account = ap (λ (i : Inputs F). i.bundle.cart.beneficiary.account_ref) (post.0) in
      (
        prov,
        record {
          sourced = s;
          fresh = f;
          cleared = post.2;
          owned = ap (majority_owned graph) (sym same_account) ∙ below.2;
        },
        below.0 ∙ post.0,
        sym (post.1) ∙ below.1,
      )

  screen_with_lem :
      (text : TextOps) (provider : ScreeningProvider F) (graph : OwnershipGraph F)
      (prov : ListProvenance F) (ctx : DecisionContext F)
      → provider.provenance ≡ answer prov
      → Passed text provider graph ctx (screen_with text provider graph prov (mark_screened ctx))
  unfolding screen_with candidate_names
  screen_with_lem text provider graph prov ctx s =
      elim (Bool-cases (is_stale ctx.now prov.generated_at)) [
        | inl stale ↦ rw stale (λ h.
            absurd (
              false≢true (sym h ∙ has_hard_block-hard "AGENT.SANC.STALE_LIST" _ (marked prov ctx))))
        | inr fresh ↦ rw fresh (
            then_ownership_lem text provider graph prov ctx _ s fresh
              (screen_names_lem provider (candidate_names text ctx) (marked prov ctx)))
      ]

  after_provenance_lem :
      (text : TextOps) (provider : ScreeningProvider F) (graph : OwnershipGraph F)
      (r : Reply (ListProvenance F)) (ctx : DecisionContext F)
      → provider.provenance ≡ r
      → Passed text provider graph ctx (after_provenance text provider graph r (mark_screened ctx))
  unfolding after_provenance
  after_provenance_lem text provider graph (unavailable e) ctx s =
      λ h. absurd (false≢true (sym h ∙ hard-provider_unavailable e (mark_screened ctx)))
  after_provenance_lem text provider graph (crash e) ctx s = tt
  after_provenance_lem text provider graph (answer prov) ctx s =
      screen_with_lem text provider graph prov ctx s

  -- A decision that Feature 2 passes on without a hard block was screened against a named and current
  -- list, every name of the chain was cleared, and the beneficiary's sanctioned ownership was below
  -- the ratio of the OFAC rule.
  pub run-Screened :
      (text : TextOps) (provider : ScreeningProvider F) (graph : OwnershipGraph F)
      (ctx : DecisionContext F)
      → (run text provider graph ctx).0 ≡ done tt
      → has_hard_block (run text provider graph ctx).1 ≡ false
      → (prov : ListProvenance F) × Screened text provider graph ctx prov
        × (inputs (run text provider graph ctx).1 ≡ inputs (marked prov ctx))
        × (has_hard_block ctx ≡ false)
  unfolding run
  run-Screened text provider graph ctx d h =
      Passed-done (run text provider graph ctx)
        (after_provenance_lem text provider graph provider.provenance ctx refl) d h
    where
      Passed-done :
          (r : Outcome Unit × DecisionContext F)
          → Passed text provider graph ctx r
          → r.0 ≡ done tt
          → has_hard_block (r.1) ≡ false
          → (prov : ListProvenance F) × Screened text provider graph ctx prov
            × (inputs (r.1) ≡ inputs (marked prov ctx))
            × (has_hard_block ctx ≡ false)
      Passed-done (done _, ctx') post d h = post h
      Passed-done (raised e, ctx') post d h = cc
