-- ===== src/Pipeline/Sanctions.antt =====
-- aegis/pipeline/f2_sanctions.py: the sanctions and PEP screen, which fails closed.
pub mod Names
pub mod Screen
use finance.Base.{
  String, Bool, true, false, none, some, Option, List, [], ◌∷◌, contains, not, ◌&&◌, if◌then◌else◌,
}
use finance.Base.Dict.{insert}
use finance.Base.Float.{FloatOps, lit, ◌⊖◌, ◌<?◌, ◌≤?◌}
use finance.Base.Platform.{TextOps}
use finance.Config.{
  sanctions_match_threshold, screening_max_list_age_seconds, ofac_ownership_block_ratio,
}
use finance.Data.Reference.{OwnershipGraph, sanctioned_share}
use finance.Models.{Signal, Severity, ScreeningCandidate, ListProvenance, truthy}
use finance.Pipeline.Context.{
  DecisionContext, add_signal, Outcome, done, raised, Reply, answer, unavailable, crash, Stage,
}
use finance.Pipeline.Jurisdiction.{hard_signal}

-- `ScreeningProvider` of aegis/screening/provider.py, as the answers that it gives during one
-- decision
pub record ScreeningProvider (F : Type 0) : Type 0 where
  pub provenance : Reply (ListProvenance F)
  pub screen : String → Reply (List (ScreeningCandidate F))

-- the loop of `_candidate_names`: the names that are there, each once up to case
module _ (text : TextOps) where
  unfoldable pub unique_names : List String → List (Option String) → List String
  unique_names seen [] = []
  unique_names seen (none ∷ ns) = unique_names seen ns
  unique_names seen (some n ∷ ns) =
      let repeated = unique_names seen ns in
      let fresh = n ∷ unique_names (text.lower n ∷ seen) ns in
      if truthy (some n) && not (contains (text.lower n) seen) then fresh else repeated

  unfoldable pub candidate_names : {F : Type 0} → DecisionContext F → List String
  unfolding unique_names
  candidate_names ctx = unique_names [] (
      ctx.bundle.cart.merchant_legal_name ∷ ctx.bundle.cart.beneficiary.legal_name
      ∷ ctx.bundle.intent.beneficiary.legal_name ∷ [])

module _ {F : Type 0} ⦃fl : FloatOps F⦄ where
  abbrev pub pep_signal : Signal F
  pep_signal = record {
    code = "AGENT.SANC.PEP_EDD";
    severity = Severity.medium;
    hard_block = false;
    risk_delta = lit 25 0;
    stage = "f2_sanctions";
    recommend = some "ENHANCED_DUE_DILIGENCE";
  }

  -- `_unavailable`
  unfoldable pub provider_unavailable : String → DecisionContext F → DecisionContext F
  provider_unavailable error ctx =
      add_signal (hard_signal "AGENT.SANC.PROVIDER_UNAVAILABLE" "f2_sanctions")
        (record ctx { screening_error = some error })

  -- The list has a date, and it is too old.
  unfoldable pub is_stale : F → Option F → Bool
  is_stale now none = false
  is_stale now (some generated_at) = screening_max_list_age_seconds <? (now ⊖ generated_at)

  -- The loop over the candidates for one name; `true` is the return at a sanctions hit.
  unfoldable pub screen_candidates :
      List (ScreeningCandidate F) → DecisionContext F → Bool × DecisionContext F
  screen_candidates [] ctx = (false, ctx)
  screen_candidates (cand ∷ cands) ctx =
      let skipped = screen_candidates cands ctx in
      let flagged = screen_candidates cands (add_signal pep_signal ctx) in
      if cand.score <? sanctions_match_threshold
      then skipped
      else if cand.is_pep
      then flagged
      else (true, add_signal (hard_signal "AGENT.SANC.SDN_HIT" "f2_sanctions") ctx)

  -- one round of the loop over the names, by the answer for this name and the rest of the loop
  unfoldable pub after_answer :
      String → Stage F Bool → Reply (List (ScreeningCandidate F)) → Stage F Bool
  after_answer name rest (unavailable error) ctx = (done true, provider_unavailable error ctx)
  after_answer name rest (crash error) ctx = (raised error, ctx)
  after_answer name rest (answer cands) ctx =
      let logged = record ctx { screening_log = insert name cands ctx.screening_log } in
      let screened = screen_candidates cands logged in
      if screened.0 then (done true, screened.1) else rest screened.1

  -- The loop over the names; `done true` is a return from the stage.
  unfoldable pub screen_names : ScreeningProvider F → List String → Stage F Bool
  unfolding after_answer
  screen_names provider [] ctx = (done false, ctx)
  screen_names provider (name ∷ names) ctx =
      after_answer name (screen_names provider names) (provider.screen name) ctx

  -- the OFAC 50% rule on the account of the cart's beneficiary
  unfoldable pub ownership_check :
      OwnershipGraph F → Option String → DecisionContext F → DecisionContext F
  ownership_check graph none ctx = ctx
  ownership_check graph (some benef_id) ctx =
      if truthy (some benef_id) && (ofac_ownership_block_ratio ≤? sanctioned_share graph benef_id)
      then add_signal (hard_signal "AGENT.SANC.OFAC_50PCT" "f2_sanctions") ctx
      else ctx

  abbrev pub then_ownership :
      OwnershipGraph F → Outcome Bool × DecisionContext F → Outcome Unit × DecisionContext F
  then_ownership graph (raised error, ctx) = (raised error, ctx)
  then_ownership graph (done true, ctx) = (done tt, ctx)
  then_ownership graph (done false, ctx) =
      (done tt, ownership_check graph ctx.bundle.cart.beneficiary.account_ref ctx)

  -- what follows once the provenance of the lists is known
  unfoldable pub screen_with :
      TextOps → ScreeningProvider F → OwnershipGraph F → ListProvenance F → Stage F Unit
  screen_with text provider graph prov ctx =
      let known = record ctx { screening_provenance = some prov } in
      if is_stale ctx.now prov.generated_at
      then (done tt, add_signal (hard_signal "AGENT.SANC.STALE_LIST" "f2_sanctions") known)
      else then_ownership graph (screen_names provider (candidate_names text known) known)

  -- `ctx.controls.psp_ran_sanctions_screen = True`
  abbrev pub mark_screened : DecisionContext F → DecisionContext F
  mark_screened ctx = record ctx {
    controls = record (ctx.controls) { psp_ran_sanctions_screen = true };
  }

  -- the stage, by what the provider says of its lists
  unfoldable pub after_provenance :
      TextOps → ScreeningProvider F → OwnershipGraph F → Reply (ListProvenance F) → Stage F Unit
  after_provenance text provider graph (unavailable error) ctx =
      (done tt, provider_unavailable error ctx)
  after_provenance text provider graph (crash error) ctx = (raised error, ctx)
  after_provenance text provider graph (answer prov) ctx = screen_with text provider graph prov ctx

  unfoldable pub run : TextOps → ScreeningProvider F → OwnershipGraph F → Stage F Unit
  unfolding after_provenance
  run text provider graph ctx =
      after_provenance text provider graph provider.provenance (mark_screened ctx)
