-- ===== src/Pipeline/RiskStepup.antt =====
-- aegis/pipeline/f5_risk_stepup.py: the risk bands and the step-up quorum.
pub mod Bands
pub mod Quorum
use finance.Base.{
  ℕ, ◌-◌, String, Bool, true, false, none, some, Option, List, [], ◌∷◌, contains, add, filter,
  length, ltb, leb, not, ◌&&◌, ◌==◌, if◌then◌else◌,
}
use finance.Base.Dict.{Dict}
use finance.Base.Float.{FloatOps, lit, min, ◌⊕◌, ◌⊘◌, ◌<?◌, ◌≤?◌}
use finance.Base.Platform.{Crypto}
use finance.Config.{
  risk_low_band, risk_stepup_band, hnp_risk_low_band, hnp_risk_stepup_band, hnp_baseline_risk,
}
use finance.Models.{
  Signal, Severity, StepUpChallenge, Verdict, allow, step_up, block, Encoding, cart_payload,
}
use finance.Pipeline.Context.{DecisionContext, initiator, add_signal, record_model}
use finance.Pipeline.Jurisdiction.{hard_signal}

-- `RiskModel` of aegis/ml/risk_model.py, or another model in its place
pub record RiskModel (F : Type 0) : Type 0 where
  pub name : String
  pub version : String
  pub score : DecisionContext F → F

abbrev pub is_none : {F : Type 0} → Option F → Bool
is_none none = true
is_none (some x) = false

module _ {F : Type 0} ⦃fl : FloatOps F⦄ where
  unfoldable pub cart_hash : ⦃enc : Encoding F⦄ → Crypto → DecisionContext F → String
  cart_hash cr ctx = cr.sha256_hex (cart_payload ctx.bundle.cart)

  unfoldable pub required_quorum : F → F → F → ℕ
  required_quorum score low_band stepup_band =
      let midpoint = (low_band ⊕ stepup_band) ⊘ lit 2 0 in if midpoint ≤? score then 3 else 2

  abbrev pub unattended_signal : Signal F
  unattended_signal = record {
    code = "AGENT.HNP.UNATTENDED";
    severity = Severity.low;
    hard_block = false;
    risk_delta = hnp_baseline_risk;
    stage = "f5_risk_stepup";
    recommend = none;
  }

  abbrev pub hnp : DecisionContext F → Bool
  hnp ctx = not ctx.bundle.payment.human_present

  abbrev pub low_band : DecisionContext F → F
  low_band ctx = if hnp ctx then hnp_risk_low_band else risk_low_band

  abbrev pub stepup_band : DecisionContext F → F
  stepup_band ctx = if hnp ctx then hnp_risk_stepup_band else risk_stepup_band

  abbrev pub eligible : DecisionContext F → List String
  eligible ctx = filter (λ g. not (g == initiator ctx)) ctx.bundle.guardians

  module _ ⦃enc : Encoding F⦄ (cr : Crypto) where
    -- the challenge for a quorum of `m`, bound to the cart
    unfoldable pub make_challenge : String → ℕ → DecisionContext F → StepUpChallenge
    unfolding cart_hash
    make_challenge challenge_id m ctx = record {
      challenge_id = challenge_id;
      cart_hash = cart_hash cr ctx;
      required_m = m;
      initiator = initiator ctx;
      eligible_approvers = eligible ctx;
      contributions = [];
    }

    -- the bands, once the score is final
    unfoldable pub resolve : String → DecisionContext F → Verdict × DecisionContext F
    resolve challenge_id ctx =
        let m = required_quorum ctx.risk_score (low_band ctx) (stepup_band ctx) in
        if ctx.risk_score <? low_band ctx
        then (allow, ctx)
        else if stepup_band ctx ≤? ctx.risk_score
        then (block, ctx)
        else if ltb (length (eligible ctx)) m
        then (block, ctx)
        else (step_up, record ctx { stepup = some (make_challenge challenge_id m ctx) })

    -- The score of the model is added, up to 100.
    unfoldable pub score_and_resolve :
        RiskModel F → String → DecisionContext F → Verdict × DecisionContext F
    score_and_resolve risk_model challenge_id ctx =
        resolve challenge_id
          (record ctx { risk_score = min (lit 100 0) (ctx.risk_score ⊕ risk_model.score ctx) })

    unfoldable pub run : RiskModel F → String → DecisionContext F → Verdict × DecisionContext F
    run risk_model challenge_id ctx₀ =
        let ctx = record_model risk_model.name risk_model.version ctx₀ in
        if hnp ctx
        then (if is_none ctx.bundle.intent.max_value_usd
            then (
              block,
              add_signal (hard_signal "AGENT.HNP.UNBOUNDED_AUTHORITY" "f5_risk_stepup") ctx,
            )
            else score_and_resolve risk_model challenge_id (add_signal unattended_signal ctx))
        else score_and_resolve risk_model challenge_id ctx

-- `verify_quorum`: who has signed the hash of the cart, the initiator left out.
module _ (cr : Crypto) (pubkey_resolver : String → Option String)
    (challenge : StepUpChallenge) where
  abbrev signed_by : Option String → String → Bool
  signed_by none sig = false
  signed_by (some pub_key) sig = cr.verify pub_key challenge.cart_hash sig

  abbrev pub counts : String → String → Bool
  counts signer_did sig =
      not (signer_did == challenge.initiator)
      && (contains signer_did challenge.eligible_approvers
          && signed_by (pubkey_resolver signer_did) sig)

  unfoldable pub valid_signers : Dict String → List String → List String
  valid_signers [] signers = signers
  valid_signers ((signer_did, sig) ∷ contributions) signers =
      valid_signers contributions
        (if counts signer_did sig then add signer_did signers else signers)

  unfoldable pub verify_quorum : Dict String → Bool × ℕ
  verify_quorum contributions =
      let n = length (valid_signers contributions []) in
      (leb challenge.required_m n, challenge.required_m - n)
