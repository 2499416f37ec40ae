-- ===== src/Pipeline/Adversarial.antt =====
-- aegis/pipeline/f4_adversarial.py: injected instructions, price breaches and semantic drift.
pub mod Drift
use Prim.Native.Char.{Char, code}
use finance.Base.{
  ℕ, String, Bool, true, false, none, some, Option, List, [], ◌∷◌, ◌++◌, filter, leb, not, ◌&&◌,
  ◌||◌, ◌==◌, if◌then◌else◌,
}
use finance.Base.Float.{FloatOps, lit, ◌⊖◌, ◌<?◌}
use finance.Base.Platform.{TextOps}
use finance.Config.{intent_drift_threshold}
use finance.Models.{Signal, Severity, summary_text}
use finance.Pipeline.Context.{
  DecisionContext, add_signal, record_model, Outcome, done, raised, Stage,
}
use finance.Pipeline.Jurisdiction.{hard_signal}

abbrev pub injection_patterns : List String
injection_patterns =
    "ignore\\s+(all\\s+)?previous" ∷ "disregard\\s+(the\\s+)?(above|prior)" ∷ "system\\s*prompt"
    ∷ "you\\s+are\\s+now" ∷ "</?(system|tool|assistant)\\b" ∷ "\\bexecute\\b.*\\btool\\b"
    ∷ "reveal\\s+(your\\s+)?(instructions|secret|key)" ∷ []

-- `ch in ("\n", "\r", "\t")`
abbrev is_layout : Char → Bool
is_layout ch = is_code 10 || (is_code 13 || is_code 9)
  where
    is_code : ℕ → Bool
    is_code n = leb (code ch) n && leb n (code ch)

module _ (text : TextOps) where
  -- `_has_hidden_unicode`
  unfoldable pub has_hidden_unicode : String → Bool
  has_hidden_unicode String.[] = false
  has_hidden_unicode (String.◌∷◌ ch s) =
      let cat = text.category ch in
      let rest = has_hidden_unicode s in
      if (cat == "Cf" || cat == "Cc") && not (is_layout ch) then true else rest

  -- `scan_injection`
  unfoldable pub scan_injection : String → List String
  scan_injection s =
      filter (λ p. text.search p s) injection_patterns
      ++ (if has_hidden_unicode s then "<hidden-unicode>" ∷ [] else [])

-- `DriftEmbedder` of aegis/ml/embedder.py, or another model in its place
pub record DriftEmbedder (F : Type 0) : Type 0 where
  pub name : String
  pub version : String
  -- the similarity, or the exception raised
  pub cosine_similarity : String → String → Outcome F

abbrev pub is_empty : {A : Type 0} → List A → Bool
is_empty [] = true
is_empty (x ∷ xs) = false

module _ {F : Type 0} ⦃fl : FloatOps F⦄ where
  abbrev pub drift_signal : Signal F
  drift_signal = record {
    code = "AGENT.SEC.INTENT_DRIFT";
    severity = Severity.medium;
    hard_block = false;
    risk_delta = lit 30 0;
    stage = "f4_adversarial";
    recommend = none;
  }

  -- `intent.max_value_usd is not None and cart.total_usd > intent.max_value_usd`
  unfoldable pub price_breach : Option F → F → Bool
  price_breach none total_usd = false
  price_breach (some cap) total_usd = cap <? total_usd

  -- what the stage concludes from the similarity
  unfoldable pub judge : TextOps → F → DecisionContext F → DecisionContext F
  judge text sim ctx =
      let injected =
        not (is_empty (scan_injection text ctx.bundle.intent.natural_language_description)) in
      if injected || price_breach ctx.bundle.intent.max_value_usd ctx.bundle.cart.total_usd
      then add_signal (hard_signal "AGENT.SEC.INTENT_DRIFT" "f4_adversarial") ctx
      else if intent_drift_threshold <? (lit 1 0 ⊖ sim)
      then add_signal drift_signal ctx
      else ctx

  -- the stage, by what the embedder returned
  unfoldable pub after_similarity : TextOps → Outcome F → Stage F Unit
  after_similarity text (done sim) ctx = (done tt, judge text sim ctx)
  after_similarity text (raised error) ctx = (raised error, ctx)

  unfoldable pub run : TextOps → DriftEmbedder F → Stage F Unit
  unfolding after_similarity
  run text embedder ctx =
      after_similarity text
        (embedder.cosine_similarity ctx.bundle.intent.natural_language_description
          (summary_text ctx.bundle.cart))
        (record_model embedder.name embedder.version ctx)
