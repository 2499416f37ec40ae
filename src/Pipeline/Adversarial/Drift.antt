-- ===== src/Pipeline/Adversarial/Drift.antt =====
-- Feature 4 lets a decision pass only without injected instructions and within the user's cap.
use Prim.Native.Char.{Char, code}
use finance.Base.{
  String, Bool, false, not, ◌||◌, ◌&&◌, ◌==◌, leb, any, filter, Option, none, some, List, [], ◌∷◌,
  ◌++◌, ◌≡◌, refl, ◌∙◌, arith,
}
use finance.Base.Float.{FloatOps, ◌<?◌}
use finance.Base.Platform.{TextOps}
use finance.Models.{MandateBundle}
use finance.Pipeline.Context.{DecisionContext, has_hard_block, record_model, Outcome, done, raised}
use finance.Pipeline.Context.Signals.{inputs, inputs-add_signal, has_hard_block-add_signal}
use finance.Pipeline.Jurisdiction.{hard_signal}
use finance.Pipeline.Adversarial.{
  DriftEmbedder, is_empty, injection_patterns, has_hidden_unicode, scan_injection, price_breach,
  drift_signal, judge, after_similarity, run,
}

-- A line feed, a carriage return or a tab is no hidden character.
abbrev is_line_char : Char → Bool
is_line_char ch = any (λ n. leb n (code ch) && leb (code ch) n) (9 ∷ 10 ∷ 13 ∷ [])

module _ (text : TextOps) where
  -- a control or format character
  abbrev is_hidden : Char → Bool
  is_hidden ch = (text.category ch == "Cc" || text.category ch == "Cf") && not (is_line_char ch)

  abbrev pub any_hidden : String → Bool
  any_hidden String.[] = false
  any_hidden (String.◌∷◌ ch s) = is_hidden ch || any_hidden s

  -- One of the patterns is found, or a character is hidden.
  abbrev pub injected : String → Bool
  injected s = any (λ p. text.search p s) injection_patterns || any_hidden s

  any_hidden_lem : (s : String) → has_hidden_unicode text s ≡ any_hidden s
  unfolding has_hidden_unicode
  any_hidden_lem String.[] = refl
  any_hidden_lem (String.◌∷◌ ch s) = ground (arith, any_hidden_lem s)

  is_empty-filter :
      (p : String → Bool) (xs ys : List String)
      → not (is_empty (filter p xs ++ ys)) ≡ (any p xs || not (is_empty ys))
  is_empty-filter p [] ys = refl
  is_empty-filter p (x ∷ xs) ys = ground (arith, is_empty-filter p xs ys)

  scan_injection-injected : (s : String) → not (is_empty (scan_injection text s)) ≡ injected s
  unfolding scan_injection
  scan_injection-injected s =
      is_empty-filter (λ p. text.search p s) injection_patterns _ ∙ ground (arith, any_hidden_lem s)

module _ {F : Type 0} ⦃fl : FloatOps F⦄ where
  -- the total is above a cap that the intent sets
  abbrev pub above_cap : MandateBundle F → Bool
  above_cap bundle = elim (bundle.intent.max_value_usd) [
    | none ↦ false
    | some cap ↦ cap <? bundle.cart.total_usd
  ]

module _ {F : Type 0} ⦃fl : FloatOps F⦄ (text : TextOps) where
  -- The intent has an injection signature or a hidden character, or the cart is above the cap of the intent.
  abbrev pub adversarial : MandateBundle F → Bool
  adversarial bundle = injected text bundle.intent.natural_language_description || above_cap bundle

  above_cap_lem :
      (bundle : MandateBundle F)
      → price_breach bundle.intent.max_value_usd bundle.cart.total_usd ≡ above_cap bundle
  unfolding price_breach
  above_cap_lem bundle = by_cap bundle.intent.max_value_usd
    where
      by_cap :
          (cap : Option F)
          → price_breach cap bundle.cart.total_usd
            ≡ (elim cap [ none ↦ false | some c ↦ c <? bundle.cart.total_usd ])
      by_cap none = refl
      by_cap (some c) = refl

  module _ (sim : F) (ctx : DecisionContext F) where
    pub hard-judge :
        has_hard_block (judge text sim ctx) ≡ (has_hard_block ctx || adversarial ctx.bundle)
    unfolding judge
    hard-judge = ground (
      arith,
      scan_injection-injected text ctx.bundle.intent.natural_language_description,
      above_cap_lem ctx.bundle,
      has_hard_block-add_signal (hard_signal "AGENT.SEC.INTENT_DRIFT" "f4_adversarial") ctx,
      has_hard_block-add_signal drift_signal ctx,
    )

    pub inputs-judge : inputs (judge text sim ctx) ≡ inputs ctx
    unfolding judge
    inputs-judge = ground (
      arith,
      inputs-add_signal (hard_signal "AGENT.SEC.INTENT_DRIFT" "f4_adversarial") ctx,
      inputs-add_signal drift_signal ctx,
    )

  -- Unless the embedder raises, after Feature 4 there is a hard block exactly where there was one
  -- before, or the intent has an injection signature or a hidden character, or the cart is above the
  -- cap of the intent: neither the drift nor the refund terms count. The inputs of the decision stay.
  pub adversarial_blocks :
      (embedder : DriftEmbedder F) (ctx : DecisionContext F)
      → (run text embedder ctx).0 ≡ done tt
      → (has_hard_block (run text embedder ctx).1 ≡ (has_hard_block ctx || adversarial ctx.bundle))
        × (inputs (run text embedder ctx).1 ≡ inputs ctx)
  unfolding run record_model has_hard_block
  adversarial_blocks embedder ctx d = by_answer _ d
    where
      known : DecisionContext F
      known = record_model embedder.name embedder.version ctx

      by_answer :
          (r : Outcome F)
          → (after_similarity text r known).0 ≡ done tt
          → (has_hard_block (after_similarity text r known).1
              ≡ (has_hard_block ctx || adversarial ctx.bundle))
            × (inputs (after_similarity text r known).1 ≡ inputs ctx)
      by_answer (done sim) d = (hard-judge sim known, inputs-judge sim known)
      by_answer (raised e) d = cc
