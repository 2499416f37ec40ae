-- ===== src/Tests/Stages.antt =====
-- The stages at concrete inputs.
use finance.Base.{true, [], ◌||◌, ◌≡◌, refl}
use finance.Base.Float.{lit, ◌≤?◌}
use finance.Base.Int.{ℤ, pos}
use finance.Pipeline.Adversarial
use finance.Pipeline.Adversarial.{DriftEmbedder, after_similarity}
use finance.Pipeline.Adversarial.Drift.{adversarial, adversarial_blocks}
use finance.Pipeline.Context.{DecisionContext, new_context, add_signal, has_hard_block, done}
use finance.Pipeline.Context.Signals.{inputs, risk-add_signal}
use finance.Pipeline.Jurisdiction
use finance.Pipeline.Jurisdiction.Firewall.{forbidden, jurisdiction_blocks}
use finance.Pipeline.RiskStepup.{unattended_signal}
use finance.Pipeline.Structuring
use finance.Pipeline.Structuring.{over_cap}
use finance.Pipeline.Structuring.Caps.{day_of, structuring_blocks}
use finance.Samples.Fixed.{fixed, fixed_laws}
use finance.Samples.Platform.{ids, plain_text, toy_crypto}
use finance.Samples.Bundle.{coffee, all_met}

abbrev at_till : DecisionContext ℤ
at_till = new_context toy_crypto coffee all_met (pos 10000)

jurisdiction_blocks_example :
    has_hard_block (Jurisdiction.run at_till) ≡ (has_hard_block at_till || forbidden at_till)
jurisdiction_blocks_example = jurisdiction_blocks at_till

structuring_blocks_example :
    let ctx = at_till in
    let r = Structuring.run [] ctx in
    (has_hard_block r.1 ≡ (has_hard_block ctx || over_cap (day_of [] ctx.bundle ctx.now)))
    × (inputs r.1 ≡ inputs ctx)
structuring_blocks_example = structuring_blocks [] at_till

abbrev near : DriftEmbedder ℤ
near = record { name = "embedder"; version = "1"; cosine_similarity = λ a b. done (pos 9000) }

no_error : (Adversarial.run plain_text near at_till).0 ≡ done tt
unfolding Adversarial.run after_similarity
no_error = refl

adversarial_blocks_example :
    let r = Adversarial.run plain_text near at_till in
    (has_hard_block r.1 ≡ (has_hard_block at_till || adversarial plain_text at_till.bundle))
    × (inputs r.1 ≡ inputs at_till)
adversarial_blocks_example = adversarial_blocks plain_text near at_till no_error

starts_low : (lit 0 0 ≤? at_till.risk_score) ≡ true
unfolding new_context
starts_low = refl

below_hundred : (at_till.risk_score ≤? lit 100 0) ≡ true
unfolding new_context
below_hundred = refl

risk-add_signal_example :
    ((at_till.risk_score ≤? (add_signal unattended_signal at_till).risk_score) ≡ true)
    × (((add_signal unattended_signal at_till).risk_score ≤? lit 100 0) ≡ true)
risk-add_signal_example =
    risk-add_signal unattended_signal at_till fixed_laws starts_low below_hundred
