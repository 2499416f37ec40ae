-- ===== src/Models.antt =====
-- aegis/models.py: the inbound AP2 mandates, the signals of the pipeline and the signed decision
-- envelope, and aegis/pipeline/context.py's control evidence. `F` is the type of Python floats;
-- datetimes are texts. The human-readable `detail` and `rationale` texts are not modelled.
use finance.Base.{ℕ, String, Bool, false, Option, none, some, List, [], ◌∷◌, map, not, ◌==◌}
use finance.Base.Dict.{Dict}
use finance.Base.Int.{ℤ}
use finance.Base.Float.{FloatOps}
use Prim.Native.String.{◌++◌}

pub record VerifiableCredentialProof : Type 0 where
  pub type : String
  pub verification_method : String
  pub signature : String
  pub created : String

pub data Role : Type 0 where
  buyer merchant rail data_residency : Role

pub record Jurisdiction : Type 0 where
  pub iso : String
  pub role : Role

pub record Party : Type 0 where
  pub legal_name : Option String
  pub account_ref : Option String
  pub wallet : Option String
  pub did : Option String

-- Python's truth value of an optional text
abbrev pub truthy : Option String → Bool
truthy none = false
truthy (some s) = not (s == "")

pub record LineItem (F : Type 0) : Type 0 where
  pub sku : String
  pub description : String
  pub quantity : ℤ
  pub unit_price_usd : F

pub data InstrumentKind : Type 0 where
  card x402_stablecoin bank : InstrumentKind

pub record PaymentInstrument : Type 0 where
  pub kind : InstrumentKind
  pub reference : String

pub record IntentMandate (F : Type 0) : Type 0 where
  pub proof : Option VerifiableCredentialProof
  pub mandate_id : String
  pub natural_language_description : String
  pub max_value_usd : Option F
  pub allowed_merchants : List String
  pub requires_refundability : Bool
  pub intent_expiry : String
  pub signer_did : String
  pub originator : Party
  pub beneficiary : Party

pub record CartMandate (F : Type 0) : Type 0 where
  pub proof : Option VerifiableCredentialProof
  pub mandate_id : String
  pub intent_ref : String
  pub line_items : List (LineItem F)
  pub total_usd : F
  pub refund_period_days : ℤ
  pub merchant_did : String
  pub merchant_legal_name : Option String
  pub beneficiary : Party

pub record PaymentMandate : Type 0 where
  pub proof : Option VerifiableCredentialProof
  pub mandate_id : String
  pub cart_ref : String
  pub instrument : PaymentInstrument
  pub human_present : Bool
  pub settlement_rail : String
  pub initiator_agent : String

pub record MandateBundle (F : Type 0) : Type 0 where
  pub intent : IntentMandate F
  pub cart : CartMandate F
  pub payment : PaymentMandate
  pub touched_jurisdictions : List Jurisdiction
  pub processing_region : String
  pub guardians : List String

-- `", ".join(parts)`
abbrev pub join : List String → String
join [] = ""
join (p ∷ []) = p
join (p ∷ ps) = p ++ (", " ++ join ps)

module _ {F : Type 0} ⦃fl : FloatOps F⦄ where
  abbrev item_text : LineItem F → String
  item_text li = fl.format_int li.quantity ++ ("x " ++ li.description)

  -- `CartMandate.summary_text`
  pub summary_text : CartMandate F → String
  summary_text cart =
      join (map item_text cart.line_items)
      ++ (" totalling " ++ (fl.format 2 cart.total_usd ++ " USD"))

pub data Severity : Type 0 where
  low medium high : Severity

pub record Signal (F : Type 0) : Type 0 where
  pub code : String
  pub severity : Severity
  pub hard_block : Bool
  pub risk_delta : F
  pub stage : String
  pub recommend : Option String

pub data Verdict : Type 0 where
  allow step_up block : Verdict

pub record StepUpChallenge : Type 0 where
  pub challenge_id : String
  pub cart_hash : String
  pub required_m : ℕ
  pub initiator : String
  pub eligible_approvers : List String
  pub contributions : Dict String

pub record ControlEvidence : Type 0 where
  pub merchant_verified_payment_challenge : Bool
  pub user_completed_required_stepup : Bool
  pub agent_sdk_pinned_intent_constraints : Bool
  pub psp_ran_sanctions_screen : Bool

-- aegis/screening/provider.py
pub record ScreeningCandidate (F : Type 0) : Type 0 where
  pub entity_id : String
  pub name : String
  pub score : F
  pub list_name : String
  pub is_pep : Bool
  pub kind : String

pub record ListProvenance (F : Type 0) : Type 0 where
  pub provider : String
  pub dataset : String
  pub dataset_version : String
  pub generated_at : Option F

-- The payload that `_draft_sar` (aegis/pipeline/f3_structuring.py) builds, without its constants
-- and its narrative.
pub record SarDraft (F : Type 0) : Type 0 where
  pub subject_agent_did : String
  pub beneficiary : String
  pub transaction_count : ℕ
  pub aggregate_usd : F
  pub individual_amounts_usd : List F
  pub mandate_id : String

-- The shares of the four parties of aegis/pipeline/f6_liability.py.
pub record Liability (F : Type 0) : Type 0 where
  pub user : F
  pub agent_developer : F
  pub merchant : F
  pub psp : F

pub record DecisionEnvelope (F : Type 0) : Type 0 where
  pub decision_id : String
  pub mandate_id : String
  pub verdict : Verdict
  pub reason_codes : List String
  pub signals : List (Signal F)
  pub risk_score : F
  pub model_provenance : Dict String
  pub screening : Option (ListProvenance F)
  pub liability : Liability F
  pub liability_basis : String
  pub stepup : Option StepUpChallenge
  pub sar_draft : Option (SarDraft F)
  pub ruleset_version : String
  pub world_snapshot_hash : String
  pub prev_envelope_hash : String
  pub this_hash : String
  pub ts : String
  pub signature : String

-- `model_dump(mode="json", exclude=...)` followed by `canonical_bytes`, by class: pydantic and
-- `json` are not part of the program. Each takes its object with the excluded fields blank.
pub record Encoding (F : Type 0) : Type 0 where
  pub intent : IntentMandate F → String
  pub cart : CartMandate F → String
  pub payment : PaymentMandate → String
  -- without `signature` and `this_hash`, and without `this_hash` alone
  pub envelope : DecisionEnvelope F → String
  pub signed_envelope : DecisionEnvelope F → String
  -- the world snapshot of a decision
  pub snapshot : MandateBundle F → String → F → ControlEvidence → String

module _ {F : Type 0} ⦃enc : Encoding F⦄ where
  -- `_SignedMandate.signing_payload`, for each class of mandate
  abbrev pub intent_payload : IntentMandate F → String
  intent_payload m = enc.intent (record m { proof = none })

  abbrev pub cart_payload : CartMandate F → String
  cart_payload m = enc.cart (record m { proof = none })

  -- `DecisionEnvelope.signing_payload`
  abbrev pub signing_payload : DecisionEnvelope F → String
  signing_payload env = enc.envelope (record env { this_hash = ""; signature = "" })

abbrev pub payment_payload : {F : Type 0} → Encoding F → PaymentMandate → String
payment_payload enc m = enc.payment (record m { proof = none })
