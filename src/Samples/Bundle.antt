-- ===== src/Samples/Bundle.antt =====
-- A signed bundle of mandates, and an orchestrator to evaluate it.
use Prim.Native.String.{◌++◌}
use finance.Base.{String, Option, none, some, true, false, [], ◌∷◌}
use finance.Base.Dict.{Dict}
use finance.Base.Int.{ℤ, pos}
use finance.Ledger.Backend.{new_backend}
use finance.Ledger.Store.{DecisionLedger}
use finance.Models.{
  VerifiableCredentialProof, Party, MandateBundle, InstrumentKind, ControlEvidence, Role,
  StepUpChallenge,
}
use finance.Pipeline.Context.{answer, done, raised}
use finance.Pipeline.Orchestrator.{Services, Orchestrator, Fresh}
use finance.Samples.Fixed.{fixed}
use finance.Samples.Platform.{plain_text, toy_crypto, ids}

abbrev pub signed_by : String → String → Option VerifiableCredentialProof
signed_by did payload = some record {
  type = "Ed25519Signature2020";
  verification_method = did ++ "#key-1";
  signature = did ++ payload;
  created = "2026-07-01T00:00:00Z";
}

abbrev pub shop : Party
shop = record {
  legal_name = some "Kiosk Ltd";
  account_ref = some "acct-9";
  wallet = none;
  did = some "did:shop";
}

abbrev pub user_party : Party
user_party = record {
  legal_name = some "Ann Lee";
  account_ref = some "acct-1";
  wallet = none;
  did = some "did:user";
}

abbrev pub coffee : MandateBundle ℤ
coffee = record {
  intent = record {
    proof = signed_by "did:user" "intent-1";
    mandate_id = "intent-1";
    natural_language_description = "a coffee";
    max_value_usd = some (pos 100000);
    allowed_merchants = "did:shop" ∷ [];
    requires_refundability = false;
    intent_expiry = "2026-08-01T00:00:00Z";
    signer_did = "did:user";
    originator = user_party;
    beneficiary = shop;
  };
  cart = record {
    proof = signed_by "did:shop" "cart-1";
    mandate_id = "cart-1";
    intent_ref = "intent-1";
    line_items = [];
    total_usd = pos 45000;
    refund_period_days = pos 0;
    merchant_did = "did:shop";
    merchant_legal_name = some "Kiosk Ltd";
    beneficiary = shop;
  };
  payment = record {
    proof = signed_by "did:agent" "payment-1";
    mandate_id = "payment-1";
    cart_ref = "cart-1";
    instrument = record { kind = InstrumentKind.card; reference = "tok-1" };
    human_present = true;
    settlement_rail = "card";
    initiator_agent = "did:agent";
  };
  touched_jurisdictions = record { iso = "US"; role = Role.buyer } ∷ [];
  processing_region = "US";
  guardians = "did:g1" ∷ "did:g2" ∷ "did:agent" ∷ "did:g3" ∷ [];
}

abbrev pub all_met : ControlEvidence
all_met = record {
  merchant_verified_payment_challenge = true;
  user_completed_required_stepup = true;
  agent_sdk_pinned_intent_constraints = true;
  psp_ran_sanctions_screen = true;
}

abbrev pub services : ℤ → Services ℤ
services score = record {
  crypto = toy_crypto;
  text = plain_text;
  public_key = λ did. some did;
  screening = record {
    provenance = answer (record {
      provider = "offline-fixture";
      dataset = "demo";
      dataset_version = "1";
      generated_at = none;
    });
    screen = λ name. answer [];
  };
  graph = record { by_owned = []; sanctioned = [] };
  embedder = record {
    name = "embedder";
    version = "1";
    cosine_similarity = λ a b. done (pos 9000);
  };
  risk_model = record { name = "model"; version = "1"; score = λ ctx. score };
}

abbrev pub fresh : Fresh
fresh = record { decision_id = "dec-1"; challenge_id = "ch-1"; ts = "2026-07-01T00:00:00Z" }

abbrev pub empty_ledger : DecisionLedger ℤ
empty_ledger = record {
  signing_key = "key";
  signing_pub = "key";
  backend = record new_backend { meta = ("signing_pub_hex", "key") ∷ [] };
  entries = [];
  by_id = [];
}

abbrev pub start : Orchestrator ℤ
start = record { ledger = empty_ledger; velocity = []; stepup = [] }

abbrev pub broken_embedder : Services ℤ
broken_embedder = record (services (pos 0)) {
  embedder = record { name = "embedder"; version = "1"; cosine_similarity = λ a b. raised "model" };
}

-- a cart that someone else has signed
abbrev pub forged : MandateBundle ℤ
forged = record coffee { cart = record coffee.cart { proof = signed_by "did:user" "cart-1" } }

abbrev pub quorum_of_two : StepUpChallenge
quorum_of_two = record {
  challenge_id = "ch-1";
  cart_hash = "cart-1";
  required_m = 2;
  initiator = "did:agent";
  eligible_approvers = "did:g1" ∷ "did:g2" ∷ [];
  contributions = [];
}

abbrev pub approvals : Dict String
approvals = ("did:g1", "did:g1cart-1") ∷ ("did:g2", "did:g2cart-1") ∷ []
