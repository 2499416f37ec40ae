-- ===== src/Gateway/Routes.antt =====
-- The HTTP handlers of aegis/gateway/main.py, as functions of the system; a 404 is `not_found`.
pub mod Approval
use finance.Base.{
  ℕ, String, Bool, true, false, Option, none, some, List, [], ◌∷◌, length, map, ◌==◌, if◌then◌else◌,
}
use finance.Base.Dict.{Dict, lookup, insert}
use finance.Base.Float.{FloatOps}
use finance.Ledger.Evidence.{EvidenceBundle, export_evidence}
use finance.Ledger.Store.{DecisionLedger, get, head_hash, verify_chain}
use finance.Models.{
  ControlEvidence, DecisionEnvelope, Encoding, MandateBundle, SarDraft, StepUpChallenge,
}
use finance.Pipeline.Context.{Outcome, done, raised}
use finance.Pipeline.Orchestrator
use finance.Pipeline.Orchestrator.{Services, Orchestrator, Fresh}
use finance.Pipeline.Orchestrator.Replay
use finance.Pipeline.Orchestrator.Replay.{ReplayResult}
use finance.Pipeline.RiskStepup.{verify_quorum}
use finance.State.Stepup

pub data Response (A : Type 0) : Type 0 where
  ok : A → Response A
  not_found : String → Response A

pub record StepUpApproval : Type 0 where
  pub signer_did : String
  pub signature : String

pub record ApprovalStatus : Type 0 where
  pub satisfied : Bool
  pub remaining : ℕ

pub record LedgerStatus : Type 0 where
  pub entries : ℕ
  pub chain_valid : Bool
  pub first_bad_seq : Option ℕ
  pub head_hash : String

-- `ControlEvidence()`
abbrev pub default_controls : ControlEvidence
default_controls = record {
  merchant_verified_payment_challenge = true;
  user_completed_required_stepup = true;
  agent_sdk_pinned_intent_constraints = true;
  psp_ran_sanctions_screen = true;
}

abbrev pub or_not_found : {A : Type 0} → String → Option A → Response A
or_not_found message none = not_found message
or_not_found message (some a) = ok a

-- `KeyError` is a 404; another exception goes to the server.
abbrev key_error_not_found : {A : Type 0} → Outcome A → Outcome (Response A)
key_error_not_found (done a) = done (ok a)
key_error_not_found (raised e) =
    if e == "KeyError" then done (not_found "no replayable record") else raised e

abbrev is_valid : Option ℕ → Bool
is_valid none = true
is_valid (some bad) = false

-- `challenge.contributions[body.signer_did] = body.signature`
abbrev pub contribute : StepUpApproval → StepUpChallenge → StepUpChallenge
contribute body challenge = record challenge {
  contributions = insert body.signer_did body.signature challenge.contributions;
}

module _ {F : Type 0} where
  -- The envelope of a decision holds the challenge object that the store holds. An object is known by
  -- its id, which is a uuid4: a change of it shows in the envelope.
  abbrev pub share :
      StepUpChallenge → DecisionEnvelope F → Option StepUpChallenge → DecisionEnvelope F
  share challenge env none = env
  share challenge env (some held) =
      if held.challenge_id == challenge.challenge_id
      then record env { stepup = some challenge }
      else env

  abbrev pub share_in_index :
      StepUpChallenge → Dict (DecisionEnvelope F) → Dict (DecisionEnvelope F)
  share_in_index challenge [] = []
  share_in_index challenge ((id, env) ∷ index) =
      (id, share challenge env env.stepup) ∷ share_in_index challenge index

  -- The list and the index of the ledger hold the envelope; its backend has a dump of it.
  abbrev pub share_in_ledger : StepUpChallenge → DecisionLedger F → DecisionLedger F
  share_in_ledger challenge l = record l {
    entries = map (λ env. share challenge env env.stepup) l.entries;
    by_id = share_in_index challenge l.by_id;
  }

  unfoldable pub get_ledger : String → Orchestrator F → Response (DecisionEnvelope F)
  get_ledger decision_id orch = or_not_found "unknown decision" (get decision_id orch.ledger)

  unfoldable pub evidence : String → Orchestrator F → Response (EvidenceBundle F)
  evidence decision_id orch =
      or_not_found "unknown decision" (export_evidence orch.ledger decision_id)

  abbrev drafts_of : Option (SarDraft F) → List (SarDraft F) → List (SarDraft F)
  drafts_of none rest = rest
  drafts_of (some draft) rest = draft ∷ rest

  unfoldable pub collect_drafts : List (DecisionEnvelope F) → List (SarDraft F)
  collect_drafts [] = []
  collect_drafts (e ∷ es) = drafts_of e.sar_draft (collect_drafts es)

  -- the count is that of the list
  unfoldable pub sar_drafts : Orchestrator F → ℕ × List (SarDraft F)
  sar_drafts orch = let drafts = collect_drafts orch.ledger.entries in (length drafts, drafts)

module _ {F : Type 0} ⦃fl : FloatOps F⦄ ⦃enc : Encoding F⦄ (svc : Services F) where
  -- `now` is the clock's
  unfoldable pub evaluate :
      Fresh → F → MandateBundle F → Orchestrator F → Orchestrator F × DecisionEnvelope F
  evaluate fresh now bundle orch = Orchestrator.evaluate svc fresh bundle default_controls now orch

  abbrev approve_challenge :
      StepUpApproval
      → Option StepUpChallenge
      → Orchestrator F
      → Orchestrator F × Response ApprovalStatus
  approve_challenge body none orch = (orch, not_found "unknown or expired challenge")
  approve_challenge body (some challenge₀) orch =
      let challenge = contribute body challenge₀ in
      let (satisfied, remaining) =
        verify_quorum svc.crypto svc.public_key challenge challenge.contributions in
      (
        record orch {
          ledger = share_in_ledger challenge orch.ledger;
          stepup = Stepup.put challenge orch.stepup;
        },
        ok (record { satisfied = satisfied; remaining = remaining }),
      )

  -- The contribution is written into the challenge itself, which the store and the ledger's envelope
  -- share.
  unfoldable pub approve :
      String → StepUpApproval → Orchestrator F → Orchestrator F × Response ApprovalStatus
  approve challenge_id body orch = approve_challenge body (Stepup.get challenge_id orch.stepup) orch

  unfoldable pub replay : Fresh → String → Orchestrator F → Outcome (Response ReplayResult)
  replay fresh decision_id orch = key_error_not_found (Replay.replay svc fresh decision_id orch)

  unfoldable pub ledger_chain : Orchestrator F → LedgerStatus
  ledger_chain orch =
      let bad = verify_chain svc.crypto orch.ledger in
      record {
        entries = length orch.ledger.entries;
        chain_valid = is_valid bad;
        first_bad_seq = bad;
        head_hash = head_hash orch.ledger;
      }

  unfoldable pub readyz : Orchestrator F → Bool
  readyz orch = is_valid (verify_chain svc.crypto orch.ledger)
