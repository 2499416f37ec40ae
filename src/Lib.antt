-- ===== src/Lib.antt =====
-- AEGIS, a control plane that decides on payments of software agents (Python, aegis/).
--
-- A bundle of signed mandates (intent, cart, payment) comes in; Gate 0 checks the three signatures;
-- Features 1 to 5 add signals to a decision context, each hard block ending the run; Feature 6
-- apportions liability, Feature 7 builds the envelope, and the ledger chains, signs and stores it.
-- Settlement takes only an envelope with the ledger's signature.
--
-- Which file models what:
--   Models, Config                aegis/models.py, aegis/config.py
--   Gateway/Verify                aegis/gateway/verify.py: verify_bundle
--   Gateway/Routes                the handlers of aegis/gateway/main.py
--   State/Velocity, State/Stepup  aegis/state/velocity.py, aegis/state/stepup.py
--   Data/Reference                aegis/data/reference.py: the ownership graph, Travel Rule thresholds
--   Pipeline/Context              aegis/pipeline/context.py
--   Pipeline/Jurisdiction, Sanctions, Structuring, Adversarial, RiskStepup, Liability, ReasonCodes
--                                 aegis/pipeline/f1_jurisdiction.py to f7_reasoncodes.py: each `run`
--   Pipeline/Orchestrator         aegis/pipeline/orchestrator.py: evaluate, _run_pipeline, _finalize,
--                                 _finalize_failclosed; Orchestrator/Replay: replay
--   Ledger/Store, Ledger/Backend  aegis/ledger/store.py, and the memory backend of
--                                 aegis/storage/ledger_backend.py
--   Storage/Ledger                the SQLite backend of aegis/storage/ledger_backend.py
--   Storage/Velocity              aegis/storage/velocity_sqlite.py
--   Storage/Scope                 aegis/storage/scope_sqlite.py
--   Storage/Keys                  KeyRing of aegis/crypto.py, aegis/storage/keys.py
--   Screening/Recorded            RecordedScreeningProvider of aegis/screening/provider.py
--   Ledger/Evidence               aegis/ledger/evidence.py
--   Adapters/Settlement           aegis/adapters/settlement.py: settle
--   Ap2/Jws, Sdjwt, Disclosures, Issuance
--                                 aegis/ap2/sdjwt.py: JWS, container and Key Binding, disclosures,
--                                 issue_sd_jwt; Ap2/Json and Ap2/Text are Python's JSON and str
--   Ap2/Mandates, Ap2/Verifier    aegis/ap2/mandates.py, aegis/ap2/verifier.py
--   Ap2/Scope, Ap2/Constraints    aegis/ap2/scope_ledger.py, aegis/ap2/constraints.py
--   Ap2/Wysiwys, Ap2/Disputes     aegis/ap2/wysiwys.py, aegis/ap2/disputes.py
--   Ml/RiskScorer                 aegis/ml/risk_model.py
-- The modules below each of these hold its theorems. Base has what they share, Samples concrete
-- inputs, Tests the runs.
--
-- How the code is read. A stage is a function of the context: what it mutates is in its result, and
-- an exception is `raised`. Stores are values that a decision takes and gives back; the locks of the
-- code make each of their methods one step. Where two parts share an object, a change of it is made
-- in both: an approval changes the challenge in the store and in the ledger's envelope. Python's
-- float is a type F with the operations of FloatOps, NaN included; what the theorems need of its
-- order is FloatLaws. SHA-256, Ed25519, regular expressions, Unicode tables, JSON encodings, the
-- screening provider, the drift embedder and the orchestrator's risk model are parameters. uuid4
-- and the clock give the values of `Fresh`.
-- Every loop of these parts is a structural recursion; the ownership graph is followed to the depth
-- of five that the code itself sets. `disclose` follows digests into the values that disclosures bring;
-- it takes the number of frames that Python has left, and raises RecursionError where they run out.
--
-- A SQLite store is the rows of its tables, each method what its statements say of them.
--
-- Not modelled: texts for readers (rationale, details of signals, the narrative of a SAR draft),
-- timings, HTTP; of aegis/ap2, sandbox.py and disclosure.py; aegis/matching; the providers of
-- aegis/screening that search; ml/embedder.py; the calls of the cryptography package in crypto.py;
-- runtime.py, tools and testkit.py.
pub mod Base
pub mod Models
pub mod Config
pub mod Gateway
pub mod State
pub mod Data
pub mod Pipeline
pub mod Ledger
pub mod Storage
pub mod Screening
pub mod Adapters
pub mod Ap2
pub mod Ml
pub mod Samples
pub mod Tests
