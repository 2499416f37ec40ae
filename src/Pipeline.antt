-- ===== src/Pipeline.antt =====
-- aegis/pipeline/: the decision context, the stages and the orchestrator.
pub mod Context
pub mod Jurisdiction
pub mod Sanctions
pub mod Structuring
pub mod Adversarial
pub mod RiskStepup
pub mod Liability
pub mod ReasonCodes
pub mod Orchestrator
