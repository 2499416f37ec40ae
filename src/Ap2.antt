-- ===== src/Ap2.antt =====
-- aegis/ap2: open mandates, receipts and constraints.
pub mod Text
pub mod Json
pub mod Jws
pub mod Sdjwt
pub mod Disclosures
pub mod Issuance
pub mod Mandates
pub mod Verifier
pub mod Scope
pub mod Constraints
pub mod Wysiwys
pub mod Disputes
