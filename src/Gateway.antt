-- ===== src/Gateway.antt =====
-- aegis/gateway/: the verification of mandate signatures and the HTTP handlers.
pub mod Verify
pub mod Routes
