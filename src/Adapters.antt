-- ===== src/Adapters.antt =====
-- aegis/adapters: money movement.
pub mod Settlement
