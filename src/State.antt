-- ===== src/State.antt =====
-- aegis/state/: the sliding windows of amounts and the open step-up challenges.
pub mod Velocity
pub mod Stepup
