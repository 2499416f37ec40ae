-- ===== src/Screening.antt =====
-- aegis/screening/: the providers of sanctions data.
pub mod Recorded
