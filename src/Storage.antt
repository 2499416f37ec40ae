-- ===== src/Storage.antt =====
-- aegis/storage: the SQLite stores as tables.
pub mod Ledger
pub mod Velocity
pub mod Scope
pub mod Keys
