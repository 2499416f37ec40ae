-- ===== src/Ledger.antt =====
-- aegis/ledger/store.py over `MemoryLedgerBackend` of aegis/storage/ledger_backend.py: the
-- append-only chain of signed decisions, its verification, and its reopening from the backend.
pub mod Backend
pub mod Store
pub mod Evidence
