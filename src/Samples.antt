-- ===== src/Samples.antt =====
-- Concrete instances of what the development takes as a parameter, and data to run it on.
pub mod Fixed
pub mod Platform
pub mod Bundle
pub mod Mandates
pub mod Carts
pub mod Delegation
pub mod Rows
