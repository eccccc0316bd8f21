-- ===== src/Discovery.antt =====
-- The discovery of candidates (backend/app/discovery).
pub mod Models
pub mod Filters
pub mod Diversification
pub mod Caps
pub mod Sieve
mod Tests
