-- ===== src/Positions.antt =====
-- Managed positions and their exits (backend/app/positions).
pub mod Models
pub mod Records
pub mod Metrics
pub mod ExitRules
pub mod Store
pub mod Reconciliation
pub mod Monitor
pub mod ExitPlanner
pub mod Demands
pub mod Exits
pub mod KillSwitch
pub mod Dropped
pub mod Roundtrip
pub mod Plans
mod Tests
