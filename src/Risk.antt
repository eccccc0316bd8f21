-- ===== src/Risk.antt =====
-- The deterministic risk constitution, milestone M4 (backend/app/risk).
pub mod Models
pub mod Constitution
pub mod HardGates
pub mod SoftReductions
pub mod Rules
pub mod Sizer
pub mod Decision
pub mod Gates
pub mod Factors
pub mod Bounds
pub mod Outcomes
pub mod Service
pub mod LiveData
pub mod Tests
