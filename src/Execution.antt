-- ===== src/Execution.antt =====
-- Safe deterministic execution, milestone M6 (backend/app/execution).
pub mod Models
pub mod Validation
pub mod Planner
pub mod Rows
pub mod Store
pub mod RowLaws
pub mod World
pub mod Gateway
pub mod Tracking
pub mod Idempotency
pub mod Results
pub mod Service
pub mod Reconciliation
pub mod Quiet
pub mod Polls
pub mod Sends
pub mod AtMostOne
pub mod Authorization
pub mod Planning
pub mod PaperMode
pub mod Tests
pub mod Remembered
pub mod Tracked
pub mod Settled
pub mod NoDouble
pub mod Retry
pub mod RetryTests
pub mod Rounds
pub mod LostResponse
pub mod TrackingTests
pub mod Keys
pub mod Statements
pub mod Orders
pub mod Status
