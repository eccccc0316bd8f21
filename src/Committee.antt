-- ===== src/Committee.antt =====
-- The investment committee (backend/app/committee).
pub mod Models
pub mod Evidence
pub mod Aggregation
pub mod Disagreement
pub mod Agents
pub mod Grounding
pub mod Rebuttal
pub mod Service
pub mod Rounds
pub mod Firsts
pub mod Verdicts
mod Tests
pub mod EvidenceIds
pub mod Scores
pub mod Decisions
pub mod Ranges
pub mod Severity
pub mod Challenges
