-- ===== src/Survey.antt =====
-- The state of literature surveys, scholight/survey and scholight/db.
pub mod Progress
pub mod Tables
pub mod Lifecycle
pub mod Start
pub mod Cancel
pub mod Settle
pub mod Recover
pub mod Leases
pub mod Claim
pub mod Drafts
pub mod Ledger
pub mod History
pub mod Attempts
