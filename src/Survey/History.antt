-- ===== src/Survey/History.antt =====
-- The ready drafts of a survey as its history: what the transactions of
-- scholight/db/queries_survey_drafts.py keep of the table of drafts.
pub mod Numbers
pub mod Rows
pub mod Inserts
pub mod Bulk
pub mod States
pub mod Drafting
pub mod Recovering
pub mod Leasing
pub mod Ends
pub mod Cancelled
pub mod ExactClaims
pub mod Exact
pub mod System
mod Tests
