-- ===== src/Survey/Attempts/Bound.antt =====
-- How often a work item is computed, over the attempts of scholight/db/queries_survey_attempts.py.
pub mod Worn
pub mod Wearing
pub mod Writes
pub mod Beginning
pub mod Counting
pub mod Reserving
pub mod System
