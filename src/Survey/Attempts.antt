-- ===== src/Survey/Attempts.antt =====
-- Compute attempts, scholight/db/queries_survey_attempts.py: the rows that a work item has, and the
-- counts over them.
pub mod Candidates
pub mod Reserve
pub mod Launch
pub mod Claims
pub mod Checkpoints
pub mod Details
pub mod Stops
pub mod Bound
pub mod Capacity
pub mod Pointer
pub mod Register
pub mod Events
mod Tests
use scholight.Prelude.{
  ℕ, suc, ◌+◌, Bool, true, false, not, ◌&&◌, ◌||◌, Option, none, some, List, [], ◌∷◌, ◌==◌, ltb,
  leb, if◌then◌else◌, any, length, take,
}
use scholight.Prelude.Text.{Text, codes, text_eq}
use scholight.Prelude.Result.{Result, ok, err, ◌>>=◌, ◌>>◌, require}
use scholight.Prelude.Rows.{find_row, rows_where, order_by}
use scholight.Survey.Tables.{
  WorkKind, draft_work, full_work, AttemptStatus, reserved, launching, launched, attempt_running,
  attempt_succeeded, retryable, attempt_failed, attempt_cancelled, ResourceProfile, draft_profile,
  full_standard, full_high_memory, Survey, Job, Draft, Attempt, Db, Error, invalid_limits, db_error,
  is_key, is_null, Locked, lock_survey_aggregate,
}
use scholight.Survey.Lifecycle.{is_drafting, is_job_queued, is_job_running, is_job_archiving}
use scholight.Survey.Claim.{null_or_due, of_user, survey_of}
use scholight.Survey.Drafts.Claim.{is_draft_queued, survey_of_draft}

-- `_ACTIVE_STATUSES`
abbrev pub is_open : AttemptStatus → Bool
is_open reserved = true
is_open launching = true
is_open launched = true
is_open attempt_running = true
is_open s = false

abbrev pub of_kind : WorkKind → WorkKind → Bool
of_kind draft_work draft_work = true
of_kind full_work full_work = true
of_kind k l = false

-- `a.draft_id = d.id`, or `a.job_id = j.id`
abbrev pub for_target : WorkKind → ℕ → Attempt → Bool
for_target draft_work target a = is_key a.draft_id target
for_target full_work target a = is_key a.job_id target

abbrev pub survey_of_attempt : Db → Attempt → Option Survey
survey_of_attempt db a = find_row (λ s. s.id == a.survey_id) db.surveys

-- The open attempts of a kind, and those of one user.
abbrev pub open_attempts : WorkKind → Db → ℕ
open_attempts kind db =
    length (rows_where (λ a. of_kind kind a.work_kind && is_open a.status) db.attempts)

abbrev pub open_of : WorkKind → ℕ → Db → ℕ
open_of kind user db = length (
    rows_where
      (λ a. of_kind kind a.work_kind && is_open a.status && of_user user (survey_of_attempt db a))
      db.attempts)

abbrev pub was_oom : Option Text → Bool
was_oom none = false
was_oom (some c) = text_eq c (codes "oom")

abbrev pub attempt_count : WorkKind → ℕ → Db → ℕ
attempt_count kind target db = length (rows_where (for_target kind target) db.attempts)

-- Attempts that began to compute.
abbrev pub compute_count : WorkKind → ℕ → Db → ℕ
compute_count kind target db =
    length (rows_where (λ a. for_target kind target a && not (is_null a.started_at)) db.attempts)
