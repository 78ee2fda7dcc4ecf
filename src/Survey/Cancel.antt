-- ===== src/Survey/Cancel.antt =====
-- `cancel_survey` and `delete_survey` of scholight/db/queries_survey.py. Deleting a
-- row deletes the rows that refer to it, as the schema says.
use scholight.Prelude.{ℕ, not, ◌&&◌, ◌||◌, Option, none, some, List, ◌==◌, if◌then◌else◌}
use scholight.Prelude.Result.{Result, ok, err, ◌>>=◌, ◌>>◌, require, or_raise}
use scholight.Prelude.Rows.{update_row, update_rows, delete_row, delete_rows}
use scholight.Survey.Tables.{
  cancelled, quota_released, DraftStatus, draft_cancelled, Survey, Job, Draft, Db, Error,
  survey_not_found, not_cancellable, delete_in_progress, Tx, coalesce, is_key, is_null, Locked,
  lock_survey_aggregate,
}
use scholight.Survey.Lifecycle.{
  is_reserved, is_drafting, is_queued, is_running, is_archiving, is_terminal, is_job_queued,
  is_job_running, in_progress, release_reservation,
}

abbrev pub drop_lease : DraftStatus → ℕ → Draft → Draft
drop_lease status now d = record d {
  status = status;
  finished_at = some now;
  lease_owner = none;
  lease_expires_at = none;
}

-- `UPDATE survey_drafts SET status = 'cancelled' ... WHERE survey_id = $1 AND status IN (...)`
abbrev pub cancel_drafts : ℕ → ℕ → List Draft → List Draft
cancel_drafts survey_id now ds =
    update_rows (λ d. d.survey_id == survey_id && in_progress d.status)
      (drop_lease draft_cancelled now) ds

abbrev pub delete_job : ℕ → Db → Db
delete_job job_id db = record db {
  jobs = delete_row (λ j. j.id == job_id) db.jobs;
  attempts = delete_rows (λ a. is_key a.job_id job_id) db.attempts;
}

-- The job of a queued survey is deleted with the survey's cancellation; another is in the way.
unfoldable pub without_job : Option Job → Error → Db → Result Error Db
without_job none e db = ok db
without_job (some job) e db = if is_job_queued job.status then ok (delete_job job.id db) else err e

abbrev pub end_survey : ℕ → Survey → Survey
end_survey now s = record s {
  status = cancelled;
  quota_state = quota_released;
  updated_at = now;
  finished_at = some now;
}

unfoldable pub cancel_queued : Locked → ℕ → ℕ → Db → Tx Survey
unfolding without_job release_reservation
cancel_queued locked user now db = do
  require (not (is_queued locked.survey.status) || not (is_null locked.job)) not_cancellable
  cleared ←
      (if is_queued locked.survey.status then without_job locked.job not_cancellable db else ok db)
  usages ← or_raise (release_reservation user locked.survey.quota_date 0 db.usages) not_cancellable
  ok (
    end_survey now locked.survey,
    record cleared {
      usages = usages;
      drafts = cancel_drafts locked.survey.id now cleared.drafts;
      surveys = update_row (λ s. s.id == locked.survey.id) (end_survey now) cleared.surveys;
    },
  )

abbrev pub request_cancel : ℕ → Job → Job
request_cancel now j = record j {
  cancel_requested_at = coalesce j.cancel_requested_at now;
  heartbeat_at = some now;
}

unfoldable pub cancel_running : Locked → ℕ → Db → Tx Survey
cancel_running locked now db = do
  job ← or_raise locked.job not_cancellable
  require (is_job_running job.status) not_cancellable
  ok (
    record locked.survey { updated_at = now },
    record db {
      jobs = update_row (λ j. j.id == job.id) (request_cancel now) db.jobs;
      surveys =
          update_row (λ s. s.id == locked.survey.id) (λ s. record s { updated_at = now })
            db.surveys;
    },
  )

unfoldable pub cancel_locked : Locked → ℕ → ℕ → Db → Tx Survey
unfolding cancel_running cancel_queued
cancel_locked locked user now db =
    if is_terminal locked.survey.status
    then ok (locked.survey, db)
    else if is_running locked.survey.status
    then cancel_running locked now db
    else if is_archiving locked.survey.status
    then err not_cancellable
    else cancel_queued locked user now db

unfoldable pub cancel_survey : ℕ → ℕ → ℕ → Db → Tx Survey
unfolding cancel_locked lock_survey_aggregate
cancel_survey survey_id user now db = do
  found ← lock_survey_aggregate survey_id (some user) db
  locked ← or_raise found survey_not_found
  cancel_locked locked user now db

-- `DELETE FROM surveys`, with everything that refers to the survey; the lock has checked its user.
abbrev pub remove_survey : ℕ → Db → Db
remove_survey survey_id db = record db {
  surveys = delete_row (λ s. s.id == survey_id) db.surveys;
  jobs = delete_rows (λ j. j.survey_id == survey_id) db.jobs;
  drafts = delete_rows (λ d. d.survey_id == survey_id) db.drafts;
  attempts = delete_rows (λ a. a.survey_id == survey_id) db.attempts;
  notifications = delete_rows (λ n. n.survey_id == survey_id) db.notifications;
}

-- What is given back for a survey that has not begun: its job and its reservation.
unfoldable pub give_back : Locked → ℕ → ℕ → Db → Result Error Db
unfolding without_job release_reservation
give_back locked user now db = do
  cleared ← without_job locked.job delete_in_progress db
  usages ←
      (if is_reserved locked.survey.quota_state
        then or_raise (release_reservation user locked.survey.quota_date 0 cleared.usages)
            delete_in_progress
        else ok cleared.usages)
  ok (record cleared {
    usages = usages;
    drafts = cancel_drafts locked.survey.id now cleared.drafts;
  })

unfoldable pub delete_locked : Locked → ℕ → ℕ → Db → Tx (Unit {0})
unfolding give_back
delete_locked locked user now db = do
  require (not (is_running locked.survey.status || is_archiving locked.survey.status))
      delete_in_progress
  cleared ←
      (if is_drafting locked.survey.status || is_queued locked.survey.status
        then give_back locked user now db
        else ok db)
  ok (tt, remove_survey locked.survey.id cleared)

unfoldable pub delete_survey : ℕ → ℕ → ℕ → Db → Tx (Unit {0})
unfolding delete_locked lock_survey_aggregate
delete_survey survey_id user now db = do
  found ← lock_survey_aggregate survey_id (some user) db
  locked ← or_raise found survey_not_found
  delete_locked locked user now db
