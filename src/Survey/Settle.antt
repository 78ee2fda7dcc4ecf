-- ===== src/Survey/Settle.antt =====
-- How an execution ends, in scholight/db/queries_survey.py: `settle_survey_execution`,
-- `finish_survey_archive`, `defer_survey_archive` and `mark_survey_workspace_missing`.
use scholight.Prelude.{
  ℕ, ◌+◌, Bool, true, false, not, ◌&&◌, Option, none, some, List, ◌∷◌, ◌==◌, if◌then◌else◌,
}
use scholight.Prelude.Text.{Text, codes}
use scholight.Prelude.Result.{Result, ok, ◌>>=◌, ◌>>◌, require, or_raise}
use scholight.Prelude.Rows.{find_row, update_row}
use scholight.Survey.Tables.{
  SurveyStatus, archiving, succeeded, failed, cancelled, QuotaState, quota_consumed, quota_released,
  job_archiving, job_finished, SurveyOutcome, outcome_succeeded, outcome_failed, outcome_cancelled,
  Survey, Job, Notification, Db, Error, worker_lost, lease_lost, db_error, Tx, is_key, is_null,
  Locked, lock_survey_aggregate,
}
use scholight.Survey.Lifecycle.{
  is_reserved, is_running, is_archiving, is_job_running, is_job_archiving, has_outcome,
  release_reservation,
}

-- The row of a job with its survey locked: what every transaction here begins with.
unfoldable pub lock_job : ℕ → Error → Db → Result Error (Job × Locked)
lock_job job_id e db = do
  job ← or_raise (find_row (λ j. j.id == job_id) db.jobs) e
  found ← lock_survey_aggregate job.survey_id none db
  locked ← or_raise found e
  mine ← or_raise locked.job e
  require (mine.id == job_id) e
  ok (job, locked)

-- `"cancelled" if cancel_requested_at is not None else outcome`
abbrev pub effective : Option ℕ → SurveyOutcome → SurveyOutcome
effective none outcome = outcome
effective (some t) outcome = outcome_cancelled

abbrev pub is_cancelled : SurveyOutcome → Bool
is_cancelled outcome_cancelled = true
is_cancelled o = false

abbrev pub consumes : SurveyOutcome → Bool → Bool
consumes outcome_succeeded chargeable = chargeable
consumes o chargeable = false

abbrev pub error_of : SurveyOutcome → Option Text → Option Text
error_of o code = if is_cancelled o then none else code

abbrev pub archive_job : SurveyOutcome → Option Text → ℕ → Job → Job
archive_job outcome code now j = record j {
  status = job_archiving;
  terminal_outcome = some outcome;
  error_code = error_of outcome code;
  next_archive_at = some now;
  heartbeat_at = some now;
}

abbrev pub archive_survey : QuotaState → Option Text → ℕ → Survey → Survey
archive_survey quota code now s = record s {
  status = archiving;
  quota_state = quota;
  error_code = code;
  updated_at = now;
}

unfoldable pub settle_locked :
    Job → Locked → ℕ → SurveyOutcome → Option Text → Bool → ℕ → Db → Tx (Unit {0})
unfolding release_reservation
settle_locked job locked worker outcome code chargeable now db =
    let final = effective job.cancel_requested_at outcome in
    let consume = consumes final chargeable in
    if is_job_archiving job.status && has_outcome final job.terminal_outcome
    then ok (tt, db)
    else do
      require (is_job_running job.status && is_key job.lease_owner worker) lease_lost
      require (is_running locked.survey.status && is_reserved locked.survey.quota_state) lease_lost
      usages ←
          or_raise
            (release_reservation locked.survey.user_id locked.survey.quota_date
              (if consume then 1 else 0) db.usages)
            lease_lost
      ok (
        tt,
        record db {
          usages = usages;
          surveys =
              update_row (λ s. s.id == job.survey_id)
                (archive_survey (if consume then quota_consumed else quota_released)
                  (error_of final code) now)
                db.surveys;
          jobs = update_row (λ j. j.id == job.id) (archive_job final code now) db.jobs;
        },
      )

-- `settle_survey_execution`
unfoldable pub settle_survey_execution :
    ℕ → ℕ → SurveyOutcome → Option Text → Bool → ℕ → Db → Tx (Unit {0})
unfolding lock_job settle_locked
settle_survey_execution job_id worker outcome code chargeable now db = do
  (job, locked) ← lock_job job_id worker_lost db
  settle_locked job locked worker outcome code chargeable now db

abbrev pub finish_job : Text → ℕ → Job → Job
finish_job manifest now j = record j {
  status = job_finished;
  manifest_key = some manifest;
  lease_owner = none;
  lease_expires_at = none;
  heartbeat_at = some now;
  next_archive_at = none;
  finished_at = some now;
}

abbrev pub status_of : SurveyOutcome → SurveyStatus
status_of outcome_succeeded = succeeded
status_of outcome_failed = failed
status_of outcome_cancelled = cancelled

abbrev pub finish_status : SurveyOutcome → ℕ → Survey → Survey
finish_status outcome now s = record s {
  status = status_of outcome;
  updated_at = now;
  finished_at = some now;
}

-- `INSERT INTO survey_email_notifications ... ON CONFLICT (survey_id) DO NOTHING`
abbrev pub notified : Survey → SurveyOutcome → List Notification → List Notification
notified s outcome ns =
    if s.notify_on_completion
      && not (is_cancelled outcome)
      && is_null (find_row (λ n. n.survey_id == s.id) ns)
    then record { survey_id = s.id; user_id = s.user_id; survey_outcome = outcome } ∷ ns
    else ns

-- `finish_survey_archive`; the survey changes only if it is archiving.
unfoldable pub finish_survey_archive : ℕ → ℕ → Text → ℕ → Db → Tx (Unit {0})
unfolding lock_job
finish_survey_archive job_id worker manifest now db = do
  (job, locked) ← lock_job job_id lease_lost db
  require (is_key job.lease_owner worker && is_job_archiving job.status) lease_lost
  outcome ← or_raise job.terminal_outcome db_error
  ok (
    tt,
    record db {
      jobs = update_row (λ j. j.id == job_id) (finish_job manifest now) db.jobs;
      surveys =
          update_row (λ s. s.id == job.survey_id)
            (λ s. if is_archiving s.status then finish_status outcome now s else s) db.surveys;
      notifications = notified locked.survey outcome db.notifications;
    },
  )

-- The check of `defer_survey_archive` and `mark_survey_workspace_missing`.
unfoldable pub archiving_owner : ℕ → ℕ → Db → Result Error (Job × Locked)
unfolding lock_job
archiving_owner job_id worker db = do
  (job, locked) ← lock_job job_id lease_lost db
  require (is_key job.lease_owner worker && is_job_archiving job.status) lease_lost
  ok (job, locked)

abbrev pub defer_job : ℕ → Text → ℕ → Job → Job
defer_job retry_after code now j = record j {
  archive_attempts = j.archive_attempts + 1;
  next_archive_at = some (now + retry_after);
  error_code = some code;
  lease_owner = none;
  lease_expires_at = none;
  heartbeat_at = some now;
}

unfoldable pub defer_survey_archive : ℕ → ℕ → ℕ → Text → ℕ → Db → Tx (Unit {0})
unfolding archiving_owner
defer_survey_archive job_id worker retry_after code now db = do
  owner ← archiving_owner job_id worker db
  ok (
    tt,
    record db { jobs = update_row (λ j. j.id == job_id) (defer_job retry_after code now) db.jobs },
  )

abbrev pub workspace_missing : Option Text
workspace_missing = some (codes "survey_workspace_missing")

unfoldable pub mark_survey_workspace_missing : ℕ → ℕ → ℕ → Db → Tx (Unit {0})
unfolding archiving_owner
mark_survey_workspace_missing job_id worker now db = do
  (job, locked) ← archiving_owner job_id worker db
  ok (
    tt,
    record db {
      jobs =
          update_row (λ j. j.id == job_id)
            (λ j. record j {
              terminal_outcome = some outcome_failed;
              error_code = workspace_missing;
            })
            db.jobs;
      surveys =
          update_row (λ s. s.id == job.survey_id)
            (λ s. record s { error_code = workspace_missing; updated_at = now }) db.surveys;
    },
  )
