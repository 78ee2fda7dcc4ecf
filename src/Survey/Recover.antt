-- ===== src/Survey/Recover.antt =====
-- `recover_expired_survey_jobs` of scholight/db/queries_survey.py.
use scholight.Prelude.{
  ℕ, ◌+◌, Bool, true, false, not, ◌&&◌, Option, none, some, List, [], ◌∷◌, ◌==◌, ltb, take,
  if◌then◌else◌,
}
use scholight.Prelude.Text.{Text, codes}
use scholight.Prelude.Result.{Result, ok, ◌>>=◌, or_raise}
use scholight.Prelude.Rows.{order_by, rows_where, update_row}
use scholight.Survey.Tables.{
  quota_released, job_archiving, SurveyOutcome, outcome_failed, Job, Db, Error, db_error, Tx, due,
  Locked, lock_survey_aggregate,
}
use scholight.Survey.Lifecycle.{is_job_running, release_reservation}
use scholight.Survey.Settle.{effective, error_of, archive_survey}

abbrev pub lost_outcome : Option ℕ → SurveyOutcome
lost_outcome cancel_requested = effective cancel_requested outcome_failed

abbrev pub worker_lost_code : Option Text
worker_lost_code = some (codes "survey_worker_lost")

abbrev pub lose_job : ℕ → Job → Job
lose_job now j = record j {
  status = job_archiving;
  terminal_outcome = some (lost_outcome j.cancel_requested_at);
  error_code = error_of (lost_outcome j.cancel_requested_at) worker_lost_code;
  lease_owner = none;
  lease_expires_at = none;
  next_archive_at = some now;
  heartbeat_at = some now;
}

-- One round of `recover_expired_survey_jobs`: whether the job was recovered, and the tables.
unfoldable pub recover_locked : Job → Locked → ℕ → Db → Result Error (Bool × Db)
unfolding release_reservation
recover_locked job locked now db =
    if not (is_job_running job.status && due job.lease_expires_at now) then ok (false, db) else do
      usages ←
          or_raise (release_reservation locked.survey.user_id locked.survey.quota_date 0 db.usages)
            db_error
      ok (
        true,
        record db {
          usages = usages;
          jobs = update_row (λ j. j.id == job.id) (lose_job now) db.jobs;
          surveys =
              update_row (λ s. s.id == locked.survey.id)
                (archive_survey quota_released
                  (error_of (lost_outcome job.cancel_requested_at) worker_lost_code) now)
                db.surveys;
        },
      )

-- `continue` where the survey or its job is gone, or the job is another one.
unfoldable pub recovered_job : Option Job → Locked → ℕ → ℕ → Db → Result Error (Bool × Db)
unfolding recover_locked
recovered_job none locked job_id now db = ok (false, db)
recovered_job (some job) locked job_id now db =
    if job.id == job_id then recover_locked job locked now db else ok (false, db)

unfoldable pub recover_found : Option Locked → ℕ → ℕ → Db → Result Error (Bool × Db)
unfolding recovered_job
recover_found none job_id now db = ok (false, db)
recover_found (some locked) job_id now db = recovered_job locked.job locked job_id now db

unfoldable pub recover_one : ℕ → ℕ → ℕ → Db → Result Error (Bool × Db)
unfolding recover_found lock_survey_aggregate
recover_one job_id survey_id now db = do
  found ← lock_survey_aggregate survey_id none db
  recover_found found job_id now db

abbrev pub lease_order : Job → Job → Bool
lease_order a b = elim a.lease_expires_at [
  | none ↦ false
  | some s ↦ elim b.lease_expires_at [ none ↦ true | some t ↦ ltb s t ]
]

-- `SELECT id, survey_id ... ORDER BY lease_expires_at LIMIT $1`
abbrev pub expired_jobs : ℕ → ℕ → List Job → List Job
expired_jobs limit now jobs = take limit (
    order_by lease_order
      (rows_where (λ j. is_job_running j.status && due j.lease_expires_at now) jobs))

unfoldable pub recover_each : List Job → ℕ → ℕ → Db → Tx ℕ
unfolding recover_one
recover_each [] recovered now db = ok (recovered, db)
recover_each (j ∷ js) recovered now db = do
  (done, after) ← recover_one j.id j.survey_id now db
  recover_each js (if done then recovered + 1 else recovered) now after

-- `recover_expired_survey_jobs`, one transaction for all of them.
unfoldable pub recover_expired_survey_jobs : ℕ → ℕ → Db → Tx ℕ
unfolding recover_each
recover_expired_survey_jobs limit now db = recover_each (expired_jobs limit now db.jobs) 0 now db
