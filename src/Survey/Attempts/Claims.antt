-- ===== src/Survey/Attempts/Claims.antt =====
-- The exact claims of a task, scholight/db/queries_survey_attempts.py.
use scholight.Prelude.{ℕ, ◌+◌, Bool, not, ◌&&◌, ◌||◌, Option, none, some, ◌==◌, if◌then◌else◌}
use scholight.Prelude.Text.{Text, codes}
use scholight.Prelude.Result.{ok, ◌>>=◌}
use scholight.Prelude.Rows.{find_row, update_row}
use scholight.Survey.Tables.{
  job_running, attempt_running, WorkKind, draft_work, full_work, Job, Draft, Attempt, Db, Tx,
  coalesce, is_key, is_null, Locked, lock_survey_aggregate,
}
use scholight.Survey.Lifecycle.{
  is_drafting, is_queued, is_job_queued, is_job_running, is_job_archiving,
}
use scholight.Survey.Claim.{null_or_due, run_survey}
use scholight.Survey.Drafts.Claim.{is_draft_queued, run_draft}
use scholight.Survey.Attempts.{of_kind}
use scholight.Survey.Attempts.Launch.{is_launchable, is_launched}

-- The checks on the row of the attempt, whose target `key` is.
abbrev pub may_claim : WorkKind → Option ℕ → ℕ → Attempt → Bool
may_claim kind key target a =
    of_kind kind a.work_kind
    && is_key key target
    && (is_launchable a.status || is_launched a.status)

abbrev pub begin_attempt : ℕ → Attempt → Attempt
begin_attempt now a = record a {
  status = attempt_running;
  started_at = coalesce a.started_at now;
  heartbeat_at = some now;
}

unfoldable pub claim_locked_draft : ℕ → ℕ → ℕ → ℕ → Option Locked → Db → Option Draft × Db
claim_locked_draft draft_id attempt_id lease now none db = (none, db)
claim_locked_draft draft_id attempt_id lease now (some l) db =
    elim (find_row (λ d. d.id == draft_id) l.drafts) [
      | none ↦ (none, db)
      | some draft ↦
          if is_drafting l.survey.status && is_draft_queued draft.status
          then (
            some (run_draft attempt_id lease now draft),
            record db {
              drafts =
                  update_row (λ d. d.id == draft_id && is_draft_queued d.status)
                    (run_draft attempt_id lease now) db.drafts;
              attempts = update_row (λ a. a.id == attempt_id) (begin_attempt now) db.attempts;
            },
          )
          else (none, db)
    ]

-- `claim_exact_survey_draft`
unfoldable pub claim_exact_survey_draft : ℕ → ℕ → ℕ → ℕ → Db → Tx (Option Draft)
unfolding claim_locked_draft lock_survey_aggregate
claim_exact_survey_draft draft_id attempt_id lease now db =
    elim (find_row (λ a. a.id == attempt_id) db.attempts) [
      | none ↦ ok (none, db)
      | some a ↦
          if may_claim draft_work a.draft_id draft_id a
          then (lock_survey_aggregate a.survey_id none db >>= λ found.
              ok (claim_locked_draft draft_id attempt_id lease now found db))
          else ok (none, db)
    ]

-- What a task brings to the claim of a job.
pub record Claimant : Type 0 where
  pub attempt_id : ℕ
  pub lease : ℕ
  pub workflow_version : Text
  pub executor_version : Text
  pub timeout : ℕ

abbrev coalesce_text : Option Text → Text → Option Text
coalesce_text none t = some t
coalesce_text (some s) t = some s

abbrev pub claim_job : Claimant → ℕ → Job → Job
claim_job c now j = record j {
  status = if is_job_queued j.status then job_running else j.status;
  lease_owner = some c.attempt_id;
  lease_expires_at = some (now + c.lease);
  heartbeat_at = some now;
  started_at = coalesce j.started_at now;
  progress_stage = if is_job_queued j.status then codes "planning" else j.progress_stage;
  workflow_version = coalesce_text j.workflow_version c.workflow_version;
  executor_version = coalesce_text j.executor_version c.executor_version;
  execution_deadline_at = coalesce j.execution_deadline_at (now + c.timeout);
  resume_count = j.resume_count + (if is_null j.checkpoint_sequence then 0 else 1);
}

abbrev pub is_claimable : ℕ → Job → Bool
is_claimable job_id j =
    j.id == job_id
    && (is_job_queued j.status || is_job_running j.status || is_job_archiving j.status)
    && (is_job_archiving j.status || is_null j.terminal_outcome)

-- The job and the attempt; the survey was written before, and stays so also where no job fits.
unfoldable pub claim_rows : Claimant → ℕ → Job → ℕ → Db → Option Job × Db
claim_rows c job_id job now db = elim (find_row (is_claimable job_id) db.jobs) [
  | none ↦ (none, db)
  | some j ↦ (
    some (claim_job c now j),
    record db {
      jobs = update_row (is_claimable job_id) (claim_job c now) db.jobs;
      attempts =
          update_row (λ a. a.id == c.attempt_id)
            (λ a. record (begin_attempt now a) { checkpoint_sequence = job.checkpoint_sequence })
            db.attempts;
    },
  )
]

abbrev pub is_open_job : ℕ → Job → Bool
is_open_job clock job =
    (is_job_queued job.status || is_job_running job.status || is_job_archiving job.status)
    && (is_job_archiving job.status || is_null job.terminal_outcome)
    && null_or_due job.lease_expires_at clock

unfoldable pub claim_locked_job : Claimant → ℕ → ℕ → ℕ → Option Locked → Db → Option Job × Db
unfolding claim_rows
claim_locked_job c job_id clock now none db = (none, db)
claim_locked_job c job_id clock now (some l) db = elim l.job [
  | none ↦ (none, db)
  | some job ↦
      if not (job.id == job_id) || not (is_open_job clock job)
      then (none, db)
      else if not (is_job_queued job.status)
      then claim_rows c job_id job now db
      else if is_queued l.survey.status
      then claim_rows c job_id job now (record db {
        surveys = update_row (λ s. s.id == job.survey_id) (run_survey now) db.surveys;
      })
      else (none, db)
]

-- `claim_exact_survey_job`; `clock` is the time of the process, `now` of the transaction.
unfoldable pub claim_exact_survey_job : Claimant → ℕ → ℕ → ℕ → Db → Tx (Option Job)
unfolding claim_locked_job lock_survey_aggregate
claim_exact_survey_job c job_id clock now db =
    elim (find_row (λ a. a.id == c.attempt_id) db.attempts) [
      | none ↦ ok (none, db)
      | some a ↦
          if may_claim full_work a.job_id job_id a
          then (lock_survey_aggregate a.survey_id none db >>= λ found.
              ok (claim_locked_job c job_id clock now found db))
          else ok (none, db)
    ]
