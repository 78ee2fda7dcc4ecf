-- ===== src/Survey/Attempts/Stops.antt =====
-- The end of a task, scholight/db/queries_survey_attempts.py: `record_compute_attempt_succeeded` and
-- `record_compute_attempt_stopped`.
use mathlib.Core.Option
use scholight.Prelude.{
  ℕ, Bool, true, false, not, ◌&&◌, Option, none, some, [], ◌==◌, if◌then◌else◌, take,
}
use scholight.Prelude.Int.{ℤ, leb_ℤ}
use scholight.Prelude.Text.{Text, codes}
use scholight.Prelude.Result.{ok, ◌>>=◌, or_raise}
use scholight.Prelude.Rows.{find_row, update_row}
use scholight.Survey.Tables.{
  WorkKind, draft_work, full_work, AttemptStatus, attempt_succeeded, retryable, attempt_failed,
  attempt_cancelled, draft_queued, draft_failed, JobStatus, job_finished, Job, Draft, Attempt, Db,
  db_error, Tx, coalesce, is_key,
}
use scholight.Survey.Lifecycle.{in_progress}
use scholight.Survey.Attempts.Checkpoints.{is_ref, holds_draft_of, holds_job_of}
use scholight.Survey.Attempts.Details.{Details, sanitized_failure_details}

-- `current_version is not None and int(current_version) >= event_version`
abbrev pub is_stale : Option ℤ → ℤ → Bool
is_stale none version = false
is_stale (some current) version = leb_ℤ version current

abbrev is_job_finished : JobStatus → Bool
is_job_finished job_finished = true
is_job_finished s = false

abbrev draft_over : Option Draft → Bool
draft_over none = false
draft_over (some d) = not (in_progress d.status)

abbrev job_over : Option Job → Bool
job_over none = false
job_over (some j) = is_job_finished j.status

-- Whether the target reached a durable end.
abbrev pub target_over : WorkKind → Attempt → Db → Bool
target_over draft_work a db = draft_over (find_row (λ d. is_ref a.draft_id d.id) db.drafts)
target_over full_work a db = job_over (find_row (λ j. is_ref a.job_id j.id) db.jobs)

abbrev pub exit_clean : Bool → ℤ → ℤ → ℕ → Attempt → Attempt
exit_clean over version code now a = record a {
  status = if over then attempt_succeeded else retryable;
  ecs_event_version = some version;
  exit_code = some code;
  stopped_at = coalesce a.stopped_at now;
  failure_class = if over then a.failure_class else some (codes "unexpected_clean_exit");
  failure_details = if over then a.failure_details else [];
}

-- `WHERE id = $1 AND lease_owner = $2`
abbrev pub leases_job : Attempt → ℕ → Job → Bool
leases_job a attempt_id j = is_ref a.job_id j.id && is_key j.lease_owner attempt_id

abbrev pub leases_draft : Attempt → ℕ → Draft → Bool
leases_draft a attempt_id d = is_ref a.draft_id d.id && is_key d.lease_owner attempt_id

abbrev pub requeue : Draft → Draft
requeue d = record d { status = draft_queued; lease_owner = none; lease_expires_at = none }

-- The target of a task that ended before its work did.
unfoldable pub give_up : WorkKind → Attempt → ℕ → Db → Db
give_up full_work a attempt_id db = record db {
  jobs =
      update_row (leases_job a attempt_id)
        (λ j. record j { lease_owner = none; lease_expires_at = none }) db.jobs;
}
give_up draft_work a attempt_id db = record db {
  drafts = update_row (leases_draft a attempt_id) requeue db.drafts;
}

abbrev pub write_attempt : ℕ → (Attempt → Attempt) → Db → Db
write_attempt attempt_id f db = record db {
  attempts = update_row (λ a. a.id == attempt_id) f db.attempts;
}

-- `record_compute_attempt_succeeded`
unfoldable pub record_compute_attempt_succeeded : ℕ → ℤ → ℤ → ℕ → Db → Tx Attempt
unfolding give_up
record_compute_attempt_succeeded attempt_id version code now db = do
  current ← or_raise (find_row (λ a. a.id == attempt_id) db.attempts) db_error
  (if is_stale current.ecs_event_version version
      then ok (current, db)
      else (let over = target_over current.work_kind current db in
          let after = write_attempt attempt_id (exit_clean over version code now) db in
          ok (
            exit_clean over version code now current,
            if over then after else give_up current.work_kind current attempt_id after,
          )))

-- An ECS STOPPED event.
pub record StopEvent : Type 0 where
  pub version : ℤ
  pub exit_code : Option ℤ
  pub stop_code : Option Text
  pub stopped_reason : Option Text
  pub failure_class : Option Text
  pub failure_details : Details
  pub may_retry : Bool

abbrev pub is_final : AttemptStatus → Bool
is_final attempt_succeeded = true
is_final attempt_failed = true
is_final attempt_cancelled = true
is_final s = false

abbrev pub stop_attempt : StopEvent → ℕ → Attempt → Attempt
stop_attempt e now a = record a {
  status =
      if is_final a.status then a.status else if e.may_retry then retryable else attempt_failed;
  ecs_event_version = some e.version;
  exit_code = e.exit_code;
  stop_code = Option.map (take 128) e.stop_code;
  stopped_reason = Option.map (take 1024) e.stopped_reason;
  failure_class = Option.map (take 64) e.failure_class;
  failure_details = sanitized_failure_details e.failure_details;
  stopped_at = coalesce a.stopped_at now;
  heartbeat_at = some now;
}

abbrev pub stop_draft : Bool → ℕ → Draft → Draft
stop_draft may_retry now d = record d {
  status = if may_retry then draft_queued else draft_failed;
  lease_owner = none;
  lease_expires_at = none;
  heartbeat_at = some now;
  error_code = if may_retry then none else some (codes "survey_draft_compute_failed");
}

-- The target of a task that was stopped.
unfoldable pub stop_target : WorkKind → Attempt → ℕ → Bool → ℕ → Db → Db
stop_target full_work a attempt_id may_retry now db = record db {
  jobs =
      update_row (holds_job_of a attempt_id)
        (λ j. record j { lease_owner = none; lease_expires_at = none; heartbeat_at = some now })
        db.jobs;
}
stop_target draft_work a attempt_id may_retry now db = record db {
  drafts = update_row (holds_draft_of a attempt_id) (stop_draft may_retry now) db.drafts;
}

-- `record_compute_attempt_stopped`
unfoldable pub record_compute_attempt_stopped : ℕ → StopEvent → ℕ → Db → Tx Attempt
unfolding stop_target
record_compute_attempt_stopped attempt_id e now db = do
  current ← or_raise (find_row (λ a. a.id == attempt_id) db.attempts) db_error
  (if is_stale current.ecs_event_version e.version
      then ok (current, db)
      else (let after = write_attempt attempt_id (stop_attempt e now) db in
          ok (
            stop_attempt e now current,
            if is_final current.status
                then after
                else stop_target current.work_kind current attempt_id e.may_retry now after,
          )))
