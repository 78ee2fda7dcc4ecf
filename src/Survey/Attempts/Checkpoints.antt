-- ===== src/Survey/Attempts/Checkpoints.antt =====
-- Checkpoints and heartbeats of a running attempt, scholight/db/queries_survey_attempts.py.
use scholight.Prelude.{ℕ, ◌+◌, Bool, true, false, ◌&&◌, ◌||◌, Option, none, some, List, ◌==◌}
use scholight.Prelude.Text.{Text}
use scholight.Prelude.Result.{Result, ok, ◌>>=◌, or_raise}
use scholight.Prelude.Rows.{find_row, update_row}
use scholight.Survey.Tables.{
  WorkKind, draft_work, full_work, Job, Draft, Attempt, Db, Error, db_error, Tx, is_key,
}
use scholight.Survey.Lifecycle.{is_job_running, is_job_archiving}
use scholight.Survey.Leases.{HeartbeatState, owned, lost, holds_lease, beat, heartbeat_state}
use scholight.Survey.Drafts.{is_draft_running}
use scholight.Survey.Drafts.Leases.{beat_draft}
use scholight.Survey.Attempts.Launch.{is_attempt_running, or_zero}

abbrev pub at_checkpoint : ℕ → ℕ → ℕ → Job → Bool
at_checkpoint job_id attempt_id expected j =
    holds_lease job_id attempt_id j && or_zero j.checkpoint_sequence == expected

-- What a commit writes: the stage and where the manifest is.
pub record Commit : Type 0 where
  pub expected : ℕ
  pub stage : Text
  pub manifest_key : Text

abbrev pub commit_job : Commit → ℕ → Job → Job
commit_job c now j = record j {
  checkpoint_sequence = some (c.expected + 1);
  checkpoint_stage = some c.stage;
  checkpoint_manifest_key = some c.manifest_key;
  heartbeat_at = some now;
}

abbrev pub commit_attempt : Commit → ℕ → Attempt → Attempt
commit_attempt c now a = record a {
  checkpoint_sequence = some (c.expected + 1);
  current_stage = some c.stage;
  heartbeat_at = some now;
}

abbrev pub runs_as : ℕ → Attempt → Bool
runs_as attempt_id a = a.id == attempt_id && is_attempt_running a.status

-- `commit_survey_job_checkpoint`
unfoldable pub commit_survey_job_checkpoint : ℕ → ℕ → Commit → ℕ → Db → Tx Bool
commit_survey_job_checkpoint job_id attempt_id c now db =
    elim (find_row (at_checkpoint job_id attempt_id c.expected) db.jobs) [
      | none ↦ ok (false, db)
      | some j ↦ do
        a ← or_raise (find_row (runs_as attempt_id) db.attempts) db_error
        ok (
          true,
          record db {
            jobs =
                update_row (at_checkpoint job_id attempt_id c.expected) (commit_job c now) db.jobs;
            attempts = update_row (runs_as attempt_id) (commit_attempt c now) db.attempts;
          },
        )
    ]

-- `SurveyCheckpointPointer`, without the hash of the manifest
pub record CheckpointPointer : Type 0 where
  pub sequence : ℕ
  pub stage : Option Text
  pub manifest_key : Option Text
  pub workflow_version : Text
  pub executor_version : Text
  pub execution_deadline_at : ℕ

-- `get_claimed_job_checkpoint`
unfoldable pub get_claimed_job_checkpoint : ℕ → ℕ → Db → Result Error CheckpointPointer
get_claimed_job_checkpoint job_id attempt_id db = do
  j ← or_raise (find_row (holds_lease job_id attempt_id) db.jobs) db_error
  workflow ← or_raise j.workflow_version db_error
  executor ← or_raise j.executor_version db_error
  deadline ← or_raise j.execution_deadline_at db_error
  ok (record {
    sequence = or_zero j.checkpoint_sequence;
    stage = j.checkpoint_stage;
    manifest_key = j.checkpoint_manifest_key;
    workflow_version = workflow;
    executor_version = executor;
    execution_deadline_at = deadline;
  })

-- `id = x` of a nullable reference x
abbrev pub is_ref : Option ℕ → ℕ → Bool
is_ref ref id = is_key ref id

abbrev pub holds_draft_of : Attempt → ℕ → Draft → Bool
holds_draft_of a attempt_id d =
    is_ref a.draft_id d.id && is_key d.lease_owner attempt_id && is_draft_running d.status

abbrev pub holds_job_of : Attempt → ℕ → Job → Bool
holds_job_of a attempt_id j =
    is_ref a.job_id j.id
    && is_key j.lease_owner attempt_id
    && (is_job_running j.status || is_job_archiving j.status)

abbrev pub seen : ℕ → ℕ → List Attempt → List Attempt
seen attempt_id now as_rows =
    update_row (λ a. a.id == attempt_id) (λ a. record a { heartbeat_at = some now }) as_rows

unfoldable pub beat_target : WorkKind → Attempt → ℕ → ℕ → ℕ → Db → HeartbeatState × Db
beat_target draft_work a attempt_id lease now db =
    elim (find_row (holds_draft_of a attempt_id) db.drafts) [
      | none ↦ (lost, db)
      | some d ↦ (
        owned,
        record db {
          drafts = update_row (holds_draft_of a attempt_id) (beat_draft lease now) db.drafts;
          attempts = seen attempt_id now db.attempts;
        },
      )
    ]
beat_target full_work a attempt_id lease now db =
    elim (find_row (holds_job_of a attempt_id) db.jobs) [
      | none ↦ (lost, db)
      | some j ↦ (
        heartbeat_state j,
        record db {
          jobs = update_row (holds_job_of a attempt_id) (beat lease now) db.jobs;
          attempts = seen attempt_id now db.attempts;
        },
      )
    ]

-- `heartbeat_compute_attempt`
unfoldable pub heartbeat_compute_attempt : ℕ → ℕ → ℕ → Db → HeartbeatState × Db
unfolding beat_target
heartbeat_compute_attempt attempt_id lease now db =
    elim (find_row (runs_as attempt_id) db.attempts) [
      | none ↦ (lost, db)
      | some a ↦ beat_target a.work_kind a attempt_id lease now db
    ]
