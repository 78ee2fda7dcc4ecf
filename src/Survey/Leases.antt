-- ===== src/Survey/Leases.antt =====
-- The lease of a running job, of scholight/db/queries_survey.py: `heartbeat_survey_job` and
-- `update_survey_job_progress`.
use scholight.Prelude.{
  ℕ, suc, ◌+◌, Bool, true, false, ◌&&◌, ◌||◌, Option, none, some, List, [], ◌∷◌, ◌==◌, leb,
  if◌then◌else◌,
}
use scholight.Prelude.Text.{Text, codes, text_eq}
use scholight.Prelude.Rows.{find_row, update_row}
use scholight.Survey.Tables.{Job, Db, is_key, is_null}
use scholight.Survey.Lifecycle.{is_job_running, is_job_archiving}

-- `HeartbeatState`, without the one of a failing database.
pub data HeartbeatState : Type 0 where
  owned cancel_requested lost : HeartbeatState

abbrev pub holds_lease : ℕ → ℕ → Job → Bool
holds_lease job_id worker j =
    j.id == job_id
    && is_key j.lease_owner worker
    && (is_job_running j.status || is_job_archiving j.status)

abbrev pub beat : ℕ → ℕ → Job → Job
beat lease now j = record j { heartbeat_at = some now; lease_expires_at = some (now + lease) }

abbrev pub heartbeat_state : Job → HeartbeatState
heartbeat_state j = if is_null j.cancel_requested_at then owned else cancel_requested

-- `heartbeat_survey_job`
unfoldable pub heartbeat_survey_job : ℕ → ℕ → ℕ → ℕ → Db → HeartbeatState × Db
heartbeat_survey_job job_id worker lease now db =
    elim (find_row (holds_lease job_id worker) db.jobs) [
      | none ↦ (lost, db)
      | some j ↦ (
        heartbeat_state j,
        record db { jobs = update_row (holds_lease job_id worker) (beat lease now) db.jobs },
      )
    ]

-- `EXECUTION_PROGRESS_STAGES`
abbrev pub execution_stages : List Text
execution_stages =
    codes "waiting"
    ∷ codes "planning"
    ∷ codes "discovering"
    ∷ codes "reviewing_evidence"
    ∷ codes "structuring_report"
    ∷ codes "writing_report"
    ∷ codes "finalizing"
    ∷ []

abbrev pub next_place : Option ℕ → Option ℕ
next_place none = none
next_place (some n) = some (suc n)

-- `array_position(stages, s)`, from 1; null if it is not there
abbrev pub array_position : List Text → Text → Option ℕ
array_position [] s = none
array_position (t ∷ ts) s = if text_eq t s then some 1 else next_place (array_position ts s)

-- `a <= b`, which null does not satisfy
abbrev pub le_null : Option ℕ → Option ℕ → Bool
le_null (some a) (some b) = leb a b
le_null _ _ = false

abbrev pub may_advance : ℕ → ℕ → Text → Job → Bool
may_advance job_id worker stage j =
    j.id == job_id
    && is_key j.lease_owner worker
    && is_job_running j.status
    && is_null j.cancel_requested_at
    && le_null (array_position execution_stages j.progress_stage)
        (array_position execution_stages stage)

-- `update_survey_job_progress`
unfoldable pub update_survey_job_progress : ℕ → ℕ → Text → Db → Bool × Db
update_survey_job_progress job_id worker stage db =
    elim (find_row (may_advance job_id worker stage) db.jobs) [
      | none ↦ (false, db)
      | some j ↦ (
        true,
        record db {
          jobs =
              update_row (may_advance job_id worker stage)
                (λ j. record j { progress_stage = stage }) db.jobs;
        },
      )
    ]
