-- ===== src/Survey/Tables.antt =====
-- The tables of the survey schema, as the queries of scholight/db read and write them, and the lock
-- that every transaction takes (scholight/db/survey_locking.py). Identifiers, dates and users are
-- only compared, so they are numbers, and a time is a number of ticks. Columns that no modelled
-- query reads or writes are left out.
use scholight.Prelude.{
  ℕ, Bool, true, false, not, ◌&&◌, Option, none, some, List, ◌==◌, leb, if◌then◌else◌,
}
use scholight.Prelude.Text.{Text}
use scholight.Prelude.Int.{ℤ}
use scholight.Prelude.Result.{Result, ok, err}
use scholight.Prelude.Rows.{find_row, rows_where}

pub data SurveyStatus : Type 0 where
  drafting queued running archiving succeeded failed cancelled : SurveyStatus

pub data QuotaState : Type 0 where
  quota_reserved quota_consumed quota_released : QuotaState

pub data JobStatus : Type 0 where
  job_queued job_running job_archiving job_finished : JobStatus

pub data SurveyOutcome : Type 0 where
  outcome_succeeded outcome_failed outcome_cancelled : SurveyOutcome

pub data DraftStatus : Type 0 where
  draft_queued draft_running draft_ready draft_failed draft_cancelled : DraftStatus

pub data WorkKind : Type 0 where
  draft_work full_work : WorkKind

pub data AttemptStatus : Type 0 where
  reserved launching launched attempt_running attempt_succeeded retryable attempt_failed :
      AttemptStatus
  attempt_cancelled : AttemptStatus

pub data ResourceProfile : Type 0 where
  draft_profile full_standard full_high_memory : ResourceProfile

-- A value of a JSON object: null, a Boolean or a number, a string, or something else.
pub data Value : Type 0 where
  null : Value
  scalar : ℕ → Value
  string : Text → Value
  nested : Value

-- Daily quota of one user.
pub record Usage : Type 0 where
  pub user_id : ℕ
  pub usage_date : ℕ
  pub reserved_count : ℕ
  pub succeeded_count : ℕ

pub record Survey : Type 0 where
  pub id : ℕ
  pub user_id : ℕ
  pub client_request_id : ℕ
  pub request_hash : Text
  pub status : SurveyStatus
  pub quota_date : ℕ
  pub quota_state : QuotaState
  pub notify_on_completion : Bool
  pub error_code : Option Text
  pub started_at : Option ℕ
  pub updated_at : ℕ
  pub finished_at : Option ℕ

pub record Job : Type 0 where
  pub id : ℕ
  pub survey_id : ℕ
  pub approved_draft_id : ℕ
  pub client_request_id : ℕ
  pub request_hash : Text
  pub status : JobStatus
  pub terminal_outcome : Option SurveyOutcome
  pub error_code : Option Text
  pub lease_owner : Option ℕ
  pub lease_expires_at : Option ℕ
  pub heartbeat_at : Option ℕ
  pub cancel_requested_at : Option ℕ
  pub progress_stage : Text
  pub archive_attempts : ℕ
  pub next_archive_at : Option ℕ
  pub queued_at : ℕ
  pub started_at : Option ℕ
  pub finished_at : Option ℕ
  pub manifest_key : Option Text
  pub checkpoint_sequence : Option ℕ
  pub checkpoint_stage : Option Text
  pub checkpoint_manifest_key : Option Text
  pub workflow_version : Option Text
  pub executor_version : Option Text
  pub execution_deadline_at : Option ℕ
  pub resume_count : ℕ

pub record Draft : Type 0 where
  pub id : ℕ
  pub survey_id : ℕ
  pub client_request_id : ℕ
  pub request_hash : Text
  pub revision : Option ℕ
  pub manual : Bool
  pub markdown : Option Text
  pub status : DraftStatus
  pub based_on_revision : Option ℕ
  pub error_code : Option Text
  pub lease_owner : Option ℕ
  pub lease_expires_at : Option ℕ
  pub heartbeat_at : Option ℕ
  pub queued_at : ℕ
  pub started_at : Option ℕ
  pub finished_at : Option ℕ

pub record Attempt : Type 0 where
  pub id : ℕ
  pub work_kind : WorkKind
  pub survey_id : ℕ
  pub draft_id : Option ℕ
  pub job_id : Option ℕ
  pub attempt_no : ℕ
  pub status : AttemptStatus
  pub resource_profile : ResourceProfile
  pub task_definition_arn : Text
  pub client_token : ℕ
  pub ecs_task_arn : Option Text
  pub ecs_event_version : Option ℤ
  pub current_stage : Option Text
  pub checkpoint_sequence : Option ℕ
  pub launch_failures : ℕ
  pub next_launch_at : ℕ
  pub exit_code : Option ℤ
  pub stop_code : Option Text
  pub stopped_reason : Option Text
  pub failure_class : Option Text
  pub failure_details : List (Text × Value)
  pub created_at : ℕ
  pub launched_at : Option ℕ
  pub started_at : Option ℕ
  pub heartbeat_at : Option ℕ
  pub stopped_at : Option ℕ

pub record Notification : Type 0 where
  pub survey_id : ℕ
  pub user_id : ℕ
  pub survey_outcome : SurveyOutcome

-- `overrides` is the daily limit that an administrator gave a user.
pub record Db : Type 0 where
  pub overrides : ℕ → Option ℕ
  pub usages : List Usage
  pub surveys : List Survey
  pub jobs : List Job
  pub drafts : List Draft
  pub attempts : List Attempt
  pub notifications : List Notification

pub data Error : Type 0 where
  survey_not_found idempotency_conflict quota_exceeded already_started draft_in_progress : Error
  no_ready_draft not_cancellable delete_in_progress worker_lost lease_lost draft_limit : Error
  quota_row_missing db_error invalid_limits : Error

abbrev pub Tx : Type 0 → Type 0
Tx A = Result Error (A × Db)

-- `coalesce(x, default)`
abbrev pub coalesce : Option ℕ → ℕ → Option ℕ
coalesce none n = some n
coalesce (some m) n = some m

-- `x = y` of a nullable column
abbrev pub is_key : Option ℕ → ℕ → Bool
is_key none n = false
is_key (some m) n = m == n

-- `x <= now` of a nullable time, false on null
abbrev pub due : Option ℕ → ℕ → Bool
due none now = false
due (some t) now = leb t now

abbrev pub is_null {ℓ} : {A : Type ℓ} → Option A → Bool
is_null none = true
is_null (some a) = false

abbrev pub of_usage : ℕ → ℕ → Usage → Bool
of_usage user date r = r.user_id == user && r.usage_date == date

-- `LockedSurveyAggregate`
pub record Locked : Type 0 where
  pub survey : Survey
  pub usage : Usage
  pub job : Option Job
  pub drafts : List Draft

abbrev pub owned_by : Option ℕ → Survey → Bool
owned_by none s = true
owned_by (some user) s = s.user_id == user

-- `lock_survey_aggregate`
unfoldable pub lock_survey_aggregate : ℕ → Option ℕ → Db → Result Error (Option Locked)
lock_survey_aggregate survey_id user_id db = elim (find_row (λ s. s.id == survey_id) db.surveys) [
  | none ↦ ok none
  | some survey ↦
      if not (owned_by user_id survey)
      then ok none
      else (elim (find_row (of_usage survey.user_id survey.quota_date) db.usages) [
        | none ↦ err quota_row_missing
        | some usage ↦ ok (
            some (record {
              survey = survey;
              usage = usage;
              job = find_row (λ j. j.survey_id == survey_id) db.jobs;
              drafts = rows_where (λ d. d.survey_id == survey_id) db.drafts;
            }))
      ])
]
