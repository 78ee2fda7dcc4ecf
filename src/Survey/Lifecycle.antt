-- ===== src/Survey/Lifecycle.antt =====
-- The transactions of scholight/db/queries_survey.py: a survey from its request to its archive.
-- `now` is the time of the transaction; identifiers that a caller draws are arguments.
pub mod Again
use scholight.Prelude.{
  ℕ, zero, suc, ◌+◌, ◌-◌, Bool, true, false, not, ◌&&◌, ◌||◌, Option, none, some, List, [], ◌∷◌,
  ◌++◌, ◌==◌, ltb, leb, if◌then◌else◌, any, take,
}
use scholight.Prelude.Text.{Text, codes, text_eq}
use scholight.Prelude.Result.{Result, ok, err, ◌>>=◌, ◌>>◌, require, or_raise}
use scholight.Prelude.Rows.{find_row, rows_where, update_row, update_rows, delete_row, delete_rows}
use scholight.Survey.Tables.{
  SurveyStatus, drafting, queued, running, archiving, succeeded, failed, cancelled, QuotaState,
  quota_reserved, quota_consumed, quota_released, JobStatus, job_queued, job_running, job_archiving,
  job_finished, SurveyOutcome, outcome_succeeded, outcome_failed, outcome_cancelled, DraftStatus,
  draft_queued, draft_running, draft_ready, draft_failed, draft_cancelled, Usage, Survey, Job,
  Draft, Notification, Db, Error, survey_not_found, idempotency_conflict, quota_exceeded,
  already_started, draft_in_progress, no_ready_draft, not_cancellable, delete_in_progress,
  worker_lost, lease_lost, db_error, Tx, coalesce, is_key, due, is_null, of_usage, Locked,
  lock_survey_aggregate,
}

abbrev pub is_reserved : QuotaState → Bool
is_reserved quota_reserved = true
is_reserved q = false

abbrev pub is_drafting : SurveyStatus → Bool
is_drafting drafting = true
is_drafting s = false

abbrev pub is_queued : SurveyStatus → Bool
is_queued queued = true
is_queued s = false

abbrev pub is_running : SurveyStatus → Bool
is_running running = true
is_running s = false

abbrev pub is_archiving : SurveyStatus → Bool
is_archiving archiving = true
is_archiving s = false

abbrev pub is_terminal : SurveyStatus → Bool
is_terminal succeeded = true
is_terminal failed = true
is_terminal cancelled = true
is_terminal s = false

abbrev pub is_job_queued : JobStatus → Bool
is_job_queued job_queued = true
is_job_queued s = false

abbrev pub is_job_running : JobStatus → Bool
is_job_running job_running = true
is_job_running s = false

abbrev pub is_job_archiving : JobStatus → Bool
is_job_archiving job_archiving = true
is_job_archiving s = false

-- `status in {"queued", "running"}` of a draft
abbrev pub in_progress : DraftStatus → Bool
in_progress draft_queued = true
in_progress draft_running = true
in_progress s = false

abbrev pub is_ready : DraftStatus → Bool
is_ready draft_ready = true
is_ready s = false

abbrev pub same_outcome : SurveyOutcome → SurveyOutcome → Bool
same_outcome outcome_succeeded outcome_succeeded = true
same_outcome outcome_failed outcome_failed = true
same_outcome outcome_cancelled outcome_cancelled = true
same_outcome a b = false

abbrev pub has_outcome : SurveyOutcome → Option SurveyOutcome → Bool
has_outcome o none = false
has_outcome o (some p) = same_outcome p o

-- `INSERT INTO survey_daily_usage ... ON CONFLICT DO NOTHING`
abbrev pub with_usage : ℕ → ℕ → List Usage → List Usage
with_usage user date us = elim (find_row (of_usage user date) us) [
  | some r ↦ us
  | none ↦
      record { user_id = user; usage_date = date; reserved_count = 0; succeeded_count = 0 } ∷ us
]

abbrev pub reserve_one : Usage → Usage
reserve_one r = record r { reserved_count = r.reserved_count + 1 }

abbrev pub settle_one : ℕ → Usage → Usage
settle_one gained r = record r {
  reserved_count = r.reserved_count - 1;
  succeeded_count = r.succeeded_count + gained;
}

-- `UPDATE survey_daily_usage SET reserved_count = reserved_count - 1 ... AND reserved_count > 0`
unfoldable pub release_reservation : ℕ → ℕ → ℕ → List Usage → Option (List Usage)
release_reservation user date gained us = elim (find_row (of_usage user date) us) [
  | none ↦ none
  | some r ↦
      if ltb 0 r.reserved_count
      then some (update_row (of_usage user date) (settle_one gained) us)
      else none
]

-- `coalesce((SELECT daily_limit FROM user_quota_overrides ...), daily_limit)`
abbrev pub effective_limit : Option ℕ → ℕ → ℕ
effective_limit none daily_limit = daily_limit
effective_limit (some n) daily_limit = n

abbrev pub fresh_survey : ℕ → ℕ → ℕ → Text → ℕ → ℕ → Survey
fresh_survey id user client hash date now = record {
  id = id;
  user_id = user;
  client_request_id = client;
  request_hash = hash;
  status = drafting;
  quota_date = date;
  quota_state = quota_reserved;
  notify_on_completion = false;
  error_code = none;
  started_at = none;
  updated_at = now;
  finished_at = none;
}

abbrev pub fresh_draft : ℕ → ℕ → ℕ → Text → Option ℕ → ℕ → Draft
fresh_draft id survey_id client hash base now = record {
  id = id;
  survey_id = survey_id;
  client_request_id = client;
  request_hash = hash;
  revision = none;
  manual = false;
  markdown = none;
  status = draft_queued;
  based_on_revision = base;
  error_code = none;
  lease_owner = none;
  lease_expires_at = none;
  heartbeat_at = none;
  queued_at = now;
  started_at = none;
  finished_at = none;
}

-- `create_survey`, behind the row of the daily usage; a primary key that is taken is a database
-- error.
unfoldable pub create_with : ℕ → ℕ → ℕ → ℕ → Text → ℕ → ℕ → ℕ → Db → Tx Survey
create_with survey_id draft_id user client hash date limit now db =
    elim (find_row (λ s. s.user_id == user && s.client_request_id == client) db.surveys) [
      | some existing ↦ do
        require (text_eq existing.request_hash hash) idempotency_conflict
        ok (existing, db)
      | none ↦ do
        usage ← or_raise (find_row (of_usage user date) db.usages) db_error
        require
            (ltb (usage.reserved_count + usage.succeeded_count)
              (effective_limit (db.overrides user) limit))
            quota_exceeded
        require (is_null (find_row (λ s. s.id == survey_id) db.surveys)) db_error
        require (is_null (find_row (λ d. d.id == draft_id) db.drafts)) db_error
        ok (
          fresh_survey survey_id user client hash date now,
          record db {
            usages = update_row (of_usage user date) reserve_one db.usages;
            surveys = fresh_survey survey_id user client hash date now ∷ db.surveys;
            drafts = fresh_draft draft_id survey_id client hash none now ∷ db.drafts;
          },
        )
    ]

unfoldable pub create_survey : ℕ → ℕ → ℕ → ℕ → Text → ℕ → ℕ → ℕ → Db → Tx Survey
unfolding create_with
create_survey survey_id draft_id user client hash date limit now db =
    create_with survey_id draft_id user client hash date limit now
      (record db { usages = with_usage user date db.usages })
