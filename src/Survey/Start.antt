-- ===== src/Survey/Start.antt =====
-- `start_survey` of scholight/db/queries_survey.py.
use scholight.Prelude.{
  ℕ, Bool, not, ◌&&◌, Option, none, some, List, [], ◌∷◌, ◌==◌, ltb, if◌then◌else◌, any,
}
use scholight.Prelude.Text.{Text, codes, text_eq}
use scholight.Prelude.Result.{ok, ◌>>=◌, ◌>>◌, require, or_raise}
use scholight.Prelude.Rows.{find_row, update_row}
use scholight.Survey.Tables.{
  queued, job_queued, Survey, Job, Draft, Db, survey_not_found, idempotency_conflict,
  already_started, draft_in_progress, no_ready_draft, db_error, Tx, is_null, Locked,
  lock_survey_aggregate,
}
use scholight.Survey.Lifecycle.{is_reserved, is_drafting, in_progress, is_ready}

abbrev pub revision_of : Draft → ℕ
revision_of d = elim d.revision [ none ↦ 0 | some n ↦ n ]

-- The better of a draft and the best of those behind it; of equal ones the first.
abbrev pub better : Draft → Option Draft → Option Draft
better d none = some d
better d (some e) = if ltb (revision_of d) (revision_of e) then some e else some d

-- `next(... sorted(drafts, key=revision, reverse=True) if status == "ready")`
abbrev pub latest_ready : List Draft → Option Draft
latest_ready [] = none
latest_ready (d ∷ ds) =
    let rest = latest_ready ds in if is_ready d.status then better d rest else rest

abbrev pub fresh_job : ℕ → ℕ → ℕ → ℕ → Text → ℕ → Job
fresh_job id survey_id draft_id client hash now = record {
  id = id;
  survey_id = survey_id;
  approved_draft_id = draft_id;
  client_request_id = client;
  request_hash = hash;
  status = job_queued;
  terminal_outcome = none;
  error_code = none;
  lease_owner = none;
  lease_expires_at = none;
  heartbeat_at = none;
  cancel_requested_at = none;
  progress_stage = codes "waiting";
  archive_attempts = 0;
  next_archive_at = none;
  queued_at = now;
  started_at = none;
  finished_at = none;
  manifest_key = none;
  checkpoint_sequence = none;
  checkpoint_stage = none;
  checkpoint_manifest_key = none;
  workflow_version = none;
  executor_version = none;
  execution_deadline_at = none;
  resume_count = 0;
}

abbrev pub queue_survey : Bool → ℕ → Survey → Survey
queue_survey notify now s = record s {
  status = queued;
  notify_on_completion = notify;
  updated_at = now;
}

-- The checks of `start_survey` on a survey that has no job yet.
unfoldable pub start_drafted : Locked → ℕ → ℕ → Text → Bool → ℕ → Db → Tx Survey
start_drafted locked job_id client hash notify now db = do
  require (is_drafting locked.survey.status && is_reserved locked.survey.quota_state)
      already_started
  require (not (any (λ d. in_progress d.status) locked.drafts)) draft_in_progress
  draft ← or_raise (latest_ready locked.drafts) no_ready_draft
  require (is_null (find_row (λ j. j.id == job_id) db.jobs)) db_error
  ok (
    queue_survey notify now locked.survey,
    record db {
      jobs = fresh_job job_id locked.survey.id draft.id client hash now ∷ db.jobs;
      surveys = update_row (λ s. s.id == locked.survey.id) (queue_survey notify now) db.surveys;
    },
  )

unfoldable pub start_locked : Locked → ℕ → ℕ → Text → Bool → ℕ → Db → Tx Survey
unfolding start_drafted
start_locked locked job_id client hash notify now db = elim locked.job [
  | none ↦ start_drafted locked job_id client hash notify now db
  | some existing ↦ do
    require (existing.client_request_id == client) already_started
    require (text_eq existing.request_hash hash) idempotency_conflict
    ok (locked.survey, db)
]

unfoldable pub start_survey : ℕ → ℕ → ℕ → ℕ → Text → Bool → ℕ → Db → Tx Survey
unfolding start_locked lock_survey_aggregate
start_survey survey_id user job_id client hash notify now db = do
  found ← lock_survey_aggregate survey_id (some user) db
  locked ← or_raise found survey_not_found
  start_locked locked job_id client hash notify now db
