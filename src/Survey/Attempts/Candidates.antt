-- ===== src/Survey/Attempts/Candidates.antt =====
-- The work items that wait for a task, `_compute_candidates` of scholight/db/queries_survey_attempts.py.
use scholight.Prelude.{
  ℕ, suc, ◌+◌, Bool, true, false, ◌&&◌, ◌||◌, Option, none, some, List, [], ◌∷◌, ◌==◌, ltb,
  if◌then◌else◌, any, length, take,
}
use scholight.Prelude.Rows.{find_row, rows_where, order_by}
use scholight.Survey.Tables.{WorkKind, draft_work, full_work, Survey, Job, Draft, Db, is_null}
use scholight.Survey.Lifecycle.{is_drafting, is_job_queued, is_job_running, is_job_archiving}
use scholight.Survey.Claim.{null_or_due, survey_of}
use scholight.Survey.Drafts.Claim.{is_draft_queued, survey_of_draft}
use scholight.Survey.Attempts.{is_open, for_target, open_of, was_oom, attempt_count, compute_count}

-- A row of `eligible`; `archives` is `job_status = 'archiving'`.
pub record WorkItem : Type 0 where
  pub target_id : ℕ
  pub survey_id : ℕ
  pub queued_at : ℕ
  pub user_id : ℕ
  pub archives : Bool
  pub attempts : ℕ
  pub computes : ℕ
  pub had_oom : Bool

abbrev draft_item : Db → Draft → Survey → WorkItem
draft_item db d s = record {
  target_id = d.id;
  survey_id = d.survey_id;
  queued_at = d.queued_at;
  user_id = s.user_id;
  archives = false;
  attempts = attempt_count draft_work d.id db;
  computes = compute_count draft_work d.id db;
  had_oom = false;
}

abbrev job_item : Db → Job → Survey → WorkItem
job_item db j s = record {
  target_id = j.id;
  survey_id = j.survey_id;
  queued_at = j.queued_at;
  user_id = s.user_id;
  archives = is_job_archiving j.status;
  attempts = attempt_count full_work j.id db;
  computes = compute_count full_work j.id db;
  had_oom = any (λ a. for_target full_work j.id a && was_oom a.failure_class) db.attempts;
}

abbrev pub draft_eligible : Db → Draft → Survey → Bool
draft_eligible db d s =
    is_draft_queued d.status
    && is_drafting s.status
    && is_null (find_row (λ a. for_target draft_work d.id a && is_open a.status) db.attempts)

-- `x IS NULL OR x > now()`
abbrev not_passed : Option ℕ → ℕ → Bool
not_passed none t = true
not_passed (some u) t = ltb t u

abbrev pub job_eligible : ℕ → Db → Job → Bool
job_eligible now db j =
    (is_job_queued j.status || is_job_running j.status || is_job_archiving j.status)
    && (is_job_archiving j.status || is_null j.terminal_outcome)
    && (is_job_archiving j.status || not_passed j.execution_deadline_at now)
    && null_or_due j.lease_expires_at now
    && is_null (find_row (λ a. for_target full_work j.id a && is_open a.status) db.attempts)

abbrev eligible_draft : Db → Draft → Option Survey → List WorkItem → List WorkItem
eligible_draft db d none rest = rest
eligible_draft db d (some s) rest = if draft_eligible db d s then draft_item db d s ∷ rest else rest

abbrev pub eligible_drafts : Db → List Draft → List WorkItem
eligible_drafts db [] = []
eligible_drafts db (d ∷ ds) =
    let rest = eligible_drafts db ds in eligible_draft db d (survey_of_draft db d) rest

abbrev eligible_job : ℕ → Db → Job → Option Survey → List WorkItem → List WorkItem
eligible_job now db j none rest = rest
eligible_job now db j (some s) rest = if job_eligible now db j then job_item db j s ∷ rest else rest

abbrev pub eligible_jobs : ℕ → Db → List Job → List WorkItem
eligible_jobs now db [] = []
eligible_jobs now db (j ∷ js) =
    let rest = eligible_jobs now db js in eligible_job now db j (survey_of db j) rest

abbrev pub eligible : WorkKind → ℕ → Db → List WorkItem
eligible draft_work now db = eligible_drafts db db.drafts
eligible full_work now db = eligible_jobs now db db.jobs

abbrev item_before : WorkItem → WorkItem → Bool
item_before a b =
    ltb a.queued_at b.queued_at || a.queued_at == b.queued_at && ltb a.target_id b.target_id

-- `CASE WHEN j.status = 'archiving' THEN 0 ELSE 1 END`; no draft archives.
abbrev item_class : WorkItem → ℕ
item_class i = if i.archives then 0 else 1

abbrev item_turn_before : WorkItem → WorkItem → Bool
item_turn_before a b =
    ltb (item_class a) (item_class b) || item_class a == item_class b && item_before a b

-- `row_number() OVER (PARTITION BY s.user_id ORDER BY ...)`
abbrev item_turn : List WorkItem → WorkItem → ℕ
item_turn is i = suc (length (rows_where (λ j. j.user_id == i.user_id && item_turn_before j i) is))

abbrev pub fair_item_before : List WorkItem → WorkItem → WorkItem → Bool
fair_item_before is a b =
    ltb (item_turn is a) (item_turn is b) || item_turn is a == item_turn is b && item_before a b

-- The limits on the attempts of one item.
abbrev pub within_attempts : WorkKind → ℕ → WorkItem → Bool
within_attempts draft_work max_compute i = ltb i.computes max_compute
within_attempts full_work max_compute i =
    if i.archives then ltb i.attempts (max_compute + 8) else ltb i.computes max_compute

-- `_compute_candidates`
unfoldable pub compute_candidates : WorkKind → ℕ → ℕ → ℕ → Db → List WorkItem
compute_candidates kind per_user max_compute now db =
    let is = eligible kind now db in
    take 32 (
      order_by (fair_item_before is) (
        rows_where
          (λ i. within_attempts kind max_compute i && ltb (open_of kind i.user_id db) per_user) is))
