-- ===== src/Survey/Attempts/Reserve.antt =====
-- The fair reservation of the next task, `reserve_next_compute_attempt` of
-- scholight/db/queries_survey_attempts.py.
use scholight.Prelude.{
  ℕ, ◌+◌, Bool, false, ◌&&◌, ◌||◌, Option, none, some, List, [], ◌∷◌, ◌==◌, ltb, leb, if◌then◌else◌,
  any,
}
use scholight.Prelude.Text.{Text}
use scholight.Prelude.Result.{Result, ok, ◌>>=◌, ◌>>◌, require}
use scholight.Prelude.Rows.{find_row}
use scholight.Survey.Tables.{
  WorkKind, draft_work, full_work, reserved, ResourceProfile, draft_profile, full_standard,
  full_high_memory, Job, Attempt, Db, Error, invalid_limits, db_error, is_null, Locked,
  lock_survey_aggregate,
}
use scholight.Survey.Lifecycle.{is_drafting, is_job_queued, is_job_running, is_job_archiving}
use scholight.Survey.Claim.{null_or_due}
use scholight.Survey.Drafts.Claim.{is_draft_queued}
use scholight.Survey.Attempts.{is_open, of_kind, for_target, open_attempts, open_of}
use scholight.Survey.Attempts.Candidates.{WorkItem, compute_candidates}

abbrev is_current_job : ℕ → Job → ℕ → Bool
is_current_job clock j target =
    j.id == target
    && (is_job_queued j.status || is_job_running j.status || is_job_archiving j.status)
    && (is_job_archiving j.status || is_null j.terminal_outcome)
    && null_or_due j.lease_expires_at clock

-- `_candidate_is_current`; `clock` is the time of the process, not of the transaction.
abbrev pub candidate_is_current : WorkKind → ℕ → Locked → ℕ → Bool
candidate_is_current draft_work clock l target =
    is_drafting l.survey.status && any (λ d. d.id == target && is_draft_queued d.status) l.drafts
candidate_is_current full_work clock l target = elim l.job [
  | none ↦ false
  | some j ↦ is_current_job clock j target
]

abbrev profile_for : WorkKind → Bool → ResourceProfile
profile_for draft_work had_oom = draft_profile
profile_for full_work had_oom = if had_oom then full_high_memory else full_standard

abbrev definition_for : ResourceProfile → Text → Option Text → Text
definition_for full_high_memory standard (some high) = high
definition_for p standard high = standard

abbrev target_key : WorkKind → WorkKind → ℕ → Option ℕ
target_key kind of_work target = if of_kind kind of_work then some target else none

-- The new row, with the defaults of the schema.
abbrev pub fresh_attempt : WorkKind → ℕ → WorkItem → Text → Option Text → ℕ → Attempt
fresh_attempt kind attempt_id i standard high now = record {
  id = attempt_id;
  work_kind = kind;
  survey_id = i.survey_id;
  draft_id = target_key kind draft_work i.target_id;
  job_id = target_key kind full_work i.target_id;
  attempt_no = i.attempts + 1;
  status = reserved;
  resource_profile = profile_for kind i.had_oom;
  task_definition_arn = definition_for (profile_for kind i.had_oom) standard high;
  client_token = attempt_id;
  ecs_task_arn = none;
  ecs_event_version = none;
  current_stage = none;
  checkpoint_sequence = none;
  launch_failures = 0;
  next_launch_at = now;
  exit_code = none;
  stop_code = none;
  stopped_reason = none;
  failure_class = none;
  failure_details = [];
  created_at = now;
  launched_at = none;
  started_at = none;
  heartbeat_at = none;
  stopped_at = none;
}

-- `INSERT INTO survey_compute_attempts`: the key is new, no attempt for the target is open and none has
-- the number, as the unique indexes of the schema say.
unfoldable pub add_attempt : WorkKind → ℕ → Attempt → Db → Result Error (Option (Attempt × Db))
add_attempt kind target a db = do
  require (is_null (find_row (λ b. b.id == a.id || b.client_token == a.client_token) db.attempts))
      db_error
  require (is_null (find_row (λ b. for_target kind target b && is_open b.status) db.attempts))
      db_error
  require
      (is_null
        (find_row (λ b. for_target kind target b && b.attempt_no == a.attempt_no) db.attempts))
      db_error
  ok (some (a, record db { attempts = a ∷ db.attempts }))

-- The parameters of a reservation.
pub record Reservation : Type 0 where
  pub kind : WorkKind
  pub standard : Text
  pub high_memory : Option Text
  pub global : ℕ
  pub per_user : ℕ
  pub max_compute : ℕ
  pub attempt_id : ℕ
  pub clock : ℕ
  pub now : ℕ

abbrev pub may_reserve : Reservation → WorkItem → Option Locked → Db → Bool
may_reserve r i none db = false
may_reserve r i (some l) db =
    candidate_is_current r.kind r.clock l i.target_id
    && ltb (open_of r.kind i.user_id db) r.per_user

-- The loop over the candidates.
unfoldable pub reserve_from :
    Reservation → List WorkItem → Db → Result Error (Option (Attempt × Db))
unfolding lock_survey_aggregate add_attempt
reserve_from r [] db = ok none
reserve_from r (i ∷ is) db =
    let rest = reserve_from r is db in
    lock_survey_aggregate i.survey_id none db >>= λ found.
    if may_reserve r i found db
    then add_attempt r.kind i.target_id
        (fresh_attempt r.kind r.attempt_id i r.standard r.high_memory r.now) db
    else rest

-- `reserve_next_compute_attempt`
unfoldable pub reserve_next_compute_attempt :
    Reservation → Db → Result Error (Option (Attempt × Db))
unfolding reserve_from compute_candidates
reserve_next_compute_attempt r db = do
  require (leb 1 r.global && leb 1 r.per_user && leb 1 r.max_compute) invalid_limits
  (if leb r.global (open_attempts r.kind db)
      then ok none
      else reserve_from r (compute_candidates r.kind r.per_user r.max_compute r.now db) db)
