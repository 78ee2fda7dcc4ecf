-- ===== src/Survey/Ledger/WorkCalls.antt =====
-- Every transaction of scholight/db/queries_survey_drafts.py and of scholight/db/queries_survey_attempts.py
-- but the claim of a job: they leave the surveys and the usage rows alone.
use mathlib.Core.Path.{subst}
use scholight.Prelude.{ℕ, sym, Option, none, some}
use scholight.Prelude.Int.{ℤ}
use scholight.Prelude.Text.{Text}
use scholight.Prelude.Result.{Result, ok, err, committed, Ensures}
use scholight.Survey.Tables.{Attempt, Db, Error}
use scholight.Survey.Drafts.{
  request_generated_draft, create_manual_draft, complete_survey_draft, fail_survey_draft,
}
use scholight.Survey.Drafts.Claim.{claim_survey_draft}
use scholight.Survey.Drafts.Leases.{heartbeat_survey_draft, recover_expired_survey_drafts}
use scholight.Survey.Drafts.Writes.{
  DraftsOnly, WritesDrafts, Claimed, request_generated_draft-WritesDrafts,
  create_manual_draft-WritesDrafts, complete_survey_draft-WritesDrafts,
  fail_survey_draft-WritesDrafts, claim_survey_draft-Claimed, heartbeat_survey_draft-DraftsOnly,
  recover_expired_survey_drafts-WritesDrafts,
}
use scholight.Survey.Attempts.Reserve.{Reservation, reserve_next_compute_attempt}
use scholight.Survey.Attempts.Launch.{
  mark_compute_attempt_launching, record_compute_launch_failure, mark_compute_attempt_launched,
}
use scholight.Survey.Attempts.Claims.{claim_exact_survey_draft}
use scholight.Survey.Attempts.Checkpoints.{
  Commit, commit_survey_job_checkpoint, heartbeat_compute_attempt,
}
use scholight.Survey.Attempts.Details.{Details, record_compute_attempt_diagnostics}
use scholight.Survey.Attempts.Stops.{
  StopEvent, record_compute_attempt_succeeded, record_compute_attempt_stopped,
}
use scholight.Survey.Ledger.Paired.{NoMore, same-NoMore}
use scholight.Survey.Ledger.Tasks.{
  WorkOnly, same-WorkOnly, commit_survey_job_checkpoint-WorkOnly,
  heartbeat_compute_attempt-WorkOnly, record_compute_attempt_succeeded-WorkOnly,
  record_compute_attempt_stopped-WorkOnly,
}
use scholight.Survey.Ledger.TaskStarts.{
  update_returning-WorkOnly, Reserved, reserve_next_compute_attempt-Reserved,
  claim_exact_survey_draft-WorkOnly, record_compute_launch_failure-WorkOnly,
  mark_compute_attempt_launched-WorkOnly,
}

-- The tables after a claim of a draft, and after a reservation.
abbrev pub claimed_draft : Db → Result Error (Option (ℕ × Db)) → Db
claimed_draft db (ok (some (id, after))) = after
claimed_draft db (ok none) = db
claimed_draft db (err e) = db

abbrev pub reserved_tables : Db → Result Error (Option (Attempt × Db)) → Db
reserved_tables db (ok (some (a, after))) = after
reserved_tables db (ok none) = db
reserved_tables db (err e) = db

pub data WorkCall : Type 0 where
  request : (survey_id user draft_id client : ℕ) → (hash : Text) → (now : ℕ) → WorkCall
  manual : (survey_id user draft_id client : ℕ) → (hash markdown : Text) → (now : ℕ) → WorkCall
  claim_draft : (worker lease global per_user now : ℕ) → WorkCall
  heartbeat_draft : (draft_id worker lease now : ℕ) → WorkCall
  complete : (draft_id worker : ℕ) → (markdown : Text) → (now : ℕ) → WorkCall
  fail : (draft_id worker : ℕ) → (code : Text) → (now : ℕ) → WorkCall
  recover_drafts : (limit now : ℕ) → WorkCall
  reserve : Reservation → WorkCall
  launching : (attempt_id now : ℕ) → WorkCall
  launch_failed : (attempt_id : ℕ) → (reason : Text) → (now : ℕ) → WorkCall
  launched : (attempt_id : ℕ) → (arn : Text) → (now : ℕ) → WorkCall
  claim_exact : (draft_id attempt_id lease now : ℕ) → WorkCall
  commit : (job_id attempt_id : ℕ) → Commit → (now : ℕ) → WorkCall
  heartbeat_attempt : (attempt_id lease now : ℕ) → WorkCall
  diagnosed : (attempt_id : ℕ) → (failure_class : Text) → Details → (now : ℕ) → WorkCall
  exited : (attempt_id : ℕ) → (version code : ℤ) → (now : ℕ) → WorkCall
  stopped : (attempt_id : ℕ) → StopEvent → (now : ℕ) → WorkCall

abbrev pub run_work : WorkCall → Db → Db
run_work (request survey_id user draft_id client hash now) db =
    committed db (request_generated_draft survey_id user draft_id client hash now db)
run_work (manual survey_id user draft_id client hash markdown now) db =
    committed db (create_manual_draft survey_id user draft_id client hash markdown now db)
run_work (claim_draft worker lease global per_user now) db =
    claimed_draft db (claim_survey_draft worker lease global per_user now db)
run_work (heartbeat_draft draft_id worker lease now) db =
    (heartbeat_survey_draft draft_id worker lease now db).1
run_work (complete draft_id worker markdown now) db =
    committed db (complete_survey_draft draft_id worker markdown now db)
run_work (fail draft_id worker code now) db =
    committed db (fail_survey_draft draft_id worker code now db)
run_work (recover_drafts limit now) db = committed db (recover_expired_survey_drafts limit now db)
run_work (reserve r) db = reserved_tables db (reserve_next_compute_attempt r db)
run_work (launching attempt_id now) db = (mark_compute_attempt_launching attempt_id now db).1
run_work (launch_failed attempt_id reason now) db =
    committed db (record_compute_launch_failure attempt_id reason now db)
run_work (launched attempt_id arn now) db =
    committed db (mark_compute_attempt_launched attempt_id arn now db)
run_work (claim_exact draft_id attempt_id lease now) db =
    committed db (claim_exact_survey_draft draft_id attempt_id lease now db)
run_work (commit job_id attempt_id c now) db =
    committed db (commit_survey_job_checkpoint job_id attempt_id c now db)
run_work (heartbeat_attempt attempt_id lease now) db =
    (heartbeat_compute_attempt attempt_id lease now db).1
run_work (diagnosed attempt_id failure_class details now) db =
    (record_compute_attempt_diagnostics attempt_id failure_class details now db).1
run_work (exited attempt_id version code now) db =
    committed db (record_compute_attempt_succeeded attempt_id version code now db)
run_work (stopped attempt_id e now) db =
    committed db (record_compute_attempt_stopped attempt_id e now db)

DraftsOnly-WorkOnly : (db after : Db) → DraftsOnly db after → WorkOnly db after
DraftsOnly-WorkOnly db after d = record {
  overrides = d.overrides;
  usages = d.usages;
  surveys = d.surveys;
  jobs = subst (NoMore db.jobs) (sym d.jobs) (same-NoMore db.jobs);
}

committed-WorkOnly :
    {A : Type 0} (db : Db) (r : Result Error (A × Db))
    → Ensures (λ p. WorkOnly db p.1) r
    → WorkOnly db (committed db r)
committed-WorkOnly db (ok (a, after)) h = h
committed-WorkOnly db (err e) h = same-WorkOnly db

drafted-WorkOnly :
    {A : Type 0} (db : Db) (r : Result Error (A × Db))
    → WritesDrafts db r
    → WorkOnly db (committed db r)
drafted-WorkOnly db (ok (a, after)) h = DraftsOnly-WorkOnly db after h
drafted-WorkOnly db (err e) h = same-WorkOnly db

claimed_draft-WorkOnly :
    (db : Db) (r : Result Error (Option (ℕ × Db)))
    → Ensures (Claimed db) r
    → WorkOnly db (claimed_draft db r)
claimed_draft-WorkOnly db (ok (some (id, after))) h = DraftsOnly-WorkOnly db after h
claimed_draft-WorkOnly db (ok none) h = same-WorkOnly db
claimed_draft-WorkOnly db (err e) h = same-WorkOnly db

Reserved-WorkOnly :
    (db : Db) (r : Result Error (Option (Attempt × Db)))
    → Ensures (Reserved db) r
    → WorkOnly db (reserved_tables db r)
Reserved-WorkOnly db (ok (some (a, after))) h = h
Reserved-WorkOnly db (ok none) h = same-WorkOnly db
Reserved-WorkOnly db (err e) h = same-WorkOnly db

pub run_work-WorkOnly : (w : WorkCall) (db : Db) → WorkOnly db (run_work w db)
unfolding mark_compute_attempt_launching record_compute_attempt_diagnostics
run_work-WorkOnly (request survey_id user draft_id client hash now) db =
    drafted-WorkOnly db _
      (request_generated_draft-WritesDrafts survey_id user draft_id client hash now db)
run_work-WorkOnly (manual survey_id user draft_id client hash markdown now) db =
    drafted-WorkOnly db _
      (create_manual_draft-WritesDrafts survey_id user draft_id client hash markdown now db)
run_work-WorkOnly (claim_draft worker lease global per_user now) db =
    claimed_draft-WorkOnly db _ (claim_survey_draft-Claimed worker lease global per_user now db)
run_work-WorkOnly (heartbeat_draft draft_id worker lease now) db =
    DraftsOnly-WorkOnly db _ (heartbeat_survey_draft-DraftsOnly draft_id worker lease now db)
run_work-WorkOnly (complete draft_id worker markdown now) db =
    drafted-WorkOnly db _ (complete_survey_draft-WritesDrafts draft_id worker markdown now db)
run_work-WorkOnly (fail draft_id worker code now) db =
    drafted-WorkOnly db _ (fail_survey_draft-WritesDrafts draft_id worker code now db)
run_work-WorkOnly (recover_drafts limit now) db =
    drafted-WorkOnly db _ (recover_expired_survey_drafts-WritesDrafts limit now db)
run_work-WorkOnly (reserve r) db =
    Reserved-WorkOnly db _ (reserve_next_compute_attempt-Reserved r db)
run_work-WorkOnly (launching attempt_id now) db = update_returning-WorkOnly _ _ db
run_work-WorkOnly (launch_failed attempt_id reason now) db =
    committed-WorkOnly db _ (record_compute_launch_failure-WorkOnly attempt_id reason now db)
run_work-WorkOnly (launched attempt_id arn now) db =
    committed-WorkOnly db _ (mark_compute_attempt_launched-WorkOnly attempt_id arn now db)
run_work-WorkOnly (claim_exact draft_id attempt_id lease now) db =
    committed-WorkOnly db _ (claim_exact_survey_draft-WorkOnly draft_id attempt_id lease now db)
run_work-WorkOnly (commit job_id attempt_id c now) db =
    committed-WorkOnly db _ (commit_survey_job_checkpoint-WorkOnly job_id attempt_id c now db)
run_work-WorkOnly (heartbeat_attempt attempt_id lease now) db =
    heartbeat_compute_attempt-WorkOnly attempt_id lease now db
run_work-WorkOnly (diagnosed attempt_id failure_class details now) db =
    update_returning-WorkOnly _ _ db
run_work-WorkOnly (exited attempt_id version code now) db =
    committed-WorkOnly db _
      (record_compute_attempt_succeeded-WorkOnly attempt_id version code now db)
run_work-WorkOnly (stopped attempt_id e now) db =
    committed-WorkOnly db _ (record_compute_attempt_stopped-WorkOnly attempt_id e now db)
