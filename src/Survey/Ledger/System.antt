-- ===== src/Survey/Ledger/System.antt =====
-- Every transaction of scholight/db/queries_survey.py that is modelled, and every one of
-- scholight/db/queries_survey_drafts.py and scholight/db/queries_survey_attempts.py, as a step of the
-- tables.
use mathlib.Core.Option
use scholight.Prelude.{ℕ, ◌≡◌, ◌≤◌, refl, Bool, Option, none, some, List, [], ◌∷◌, All, arith}
use scholight.Prelude.Text.{Text}
use scholight.Prelude.Result.{Result, ok, err, committed}
use scholight.Survey.Tables.{Db, Error, SurveyOutcome}
use scholight.Survey.Lifecycle.{create_survey}
use scholight.Survey.Start.{start_survey}
use scholight.Survey.Cancel.{cancel_survey, delete_survey}
use scholight.Survey.Settle.{
  settle_survey_execution, finish_survey_archive, defer_survey_archive,
  mark_survey_workspace_missing,
}
use scholight.Survey.Leases.{heartbeat_survey_job, update_survey_job_progress}
use scholight.Survey.Recover.{recover_expired_survey_jobs}
use scholight.Survey.Claim.{claim_survey_job}
use scholight.Survey.Ledger.{counted_in, reservations}
use scholight.Survey.Ledger.Paired.{running_jobs, runs_in}
use scholight.Survey.Ledger.Ending.{
  Agrees, Balanced, KeepsLedger, create_survey-KeepsLedger, start_survey-KeepsLedger,
}
use scholight.Survey.Ledger.Cancelling.{cancel_survey-KeepsLedger}
use scholight.Survey.Ledger.Deleting.{delete_survey-KeepsLedger}
use scholight.Survey.Ledger.Archiving.{
  settle_survey_execution-KeepsLedger, finish_survey_archive-KeepsLedger,
}
use scholight.Survey.Ledger.Recovering.{
  defer_survey_archive-KeepsLedger, mark_survey_workspace_missing-KeepsLedger,
  recover_expired_survey_jobs-KeepsLedger,
}
use scholight.Survey.Ledger.Claiming.{Claims, claim_survey_job-Balanced}
use scholight.Survey.Ledger.Leasing.{
  heartbeat_survey_job-Balanced, update_survey_job_progress-Balanced,
}
use scholight.Survey.Attempts.Claims.{Claimant, claim_exact_survey_job}
use scholight.Survey.Ledger.Tasks.{WorkOnly-Balanced}
use scholight.Survey.Ledger.TaskClaims.{claim_exact_survey_job-KeepsLedger}
use scholight.Survey.Ledger.WorkCalls.{WorkCall, run_work, run_work-WorkOnly}

-- The tables after a claim, which may find no job.
abbrev pub claimed : Db → Option (ℕ × Db) → Db
claimed db none = db
claimed db (some (id, after)) = after

-- A call, with the identifiers that it draws and the time of its transaction. Three writes of the
-- quota's tables are not among the calls: `recover_archived_survey_contract_failure`,
-- `repair_degraded_survey_evidence`, and an administrator's change of a limit.
pub data Call : Type 0 where
  create : (survey_id draft_id user client : ℕ) → (hash : Text) → (date limit now : ℕ) → Call
  start : (survey_id user job_id client : ℕ) → (hash : Text) → (notify : Bool) → (now : ℕ) → Call
  claim : (worker lease global per_user now : ℕ) → Call
  heartbeat : (job_id worker lease now : ℕ) → Call
  progress : (job_id worker : ℕ) → (stage : Text) → Call
  cancel delete : (survey_id user now : ℕ) → Call
  settle :
      (job_id worker : ℕ)
      → SurveyOutcome
      → (code : Option Text) → (chargeable : Bool) → (now : ℕ) → Call
  finish : (job_id worker : ℕ) → (manifest : Text) → (now : ℕ) → Call
  defer : (job_id worker retry_after : ℕ) → (code : Text) → (now : ℕ) → Call
  lose_workspace : (job_id worker now : ℕ) → Call
  recover : (limit now : ℕ) → Call
  claim_exact : Claimant → (job_id clock now : ℕ) → Call
  work : WorkCall → Call

-- The tables after a call; one that raises leaves them as they were.
abbrev pub run : Call → Db → Db
run (create survey_id draft_id user client hash date limit now) db =
    committed db (create_survey survey_id draft_id user client hash date limit now db)
run (start survey_id user job_id client hash notify now) db =
    committed db (start_survey survey_id user job_id client hash notify now db)
run (claim worker lease global per_user now) db =
    claimed db (claim_survey_job worker lease global per_user now db)
run (heartbeat job_id worker lease now) db = (heartbeat_survey_job job_id worker lease now db).1
run (progress job_id worker stage) db = (update_survey_job_progress job_id worker stage db).1
run (cancel survey_id user now) db = committed db (cancel_survey survey_id user now db)
run (delete survey_id user now) db = committed db (delete_survey survey_id user now db)
run (settle job_id worker outcome code chargeable now) db =
    committed db (settle_survey_execution job_id worker outcome code chargeable now db)
run (finish job_id worker manifest now) db =
    committed db (finish_survey_archive job_id worker manifest now db)
run (defer job_id worker retry_after code now) db =
    committed db (defer_survey_archive job_id worker retry_after code now db)
run (lose_workspace job_id worker now) db =
    committed db (mark_survey_workspace_missing job_id worker now db)
run (recover limit now) db = committed db (recover_expired_survey_jobs limit now db)
run (claim_exact c job_id clock now) db =
    committed db (claim_exact_survey_job c job_id clock now db)
run (work w) db = run_work w db

-- The calls of all processes in the order in which their transactions commit.
abbrev pub run_all : List Call → Db → Db
run_all [] db = db
run_all (c ∷ cs) db = run_all cs (run c db)

committed-Balanced :
    {A : Type 0} (db : Db) (r : Result Error (A × Db))
    → Balanced db
    → KeepsLedger r
    → Balanced (committed db r)
committed-Balanced db (ok (a, after)) b kept = kept
committed-Balanced db (err e) b kept = b

claimed-Balanced :
    (db : Db) (o : Option (ℕ × Db))
    → Balanced db
    → Claims Balanced (Option.map (λ r. r.1) o)
    → Balanced (claimed db o)
claimed-Balanced db none b kept = b
claimed-Balanced db (some (id, after)) b kept = kept

run-Balanced : (c : Call) (db : Db) → Balanced db → Balanced (run c db)
run-Balanced (create survey_id draft_id user client hash date limit now) db b =
    committed-Balanced db _ b
      (create_survey-KeepsLedger survey_id draft_id user client hash date limit now db b)
run-Balanced (start survey_id user job_id client hash notify now) db b =
    committed-Balanced db _ b
      (start_survey-KeepsLedger survey_id user job_id client hash notify now db b)
run-Balanced (claim worker lease global per_user now) db b =
    claimed-Balanced db _ b (claim_survey_job-Balanced worker lease global per_user now db b)
run-Balanced (heartbeat job_id worker lease now) db b =
    heartbeat_survey_job-Balanced job_id worker lease now db b
run-Balanced (progress job_id worker stage) db b =
    update_survey_job_progress-Balanced job_id worker stage db b
run-Balanced (cancel survey_id user now) db b =
    committed-Balanced db _ b (cancel_survey-KeepsLedger survey_id user now db b)
run-Balanced (delete survey_id user now) db b =
    committed-Balanced db _ b (delete_survey-KeepsLedger survey_id user now db b)
run-Balanced (settle job_id worker outcome code chargeable now) db b =
    committed-Balanced db _ b
      (settle_survey_execution-KeepsLedger job_id worker outcome code chargeable now db b)
run-Balanced (finish job_id worker manifest now) db b =
    committed-Balanced db _ b (finish_survey_archive-KeepsLedger job_id worker manifest now db b)
run-Balanced (defer job_id worker retry_after code now) db b =
    committed-Balanced db _ b
      (defer_survey_archive-KeepsLedger job_id worker retry_after code now db b)
run-Balanced (lose_workspace job_id worker now) db b =
    committed-Balanced db _ b (mark_survey_workspace_missing-KeepsLedger job_id worker now db b)
run-Balanced (recover limit now) db b =
    committed-Balanced db _ b (recover_expired_survey_jobs-KeepsLedger limit now db b)
run-Balanced (claim_exact c job_id clock now) db b =
    committed-Balanced db _ b (claim_exact_survey_job-KeepsLedger c job_id clock now db b)
run-Balanced (work w) db b = WorkOnly-Balanced db _ (run_work-WorkOnly w db) b

-- The tables before the first request, whatever limits the administrators set.
abbrev pub empty_tables : (ℕ → Option ℕ) → Db
empty_tables overrides = record {
  overrides = overrides;
  usages = [];
  surveys = [];
  jobs = [];
  drafts = [];
  attempts = [];
  notifications = [];
}

pub run_all-Balanced : (cs : List Call) (db : Db) → Balanced db → Balanced (run_all cs db)
run_all-Balanced [] db b = b
run_all-Balanced (c ∷ cs) db b = run_all-Balanced cs (run c db) (run-Balanced c db b)

pub empty-Balanced : (overrides : ℕ → Option ℕ) → Balanced (empty_tables overrides)
empty-Balanced overrides = record {
  balance = λ u d. refl;
  agreed = tt;
  paired = record { keyed = λ i. omega arith; running = λ k. omega arith };
}

-- From empty tables, after any calls of `Call`, in whatever order their transactions commit: each usage
-- row counts exactly the surveys of its user and date that hold a reservation, a survey holds one
-- exactly until it is archived or ends, and of every survey at most one job runs, and then the
-- survey runs.
pub quota_ledger :
    (overrides : ℕ → Option ℕ) (cs : List Call)
    → let db = run_all cs (empty_tables overrides) in
      ((user date : ℕ) → counted_in user date db.usages ≡ reservations user date db.surveys)
      × All Agrees db.surveys
      × ((k : ℕ) → running_jobs k db.jobs ≤ runs_in k db.surveys)
quota_ledger overrides cs =
    let b = run_all-Balanced cs (empty_tables overrides) (empty-Balanced overrides) in
    (b.balance, b.agreed, b.paired.running)
