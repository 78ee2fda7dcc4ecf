-- ===== src/Survey/Ledger/Daily.antt =====
-- The daily limit, over all calls of Survey/Ledger/System.
use mathlib.Core.Option
use scholight.Prelude.{ℕ, ◌≤◌, refl, ◌∙◌, Option, none, some, List, [], ◌∷◌, All, arith}
use scholight.Prelude.Result.{Result, ok, err, committed, Ensures}
use scholight.Survey.Tables.{Survey, Db, Error}
use scholight.Survey.Lifecycle.{effective_limit}
use scholight.Survey.Ledger.Claiming.{Claims}
use scholight.Survey.Ledger.Limit.{Frugal, spent, WithinLimit, create_survey-WithinLimit}
use scholight.Survey.Ledger.Frugality.{
  KeepsLimit, same-Frugal, start_survey-Frugal, cancel_survey-Frugal, delete_survey-Frugal,
}
use scholight.Survey.Ledger.FrugalArchive.{
  settle_survey_execution-Frugal, finish_survey_archive-Frugal, defer_survey_archive-Frugal,
  mark_survey_workspace_missing-Frugal, recover_expired_survey_jobs-Frugal,
  heartbeat_survey_job-Frugal, update_survey_job_progress-Frugal, claim_survey_job-Frugal,
}
use scholight.Survey.Ledger.Tasks.{WorkOnly-Frugal}
use scholight.Survey.Ledger.TaskClaims.{claim_exact_survey_job-Frugal}
use scholight.Survey.Ledger.WorkCalls.{run_work-WorkOnly}
use scholight.Survey.Ledger.System.{
  Call, create, start, claim, heartbeat, progress, cancel, delete, settle, finish, defer,
  lose_workspace, recover, claim_exact, work, run, run_all, claimed, empty_tables,
}

-- A request that comes with at most this limit.
abbrev pub LimitedBy : ℕ → Call → Type 0
LimitedBy most (create survey_id draft_id user client hash date limit now) = limit ≤ most
LimitedBy most _ = Unit

committed-Frugal :
    {A : Type 0} (db : Db) (r : Result Error (A × Db))
    → KeepsLimit db r
    → Frugal db (committed db r)
committed-Frugal db (ok (a, after)) kept = kept
committed-Frugal db (err e) kept = same-Frugal db

claimed-Frugal :
    (db : Db) (o : Option (ℕ × Db))
    → Claims (Frugal db) (Option.map (λ r. r.1) o)
    → Frugal db (claimed db o)
claimed-Frugal db none kept = same-Frugal db
claimed-Frugal db (some (id, after)) kept = kept

module _ (overrides : ℕ → Option ℕ) (most : ℕ) where
  Frugal-WithinLimit :
      (db after : Db)
      → WithinLimit overrides most db
      → Frugal db after
      → WithinLimit overrides most after
  Frugal-WithinLimit db after within frugal = record {
    limits = frugal.limits ∙ within.limits;
    spending = λ u d. omega (arith, frugal.spending u d, within.spending u d);
  }

  committed-WithinLimit :
      (db : Db) (r : Result Error (Survey × Db))
      → WithinLimit overrides most db
      → Ensures (λ p. WithinLimit overrides most p.1) r
      → WithinLimit overrides most (committed db r)
  committed-WithinLimit db (ok (a, after)) within kept = kept
  committed-WithinLimit db (err e) within kept = within

  run-WithinLimit :
      (c : Call) (db : Db)
      → LimitedBy most c
      → WithinLimit overrides most db
      → WithinLimit overrides most (run c db)
  run-WithinLimit (create survey_id draft_id user client hash date limit now) db small within =
      committed-WithinLimit db _ within (
        create_survey-WithinLimit survey_id draft_id user client hash date limit now most overrides
          db small within)
  run-WithinLimit (start survey_id user job_id client hash notify now) db small within =
      Frugal-WithinLimit db _ within (
        committed-Frugal db _ (start_survey-Frugal survey_id user job_id client hash notify now db))
  run-WithinLimit (claim worker lease global per_user now) db small within =
      Frugal-WithinLimit db _ within
        (claimed-Frugal db _ (claim_survey_job-Frugal worker lease per_user now db global))
  run-WithinLimit (heartbeat job_id worker lease now) db small within =
      Frugal-WithinLimit db _ within (heartbeat_survey_job-Frugal job_id worker lease now db)
  run-WithinLimit (progress job_id worker stage) db small within =
      Frugal-WithinLimit db _ within (update_survey_job_progress-Frugal job_id worker stage db)
  run-WithinLimit (cancel survey_id user now) db small within =
      Frugal-WithinLimit db _ within
        (committed-Frugal db _ (cancel_survey-Frugal survey_id user now db))
  run-WithinLimit (delete survey_id user now) db small within =
      Frugal-WithinLimit db _ within
        (committed-Frugal db _ (delete_survey-Frugal survey_id user now db))
  run-WithinLimit (settle job_id worker outcome code chargeable now) db small within =
      Frugal-WithinLimit db _ within (
        committed-Frugal db _
          (settle_survey_execution-Frugal job_id worker outcome code chargeable now db))
  run-WithinLimit (finish job_id worker manifest now) db small within =
      Frugal-WithinLimit db _ within
        (committed-Frugal db _ (finish_survey_archive-Frugal job_id worker manifest now db))
  run-WithinLimit (defer job_id worker retry_after code now) db small within =
      Frugal-WithinLimit db _ within
        (committed-Frugal db _ (defer_survey_archive-Frugal job_id worker retry_after code now db))
  run-WithinLimit (lose_workspace job_id worker now) db small within =
      Frugal-WithinLimit db _ within
        (committed-Frugal db _ (mark_survey_workspace_missing-Frugal job_id worker now db))
  run-WithinLimit (recover limit now) db small within =
      Frugal-WithinLimit db _ within
        (committed-Frugal db _ (recover_expired_survey_jobs-Frugal limit now db))
  run-WithinLimit (claim_exact c job_id clock now) db small within =
      Frugal-WithinLimit db _ within
        (committed-Frugal db _ (claim_exact_survey_job-Frugal c job_id clock now db))
  run-WithinLimit (work w) db small within =
      Frugal-WithinLimit db _ within (WorkOnly-Frugal db _ (run_work-WorkOnly w db))

  run_all-WithinLimit :
      (cs : List Call) (db : Db)
      → All (LimitedBy most) cs
      → WithinLimit overrides most db
      → WithinLimit overrides most (run_all cs db)
  run_all-WithinLimit [] db small within = within
  run_all-WithinLimit (c ∷ cs) db small within =
      run_all-WithinLimit cs (run c db) small.1 (run-WithinLimit c db small.0 within)

-- From empty tables, after any calls of `Call`, in whatever order their transactions commit, if every
-- request came with at most a daily limit and no administrator's limit changes: the reservations and
-- the successes of a user on a date are together never more than the limit that an administrator
-- gave the user, or that daily limit. The calls do not include the recovery of an archived contract
-- failure, which adds a success without comparing it with a limit.
pub daily_limit :
    (overrides : ℕ → Option ℕ) (most : ℕ) (cs : List Call)
    → All (LimitedBy most) cs
    → (user date : ℕ)
    → spent user date (run_all cs (empty_tables overrides)).usages
      ≤ effective_limit (overrides user) most
daily_limit overrides most cs small user date =
    let within =
      run_all-WithinLimit overrides most cs (empty_tables overrides) small
        (record { limits = refl; spending = λ u d. omega arith }) in
    within.spending user date
