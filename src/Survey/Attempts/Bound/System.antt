-- ===== src/Survey/Attempts/Bound/System.antt =====
-- Every transaction on compute attempts, as a step of the tables.
use mathlib.Core.Path.{subst}
use scholight.Prelude.{
  ℕ, ◌≡◌, ◌≤◌, sym, Bool, not, ◌&&◌, Option, none, some, List, [], ◌∷◌, if◌then◌else◌, arith,
}
use scholight.Prelude.Int.{ℤ}
use scholight.Prelude.Text.{Text}
use scholight.Prelude.Result.{Result, ok, err, Ensures, committed}
use scholight.Prelude.Rows.{delete_rows}
use scholight.Prelude.Keys.{row_count}
use scholight.Prelude.Queries.{length-rows_where}
use scholight.Survey.Tables.{WorkKind, Attempt, Db, Error, is_null}
use scholight.Survey.Attempts.{for_target, compute_count}
use scholight.Survey.Attempts.Reserve.{Reservation, reserve_next_compute_attempt}
use scholight.Survey.Attempts.Launch.{
  mark_compute_attempt_launching, record_compute_launch_failure, mark_compute_attempt_launched,
}
use scholight.Survey.Attempts.Claims.{claim_exact_survey_draft, claim_exact_survey_job, Claimant}
use scholight.Survey.Attempts.Checkpoints.{
  commit_survey_job_checkpoint, Commit, heartbeat_compute_attempt,
}
use scholight.Survey.Attempts.Details.{record_compute_attempt_diagnostics, Details}
use scholight.Survey.Attempts.Stops.{
  record_compute_attempt_succeeded, record_compute_attempt_stopped, StopEvent,
}
use scholight.Survey.Ledger.WorkCalls.{reserved_tables}
use scholight.Survey.Ledger.System.{empty_tables}
use scholight.Survey.Attempts.Bound.Worn.{open_one, spent_one, Bounded, task_limit, deleted-Bounded}
use scholight.Survey.Attempts.Bound.Writes.{
  KeepsBound, mark_compute_attempt_launching-Bounded, record_compute_attempt_diagnostics-Bounded,
  record_compute_launch_failure-KeepsBound, mark_compute_attempt_launched-KeepsBound,
  record_compute_attempt_succeeded-KeepsBound, record_compute_attempt_stopped-KeepsBound,
  commit_survey_job_checkpoint-KeepsBound,
}
use scholight.Survey.Attempts.Bound.Beginning.{
  claim_exact_survey_draft-KeepsBound, claim_exact_survey_job-KeepsBound,
  heartbeat_compute_attempt-Bounded,
}
use scholight.Survey.Attempts.Bound.Reserving.{ReservedBound, reserve_next_compute_attempt-Bounded}

-- A transaction; one that raises leaves the tables as they were. All reservations have one limit of
-- compute attempts. `elsewhere` is any transaction that leaves the attempts alone, `dropped` one that
-- deletes some with their survey or job.
pub data Step (most : ℕ) : Db → Db → Type 0 where
  reserve :
      (r : Reservation) (db : Db)
      → r.max_compute ≡ most
      → Step most db (reserved_tables db (reserve_next_compute_attempt r db))
  launching :
      (attempt_id now : ℕ) (db : Db)
      → Step most db (mark_compute_attempt_launching attempt_id now db).1
  launch_failed :
      (attempt_id : ℕ) (reason : Text) (now : ℕ) (db : Db)
      → Step most db (committed db (record_compute_launch_failure attempt_id reason now db))
  launched :
      (attempt_id : ℕ) (arn : Text) (now : ℕ) (db : Db)
      → Step most db (committed db (mark_compute_attempt_launched attempt_id arn now db))
  claim_draft :
      (draft_id attempt_id lease now : ℕ) (db : Db)
      → Step most db (committed db (claim_exact_survey_draft draft_id attempt_id lease now db))
  claim_job :
      (c : Claimant) (job_id clock now : ℕ) (db : Db)
      → Step most db (committed db (claim_exact_survey_job c job_id clock now db))
  commit :
      (job_id attempt_id : ℕ) (c : Commit) (now : ℕ) (db : Db)
      → Step most db (committed db (commit_survey_job_checkpoint job_id attempt_id c now db))
  heartbeat :
      (attempt_id lease now : ℕ) (db : Db)
      → Step most db (heartbeat_compute_attempt attempt_id lease now db).1
  diagnosed :
      (attempt_id : ℕ) (failure_class : Text) (details : Details) (now : ℕ) (db : Db)
      → Step most db (record_compute_attempt_diagnostics attempt_id failure_class details now db).1
  exited :
      (attempt_id : ℕ) (version code : ℤ) (now : ℕ) (db : Db)
      → Step most db
          (committed db (record_compute_attempt_succeeded attempt_id version code now db))
  stopped :
      (attempt_id : ℕ) (e : StopEvent) (now : ℕ) (db : Db)
      → Step most db (committed db (record_compute_attempt_stopped attempt_id e now db))
  elsewhere : (db after : Db) → after.attempts ≡ db.attempts → Step most db after
  dropped :
      (p : Attempt → Bool) (db after : Db)
      → after.attempts ≡ delete_rows p db.attempts
      → Step most db after

pub data Reach (most : ℕ) (first : Db) : Db → Type 0 where
  here : Reach most first first
  next : {db after : Db} → Reach most first db → Step most db after → Reach most first after

module _ (most : ℕ) where
  committed-Bounded :
      {A : Type 0} (db : Db) (r : Result Error (A × Db))
      → Bounded most db.attempts
      → KeepsBound most r
      → Bounded most (committed db r).attempts
  committed-Bounded db (ok (a, after)) b kept = kept
  committed-Bounded db (err e) b kept = b

  reserved-Bounded :
      (db : Db) (r : Result Error (Option (Attempt × Db)))
      → Bounded most db.attempts
      → Ensures (ReservedBound most) r
      → Bounded most (reserved_tables db r).attempts
  reserved-Bounded db (ok (some (a, after))) b kept = kept
  reserved-Bounded db (ok none) b kept = b
  reserved-Bounded db (err e) b kept = b

  Step-Bounded :
      {db after : Db} → Step most db after → Bounded most db.attempts → Bounded most after.attempts
  Step-Bounded (reserve r db same) b = reserved-Bounded db _ b (
      subst (λ m. Ensures (ReservedBound m) (reserve_next_compute_attempt r db)) same
        (reserve_next_compute_attempt-Bounded r db
          (subst (λ m. Bounded m db.attempts) (sym same) b)))
  Step-Bounded (launching attempt_id now db) b =
      mark_compute_attempt_launching-Bounded most attempt_id now db b
  Step-Bounded (launch_failed attempt_id reason now db) b =
      committed-Bounded db _ b
        (record_compute_launch_failure-KeepsBound most attempt_id reason now db b)
  Step-Bounded (launched attempt_id arn now db) b =
      committed-Bounded db _ b
        (mark_compute_attempt_launched-KeepsBound most attempt_id arn now db b)
  Step-Bounded (claim_draft draft_id attempt_id lease now db) b =
      committed-Bounded db _ b
        (claim_exact_survey_draft-KeepsBound most draft_id attempt_id lease now db b)
  Step-Bounded (claim_job c job_id clock now db) b =
      committed-Bounded db _ b (claim_exact_survey_job-KeepsBound most c job_id clock now db b)
  Step-Bounded (commit job_id attempt_id c now db) b =
      committed-Bounded db _ b
        (commit_survey_job_checkpoint-KeepsBound most job_id attempt_id c now db b)
  Step-Bounded (heartbeat attempt_id lease now db) b =
      heartbeat_compute_attempt-Bounded most attempt_id lease now db b
  Step-Bounded (diagnosed attempt_id failure_class details now db) b =
      record_compute_attempt_diagnostics-Bounded most attempt_id failure_class details now db b
  Step-Bounded (exited attempt_id version code now db) b =
      committed-Bounded db _ b
        (record_compute_attempt_succeeded-KeepsBound most attempt_id version code now db b)
  Step-Bounded (stopped attempt_id e now db) b =
      committed-Bounded db _ b
        (record_compute_attempt_stopped-KeepsBound most attempt_id e now db b)
  Step-Bounded (elsewhere db after same) b = subst (Bounded most) (sym same) b
  Step-Bounded (dropped p db after same) b =
      subst (Bounded most) (sym same) (deleted-Bounded most p db.attempts b)

  pub Reach-Bounded :
      {first db : Db} → Bounded most first.attempts → Reach most first db → Bounded most db.attempts
  Reach-Bounded b here = b
  Reach-Bounded b (next r step) = Step-Bounded step (Reach-Bounded b r)

pub empty-Bounded : (most : ℕ) → Bounded most []
empty-Bounded most = record {
  single = λ kind t. omega arith;
  spent = λ kind t. omega arith;
  ended = tt;
}

abbrev count_one : Bool → ℕ
count_one b = if b then 1 else 0

begun-le :
    (kind : WorkKind) (t : ℕ) (as_rows : List Attempt)
    → row_count (λ a. for_target kind t a && not (is_null a.started_at)) as_rows
      ≤ row_count (spent_one kind t) as_rows
begun-le kind t [] = omega arith
begun-le kind t (a ∷ rest) =
    let here : count_one (for_target kind t a && not (is_null a.started_at))
        ≤ count_one (spent_one kind t a) =
      ground arith in
    omega (arith, here, begun-le kind t rest)

-- From empty tables, whatever is reserved with a limit of `most` compute attempts, launched, claimed
-- and stopped, in whatever order and with whatever events: a draft or a job has at most one open
-- attempt, at most `most` tasks ever begin to compute a draft, and at most `most + 8` a job.
pub compute_bounded :
    (most : ℕ) (overrides : ℕ → Option ℕ) {db : Db}
    → Reach most (empty_tables overrides) db
    → (kind : WorkKind) (t : ℕ)
    → (row_count (open_one kind t) db.attempts ≤ 1)
      × (compute_count kind t db ≤ task_limit kind most)
compute_bounded most overrides {db} r kind t =
    let b = Reach-Bounded most (empty-Bounded most) r in
    let count =
      length-rows_where (λ a. for_target kind t a && not (is_null a.started_at)) db.attempts in
    let less = begun-le kind t db.attempts in
    (b.single kind t, omega (arith, count, less, b.spent kind t))
