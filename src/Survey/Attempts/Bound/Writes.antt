-- ===== src/Survey/Attempts/Bound/Writes.antt =====
-- Every write to an attempt wears it out.
use mathlib.Core.Path.{subst}
use scholight.Prelude.{
  ℕ, ◌≡◌, refl, sym, ◌∙◌, Bool, true, false, ◌&&◌, ◌||◌, some, List, ◌==◌, if◌then◌else◌, arith,
  Option-cases, inl, inr,
}
use scholight.Prelude.Int.{ℤ}
use scholight.Prelude.Text.{Text}
use scholight.Prelude.Result.{Result, Ensures, Ensures-if, Ensures-or_raise, Ensures-require}
use scholight.Prelude.Rows.{find_row, update_row, find_row-holds, All-find_row}
use scholight.Survey.Tables.{
  AttemptStatus, attempt_succeeded, retryable, WorkKind, Attempt, Db, Error, db_error,
}
use scholight.Survey.Attempts.{is_open}
use scholight.Survey.Attempts.Launch.{
  update_returning, mark_compute_attempt_launching, is_due, is_launchable,
  record_compute_launch_failure, defer_launch, mark_compute_attempt_launched, takes_arn, launch_as,
  is_attempt_running, is_launched,
}
use scholight.Survey.Attempts.Checkpoints.{
  commit_survey_job_checkpoint, Commit, commit_attempt, at_checkpoint, runs_as,
}
use scholight.Survey.Attempts.Details.{record_compute_attempt_diagnostics, Details}
use scholight.Survey.Attempts.Stops.{
  record_compute_attempt_succeeded, record_compute_attempt_stopped, StopEvent, give_up, stop_target,
  write_attempt, exit_clean, stop_attempt, is_stale, is_final, target_over,
}
use scholight.Survey.Attempts.Bound.Worn.{Ended, Worn, Bounded, Worn-Bounded}
use scholight.Survey.Attempts.Bound.Wearing.{
  give_up-attempts, stop_target-attempts, stopped-closed, Worn-open_kept, Worn-closed,
}

pub launchable-open :
    (s : AttemptStatus) → (is_launchable s || is_launched s) ≡ true → is_open s ≡ true
launchable-open s h = ground arith

running-open : (s : AttemptStatus) → is_attempt_running s ≡ true → is_open s ≡ true
running-open s h = ground arith

module _ (most : ℕ) where
  abbrev pub KeepsBound : {A : Type 0} → Result Error (A × Db) → Type 0
  KeepsBound r = Ensures (λ p. Bounded most p.1.attempts) r

  -- The row that the check has read is the row that is written.
  pub row-Bounded :
      (attempt_id : ℕ) (f : Attempt → Attempt) (as_rows : List Attempt) {a : Attempt}
      → Bounded most as_rows
      → find_row (λ x. x.id == attempt_id) as_rows ≡ some a
      → (Ended a → Worn a (f a))
      → Bounded most (update_row (λ x. x.id == attempt_id) f as_rows)
  row-Bounded attempt_id f as_rows {a} b found wears =
      Worn-Bounded most (λ x. x.id == attempt_id) f as_rows b
        (λ x again.
          let e : some a ≡ some x = sym found ∙ again in
          let same : a ≡ x = cc in
          subst (λ y. Worn y (f y)) same (wears (All-find_row Ended _ as_rows b.ended found)))

  open-Bounded :
      (p : Attempt → Bool) (f : Attempt → Attempt) (as_rows : List Attempt)
      → Bounded most as_rows
      → ((x : Attempt) → p x ≡ true → is_open x.status ≡ true)
      → ((x : Attempt)
          → ((f x).draft_id ≡ x.draft_id)
            × ((f x).job_id ≡ x.job_id)
            × ((f x).ecs_event_version ≡ x.ecs_event_version))
      → Bounded most (update_row p f as_rows)
  open-Bounded p f as_rows b on same = Worn-Bounded most p f as_rows b (λ x found.
      Worn-open_kept x (f x) (All-find_row Ended p as_rows b.ended found)
        (on x (find_row-holds p as_rows found)) (same x).0 (same x).1 (same x).2)

  pub mark_compute_attempt_launching-Bounded :
      (attempt_id now : ℕ) (db : Db)
      → Bounded most db.attempts
      → Bounded most (mark_compute_attempt_launching attempt_id now db).1.attempts
  unfolding mark_compute_attempt_launching update_returning
  mark_compute_attempt_launching-Bounded attempt_id now db b =
      elim (Option-cases (find_row (λ a. a.id == attempt_id && is_due now a) db.attempts)) [
        | inl missing ↦ rw (update_returning, missing) b
        | inr (x, found) ↦
            rw (update_returning, found)
              (open-Bounded _ _ db.attempts b
                (λ y hit.
                  let h : is_launchable y.status ≡ true = ground arith in
                  launchable-open y.status (rw h refl))
                (λ y. (refl, refl, refl)))
      ]

  pub record_compute_attempt_diagnostics-Bounded :
      (attempt_id : ℕ) (failure_class : Text) (details : Details) (now : ℕ) (db : Db)
      → Bounded most db.attempts
      → Bounded most
          (record_compute_attempt_diagnostics attempt_id failure_class details now db).1.attempts
  unfolding record_compute_attempt_diagnostics update_returning
  record_compute_attempt_diagnostics-Bounded attempt_id failure_class details now db b =
      elim (Option-cases (find_row (runs_as attempt_id) db.attempts)) [
        | inl missing ↦ rw (update_returning, missing) b
        | inr (x, found) ↦
            rw (update_returning, found)
              (open-Bounded (runs_as attempt_id) _ db.attempts b
                (λ y hit.
                  let h : is_attempt_running y.status ≡ true = ground arith in
                  running-open y.status h)
                (λ y. (refl, refl, refl)))
      ]

  pub record_compute_launch_failure-KeepsBound :
      (attempt_id : ℕ) (reason : Text) (now : ℕ) (db : Db)
      → Bounded most db.attempts
      → KeepsBound (record_compute_launch_failure attempt_id reason now db)
  unfolding record_compute_launch_failure
  record_compute_launch_failure-KeepsBound attempt_id reason now db b =
      let P : Attempt × Db → Type 0 = λ p. Bounded most p.1.attempts in
      Ensures-or_raise P (find_row (λ a. a.id == attempt_id) db.attempts) db_error _
        (λ current found. Ensures-require P (is_launchable current.status) _ _ (λ may.
          row-Bounded attempt_id (defer_launch reason now) db.attempts b found (λ was.
            Worn-open_kept current (defer_launch reason now current) was
              (launchable-open current.status (rw may refl)) refl refl refl)))

  pub mark_compute_attempt_launched-KeepsBound :
      (attempt_id : ℕ) (arn : Text) (now : ℕ) (db : Db)
      → Bounded most db.attempts
      → KeepsBound (mark_compute_attempt_launched attempt_id arn now db)
  unfolding mark_compute_attempt_launched
  mark_compute_attempt_launched-KeepsBound attempt_id arn now db b =
      let P : Attempt × Db → Type 0 = λ p. Bounded most p.1.attempts in
      Ensures-or_raise P (find_row (takes_arn attempt_id arn) db.attempts) db_error _
        (λ current found. Ensures-require P _ _ _ (λ alone.
          open-Bounded (takes_arn attempt_id arn) (launch_as arn now) db.attempts b
            (λ y hit. launchable-open y.status (ground arith)) (λ y. (refl, refl, refl))))

  pub record_compute_attempt_succeeded-KeepsBound :
      (attempt_id : ℕ) (version code : ℤ) (now : ℕ) (db : Db)
      → Bounded most db.attempts
      → KeepsBound (record_compute_attempt_succeeded attempt_id version code now db)
  unfolding record_compute_attempt_succeeded
  record_compute_attempt_succeeded-KeepsBound attempt_id version code now db b =
      let P : Attempt × Db → Type 0 = λ p. Bounded most p.1.attempts in
      Ensures-or_raise P (find_row (λ a. a.id == attempt_id) db.attempts) db_error _
        (λ current found.
          Ensures-if P (is_stale current.ecs_event_version version) _ _ (λ stale. b)
            (λ newer.
              let over = target_over current.work_kind current db in
              let after = write_attempt attempt_id (exit_clean over version code now) db in
              let kept : Bounded most after.attempts =
                row-Bounded attempt_id (exit_clean over version code now) db.attempts b found
                  (λ was.
                    Worn-closed current (exit_clean over version code now current)
                      (clean-closed over) refl refl refl) in
              given over current.work_kind current after kept))
    where
      clean-closed : (o : Bool) → is_open (if o then attempt_succeeded else retryable) ≡ false
      clean-closed true = refl
      clean-closed false = refl

      given :
          (o : Bool) (kind : WorkKind) (a : Attempt) (d : Db)
          → Bounded most d.attempts
          → Bounded most (if o then d else give_up kind a attempt_id d).attempts
      given true kind a d k = k
      given false kind a d k = rw (give_up-attempts kind a attempt_id d) k

  pub record_compute_attempt_stopped-KeepsBound :
      (attempt_id : ℕ) (e : StopEvent) (now : ℕ) (db : Db)
      → Bounded most db.attempts
      → KeepsBound (record_compute_attempt_stopped attempt_id e now db)
  unfolding record_compute_attempt_stopped
  record_compute_attempt_stopped-KeepsBound attempt_id e now db b =
      let P : Attempt × Db → Type 0 = λ p. Bounded most p.1.attempts in
      Ensures-or_raise P (find_row (λ a. a.id == attempt_id) db.attempts) db_error _
        (λ current found.
          Ensures-if P (is_stale current.ecs_event_version e.version) _ _ (λ stale. b)
            (λ newer.
              let after = write_attempt attempt_id (stop_attempt e now) db in
              let kept : Bounded most after.attempts =
                row-Bounded attempt_id (stop_attempt e now) db.attempts b found (λ was.
                  Worn-closed current (stop_attempt e now current)
                    (stopped-closed e.may_retry current.status) refl refl refl) in
              given (is_final current.status) current.work_kind current after kept))
    where
      given :
          (o : Bool) (kind : WorkKind) (a : Attempt) (d : Db)
          → Bounded most d.attempts
          → Bounded most (if o then d else stop_target kind a attempt_id e.may_retry now d).attempts
      given true kind a d k = k
      given false kind a d k = rw (stop_target-attempts kind a attempt_id e.may_retry now d) k

  pub commit_survey_job_checkpoint-KeepsBound :
      (job_id attempt_id : ℕ) (c : Commit) (now : ℕ) (db : Db)
      → Bounded most db.attempts
      → KeepsBound (commit_survey_job_checkpoint job_id attempt_id c now db)
  unfolding commit_survey_job_checkpoint
  commit_survey_job_checkpoint-KeepsBound job_id attempt_id c now db b =
      let P : Bool × Db → Type 0 = λ p. Bounded most p.1.attempts in
      elim (Option-cases (find_row (at_checkpoint job_id attempt_id c.expected) db.jobs)) [
        | inl missing ↦ rw (commit_survey_job_checkpoint, missing) b
        | inr (j, at) ↦
            rw (commit_survey_job_checkpoint, at)
              (Ensures-or_raise P (find_row (runs_as attempt_id) db.attempts) db_error _ (λ a found.
                open-Bounded (runs_as attempt_id) (commit_attempt c now) db.attempts b
                  (λ y hit.
                    let h : is_attempt_running y.status ≡ true = ground arith in
                    running-open y.status h)
                  (λ y. (refl, refl, refl))))
      ]
