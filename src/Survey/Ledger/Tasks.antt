-- ===== src/Survey/Ledger/Tasks.antt =====
-- The transactions on the tasks that compute, scholight/db/queries_survey_attempts.py, keep the ledger of
-- the daily quota: but for the claim of a job they leave the surveys and the usage rows alone.
use scholight.Prelude.{ℕ, ◌≡◌, refl, Bool, none, some, List, ◌==◌, arith, Option-cases, inl, inr}
use scholight.Prelude.Int.{ℤ}
use scholight.Prelude.Result.{Ensures, Ensures-or_raise, Ensures-if, if_either}
use scholight.Prelude.Rows.{find_row, update_row}
use scholight.Survey.Tables.{WorkKind, draft_work, full_work, Job, Attempt, Db, db_error}
use scholight.Survey.Leases.{beat}
use scholight.Survey.Attempts.Checkpoints.{
  at_checkpoint, Commit, commit_job, runs_as, commit_survey_job_checkpoint, holds_draft_of,
  holds_job_of, beat_target, heartbeat_compute_attempt,
}
use scholight.Survey.Attempts.Stops.{
  is_stale, target_over, exit_clean, leases_job, give_up, write_attempt,
  record_compute_attempt_succeeded, StopEvent, is_final, stop_attempt, stop_target,
  record_compute_attempt_stopped,
}
use scholight.Survey.Ledger.Paired.{runs_job, NoMore, same-NoMore, update-NoMore, less-Paired}
use scholight.Survey.Ledger.Ending.{Balanced}
use scholight.Survey.Ledger.Limit.{Frugal}
use scholight.Survey.Ledger.Frugality.{unspent}

-- What a transaction on a task writes: attempts, drafts, and jobs of which no more run.
pub record WorkOnly (db after : Db) : Type 0 where
  pub overrides : after.overrides ≡ db.overrides
  pub usages : after.usages ≡ db.usages
  pub surveys : after.surveys ≡ db.surveys
  pub jobs : NoMore db.jobs after.jobs

pub WorkOnly-Balanced : (db after : Db) → WorkOnly db after → Balanced db → Balanced after
WorkOnly-Balanced db after w b = record {
  balance = rw (w.usages, w.surveys) b.balance;
  agreed = rw w.surveys b.agreed;
  paired = rw w.surveys (less-Paired db.jobs after.jobs db.surveys b.paired w.jobs);
}

pub WorkOnly-Frugal : (db after : Db) → WorkOnly db after → Frugal db after
WorkOnly-Frugal db after w = unspent db after w.overrides w.usages

pub same-WorkOnly : (db : Db) → WorkOnly db db
same-WorkOnly db = record {
  overrides = refl;
  usages = refl;
  surveys = refl;
  jobs = same-NoMore db.jobs;
}

-- A write to the lease of a job.
leased-NoMore :
    (p : Job → Bool) (f : Job → Job) (js : List Job)
    → ((j : Job) → ((f j).id ≡ j.id) × ((f j).survey_id ≡ j.survey_id) × ((f j).status ≡ j.status))
    → NoMore js (update_row p f js)
leased-NoMore p f js keeps = update-NoMore p f js (λ j. (
  (keeps j).0,
  λ k.
      let same : runs_job k (f j) ≡ runs_job k j = rw ((keeps j).1, (keeps j).2) refl in
      omega (arith, same),
))

pub commit_survey_job_checkpoint-WorkOnly :
    (job_id attempt_id : ℕ) (c : Commit) (now : ℕ) (db : Db)
    → Ensures (λ p. WorkOnly db p.1) (commit_survey_job_checkpoint job_id attempt_id c now db)
unfolding commit_survey_job_checkpoint
commit_survey_job_checkpoint-WorkOnly job_id attempt_id c now db =
    elim (Option-cases (find_row (at_checkpoint job_id attempt_id c.expected) db.jobs)) [
      | inl missing ↦ rw (commit_survey_job_checkpoint, missing) (same-WorkOnly db)
      | inr (j, found) ↦
          rw (commit_survey_job_checkpoint, found)
            (Ensures-or_raise (λ (p : Bool × Db). WorkOnly db p.1)
              (find_row (runs_as attempt_id) db.attempts) db_error _
              (λ a runs. record {
                overrides = refl;
                usages = refl;
                surveys = refl;
                jobs =
                    leased-NoMore (at_checkpoint job_id attempt_id c.expected) (commit_job c now)
                      db.jobs (λ i. (refl, refl, refl));
              }))
    ]

beat_target-WorkOnly :
    (kind : WorkKind) (a : Attempt) (attempt_id lease now : ℕ) (db : Db)
    → WorkOnly db (beat_target kind a attempt_id lease now db).1
unfolding beat_target
beat_target-WorkOnly draft_work a attempt_id lease now db =
    elim (Option-cases (find_row (holds_draft_of a attempt_id) db.drafts)) [
      | inl missing ↦ rw (beat_target, missing) (same-WorkOnly db)
      | inr (d, found) ↦
          rw (beat_target, found)
            (record { overrides = refl; usages = refl; surveys = refl; jobs = same-NoMore db.jobs })
    ]
beat_target-WorkOnly full_work a attempt_id lease now db =
    elim (Option-cases (find_row (holds_job_of a attempt_id) db.jobs)) [
      | inl missing ↦ rw (beat_target, missing) (same-WorkOnly db)
      | inr (j, found) ↦
          rw (beat_target, found)
            (record {
              overrides = refl;
              usages = refl;
              surveys = refl;
              jobs =
                  leased-NoMore (holds_job_of a attempt_id) (beat lease now) db.jobs
                    (λ i. (refl, refl, refl));
            })
    ]

pub heartbeat_compute_attempt-WorkOnly :
    (attempt_id lease now : ℕ) (db : Db)
    → WorkOnly db (heartbeat_compute_attempt attempt_id lease now db).1
unfolding heartbeat_compute_attempt
heartbeat_compute_attempt-WorkOnly attempt_id lease now db =
    elim (Option-cases (find_row (runs_as attempt_id) db.attempts)) [
      | inl missing ↦ rw (heartbeat_compute_attempt, missing) (same-WorkOnly db)
      | inr (a, found) ↦
          rw (heartbeat_compute_attempt, found)
            (beat_target-WorkOnly a.work_kind a attempt_id lease now db)
    ]

written-WorkOnly :
    (attempt_id : ℕ) (f : Attempt → Attempt) (db : Db) → WorkOnly db (write_attempt attempt_id f db)
written-WorkOnly attempt_id f db = record {
  overrides = refl;
  usages = refl;
  surveys = refl;
  jobs = same-NoMore db.jobs;
}

give_up-WorkOnly :
    (kind : WorkKind) (a : Attempt) (attempt_id : ℕ) (f : Attempt → Attempt) (db : Db)
    → WorkOnly db (give_up kind a attempt_id (write_attempt attempt_id f db))
unfolding give_up
give_up-WorkOnly draft_work a attempt_id f db = record {
  overrides = refl;
  usages = refl;
  surveys = refl;
  jobs = same-NoMore db.jobs;
}
give_up-WorkOnly full_work a attempt_id f db = record {
  overrides = refl;
  usages = refl;
  surveys = refl;
  jobs =
      leased-NoMore (leases_job a attempt_id)
        (λ j. record j { lease_owner = none; lease_expires_at = none }) db.jobs
        (λ i. (refl, refl, refl));
}

stop_target-WorkOnly :
    (kind : WorkKind) (a : Attempt) (attempt_id : ℕ) (f : Attempt → Attempt) (may_retry : Bool)
    (now : ℕ) (db : Db)
    → WorkOnly db (stop_target kind a attempt_id may_retry now (write_attempt attempt_id f db))
unfolding stop_target
stop_target-WorkOnly draft_work a attempt_id f may_retry now db = record {
  overrides = refl;
  usages = refl;
  surveys = refl;
  jobs = same-NoMore db.jobs;
}
stop_target-WorkOnly full_work a attempt_id f may_retry now db = record {
  overrides = refl;
  usages = refl;
  surveys = refl;
  jobs =
      leased-NoMore (holds_job_of a attempt_id)
        (λ j. record j { lease_owner = none; lease_expires_at = none; heartbeat_at = some now })
        db.jobs (λ i. (refl, refl, refl));
}

pub record_compute_attempt_succeeded-WorkOnly :
    (attempt_id : ℕ) (version code : ℤ) (now : ℕ) (db : Db)
    → Ensures
        (λ p. WorkOnly db p.1)
        (record_compute_attempt_succeeded attempt_id version code now db)
unfolding record_compute_attempt_succeeded
record_compute_attempt_succeeded-WorkOnly attempt_id version code now db =
    let P : Attempt × Db → Type 0 = λ p. WorkOnly db p.1 in
    Ensures-or_raise P (find_row (λ a. a.id == attempt_id) db.attempts) db_error _ (λ current found.
      Ensures-if P (is_stale current.ecs_event_version version) _ _ (λ stale. same-WorkOnly db)
        (λ newer.
          let over = target_over current.work_kind current db in
          if_either (WorkOnly db) over _ _
            (written-WorkOnly attempt_id (exit_clean over version code now) db)
            (give_up-WorkOnly current.work_kind current attempt_id
              (exit_clean over version code now) db)))

pub record_compute_attempt_stopped-WorkOnly :
    (attempt_id : ℕ) (e : StopEvent) (now : ℕ) (db : Db)
    → Ensures (λ p. WorkOnly db p.1) (record_compute_attempt_stopped attempt_id e now db)
unfolding record_compute_attempt_stopped
record_compute_attempt_stopped-WorkOnly attempt_id e now db =
    let P : Attempt × Db → Type 0 = λ p. WorkOnly db p.1 in
    Ensures-or_raise P (find_row (λ a. a.id == attempt_id) db.attempts) db_error _ (λ current found.
      Ensures-if P (is_stale current.ecs_event_version e.version) _ _ (λ stale. same-WorkOnly db)
        (λ newer.
          if_either (WorkOnly db) (is_final current.status) _ _
            (written-WorkOnly attempt_id (stop_attempt e now) db)
            (stop_target-WorkOnly current.work_kind current attempt_id (stop_attempt e now)
              e.may_retry now db)))
