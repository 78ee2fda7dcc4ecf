-- ===== src/Survey/Attempts/Bound/Beginning.antt =====
-- Claims and heartbeats wear an attempt out.
use scholight.Prelude.{
  ℕ, ◌≡◌, refl, true, not, ◌&&◌, ◌||◌, Option, none, some, List, ◌==◌, arith, Bool-cases,
  Option-cases, inl, inr,
}
use scholight.Prelude.Result.{Ensures-if, Ensures-bind}
use scholight.Prelude.Rows.{find_row, All-find_row}
use scholight.Survey.Tables.{
  WorkKind, draft_work, full_work, Attempt, Job, Draft, Db, Locked, lock_survey_aggregate,
}
use scholight.Survey.Lifecycle.{is_drafting, is_queued, is_job_queued}
use scholight.Survey.Drafts.Claim.{is_draft_queued}
use scholight.Survey.Attempts.Claims.{
  claim_exact_survey_draft, claim_locked_draft, claim_exact_survey_job, claim_locked_job,
  claim_rows, Claimant, may_claim, begin_attempt, is_claimable, is_open_job,
}
use scholight.Survey.Attempts.Checkpoints.{
  heartbeat_compute_attempt, beat_target, holds_draft_of, holds_job_of, runs_as, seen,
}
use scholight.Survey.Attempts.Bound.Worn.{Ended, Bounded, Worn-Bounded}
use scholight.Survey.Attempts.Bound.Writes.{KeepsBound, row-Bounded, launchable-open}
use scholight.Survey.Attempts.Bound.Wearing.{Worn-open_kept, Worn-aside}

module _ (most : ℕ) where
  claim_locked_draft-Bounded :
      (draft_id attempt_id lease now : ℕ) (found : Option Locked) (db : Db) {a : Attempt}
      → Bounded most db.attempts
      → find_row (λ x. x.id == attempt_id) db.attempts ≡ some a
      → may_claim draft_work a.draft_id draft_id a ≡ true
      → Bounded most (claim_locked_draft draft_id attempt_id lease now found db).1.attempts
  unfolding claim_locked_draft
  claim_locked_draft-Bounded draft_id attempt_id lease now none db b row may = b
  claim_locked_draft-Bounded draft_id attempt_id lease now (some l) db {a} b row may =
      elim (Option-cases (find_row (λ d. d.id == draft_id) l.drafts)) [
        | inl gone ↦ rw (claim_locked_draft, gone) b
        | inr (d, at) ↦
            rw (claim_locked_draft, at)
              (elim (Bool-cases (is_drafting l.survey.status && is_draft_queued d.status)) [
                | inr busy ↦ rw busy b
                | inl free ↦ rw free (
                    row-Bounded most attempt_id (begin_attempt now) db.attempts b row (λ was.
                      Worn-open_kept a (begin_attempt now a) was
                        (launchable-open a.status (ground arith)) refl refl refl))
              ])
      ]

  pub claim_exact_survey_draft-KeepsBound :
      (draft_id attempt_id lease now : ℕ) (db : Db)
      → Bounded most db.attempts
      → KeepsBound most (claim_exact_survey_draft draft_id attempt_id lease now db)
  unfolding claim_exact_survey_draft
  claim_exact_survey_draft-KeepsBound draft_id attempt_id lease now db b =
      let P : Option Draft × Db → Type 0 = λ p. Bounded most p.1.attempts in
      elim (Option-cases (find_row (λ a. a.id == attempt_id) db.attempts)) [
        | inl missing ↦ rw (claim_exact_survey_draft, missing) b
        | inr (a, row) ↦
            rw (claim_exact_survey_draft, row)
              (Ensures-if P (may_claim draft_work a.draft_id draft_id a) _ _
                (λ may. Ensures-bind P (lock_survey_aggregate a.survey_id none db) _ (λ found at.
                  claim_locked_draft-Bounded draft_id attempt_id lease now found db b row may))
                (λ no_claim. b))
      ]

  claim_rows-Bounded :
      (c : Claimant) (job_id : ℕ) (job : Job) (now : ℕ) (db : Db) {a : Attempt}
      → Bounded most db.attempts
      → find_row (λ x. x.id == c.attempt_id) db.attempts ≡ some a
      → may_claim full_work a.job_id job_id a ≡ true
      → Bounded most (claim_rows c job_id job now db).1.attempts
  unfolding claim_rows
  claim_rows-Bounded c job_id job now db {a} b row may =
      elim (Option-cases (find_row (is_claimable job_id) db.jobs)) [
        | inl gone ↦ rw (claim_rows, gone) b
        | inr (j, at) ↦
            rw (claim_rows, at)
              (row-Bounded most c.attempt_id
                (λ x. record (begin_attempt now x) {
                  checkpoint_sequence = job.checkpoint_sequence;
                })
                db.attempts b row
                (λ was.
                  Worn-open_kept a
                    (record (begin_attempt now a) { checkpoint_sequence = job.checkpoint_sequence })
                    was (launchable-open a.status (ground arith)) refl refl refl))
      ]

  claim_locked_job-Bounded :
      (c : Claimant) (job_id clock now : ℕ) (found : Option Locked) (db : Db) {a : Attempt}
      → Bounded most db.attempts
      → find_row (λ x. x.id == c.attempt_id) db.attempts ≡ some a
      → may_claim full_work a.job_id job_id a ≡ true
      → Bounded most (claim_locked_job c job_id clock now found db).1.attempts
  unfolding claim_locked_job
  claim_locked_job-Bounded c job_id clock now none db b row may = b
  claim_locked_job-Bounded c job_id clock now (some l) db b row may = elim (Option-cases l.job) [
    | inl gone ↦ rw (claim_locked_job, gone) b
    | inr (job, at) ↦
        rw (claim_locked_job, at)
          (elim (Bool-cases (not (job.id == job_id) || not (is_open_job clock job))) [
            | inl other ↦ rw other b
            | inr mine ↦ rw mine (elim (Bool-cases (is_job_queued job.status)) [
              | inr begun ↦ rw begun (claim_rows-Bounded c job_id job now db b row may)
              | inl waits ↦ rw waits (elim (Bool-cases (is_queued l.survey.status)) [
                | inr closed ↦ rw closed b
                | inl free ↦ rw free (claim_rows-Bounded c job_id job now _ b row may)
              ])
            ])
          ])
  ]

  pub claim_exact_survey_job-KeepsBound :
      (c : Claimant) (job_id clock now : ℕ) (db : Db)
      → Bounded most db.attempts
      → KeepsBound most (claim_exact_survey_job c job_id clock now db)
  unfolding claim_exact_survey_job
  claim_exact_survey_job-KeepsBound c job_id clock now db b =
      let P : Option Job × Db → Type 0 = λ p. Bounded most p.1.attempts in
      elim (Option-cases (find_row (λ a. a.id == c.attempt_id) db.attempts)) [
        | inl missing ↦ rw (claim_exact_survey_job, missing) b
        | inr (a, row) ↦
            rw (claim_exact_survey_job, row)
              (Ensures-if P (may_claim full_work a.job_id job_id a) _ _
                (λ may.
                  Ensures-bind P (lock_survey_aggregate a.survey_id none db) _
                    (λ found at. claim_locked_job-Bounded c job_id clock now found db b row may))
                (λ no_claim. b))
      ]

  seen-Bounded :
      (attempt_id now : ℕ) (as_rows : List Attempt)
      → Bounded most as_rows
      → Bounded most (seen attempt_id now as_rows)
  seen-Bounded attempt_id now as_rows b =
      Worn-Bounded most (λ x. x.id == attempt_id) (λ x. record x { heartbeat_at = some now })
        as_rows b
        (λ x found.
          Worn-aside x _ (All-find_row Ended _ as_rows b.ended found) refl refl refl refl refl)

  beat_target-Bounded :
      (kind : WorkKind) (a : Attempt) (attempt_id lease now : ℕ) (db : Db)
      → Bounded most db.attempts
      → Bounded most (beat_target kind a attempt_id lease now db).1.attempts
  unfolding beat_target
  beat_target-Bounded draft_work a attempt_id lease now db b =
      elim (Option-cases (find_row (holds_draft_of a attempt_id) db.drafts)) [
        | inl missing ↦ rw (beat_target, missing) b
        | inr (d, found) ↦ rw (beat_target, found) (seen-Bounded attempt_id now db.attempts b)
      ]
  beat_target-Bounded full_work a attempt_id lease now db b =
      elim (Option-cases (find_row (holds_job_of a attempt_id) db.jobs)) [
        | inl missing ↦ rw (beat_target, missing) b
        | inr (j, found) ↦ rw (beat_target, found) (seen-Bounded attempt_id now db.attempts b)
      ]

  pub heartbeat_compute_attempt-Bounded :
      (attempt_id lease now : ℕ) (db : Db)
      → Bounded most db.attempts
      → Bounded most (heartbeat_compute_attempt attempt_id lease now db).1.attempts
  unfolding heartbeat_compute_attempt
  heartbeat_compute_attempt-Bounded attempt_id lease now db b =
      elim (Option-cases (find_row (runs_as attempt_id) db.attempts)) [
        | inl missing ↦ rw (heartbeat_compute_attempt, missing) b
        | inr (a, found) ↦
            rw (heartbeat_compute_attempt, found)
              (beat_target-Bounded a.work_kind a attempt_id lease now db b)
      ]
