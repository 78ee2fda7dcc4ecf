-- ===== src/Survey/Ledger/FrugalArchive.antt =====
-- No claim, no end of an execution and no recovery spends more of the daily limit.
use mathlib.Core.Option
use scholight.Prelude.{
  ℕ, ◌+◌, ◌≤◌, refl, Bool, true, false, not, ◌&&◌, Option, none, some, List, [], ◌∷◌, ◌==◌, leb,
  if◌then◌else◌, arith, Bool-cases, Option-cases, inl, inr,
}
use scholight.Prelude.Text.{Text}
use scholight.Prelude.Result.{
  ok, Ensures-if, Ensures-bind, Ensures-or_raise, Ensures-require, Ensures-at,
}
use scholight.Prelude.Rows.{find_row}
use scholight.Survey.Tables.{
  Survey, Job, Db, SurveyOutcome, JobStatus, job_queued, job_running, job_archiving, job_finished,
  Locked, lock_survey_aggregate, worker_lost, lease_lost, due,
}
use scholight.Survey.Lifecycle.{is_queued, is_job_running, is_job_archiving, has_outcome}
use scholight.Survey.Settle.{
  lock_job, effective, consumes, settle_locked, settle_survey_execution, finish_survey_archive,
  archiving_owner, defer_survey_archive, mark_survey_workspace_missing,
}
use scholight.Survey.Leases.{
  holds_lease, may_advance, heartbeat_survey_job, update_survey_job_progress,
}
use scholight.Survey.Recover.{
  recover_locked, recovered_job, recover_found, recover_one, expired_jobs, recover_each,
  recover_expired_survey_jobs,
}
use scholight.Survey.Ledger.Limit.{Frugal, released-spent}
use scholight.Survey.Claim.{
  Candidate, survey_of, take_at, claim_found, claim_candidate, claim_first, claim_survey_job,
  null_or_due, fair_candidates, leased_jobs, other_leased,
}
use scholight.Survey.Ledger.Claiming.{Claims, Claims-if, Claims-else, first_claimed-Claims}
use scholight.Survey.Ledger.Frugality.{KeepsLimit, unspent, same-Frugal, Frugal-trans}

gain_small : (b : Bool) → ◌≤◌ (if b then 1 else 0) 1
gain_small true = omega arith
gain_small false = omega arith

pub settle_survey_execution-Frugal :
    (job_id worker : ℕ) (outcome : SurveyOutcome) (code : Option Text) (chargeable : Bool) (now : ℕ)
    (db : Db)
    → KeepsLimit db (settle_survey_execution job_id worker outcome code chargeable now db)
unfolding settle_survey_execution settle_locked
settle_survey_execution-Frugal job_id worker outcome code chargeable now db =
    let P : Unit {0} × Db → Type 0 = λ p. Frugal db p.1 in
    Ensures-bind P (lock_job job_id worker_lost db) _ (λ (job, l) at.
      let final = effective job.cancel_requested_at outcome in
      let gained : ℕ = if consumes final chargeable then 1 else 0 in
      Ensures-if P (is_job_archiving job.status && has_outcome final job.terminal_outcome)
        (ok (tt, db)) _ (λ again. same-Frugal db)
        (λ first. Ensures-require P _ _ _ (λ mine. Ensures-require P _ _ _ (λ begun.
          Ensures-or_raise P _ _ _ (λ vs released. record {
            limits = refl;
            spending =
                released-spent l.survey.user_id l.survey.quota_date gained db.usages vs
                  (gain_small (consumes final chargeable)) released;
          })))))

pub finish_survey_archive-Frugal :
    (job_id worker : ℕ) (manifest : Text) (now : ℕ) (db : Db)
    → KeepsLimit db (finish_survey_archive job_id worker manifest now db)
unfolding finish_survey_archive
finish_survey_archive-Frugal job_id worker manifest now db =
    let P : Unit {0} × Db → Type 0 = λ p. Frugal db p.1 in
    Ensures-bind P (lock_job job_id lease_lost db) _ (λ (job, l) at.
      Ensures-require P _ _ _
        (λ mine. Ensures-or_raise P _ _ _ (λ outcome ended. unspent db _ refl refl)))

pub defer_survey_archive-Frugal :
    (job_id worker retry_after : ℕ) (code : Text) (now : ℕ) (db : Db)
    → KeepsLimit db (defer_survey_archive job_id worker retry_after code now db)
unfolding defer_survey_archive
defer_survey_archive-Frugal job_id worker retry_after code now db =
    Ensures-bind (λ p. Frugal db p.1) (archiving_owner job_id worker db) _
      (λ owner at. unspent db _ refl refl)

pub mark_survey_workspace_missing-Frugal :
    (job_id worker now : ℕ) (db : Db)
    → KeepsLimit db (mark_survey_workspace_missing job_id worker now db)
unfolding mark_survey_workspace_missing
mark_survey_workspace_missing-Frugal job_id worker now db =
    Ensures-bind (λ p. Frugal db p.1) (archiving_owner job_id worker db) _
      (λ owner at. unspent db _ refl refl)

recovered_job-Frugal :
    (o : Option Job) (l : Locked) (job_id now : ℕ) (db : Db)
    → KeepsLimit db (recovered_job o l job_id now db)
unfolding recovered_job recover_locked
recovered_job-Frugal none l job_id now db = same-Frugal db
recovered_job-Frugal (some job) l job_id now db =
    let P : Bool × Db → Type 0 = λ p. Frugal db p.1 in
    Ensures-if P (job.id == job_id) (recover_locked job l now db) (ok (false, db))
      (λ same.
        Ensures-if P (not (is_job_running job.status && due job.lease_expires_at now))
          (ok (false, db)) _ (λ rests. same-Frugal db)
          (λ runs_out. Ensures-or_raise P _ _ _ (λ vs released. record {
            limits = refl;
            spending =
                released-spent l.survey.user_id l.survey.quota_date 0 db.usages vs (omega arith)
                  released;
          })))
      (λ other. same-Frugal db)

recover_found-Frugal :
    (found : Option Locked) (job_id now : ℕ) (db : Db)
    → KeepsLimit db (recover_found found job_id now db)
unfolding recover_found
recover_found-Frugal none job_id now db = same-Frugal db
recover_found-Frugal (some l) job_id now db = recovered_job-Frugal l.job l job_id now db

recover_one-Frugal :
    (job_id survey_id now : ℕ) (db : Db) → KeepsLimit db (recover_one job_id survey_id now db)
unfolding recover_one
recover_one-Frugal job_id survey_id now db =
    Ensures-bind (λ p. Frugal db p.1) (lock_survey_aggregate survey_id none db) _
      (λ found at. recover_found-Frugal found job_id now db)

recover_each-Frugal :
    (js : List Job) (recovered now : ℕ) (start db : Db)
    → Frugal start db
    → KeepsLimit start (recover_each js recovered now db)
unfolding recover_each
recover_each-Frugal [] recovered now start db f = f
recover_each-Frugal (j ∷ js) recovered now start db f =
    Ensures-bind (λ p. Frugal start p.1) (recover_one j.id j.survey_id now db) _
      (λ (has, after) at.
        recover_each-Frugal js (if has then recovered + 1 else recovered) now start after (
          Frugal-trans start db after f
            (Ensures-at (λ p. Frugal db p.1) _ (recover_one-Frugal j.id j.survey_id now db) at)))

pub recover_expired_survey_jobs-Frugal :
    (limit now : ℕ) (db : Db) → KeepsLimit db (recover_expired_survey_jobs limit now db)
unfolding recover_expired_survey_jobs
recover_expired_survey_jobs-Frugal limit now db =
    recover_each-Frugal (expired_jobs limit now db.jobs) 0 now db db (same-Frugal db)

pub heartbeat_survey_job-Frugal :
    (job_id worker lease now : ℕ) (db : Db)
    → Frugal db (heartbeat_survey_job job_id worker lease now db).1
unfolding heartbeat_survey_job
heartbeat_survey_job-Frugal job_id worker lease now db =
    elim (Option-cases (find_row (holds_lease job_id worker) db.jobs)) [
      | inl missing ↦ rw (heartbeat_survey_job, missing) (same-Frugal db)
      | inr (j, found) ↦ rw (heartbeat_survey_job, found) (unspent db _ refl refl)
    ]

pub update_survey_job_progress-Frugal :
    (job_id worker : ℕ) (stage : Text) (db : Db)
    → Frugal db (update_survey_job_progress job_id worker stage db).1
unfolding update_survey_job_progress
update_survey_job_progress-Frugal job_id worker stage db =
    elim (Option-cases (find_row (may_advance job_id worker stage) db.jobs)) [
      | inl missing ↦ rw (update_survey_job_progress, missing) (same-Frugal db)
      | inr (j, found) ↦ rw (update_survey_job_progress, found) (unspent db _ refl refl)
    ]

module _ (worker lease per_user now : ℕ) (db : Db) where
  take_at-Frugal :
      (status : JobStatus) (c : Candidate) (job : Job) (survey : Survey)
      → Claims (Frugal db) (take_at status worker lease now c job survey db)
  take_at-Frugal job_queued c job survey =
      Claims-if (Frugal db) (is_queued survey.status) _ (λ waits. unspent db _ refl refl)
  take_at-Frugal job_archiving c job survey =
      Claims-if (Frugal db) (null_or_due job.lease_expires_at now) _
        (λ is_due. unspent db _ refl refl)
  take_at-Frugal job_running c job survey = tt
  take_at-Frugal job_finished c job survey = tt

  claim_found-Frugal :
      (c : Candidate) (survey : Option Survey) (job : Option Job)
      → Claims (Frugal db) (claim_found worker lease per_user now c survey job db)
  claim_found-Frugal c none job = tt
  claim_found-Frugal c (some survey) none = tt
  claim_found-Frugal c (some survey) (some job) =
      Claims-else (Frugal db) (leb per_user (other_leased c.user_id c.job.id now db)) _
        (λ room. take_at-Frugal job.status c job survey)

  claim_first-Frugal :
      (cs : List Candidate)
      → Claims (Frugal db) (Option.map (λ r. r.1) (claim_first worker lease per_user now cs db))
  unfolding claim_first claim_candidate
  claim_first-Frugal [] = tt
  claim_first-Frugal (c ∷ cs) =
      first_claimed-Claims (Frugal db) c (claim_candidate worker lease per_user now c db) _
        (claim_found-Frugal c (survey_of db c.job) _) (claim_first-Frugal cs)

  pub claim_survey_job-Frugal :
      (global : ℕ)
      → Claims
          (Frugal db)
          (Option.map (λ r. r.1) (claim_survey_job worker lease global per_user now db))
  unfolding claim_survey_job
  claim_survey_job-Frugal global = elim (Bool-cases (leb global (leased_jobs now db))) [
    | inl full ↦ rw full tt
    | inr room ↦ rw room (claim_first-Frugal (fair_candidates per_user now db))
  ]
