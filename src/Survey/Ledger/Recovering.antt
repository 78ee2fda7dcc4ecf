-- ===== src/Survey/Ledger/Recovering.antt =====
-- Claims, leases, deferred archives and recoveries keep the ledger of the daily quota.
use scholight.Prelude.{
  ℕ, ◌+◌, ◌≡◌, refl, sym, ◌∙◌, ap, Bool, false, not, ◌&&◌, Option, none, some, List, [], ◌∷◌, ◌==◌,
  ==_iff, ==_refl, if◌then◌else◌, arith,
}
use scholight.Prelude.Text.{Text}
use scholight.Prelude.Result.{
  ok, Ensures, Ensures-if, Ensures-bind, Ensures-or_raise, Ensures-require, Ensures-at,
}
use scholight.Prelude.Rows.{find_row, find_row-holds, All-find_row}
use scholight.Prelude.Keys.{find_row_unique}
use scholight.Survey.Tables.{
  quota_released, outcome_failed, Survey, Job, Db, lease_lost, due, Locked, lock_survey_aggregate,
}
use scholight.Survey.Lifecycle.{is_job_running}
use scholight.Survey.Settle.{
  lock_job, error_of, archiving_owner, defer_job, defer_survey_archive, workspace_missing,
  mark_survey_workspace_missing,
}
use scholight.Survey.Recover.{
  lost_outcome, worker_lost_code, lose_job, recover_locked, recovered_job, recover_found,
  recover_one, expired_jobs, recover_each, recover_expired_survey_jobs,
}
use scholight.Survey.Ledger.Paired.{NoMore, update-NoMore, kept-Paired}
use scholight.Survey.Ledger.Locks.{
  LockedOf, Locks, lock_survey_aggregate-Locks, JobLocked, lock_job-JobLocked,
}
use scholight.Survey.Ledger.Ending.{Agrees, Balanced, KeepsLedger, updated-Balanced}
use scholight.Survey.Ledger.Archiving.{archived-Balanced, stopped_job}
use scholight.Survey.Ledger.Paired.{less-Paired}

-- The tables with other rows of jobs, of which no more run.
pub jobs-Balanced :
    (db : Db) (js : List Job) → Balanced db → NoMore db.jobs js → Balanced (record db { jobs = js })
jobs-Balanced db js b less = record {
  balance = b.balance;
  agreed = b.agreed;
  paired = less-Paired db.jobs js db.surveys b.paired less;
}

archiving_owner-JobLocked :
    (job_id worker : ℕ) (db : Db) → Ensures (JobLocked job_id db) (archiving_owner job_id worker db)
unfolding archiving_owner
archiving_owner-JobLocked job_id worker db =
    let P : Job × Locked → Type 0 = JobLocked job_id db in
    Ensures-bind P (lock_job job_id lease_lost db) _ (λ (job, l) at.
      Ensures-require P _ _ _ (λ mine. Ensures-at P _ (lock_job-JobLocked job_id lease_lost db) at))

pub defer_survey_archive-KeepsLedger :
    (job_id worker retry_after : ℕ) (code : Text) (now : ℕ) (db : Db)
    → Balanced db
    → KeepsLedger (defer_survey_archive job_id worker retry_after code now db)
unfolding defer_survey_archive
defer_survey_archive-KeepsLedger job_id worker retry_after code now db b =
    Ensures-bind (λ p. Balanced p.1) (archiving_owner job_id worker db) _
      (λ owner at. jobs-Balanced db _ b (
        update-NoMore (λ j. j.id == job_id) (defer_job retry_after code now) db.jobs
          (λ j. (refl, λ k. omega arith))))

pub mark_survey_workspace_missing-KeepsLedger :
    (job_id worker now : ℕ) (db : Db)
    → Balanced db
    → KeepsLedger (mark_survey_workspace_missing job_id worker now db)
unfolding mark_survey_workspace_missing
mark_survey_workspace_missing-KeepsLedger job_id worker now db b =
    Ensures-bind (λ p. Balanced p.1) (archiving_owner job_id worker db) _
      (λ (job, l) at.
        let locked =
          Ensures-at (JobLocked job_id db) _ (archiving_owner-JobLocked job_id worker db) at in
        let f : Survey → Survey =
          λ s. record s { error_code = workspace_missing; updated_at = now } in
        let agrees =
          All-find_row Agrees (λ s. s.id == job.survey_id) db.surveys b.agreed locked.lock.found in
        let (balance, agreed) =
          updated-Balanced db.usages (λ s. s.id == job.survey_id) f db.surveys b.balance b.agreed
            locked.lock.found (λ u d s. refl) agrees in
        record {
          balance = balance;
          agreed = agreed;
          paired =
              kept-Paired db.jobs _ job.survey_id f db.surveys b.paired
                (update-NoMore (λ j. j.id == job_id)
                  (λ j. record j {
                    terminal_outcome = some outcome_failed;
                    error_code = workspace_missing;
                  })
                  db.jobs (λ j. (refl, λ k. omega arith)))
                (λ s. refl) locked.lock.found refl;
        })

recover_locked-KeepsLedger :
    (job : Job) (l : Locked) (survey_id now : ℕ) (db : Db)
    → LockedOf survey_id none db l
    → l.job ≡ some job
    → Balanced db
    → KeepsLedger (recover_locked job l now db)
unfolding recover_locked
recover_locked-KeepsLedger job l survey_id now db lock has_job b =
    let P : Bool × Db → Type 0 = λ p. Balanced p.1 in
    let by_survey : find_row (λ j. j.survey_id == survey_id) db.jobs ≡ some job =
      sym lock.job_row ∙ has_job in
    let of_survey : job.survey_id ≡ survey_id =
      (==_iff job.survey_id survey_id).0
        (find_row-holds (λ j. j.survey_id == survey_id) db.jobs by_survey) in
    let by_id =
      find_row_unique (λ j. j.survey_id == survey_id) (λ j. j.id == job.id) db.jobs
        (b.paired.keyed job.id) by_survey (==_refl job.id) in
    let same : l.survey.id ≡ job.survey_id = lock.same_id ∙ sym of_survey in
    let found : find_row (λ s. s.id == job.survey_id) db.surveys ≡ some l.survey =
      ap (λ k. find_row (λ s. s.id == k) db.surveys) of_survey ∙ lock.found in
    Ensures-if P (not (is_job_running job.status && due job.lease_expires_at now)) (ok (false, db))
      _ (λ rests. b)
      (λ runs_out. Ensures-or_raise P _ _ _ (λ vs released. rw same (
        archived-Balanced db vs (λ j. j.id == job.id) (lose_job now) quota_released
          (error_of (lost_outcome job.cancel_requested_at) worker_lost_code) 0 now b by_id
          (ground arith) found released refl (λ i. (refl, λ k. stopped_job k (i.survey_id == k))))))

recovered_job-KeepsLedger :
    (o : Option Job) (l : Locked) (survey_id job_id now : ℕ) (db : Db)
    → LockedOf survey_id none db l
    → l.job ≡ o
    → Balanced db
    → KeepsLedger (recovered_job o l job_id now db)
unfolding recovered_job
recovered_job-KeepsLedger none l survey_id job_id now db lock has_job b = b
recovered_job-KeepsLedger (some job) l survey_id job_id now db lock has_job b =
    Ensures-if (λ p. Balanced p.1) (job.id == job_id) (recover_locked job l now db) (ok (false, db))
      (λ same. recover_locked-KeepsLedger job l survey_id now db lock has_job b) (λ other. b)

recover_found-KeepsLedger :
    (found : Option Locked) (survey_id job_id now : ℕ) (db : Db)
    → Balanced db
    → Locks survey_id none db found
    → KeepsLedger (recover_found found job_id now db)
unfolding recover_found
recover_found-KeepsLedger none survey_id job_id now db b locks = b
recover_found-KeepsLedger (some l) survey_id job_id now db b locks =
    recovered_job-KeepsLedger l.job l survey_id job_id now db locks refl b

recover_one-KeepsLedger :
    (job_id survey_id now : ℕ) (db : Db)
    → Balanced db
    → KeepsLedger (recover_one job_id survey_id now db)
unfolding recover_one
recover_one-KeepsLedger job_id survey_id now db b =
    Ensures-bind (λ p. Balanced p.1) (lock_survey_aggregate survey_id none db) _
      (λ found at.
        recover_found-KeepsLedger found survey_id job_id now db b (
          Ensures-at (Locks survey_id none db) _ (lock_survey_aggregate-Locks survey_id none db)
            at))

recover_each-KeepsLedger :
    (js : List Job) (recovered now : ℕ) (db : Db)
    → Balanced db
    → KeepsLedger (recover_each js recovered now db)
unfolding recover_each
recover_each-KeepsLedger [] recovered now db b = b
recover_each-KeepsLedger (j ∷ js) recovered now db b =
    Ensures-bind (λ p. Balanced p.1) (recover_one j.id j.survey_id now db) _
      (λ (has, after) at.
        recover_each-KeepsLedger js (if has then recovered + 1 else recovered) now after
          (Ensures-at (λ p. Balanced p.1) _ (recover_one-KeepsLedger j.id j.survey_id now db b) at))

pub recover_expired_survey_jobs-KeepsLedger :
    (limit now : ℕ) (db : Db) → Balanced db → KeepsLedger (recover_expired_survey_jobs limit now db)
unfolding recover_expired_survey_jobs
recover_expired_survey_jobs-KeepsLedger limit now db b =
    recover_each-KeepsLedger (expired_jobs limit now db.jobs) 0 now db b
