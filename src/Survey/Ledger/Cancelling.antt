-- ===== src/Survey/Ledger/Cancelling.antt =====
-- Cancellations and deletions keep the ledger of the daily quota.
use scholight.Prelude.{
  ℕ, ◌≡◌, refl, sym, ◌∙◌, ap, Bool, true, false, Option, none, some, ◌==◌, ==_iff, if◌then◌else◌,
  arith,
}
use scholight.Prelude.Result.{
  ok, err, Ensures, Ensures-if, Ensures-bind, Ensures-or_raise, Ensures-require, Ensures-at,
}
use scholight.Prelude.Rows.{All-find_row}
use scholight.Survey.Tables.{Survey, Job, Db, Error, Locked, not_cancellable, survey_not_found}
use scholight.Survey.Lifecycle.{
  is_job_queued, is_queued, is_running, is_archiving, is_terminal, release_reservation,
}
use scholight.Survey.Cancel.{
  cancel_survey, cancel_locked, cancel_queued, cancel_running, end_survey, request_cancel,
  without_job, delete_job,
}
use scholight.Survey.Ledger.Paired.{NoMore, same-NoMore, delete-NoMore, update-NoMore, kept-Paired}
use scholight.Survey.Ledger.Locks.{LockedOf, Ensures-locked}
use scholight.Survey.Ledger.Ending.{
  Agrees, Balanced, KeepsLedger, updated-Balanced, ended-Balanced, found_again,
}

-- The same surveys and the same usage, and no more jobs that run.
abbrev pub SameLedger : Db → Db → Type 0
SameLedger db c = (c.usages ≡ db.usages) × (c.surveys ≡ db.surveys) × NoMore db.jobs c.jobs

pub without_job-SameLedger :
    (job : Option Job) (e : Error) (db : Db) → Ensures (SameLedger db) (without_job job e db)
unfolding without_job
without_job-SameLedger none e db = (refl, refl, same-NoMore db.jobs)
without_job-SameLedger (some job) e db =
    Ensures-if (SameLedger db) (is_job_queued job.status) (ok (delete_job job.id db)) (err e)
      (λ h. (refl, refl, delete-NoMore (λ j. j.id == job.id) db.jobs)) (λ h. tt)

cleared-SameLedger :
    (b : Bool) (job : Option Job) (e : Error) (db : Db)
    → Ensures (SameLedger db) (if b then without_job job e db else ok db)
cleared-SameLedger true job e db = without_job-SameLedger job e db
cleared-SameLedger false job e db = (refl, refl, same-NoMore db.jobs)

cancel_queued-KeepsLedger :
    (survey_id user : ℕ) (l : Locked) (now : ℕ) (db : Db)
    → LockedOf survey_id (some user) db l
    → Balanced db
    → is_terminal l.survey.status ≡ false
    → is_running l.survey.status ≡ false
    → is_archiving l.survey.status ≡ false
    → KeepsLedger (cancel_queued l user now db)
unfolding cancel_queued
cancel_queued-KeepsLedger survey_id user l now db lock b not_ended idle not_archiving =
    let P : Survey × Db → Type 0 = λ p. Balanced p.1 in
    let found = found_again survey_id (some user) db l lock in
    let agrees : Agrees l.survey =
      All-find_row Agrees (λ s. s.id == l.survey.id) db.surveys b.agreed found in
    let mine : l.survey.user_id ≡ user = (==_iff l.survey.user_id user).0 lock.owner in
    Ensures-require P _ _ _ (λ h.
      Ensures-bind P
        (if is_queued l.survey.status then without_job l.job not_cancellable db else ok db) _
        (λ c cleared.
          let (same_usages, same_surveys, no_more) =
            Ensures-at (SameLedger db) _
              (cleared-SameLedger (is_queued l.survey.status) l.job not_cancellable db) cleared in
          Ensures-or_raise P _ _ _ (λ vs released.
            let (balance, agreed) =
              ended-Balanced db.usages vs (λ s. s.id == l.survey.id) (end_survey now) db.surveys
                l.survey 0 b.balance b.agreed found (ground arith)
                (ap (λ k. release_reservation k l.survey.quota_date 0 db.usages) mine ∙ released)
                (λ u d. ground arith) refl in
            record {
              balance = rw same_surveys balance;
              agreed = rw same_surveys agreed;
              paired = rw same_surveys (
                  kept-Paired db.jobs c.jobs l.survey.id (end_survey now) db.surveys b.paired
                    no_more (λ s. refl) found (sym idle));
            })))

cancel_running-KeepsLedger :
    (survey_id user : ℕ) (l : Locked) (now : ℕ) (db : Db)
    → LockedOf survey_id (some user) db l
    → Balanced db
    → KeepsLedger (cancel_running l now db)
unfolding cancel_running
cancel_running-KeepsLedger survey_id user l now db lock b =
    let P : Survey × Db → Type 0 = λ p. Balanced p.1 in
    let found = found_again survey_id (some user) db l lock in
    let agrees : Agrees l.survey =
      All-find_row Agrees (λ s. s.id == l.survey.id) db.surveys b.agreed found in
    Ensures-or_raise P _ _ _ (λ job at. Ensures-require P _ _ _ (λ h.
      let (balance, agreed) =
        updated-Balanced db.usages (λ s. s.id == l.survey.id) (λ s. record s { updated_at = now })
          db.surveys b.balance b.agreed found (λ u d s. refl) agrees in
      record {
        balance = balance;
        agreed = agreed;
        paired =
            kept-Paired db.jobs _ l.survey.id (λ s. record s { updated_at = now }) db.surveys
              b.paired
              (update-NoMore (λ j. j.id == job.id) (request_cancel now) db.jobs
                (λ j. (refl, λ k. omega arith)))
              (λ s. refl) found refl;
      }))

pub cancel_survey-KeepsLedger :
    (survey_id user now : ℕ) (db : Db)
    → Balanced db
    → KeepsLedger (cancel_survey survey_id user now db)
unfolding cancel_survey cancel_locked
cancel_survey-KeepsLedger survey_id user now db b =
    let P : Survey × Db → Type 0 = λ p. Balanced p.1 in
    Ensures-locked P survey_id (some user) db survey_not_found _ (λ l lock.
      Ensures-if P (is_terminal l.survey.status) (ok (l.survey, db)) _ (λ ended. b)
        (λ not_ended.
          Ensures-if P (is_running l.survey.status) (cancel_running l now db) _
            (λ run. cancel_running-KeepsLedger survey_id user l now db lock b)
            (λ not_running.
              Ensures-if P (is_archiving l.survey.status) (err not_cancellable)
                (cancel_queued l user now db) (λ h. tt)
                (λ not_archiving.
                  cancel_queued-KeepsLedger survey_id user l now db lock b not_ended not_running
                    not_archiving))))
