-- ===== src/Survey/History/Cancelled.antt =====
-- The cancellation and the deletion of a survey keep the history.
use mathlib.Core.Path.{subst}
use scholight.Prelude.{
  ℕ, ◌≡◌, refl, sym, ◌∙◌, ap, Bool, true, false, ◌||◌, Option, some, ◌==◌, ==_iff, if◌then◌else◌,
  arith, Bool-cases, inl, inr,
}
use scholight.Prelude.Result.{
  ok, Ensures, Ensures-if, Ensures-bind, Ensures-or_raise, Ensures-require, Ensures-at,
  Ensures-mono,
}
use scholight.Prelude.Rows.{find_row, update_row}
use scholight.Prelude.Keys.{find_row-delete_row, delete_rows-le, delete_rows-none}
use scholight.Survey.Tables.{
  Survey, Job, Db, Error, Locked, not_cancellable, delete_in_progress, survey_not_found,
}
use scholight.Survey.Lifecycle.{
  is_queued, is_drafting, is_running, is_archiving, is_terminal, is_job_running,
  release_reservation,
}
use scholight.Survey.Cancel.{
  cancel_survey, cancel_locked, cancel_queued, cancel_running, cancel_drafts, end_survey,
  request_cancel, without_job, delete_survey, delete_locked, give_back, remove_survey,
}
use scholight.Survey.Ledger.Locks.{LockedOf, Ensures-locked}
use scholight.Survey.History.Numbers.{bit}
use scholight.Survey.History.Bulk.{deleted-Numbered}
use scholight.Survey.History.States.{History, same-KeepsSurveys, elsewhere-History, is_wild}
use scholight.Survey.History.Drafting.{KeepsHistory}
use scholight.Survey.History.Ends.{
  Untouched, without_job-Untouched, cancelled-History, updated-KeepsSurveys,
}

own_found :
    (survey_id : ℕ) (user : Option ℕ) (db : Db) (l : Locked)
    → LockedOf survey_id user db l
    → find_row (λ s. s.id == l.survey.id) db.surveys ≡ some l.survey
own_found survey_id user db l lock =
    subst (λ m. find_row (λ s. s.id == m) db.surveys ≡ some l.survey) (sym lock.same_id) lock.found

cleared-Untouched :
    (b : Bool) (job : Option Job) (e : Error) (db : Db)
    → Ensures (Untouched db) (if b then without_job job e db else ok db)
cleared-Untouched true job e db = without_job-Untouched job e db
cleared-Untouched false job e db = (refl, refl)

module _ (survey_id user : ℕ) (l : Locked) (now : ℕ) (db : Db)
    (lock : LockedOf survey_id (some user) db l) (h : History db) where
  cancel_queued-KeepsHistory : KeepsHistory (cancel_queued l user now db)
  unfolding cancel_queued
  cancel_queued-KeepsHistory =
      Ensures-require (λ p. History p.1) _ _ _
        (λ e.
          Ensures-bind (λ p. History p.1)
            (if is_queued l.survey.status then without_job l.job not_cancellable db else ok db) _
            (λ c at.
              Ensures-or_raise (λ p. History p.1)
                (release_reservation user l.survey.quota_date 0 db.usages) _ _
                (λ usages given.
                  let clear =
                    Ensures-at (Untouched db) _
                      (cleared-Untouched (is_queued l.survey.status) l.job not_cancellable db) at in
                  let after : Db = record c {
                    usages = usages;
                    drafts = cancel_drafts l.survey.id now c.drafts;
                    surveys = update_row (λ s. s.id == l.survey.id) (end_survey now) c.surveys;
                  } in
                  cancelled-History l.survey.id now db after h
                    (ap (cancel_drafts l.survey.id now) clear.0)
                    (updated-KeepsSurveys db after l.survey.id (end_survey now) (λ s. refl)
                      (own_found survey_id (some user) db l lock)
                      (ap (update_row (λ s. s.id == l.survey.id) (end_survey now)) clear.1)))))

  cancel_running-KeepsHistory : KeepsHistory (cancel_running l now db)
  unfolding cancel_running
  cancel_running-KeepsHistory =
      Ensures-or_raise (λ p. History p.1) l.job _ _
        (λ job at.
          Ensures-require (λ p. History p.1) (is_job_running job.status) _ _
            (λ runs.
              let after : Db = record db {
                jobs = update_row (λ j. j.id == job.id) (request_cancel now) db.jobs;
                surveys =
                    update_row (λ s. s.id == l.survey.id) (λ s. record s { updated_at = now })
                      db.surveys;
              } in
              elsewhere-History db after h refl (
                updated-KeepsSurveys db after l.survey.id (λ s. record s { updated_at = now })
                  (λ s. refl) (own_found survey_id (some user) db l lock) refl)))

  give_back-Cancelled :
      Ensures
        (λ c. (c.drafts ≡ cancel_drafts l.survey.id now db.drafts) × (c.surveys ≡ db.surveys))
        (give_back l user now db)
  unfolding give_back
  give_back-Cancelled =
      let Q : Db → Type 0 =
        λ c. (c.drafts ≡ cancel_drafts l.survey.id now db.drafts) × (c.surveys ≡ db.surveys) in
      Ensures-bind Q (without_job l.job delete_in_progress db) _ (λ c at.
        Ensures-bind Q _ _ (λ usages given.
          let clear =
            Ensures-at (Untouched db) _ (without_job-Untouched l.job delete_in_progress db) at in
          (ap (cancel_drafts l.survey.id now) clear.0, clear.1)))

pub cancel_survey-KeepsHistory :
    (survey_id user now : ℕ) (db : Db)
    → History db
    → KeepsHistory (cancel_survey survey_id user now db)
unfolding cancel_survey cancel_locked
cancel_survey-KeepsHistory survey_id user now db h =
    let P : Survey × Db → Type 0 = λ p. History p.1 in
    Ensures-locked P survey_id (some user) db survey_not_found _ (λ l lock.
      Ensures-if P (is_terminal l.survey.status) _ _ (λ over. h)
        (λ open_survey.
          Ensures-if P (is_running l.survey.status) _ _
            (λ runs. cancel_running-KeepsHistory survey_id user l now db lock h)
            (λ idle.
              Ensures-if P (is_archiving l.survey.status) _ _ (λ e. tt)
                (λ e. cancel_queued-KeepsHistory survey_id user l now db lock h))))

-- A survey goes with its drafts.
removed-History : (m : ℕ) (db : Db) → History db → History (remove_survey m db)
removed-History m db h = record {
  numbered = deleted-Numbered m db.drafts h.numbered;
  owned = λ k gone. elim (Bool-cases (m == k)) [
    | inl one ↦
        let e : m ≡ k = (==_iff m k).0 one in
        delete_rows-none (λ d. bit (d.survey_id == k)) (λ d. d.survey_id == m) db.drafts
          (λ d miss. let other : (d.survey_id == k) ≡ false = rw e at miss in rw other refl)
    | inr two ↦
        let less = delete_rows-le (λ d. bit (d.survey_id == k)) (λ d. d.survey_id == m) db.drafts in
        let was = h.owned k (sym (find_row-delete_row (λ s. s.id) m k db.surveys two) ∙ gone) in
        omega (arith, less, was)
  ];
  held =
      let less = delete_rows-le (λ d. bit (is_wild d)) (λ d. d.survey_id == m) db.drafts in
      let was = h.held in omega (arith, less, was);
}

pub delete_survey-KeepsHistory :
    (survey_id user now : ℕ) (db : Db)
    → History db
    → KeepsHistory (delete_survey survey_id user now db)
unfolding delete_survey delete_locked
delete_survey-KeepsHistory survey_id user now db h =
    let P : Unit {0} × Db → Type 0 = λ p. History p.1 in
    Ensures-locked P survey_id (some user) db survey_not_found _ (λ l lock.
      Ensures-require P _ _ _ (λ idle.
        Ensures-bind P
          (if is_drafting l.survey.status || is_queued l.survey.status
            then give_back l user now db
            else ok db)
          _
          (λ c at. removed-History l.survey.id c (
            Ensures-at History _
              (Ensures-if History (is_drafting l.survey.status || is_queued l.survey.status)
                (give_back l user now db) (ok db)
                (λ e.
                  Ensures-mono _ History (give_back l user now db)
                    (λ d (drafts, surveys).
                      cancelled-History l.survey.id now db d h drafts
                        (same-KeepsSurveys db d surveys))
                    (give_back-Cancelled survey_id user l now db lock h))
                (λ e. h))
              at))))
