-- ===== src/Survey/Ledger/Deleting.antt =====
-- Deletions keep the ledger of the daily quota.
use scholight.Prelude.{
  ℕ, ◌≡◌, refl, sym, ◌∙◌, ap, Bool, true, false, not, ◌||◌, some, ◌==◌, ==_iff, if◌then◌else◌,
  arith, Bool-cases, inl, inr,
}
use scholight.Prelude.Result.{
  ok, Ensures, Ensures-bind, Ensures-or_raise, Ensures-require, Ensures-at, Ensures-mono,
}
use scholight.Prelude.Rows.{delete_row, total-delete_row, All-find_row, All-delete_row}
use scholight.Survey.Tables.{
  SurveyStatus, drafting, queued, running, archiving, succeeded, failed, cancelled, Db, Locked,
  delete_in_progress, survey_not_found,
}
use scholight.Survey.Lifecycle.{
  is_reserved, is_queued, is_running, is_archiving, is_drafting, is_terminal, release_reservation,
}
use scholight.Survey.Cancel.{without_job, delete_survey, delete_locked, give_back}
use scholight.Survey.Ledger.{holds}
use scholight.Survey.Ledger.Balance.{holds-settled, Balance, released-Balance}
use scholight.Survey.Ledger.Paired.{NoMore, same-NoMore, less-Paired}
use scholight.Survey.Ledger.Pairing.{deleted-Paired}
use scholight.Survey.Ledger.Locks.{LockedOf, Ensures-locked}
use scholight.Survey.Ledger.Ending.{Agrees, Balanced, KeepsLedger, found_again}
use scholight.Survey.Ledger.Cancelling.{SameLedger, without_job-SameLedger}

-- What `give_back` leaves of a survey that holds a reservation: the usage without it.
abbrev GivesBack : ℕ → Locked → Db → Db → Type 0
GivesBack user l db c =
    (c.surveys ≡ db.surveys)
    × (release_reservation user l.survey.quota_date 0 db.usages ≡ some c.usages)
    × NoMore db.jobs c.jobs

give_back-GivesBack :
    (l : Locked) (user now : ℕ) (db : Db)
    → is_reserved l.survey.quota_state ≡ true
    → Ensures (GivesBack user l db) (give_back l user now db)
unfolding give_back
give_back-GivesBack l user now db reserved =
    let P : Db → Type 0 = GivesBack user l db in
    Ensures-bind P (without_job l.job delete_in_progress db) _ (λ c cleared.
      let (same_usages, same_surveys, no_more) =
        Ensures-at (SameLedger db) _ (without_job-SameLedger l.job delete_in_progress db) cleared in
      rw reserved (
        Ensures-or_raise P (release_reservation user l.survey.quota_date 0 c.usages) _ _
          (λ vs released. (
            same_surveys,
            ap (release_reservation user l.survey.quota_date 0) (sym same_usages) ∙ released,
            no_more,
          ))))

open_reserved :
    (status : SurveyStatus) {b : Bool}
    → b ≡ not (is_terminal status || is_archiving status)
    → (is_drafting status || is_queued status) ≡ true
    → b ≡ true
open_reserved drafting agrees h = agrees
open_reserved queued agrees h = agrees
open_reserved running agrees h = agrees
open_reserved archiving agrees h = cc
open_reserved succeeded agrees h = cc
open_reserved failed agrees h = cc
open_reserved cancelled agrees h = cc

closed_released :
    (status : SurveyStatus) {b : Bool}
    → b ≡ not (is_terminal status || is_archiving status)
    → (is_drafting status || is_queued status) ≡ false
    → (is_running status || is_archiving status) ≡ false
    → b ≡ false
closed_released drafting agrees h k = cc
closed_released queued agrees h k = cc
closed_released running agrees h k = cc
closed_released archiving agrees h k = agrees
closed_released succeeded agrees h k = agrees
closed_released failed agrees h k = agrees
closed_released cancelled agrees h k = agrees

deleted-Balanced :
    (survey_id user : ℕ) (l : Locked) (now : ℕ) (db : Db)
    → LockedOf survey_id (some user) db l
    → Balanced db
    → is_running l.survey.status || is_archiving l.survey.status ≡ false
    → Ensures
        (λ c.
          Balance c.usages (delete_row (λ s. s.id == l.survey.id) c.surveys)
          × (c.surveys ≡ db.surveys)
          × NoMore db.jobs c.jobs)
        (if is_drafting l.survey.status || is_queued l.survey.status
          then give_back l user now db
          else ok db)
deleted-Balanced survey_id user l now db lock b idle =
    let P : Db → Type 0 = λ c.
      Balance c.usages (delete_row (λ s. s.id == l.survey.id) c.surveys)
      × (c.surveys ≡ db.surveys)
      × NoMore db.jobs c.jobs in
    let found = found_again survey_id (some user) db l lock in
    let agrees : Agrees l.survey =
      All-find_row Agrees (λ s. s.id == l.survey.id) db.surveys b.agreed found in
    let mine : l.survey.user_id ≡ user = (==_iff l.survey.user_id user).0 lock.owner in
    elim (Bool-cases (is_drafting l.survey.status || is_queued l.survey.status)) [
      | inl begun ↦
          let reserved : is_reserved l.survey.quota_state ≡ true =
            open_reserved l.survey.status agrees begun in
          rw begun (
            Ensures-mono (GivesBack user l db) P (give_back l user now db)
              (λ c given. (
                rw given.0 (
                    released-Balance db.usages c.usages db.surveys
                      (delete_row (λ s. s.id == l.survey.id) db.surveys) l.survey 0 b.balance
                      reserved
                      (ap (λ k. release_reservation k l.survey.quota_date 0 db.usages) mine
                        ∙ given.1)
                      (λ u d.
                        total-delete_row (holds u d) (λ s. s.id == l.survey.id) db.surveys found)),
                given.0,
                given.2,
              ))
              (give_back-GivesBack l user now db reserved))
      | inr over ↦
          let settled : is_reserved l.survey.quota_state ≡ false =
            closed_released l.survey.status agrees over idle in
          rw over (
            λ u d.
                b.balance u d
                ∙ sym (
                    omega (
                      arith,
                      total-delete_row (holds u d) (λ s. s.id == l.survey.id) db.surveys found,
                      holds-settled u d l.survey settled,
                    )),
            refl,
            same-NoMore db.jobs,
          )
    ]

pub delete_survey-KeepsLedger :
    (survey_id user now : ℕ) (db : Db)
    → Balanced db
    → KeepsLedger (delete_survey survey_id user now db)
unfolding delete_survey delete_locked
delete_survey-KeepsLedger survey_id user now db b =
    let P : Unit {0} × Db → Type 0 = λ p. Balanced p.1 in
    Ensures-locked P survey_id (some user) db survey_not_found _ (λ l lock.
      Ensures-require P _ _ _ (λ idle.
        Ensures-bind P
          (if is_drafting l.survey.status || is_queued l.survey.status
            then give_back l user now db
            else ok db)
          _
          (λ c cleared.
            let (balance, same, no_more) =
              Ensures-at _ _ (deleted-Balanced survey_id user l now db lock b (ground arith))
                cleared in
            record {
              balance = balance;
              agreed =
                  All-delete_row Agrees (λ s. s.id == l.survey.id) c.surveys (rw same b.agreed);
              paired =
                  deleted-Paired c.jobs c.surveys l.survey.id
                    (rw same (less-Paired db.jobs c.jobs db.surveys b.paired no_more));
            })))
