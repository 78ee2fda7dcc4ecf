-- ===== src/Survey/Ledger/Archiving.antt =====
-- The end of an execution, its recovery and its archive keep the ledger of the daily quota.
use scholight.Prelude.{
  ℕ, ◌≡◌, refl, ◌∙◌, ap, Bool, true, false, not, ◌&&◌, ◌||◌, Option, some, List, ◌==◌, ==_iff,
  if◌then◌else◌, arith,
}
use scholight.Prelude.Text.{Text}
use scholight.Prelude.Result.{
  ok, Ensures-if, Ensures-bind, Ensures-or_raise, Ensures-require, Ensures-at,
}
use scholight.Prelude.Rows.{find_row, update_row, find_row-holds, All-find_row}
use scholight.Survey.Tables.{
  SurveyStatus, archiving, QuotaState, quota_consumed, quota_released, SurveyOutcome,
  outcome_succeeded, outcome_failed, outcome_cancelled, Usage, drafting, queued, running, succeeded,
  failed, cancelled, Survey, Job, Db, worker_lost, lease_lost,
}
use scholight.Survey.Lifecycle.{
  is_reserved, is_running, is_archiving, is_terminal, is_job_running, is_job_archiving, has_outcome,
  release_reservation,
}
use scholight.Survey.Settle.{
  lock_job, effective, consumes, error_of, archive_job, archive_survey, settle_locked,
  settle_survey_execution, finish_job, status_of, finish_status, finish_survey_archive,
}
use scholight.Survey.Ledger.{holds}
use scholight.Survey.Ledger.Balance.{holds-settled}
use scholight.Survey.Ledger.Paired.{runs_job, update-NoMore, kept-Paired}
use scholight.Survey.Ledger.Pairing.{stopped-Paired, running_survey}
use scholight.Survey.Ledger.Locks.{JobLocked, lock_job-JobLocked}
use scholight.Survey.Ledger.Ending.{Agrees, Balanced, KeepsLedger, updated-Balanced, ended-Balanced}

-- A running job and its survey that are archived, with what the usage row says then.
pub archived-Balanced :
    (db : Db) (vs : List Usage) (p : Job → Bool) (g : Job → Job) (quota : QuotaState)
    (code : Option Text) (gained now : ℕ) {j : Job} {x : Survey}
    → Balanced db
    → find_row p db.jobs ≡ some j
    → is_job_running j.status ≡ true
    → find_row (λ s. s.id == j.survey_id) db.surveys ≡ some x
    → release_reservation x.user_id x.quota_date gained db.usages ≡ some vs
    → is_reserved quota ≡ false
    → ((i : Job) → ((g i).id ≡ i.id) × ((k : ℕ) → runs_job k (g i) ≡ 0))
    → Balanced (record db {
      usages = vs;
      jobs = update_row p g db.jobs;
      surveys = update_row (λ s. s.id == j.survey_id) (archive_survey quota code now) db.surveys;
    })
archived-Balanced db vs p g quota code gained now {j} {x} b job_found job_runs found released
      given_up stops =
    let run : is_running x.status ≡ true =
      running_survey db.jobs db.surveys p b.paired job_found job_runs found in
    let agrees : Agrees x =
      All-find_row Agrees (λ s. s.id == j.survey_id) db.surveys b.agreed found in
    let (balance, agreed) =
      ended-Balanced db.usages vs (λ s. s.id == j.survey_id) (archive_survey quota code now)
        db.surveys x gained b.balance b.agreed found (running_reserved x.status agrees run) released
        (λ u d. holds-settled u d (archive_survey quota code now x) given_up) given_up in
    record {
      balance = balance;
      agreed = agreed;
      paired =
          stopped-Paired db.jobs db.surveys p g (archive_survey quota code now) b.paired job_found
            job_runs found stops (λ s. refl);
    }
  where
    running_reserved :
        (status : SurveyStatus) {b : Bool}
        → b ≡ not (is_terminal status || is_archiving status)
        → is_running status ≡ true
        → b ≡ true
    running_reserved drafting agrees h = cc
    running_reserved queued agrees h = cc
    running_reserved running agrees h = agrees
    running_reserved archiving agrees h = cc
    running_reserved succeeded agrees h = cc
    running_reserved failed agrees h = cc
    running_reserved cancelled agrees h = cc

given_up :
    (consume : Bool) → is_reserved (if consume then quota_consumed else quota_released) ≡ false
given_up true = refl
given_up false = refl

pub stopped_job : (k : ℕ) (b : Bool) → ◌≡◌ {A = ℕ} (if b && false then 1 else 0) 0
stopped_job k true = refl
stopped_job k false = refl

pub settle_survey_execution-KeepsLedger :
    (job_id worker : ℕ) (outcome : SurveyOutcome) (code : Option Text) (chargeable : Bool) (now : ℕ)
    (db : Db)
    → Balanced db
    → KeepsLedger (settle_survey_execution job_id worker outcome code chargeable now db)
unfolding settle_survey_execution settle_locked
settle_survey_execution-KeepsLedger job_id worker outcome code chargeable now db b =
    let P : Unit {0} × Db → Type 0 = λ p. Balanced p.1 in
    Ensures-bind P (lock_job job_id worker_lost db) _ (λ (job, l) at.
      let locked =
        Ensures-at (JobLocked job_id db) _ (lock_job-JobLocked job_id worker_lost db) at in
      let final = effective job.cancel_requested_at outcome in
      let own : job.id ≡ job_id =
        (==_iff job.id job_id).0 (find_row-holds (λ j. j.id == job_id) db.jobs locked.job_found) in
      Ensures-if P (is_job_archiving job.status && has_outcome final job.terminal_outcome)
        (ok (tt, db)) _ (λ again. b)
        (λ first. Ensures-require P _ _ _ (λ mine. Ensures-require P _ _ _ (λ begun.
          Ensures-or_raise P _ _ _ (λ vs released.
            archived-Balanced db vs (λ j. j.id == job.id) (archive_job final code now)
              (if consumes final chargeable then quota_consumed else quota_released)
              (error_of final code) (if consumes final chargeable then 1 else 0) now b
              (ap (λ i. find_row (λ j. j.id == i) db.jobs) own ∙ locked.job_found) (ground arith)
              locked.lock.found released (given_up (consumes final chargeable))
              (λ i. (refl, λ k. stopped_job k (i.survey_id == k))))))))

finished :
    (outcome : SurveyOutcome) (now : ℕ) (s : Survey) (b : Bool)
    → is_archiving s.status ≡ b
    → ((u d : ℕ) → holds u d (if b then finish_status outcome now s else s) ≡ holds u d s)
      × ((if b then finish_status outcome now s else s).id ≡ s.id)
      × (is_running (if b then finish_status outcome now s else s).status ≡ is_running s.status)
      × (Agrees s → Agrees (if b then finish_status outcome now s else s))
finished outcome now s false h = (λ u d. refl, refl, refl, λ a. a)
finished outcome now s true h =
    (λ u d. refl, refl, idle outcome s.status h, over outcome s.status h)
  where
    idle :
        (o : SurveyOutcome) (status : SurveyStatus)
        → is_archiving status ≡ true
        → is_running (status_of o) ≡ is_running status
    idle outcome_succeeded archiving h = refl
    idle outcome_failed archiving h = refl
    idle outcome_cancelled archiving h = refl
    idle o drafting h = cc
    idle o queued h = cc
    idle o running h = cc
    idle o succeeded h = cc
    idle o failed h = cc
    idle o cancelled h = cc

    over :
        (o : SurveyOutcome) (status : SurveyStatus) {b : Bool}
        → is_archiving status ≡ true
        → b ≡ not (is_terminal status || is_archiving status)
        → b ≡ not (is_terminal (status_of o) || is_archiving (status_of o))
    over outcome_succeeded archiving h a = a
    over outcome_failed archiving h a = a
    over outcome_cancelled archiving h a = a
    over o drafting h a = cc
    over o queued h a = cc
    over o running h a = cc
    over o succeeded h a = cc
    over o failed h a = cc
    over o cancelled h a = cc

pub finish_survey_archive-KeepsLedger :
    (job_id worker : ℕ) (manifest : Text) (now : ℕ) (db : Db)
    → Balanced db
    → KeepsLedger (finish_survey_archive job_id worker manifest now db)
unfolding finish_survey_archive
finish_survey_archive-KeepsLedger job_id worker manifest now db b =
    let P : Unit {0} × Db → Type 0 = λ p. Balanced p.1 in
    Ensures-bind P (lock_job job_id lease_lost db) _ (λ (job, l) at.
      let locked =
        Ensures-at (JobLocked job_id db) _ (lock_job-JobLocked job_id lease_lost db) at in
      let agrees =
        All-find_row Agrees (λ s. s.id == job.survey_id) db.surveys b.agreed locked.lock.found in
      Ensures-require P _ _ _ (λ mine. Ensures-or_raise P _ _ _ (λ outcome has_ended.
        let f : Survey → Survey =
          λ s. if is_archiving s.status then finish_status outcome now s else s in
        let all : (s : Survey) → _ = λ s. finished outcome now s _ refl in
        let (balance, agreed) =
          updated-Balanced db.usages (λ s. s.id == job.survey_id) f db.surveys b.balance b.agreed
            locked.lock.found (λ u d s. (all s).0 u d) ((all l.survey).3 agrees) in
        record {
          balance = balance;
          agreed = agreed;
          paired =
              kept-Paired db.jobs _ job.survey_id f db.surveys b.paired
                (update-NoMore (λ j. j.id == job_id) (finish_job manifest now) db.jobs
                  (λ j. (
                    refl,
                    λ k.
                        let none_runs = stopped_job k (j.survey_id == k) in
                        omega (arith, none_runs),
                  )))
                (λ s. (all s).1) locked.lock.found ((all l.survey).2);
        })))
