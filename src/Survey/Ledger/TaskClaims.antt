-- ===== src/Survey/Ledger/TaskClaims.antt =====
-- The claim of a job by its task, `claim_exact_survey_job` of scholight/db/queries_survey_attempts.py,
-- keeps the ledger of the daily quota.
use scholight.Prelude.{
  ℕ, ◌≡◌, refl, sym, ◌∙◌, Bool, true, false, not, ◌||◌, Option, none, some, List, ◌==◌, ==_iff,
  arith, Option-cases, inl, inr,
}
use scholight.Prelude.Result.{Ensures-if, Ensures-bind, Ensures-at, if_cases}
use scholight.Prelude.Rows.{find_row, update_row, All-find_row, find_row-holds, total-update_row}
use scholight.Prelude.Keys.{row_count-less, find_row_unique}
use scholight.Survey.Tables.{full_work, Survey, Job, Db, Locked, lock_survey_aggregate}
use scholight.Survey.Lifecycle.{is_queued, is_reserved, is_job_queued, is_job_running}
use scholight.Survey.Claim.{run_survey}
use scholight.Survey.Attempts.Claims.{
  may_claim, Claimant, claim_job, is_claimable, is_open_job, claim_rows, claim_locked_job,
  claim_exact_survey_job,
}
use scholight.Survey.Ledger.Paired.{runs_job, Paired, keyed-update}
use scholight.Survey.Ledger.Pairing.{started-Paired}
use scholight.Survey.Ledger.Ending.{Agrees, Balanced, KeepsLedger, updated-Balanced}
use scholight.Survey.Ledger.Locks.{LockedOf, Locks, lock_survey_aggregate-Locks}
use scholight.Survey.Ledger.Claiming.{queued_open}
use scholight.Survey.Ledger.Limit.{Frugal}
use scholight.Survey.Ledger.Frugality.{KeepsLimit, unspent, same-Frugal}

module _ (c : Claimant) (job_id clock now : ℕ) where
  open_claimable :
      (job : Job)
      → (job.id == job_id) ≡ true
      → is_open_job clock job ≡ true
      → is_claimable job_id job ≡ true
  open_claimable job mine opens = ground arith

  claimable_mine : (j : Job) → is_claimable job_id j ≡ true → (j.id == job_id) ≡ true
  claimable_mine j h = ground arith

  -- The job that was read under the lock is the row that the update finds.
  claimable-found :
      (survey_id : ℕ) (db : Db) (job : Job)
      → Paired db.jobs db.surveys
      → find_row (λ j. j.survey_id == survey_id) db.jobs ≡ some job
      → (job.id == job_id) ≡ true
      → is_open_job clock job ≡ true
      → find_row (is_claimable job_id) db.jobs ≡ some job
  claimable-found survey_id db job paired found mine opens =
      let less =
        row_count-less (is_claimable job_id) (λ j. j.id == job_id) db.jobs claimable_mine in
      find_row_unique (λ j. j.survey_id == survey_id) (is_claimable job_id) db.jobs
        (omega (arith, less, paired.keyed job_id)) found (open_claimable job mine opens)

  -- A job that runs or archives stays in its state.
  resumed-NoMore :
      (js : List Job) (ss : List Survey) (job : Job)
      → Paired js ss
      → find_row (is_claimable job_id) js ≡ some job
      → is_job_queued job.status ≡ false
      → Paired (update_row (is_claimable job_id) (claim_job c now) js) ss
  resumed-NoMore js ss job paired found waits = record {
    keyed = keyed-update (is_claimable job_id) (claim_job c now) js ss paired (λ j. refl);
    running = λ k.
        let counted =
          total-update_row (runs_job k) (is_claimable job_id) (claim_job c now) js found in
        let same : runs_job k (claim_job c now job) ≡ runs_job k job = rw waits refl in
        omega (arith, counted, same, paired.running k);
  }

  claimed_status :
      (job : Job)
      → is_job_queued job.status ≡ true
      → is_job_running (claim_job c now job).status ≡ true
  claimed_status job waits = rw waits refl

  claim_rows-resumed :
      (survey_id : ℕ) (db : Db) (job : Job)
      → Balanced db
      → find_row (λ j. j.survey_id == survey_id) db.jobs ≡ some job
      → (job.id == job_id) ≡ true
      → is_open_job clock job ≡ true
      → is_job_queued job.status ≡ false
      → Balanced (claim_rows c job_id job now db).1
  unfolding claim_rows
  claim_rows-resumed survey_id db job b found mine opens waits =
      let there = claimable-found survey_id db job b.paired found mine opens in
      rw (claim_rows, there)
        (record {
          balance = b.balance;
          agreed = b.agreed;
          paired = resumed-NoMore db.jobs db.surveys job b.paired there waits;
        })

  claim_rows-started :
      (survey_id : ℕ) (db : Db) (l : Locked) (job : Job)
      → Balanced db
      → LockedOf survey_id none db l
      → find_row (λ j. j.survey_id == survey_id) db.jobs ≡ some job
      → (job.id == job_id) ≡ true
      → is_open_job clock job ≡ true
      → is_queued l.survey.status ≡ true
      → Balanced
          (claim_rows c job_id job now (record db {
            surveys = update_row (λ s. s.id == job.survey_id) (run_survey now) db.surveys;
          })).1
  unfolding claim_rows
  claim_rows-started survey_id db l job b lock found mine opens waits =
      let there = claimable-found survey_id db job b.paired found mine opens in
      let own : job.survey_id ≡ survey_id =
        (==_iff job.survey_id survey_id).0
          (find_row-holds (λ j. j.survey_id == survey_id) db.jobs found) in
      let survey_found : find_row (λ s. s.id == job.survey_id) db.surveys ≡ some l.survey =
        rw own lock.found in
      let agrees =
        All-find_row Agrees (λ s. s.id == job.survey_id) db.surveys b.agreed survey_found in
      let (reserved, idle) =
        queued_open l.survey.status (is_reserved l.survey.quota_state) agrees waits in
      let (balance, agreed) =
        updated-Balanced db.usages (λ s. s.id == job.survey_id) (run_survey now) db.surveys
          b.balance b.agreed survey_found (λ u d s. refl) reserved in
      rw (claim_rows, there)
        (record {
          balance = balance;
          agreed = agreed;
          paired =
              started-Paired db.jobs db.surveys (is_claimable job_id) (claim_job c now)
                (run_survey now) b.paired there idle survey_found (λ i. (refl, refl)) (λ s. refl)
                refl;
        })

  refused : (a b : Bool) → (not a || not b) ≡ false → (a ≡ true) × (b ≡ true)
  refused a b h = (ground arith, ground arith)

  claim_locked_job-Balanced :
      (survey_id : ℕ) (found : Option Locked) (db : Db)
      → Balanced db
      → Locks survey_id none db found
      → Balanced (claim_locked_job c job_id clock now found db).1
  unfolding claim_locked_job
  claim_locked_job-Balanced survey_id none db b locks = b
  claim_locked_job-Balanced survey_id (some l) db b locks = elim (Option-cases l.job) [
    | inl no_job ↦ rw (claim_locked_job, no_job) b
    | inr (job, has_job) ↦
        let found : find_row (λ j. j.survey_id == survey_id) db.jobs ≡ some job =
          sym locks.job_row ∙ has_job in
        let P : Option Job × Db → Type 0 = λ p. Balanced p.1 in
        rw (claim_locked_job, has_job)
          (if_cases P (not (job.id == job_id) || not (is_open_job clock job)) _ _ (λ no. b)
            (λ yes.
              let (mine, opens) = refused (job.id == job_id) (is_open_job clock job) yes in
              if_cases P (not (is_job_queued job.status)) _ _
                (λ runs. claim_rows-resumed survey_id db job b found mine opens (ground arith))
                (λ waits.
                  if_cases P (is_queued l.survey.status) _ _
                    (λ queued.
                      claim_rows-started survey_id db l job b locks found mine opens queued)
                    (λ other. b))))
  ]

  pub claim_exact_survey_job-KeepsLedger :
      (db : Db) → Balanced db → KeepsLedger (claim_exact_survey_job c job_id clock now db)
  unfolding claim_exact_survey_job
  claim_exact_survey_job-KeepsLedger db b =
      let P : Option Job × Db → Type 0 = λ p. Balanced p.1 in
      elim (Option-cases (find_row (λ a. a.id == c.attempt_id) db.attempts)) [
        | inl missing ↦ rw (claim_exact_survey_job, missing) b
        | inr (a, found) ↦
            rw (claim_exact_survey_job, found)
              (Ensures-if P (may_claim full_work a.job_id job_id a) _ _
                (λ may. Ensures-bind P (lock_survey_aggregate a.survey_id none db) _ (λ rows at.
                  claim_locked_job-Balanced a.survey_id rows db b (
                    Ensures-at (Locks a.survey_id none db)
                      (lock_survey_aggregate a.survey_id none db)
                      (lock_survey_aggregate-Locks a.survey_id none db) at)))
                (λ may_not. b))
      ]

  claim_rows-Frugal :
      (job : Job) (db after : Db)
      → after.overrides ≡ db.overrides
      → after.usages ≡ db.usages
      → Frugal db (claim_rows c job_id job now after).1
  unfolding claim_rows
  claim_rows-Frugal job db after limits kept =
      elim (Option-cases (find_row (is_claimable job_id) after.jobs)) [
        | inl missing ↦ rw (claim_rows, missing) (unspent db _ limits kept)
        | inr (j, found) ↦ rw (claim_rows, found) (unspent db _ limits kept)
      ]

  claim_locked_job-Frugal :
      (found : Option Locked) (db : Db) → Frugal db (claim_locked_job c job_id clock now found db).1
  unfolding claim_locked_job
  claim_locked_job-Frugal none db = same-Frugal db
  claim_locked_job-Frugal (some l) db = elim (Option-cases l.job) [
    | inl no_job ↦ rw (claim_locked_job, no_job) (same-Frugal db)
    | inr (job, has_job) ↦
        let P : Option Job × Db → Type 0 = λ p. Frugal db p.1 in
        rw (claim_locked_job, has_job)
          (if_cases P (not (job.id == job_id) || not (is_open_job clock job)) _ _
            (λ no. same-Frugal db)
            (λ yes.
              if_cases P (not (is_job_queued job.status)) _ _
                (λ runs. claim_rows-Frugal job db db refl refl)
                (λ waits.
                  if_cases P (is_queued l.survey.status) _ _
                    (λ queued. claim_rows-Frugal job db _ refl refl) (λ other. same-Frugal db))))
  ]

  pub claim_exact_survey_job-Frugal :
      (db : Db) → KeepsLimit db (claim_exact_survey_job c job_id clock now db)
  unfolding claim_exact_survey_job
  claim_exact_survey_job-Frugal db =
      let P : Option Job × Db → Type 0 = λ p. Frugal db p.1 in
      elim (Option-cases (find_row (λ a. a.id == c.attempt_id) db.attempts)) [
        | inl missing ↦ rw (claim_exact_survey_job, missing) (same-Frugal db)
        | inr (a, found) ↦
            rw (claim_exact_survey_job, found)
              (Ensures-if P (may_claim full_work a.job_id job_id a) _ _
                (λ may.
                  Ensures-bind P (lock_survey_aggregate a.survey_id none db) _
                    (λ rows at. claim_locked_job-Frugal rows db))
                (λ may_not. same-Frugal db))
      ]
