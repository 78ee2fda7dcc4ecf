-- ===== src/Survey/Ledger/Locks.antt =====
-- What a transaction knows of the rows that it has locked.
use scholight.Prelude.{
  ℕ, ◌≡◌, refl, true, Option, none, some, ◌==◌, ==_iff, Bool-cases, Option-cases, inl, inr,
}
use scholight.Prelude.Result.{
  Result, ok, err, ◌>>=◌, or_raise, Ensures, Ensures-bind, Ensures-or_raise, Ensures-require,
  Ensures-at,
}
use scholight.Prelude.Rows.{find_row, rows_where, find_row-holds}
use scholight.Survey.Tables.{
  Usage, Survey, Job, Db, Error, of_usage, Locked, lock_survey_aggregate, owned_by,
  quota_row_missing,
}
use scholight.Survey.Settle.{lock_job}

pub record LockedOf (survey_id : ℕ) (user : Option ℕ) (db : Db) (l : Locked) : Type 0 where
  pub found : find_row (λ s. s.id == survey_id) db.surveys ≡ some l.survey
  pub same_id : l.survey.id ≡ survey_id
  pub owner : owned_by user l.survey ≡ true
  pub usage_row : find_row (of_usage l.survey.user_id l.survey.quota_date) db.usages ≡ some l.usage
  pub job_row : l.job ≡ find_row (λ j. j.survey_id == survey_id) db.jobs
  pub draft_rows : l.drafts ≡ rows_where (λ d. d.survey_id == survey_id) db.drafts

abbrev pub Locks : ℕ → Option ℕ → Db → Option Locked → Type 0
Locks survey_id user db none = Unit
Locks survey_id user db (some l) = LockedOf survey_id user db l

abbrev locked_rows : ℕ → Db → Survey → Option Usage → Result Error (Option Locked)
locked_rows survey_id db survey none = err quota_row_missing
locked_rows survey_id db survey (some usage) = ok (
    some (record {
      survey = survey;
      usage = usage;
      job = find_row (λ j. j.survey_id == survey_id) db.jobs;
      drafts = rows_where (λ d. d.survey_id == survey_id) db.drafts;
    }))

locked_rows-Locks :
    (survey_id : ℕ) (user : Option ℕ) (db : Db) (survey : Survey)
    → find_row (λ s. s.id == survey_id) db.surveys ≡ some survey
    → owned_by user survey ≡ true
    → (usage : Option Usage)
    → find_row (of_usage survey.user_id survey.quota_date) db.usages ≡ usage
    → Ensures (Locks survey_id user db) (locked_rows survey_id db survey usage)
locked_rows-Locks survey_id user db survey found mine none counted = tt
locked_rows-Locks survey_id user db survey found mine (some r) counted = record {
  found = found;
  same_id =
      (==_iff survey.id survey_id).0 (find_row-holds (λ s. s.id == survey_id) db.surveys found);
  owner = mine;
  usage_row = counted;
  job_row = refl;
  draft_rows = refl;
}

pub lock_survey_aggregate-Locks :
    (survey_id : ℕ) (user : Option ℕ) (db : Db)
    → Ensures (Locks survey_id user db) (lock_survey_aggregate survey_id user db)
unfolding lock_survey_aggregate
lock_survey_aggregate-Locks survey_id user db =
    elim (Option-cases (find_row (λ s. s.id == survey_id) db.surveys)) [
      | inl missing ↦ rw (lock_survey_aggregate, missing) tt
      | inr (survey, found) ↦
          rw (lock_survey_aggregate, found)
            (elim (Bool-cases (owned_by user survey)) [
              | inr stranger ↦ rw stranger tt
              | inl mine ↦ rw mine (locked_rows-Locks survey_id user db survey found mine _ refl)
            ])
    ]

module _ {ℓ} {B : Type 0} (P : B → Type ℓ) where
  -- A transaction that locks a survey and goes on with its rows.
  pub Ensures-locked :
      (survey_id : ℕ) (user : Option ℕ) (db : Db) (e : Error) (k : Locked → Result Error B)
      → ((l : Locked) → LockedOf survey_id user db l → Ensures P (k l))
      → Ensures P (lock_survey_aggregate survey_id user db >>= λ found. or_raise found e >>= k)
  Ensures-locked survey_id user db e k h =
      Ensures-bind P (lock_survey_aggregate survey_id user db) (λ found. or_raise found e >>= k)
        (λ found at. Ensures-or_raise P found e k (λ l some_locked.
          let locks : Locks survey_id user db found =
            Ensures-at (Locks survey_id user db) (lock_survey_aggregate survey_id user db)
              (lock_survey_aggregate-Locks survey_id user db) at in
          h l (rw some_locked at locks)))

-- The rows of a job that a transaction has locked.
pub record JobLocked (job_id : ℕ) (db : Db) (r : Job × Locked) : Type 0 where
  pub job_found : find_row (λ j. j.id == job_id) db.jobs ≡ some r.0
  pub lock : LockedOf r.0.survey_id none db r.1

pub lock_job-JobLocked :
    (job_id : ℕ) (e : Error) (db : Db) → Ensures (JobLocked job_id db) (lock_job job_id e db)
unfolding lock_job
lock_job-JobLocked job_id e db =
    Ensures-or_raise (JobLocked job_id db) (find_row (λ j. j.id == job_id) db.jobs) e _
      (λ job found. Ensures-locked (JobLocked job_id db) job.survey_id none db e _ (λ l lock.
        Ensures-or_raise (JobLocked job_id db) l.job e _ (λ mine at.
          Ensures-require (JobLocked job_id db) (mine.id == job_id) e _
            (λ same. record { job_found = found; lock = lock }))))
