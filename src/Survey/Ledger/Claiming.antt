-- ===== src/Survey/Ledger/Claiming.antt =====
-- Claims and leases keep the ledger of the daily quota, and a claim stays within both limits.
use scholight.Prelude.{
  ℕ, ◌≡◌, refl, ◌∙◌, ap, Bool, true, false, not, ◌||◌, Option, none, some, List, [], ◌∷◌, ◌==◌,
  ==_refl, ltb, leb, if◌then◌else◌, All, arith, Bool-cases, inl, inr,
}
use mathlib.Core.Option
use scholight.Prelude.Rows.{find_row, All-find_row}
use scholight.Prelude.Queries.{keyed-All, All-rows_where, All-order_by, All-take}
use scholight.Survey.Tables.{
  SurveyStatus, drafting, queued, running, archiving, succeeded, failed, cancelled, JobStatus,
  job_queued, job_running, job_archiving, job_finished, Survey, Job, Db,
}
use scholight.Survey.Lifecycle.{is_reserved, is_queued, is_running, is_archiving, is_terminal}
use scholight.Survey.Claim.{
  Candidate, of_user, is_candidate, join_candidate, candidates_of, fair_before, leased_of,
  null_or_due, survey_of, fair_candidates, run_survey, run_job, lease_archive, take_at,
  other_leased, leased_jobs, claim_found, claim_candidate, first_claimed, claim_first,
  claim_survey_job,
}
use scholight.Survey.Ledger.Paired.{Paired, update-NoMore}
use scholight.Survey.Ledger.Pairing.{started-Paired}
use scholight.Survey.Ledger.Ending.{Agrees, Balanced, updated-Balanced}
use scholight.Survey.Ledger.Recovering.{jobs-Balanced}

-- What holds of the tables after a claim, where there is one.
abbrev pub Claims : (Db → Type 0) → Option Db → Type 0
Claims P none = Unit
Claims P (some db) = P db

pub Claims-if :
    (P : Db → Type 0) (b : Bool) (o : Option Db)
    → (b ≡ true → Claims P o)
    → Claims P (if b then o else none)
Claims-if P true o h = h refl
Claims-if P false o h = tt

pub queued_open :
    (status : SurveyStatus) (b : Bool)
    → b ≡ not (is_terminal status || is_archiving status)
    → is_queued status ≡ true
    → (b ≡ true) × (is_running status ≡ false)
queued_open queued b agrees h = (agrees, refl)
queued_open drafting b agrees h = cc
queued_open running b agrees h = cc
queued_open archiving b agrees h = cc
queued_open succeeded b agrees h = cc
queued_open failed b agrees h = cc
queued_open cancelled b agrees h = cc

-- A candidate is a row of the tables, and its user the one of its survey.
abbrev pub Fresh : Db → Candidate → Type 0
Fresh db c =
    (find_row (λ j. j.id == c.job.id) db.jobs ≡ some c.job)
    × (of_user c.user_id (survey_of db c.job) ≡ true)

join_candidate-Fresh :
    (db : Db) (j : Job) (s : Option Survey) (rest : List Candidate)
    → find_row (λ i. i.id == j.id) db.jobs ≡ some j
    → survey_of db j ≡ s
    → All (Fresh db) rest
    → All (Fresh db) (join_candidate j s rest)
join_candidate-Fresh db j none rest found at h = h
join_candidate-Fresh db j (some s) rest found at h =
    ((found, ap (of_user s.user_id) at ∙ ==_refl s.user_id), h)

candidates_of-Fresh :
    (now : ℕ) (db : Db) (js : List Job)
    → All (λ j. find_row (λ i. i.id == j.id) db.jobs ≡ some j) js
    → All (Fresh db) (candidates_of now db js)
candidates_of-Fresh now db [] h = tt
candidates_of-Fresh now db (j ∷ js) h = elim (Bool-cases (is_candidate now j)) [
  | inl waits ↦
      rw waits
        (join_candidate-Fresh db j (survey_of db j) _ h.0 refl (candidates_of-Fresh now db js h.1))
  | inr passed ↦ rw passed (candidates_of-Fresh now db js h.1)
]

pub fair_candidates-Fresh :
    (per_user now : ℕ) (db : Db)
    → Paired db.jobs db.surveys
    → All (Fresh db) (fair_candidates per_user now db)
fair_candidates-Fresh per_user now db paired =
    let cs : List Candidate = candidates_of now db db.jobs in
    All-take (Fresh db) 32 _ (
      All-order_by (Fresh db) (fair_before cs) _ (
        All-rows_where (Fresh db) (λ c. ltb (leased_of c.user_id now db) per_user) cs
          (candidates_of-Fresh now db db.jobs (keyed-All (λ j. j.id) db.jobs paired.keyed))))

pub first_claimed-Claims :
    (P : Db → Type 0) (c : Candidate) (o : Option Db) (rest : Option (ℕ × Db))
    → Claims P o
    → Claims P (Option.map (λ r. r.1) rest)
    → Claims P (Option.map (λ r. r.1) (first_claimed c o rest))
first_claimed-Claims P c none rest one more = more
first_claimed-Claims P c (some after) rest one more = one

module _ (P : Db → Type 0) (worker lease per_user now : ℕ) (db : Db) where
  -- What every claim of a candidate leads to.
  pub claim_first-Claims :
      (cs : List Candidate)
      → ((c : Candidate) → Fresh db c → Claims P (claim_candidate worker lease per_user now c db))
      → All (Fresh db) cs
      → Claims P (Option.map (λ r. r.1) (claim_first worker lease per_user now cs db))
  unfolding claim_first
  claim_first-Claims [] h fresh = tt
  claim_first-Claims (c ∷ cs) h fresh =
      first_claimed-Claims P c (claim_candidate worker lease per_user now c db) _ (h c fresh.0)
        (claim_first-Claims cs h fresh.1)

  pub claim_survey_job-Claims :
      (global : ℕ)
      → Paired db.jobs db.surveys
      → (leb global (leased_jobs now db) ≡ false
          → (c : Candidate) → Fresh db c
          → Claims P (claim_candidate worker lease per_user now c db))
      → Claims P (Option.map (λ r. r.1) (claim_survey_job worker lease global per_user now db))
  unfolding claim_survey_job
  claim_survey_job-Claims global paired h = elim (Bool-cases (leb global (leased_jobs now db))) [
    | inl full ↦ rw full tt
    | inr room ↦
        rw room (claim_first-Claims _ (h room) (fair_candidates-Fresh per_user now db paired))
  ]

take_at-Balanced :
    (status : JobStatus) (worker lease now : ℕ) (c : Candidate) (job : Job) (survey : Survey)
    (db : Db)
    → Balanced db
    → find_row (λ j. j.id == c.job.id) db.jobs ≡ some c.job
    → find_row (λ s. s.id == c.job.survey_id) db.surveys ≡ some survey
    → Claims Balanced (take_at status worker lease now c job survey db)
take_at-Balanced job_queued worker lease now c job survey db b job_found found =
    Claims-if Balanced (is_queued survey.status) _ (λ waits.
      let agrees = All-find_row Agrees (λ s. s.id == c.job.survey_id) db.surveys b.agreed found in
      let (reserved, idle) =
        queued_open survey.status (is_reserved survey.quota_state) agrees waits in
      let (balance, agreed) =
        updated-Balanced db.usages (λ s. s.id == c.job.survey_id) (run_survey now) db.surveys
          b.balance b.agreed found (λ u d s. refl) reserved in
      record {
        balance = balance;
        agreed = agreed;
        paired =
            started-Paired db.jobs db.surveys (λ j. j.id == c.job.id) (run_job worker lease now)
              (run_survey now) b.paired job_found idle found (λ i. (refl, refl)) (λ s. refl) refl;
      })
take_at-Balanced job_archiving worker lease now c job survey db b job_found found =
    Claims-if Balanced (null_or_due job.lease_expires_at now) _ (λ is_due. jobs-Balanced db _ b (
      update-NoMore (λ j. j.id == c.job.id) (lease_archive worker lease now) db.jobs
        (λ j. (refl, λ k. omega arith))))
take_at-Balanced job_running worker lease now c job survey db b job_found found = tt
take_at-Balanced job_finished worker lease now c job survey db b job_found found = tt

pub Claims-else :
    (P : Db → Type 0) (b : Bool) (o : Option Db)
    → (b ≡ false → Claims P o)
    → Claims P (if b then none else o)
Claims-else P true o h = tt
Claims-else P false o h = h refl

claim_found-Balanced :
    (worker lease per_user now : ℕ) (c : Candidate) (survey : Option Survey) (job : Option Job)
    (db : Db)
    → Balanced db
    → Fresh db c
    → survey_of db c.job ≡ survey
    → Claims Balanced (claim_found worker lease per_user now c survey job db)
claim_found-Balanced worker lease per_user now c none job db b fresh found = tt
claim_found-Balanced worker lease per_user now c (some survey) none db b fresh found = tt
claim_found-Balanced worker lease per_user now c (some survey) (some job) db b fresh found =
    Claims-else Balanced (leb per_user (other_leased c.user_id c.job.id now db)) _
      (λ room. take_at-Balanced job.status worker lease now c job survey db b fresh.0 found)

pub claim_survey_job-Balanced :
    (worker lease global per_user now : ℕ) (db : Db)
    → Balanced db
    → Claims Balanced (Option.map (λ r. r.1) (claim_survey_job worker lease global per_user now db))
unfolding claim_candidate
claim_survey_job-Balanced worker lease global per_user now db b =
    claim_survey_job-Claims Balanced worker lease per_user now db global b.paired (λ room c fresh.
      claim_found-Balanced worker lease per_user now c (survey_of db c.job) _ db b fresh refl)
