-- ===== src/Survey/Claim/Capacity.antt =====
-- What a claim leaves of the capacity: all the leased jobs, and those of one user.
use mathlib.Core.Option
use scholight.Prelude.{
  ℕ, ◌+◌, ◌≡◌, ◌≤◌, ◌<◌, max, refl, ◌∙◌, ap, Bool, true, false, not, ◌&&◌, Option, none, some, List,
  [], ◌∷◌, ◌==◌, ==_iff, leb, if◌then◌else◌, arith, Bool-cases, inl, inr,
}
use scholight.Prelude.Rows.{find_row, update_row, total-update_row}
use scholight.Prelude.Keys.{row_count, find_row-update_row}
use scholight.Prelude.Queries.{length-rows_where}
use scholight.Survey.Tables.{
  JobStatus, job_queued, job_running, job_archiving, job_finished, Survey, Job, Db,
}
use scholight.Survey.Lifecycle.{is_queued}
use scholight.Survey.Claim.{
  Candidate, of_user, survey_of, is_leased, leased_jobs, leased_of, other_leased, null_or_due,
  run_survey, run_job, lease_archive, start_run, resume_archive, take_at, claim_found,
  claim_candidate, claim_survey_job,
}
use scholight.Survey.Ledger.Paired.{Paired}
use scholight.Survey.Ledger.Claiming.{
  Claims, Claims-if, Claims-else, Fresh, claim_survey_job-Claims,
}

row_count-split :
    {A : Type 0} (p w v : A → Bool) (xs : List A)
    → ((x : A) → p x ≡ false → w x ≡ v x)
    → row_count w xs ≤ row_count p xs + row_count v xs
row_count-split p w v [] same = omega arith
row_count-split p w v (x ∷ xs) same =
    let rest = row_count-split p w v xs same in
    elim (Bool-cases (p x)) [
      | inl hit ↦
          let most : (if w x then 1 else 0) ≤ 1 = ground arith in rw hit (omega (arith, rest, most))
      | inr miss ↦ rw (miss, same x miss) (omega (arith, rest))
    ]

-- An update of one row against a count that passes the row over.
update_row-other :
    {A : Type 0} (p w v : A → Bool) (g : A → A) (xs : List A)
    → ((x : A) → p x ≡ false → w x ≡ v x)
    → row_count w (update_row p g xs) ≤ row_count p xs + row_count v xs
update_row-other p w v g [] same = omega arith
update_row-other p w v g (x ∷ xs) same = elim (Bool-cases (p x)) [
  | inl hit ↦
      let most : (if w (g x) then 1 else 0) ≤ 1 = ground arith in
      rw hit (omega (arith, row_count-split p w v xs same, most))
  | inr miss ↦ rw (miss, same x miss) (omega (arith, update_row-other p w v g xs same))
]

row_count-cong :
    {A : Type 0} (w v : A → Bool) (xs : List A)
    → ((x : A) → w x ≡ v x)
    → row_count w xs ≡ row_count v xs
row_count-cong w v [] same = refl
row_count-cong w v (x ∷ xs) same = rw (same x, row_count-cong w v xs same) refl

-- The user of a job's survey, before and after the survey was set to run.
run_survey-user :
    (user now m : ℕ) (db : Db) (js : List Job) (j : Job) {x : Survey}
    → find_row (λ s. s.id == m) db.surveys ≡ some x
    → of_user user (
        survey_of
          (record db {
            surveys = update_row (λ s. s.id == m) (run_survey now) db.surveys;
            jobs = js;
          })
          j)
      ≡ of_user user (survey_of db j)
run_survey-user user now m db js j {x} found =
    let after =
      find_row-update_row (λ s. s.id) m j.survey_id (run_survey now) db.surveys (λ s. refl) found in
    elim (Bool-cases (m == j.survey_id)) [
      | inl one ↦
          let e : m ≡ j.survey_id = (==_iff m j.survey_id).0 one in
          let before : survey_of db j ≡ some x = rw e at found in
          let there = rw one at after in rw (there, before) refl
      | inr two ↦ let there = rw two at after in rw there refl
    ]

-- The limits after a claim: all leased jobs within the global one, and no user above its own by the claim.
abbrev pub WithinCapacity : ℕ → ℕ → ℕ → Db → Db → Type 0
WithinCapacity global per_user now db after =
    (leased_jobs now after ≤ global)
    × ((user : ℕ) → leased_of user now after ≤ max per_user (leased_of user now db))

other_user :
    (a b : ℕ) (o : Option Survey) → of_user a o ≡ true → (a == b) ≡ false → of_user b o ≡ false
other_user a b none h k = cc
other_user a b (some s) h k = ground arith

module _ (global per_user now : ℕ) (db : Db) (c : Candidate) (g : Job → Job) (after : Db) where
  capacity_left :
      Paired db.jobs db.surveys
      → Fresh db c
      → (leb global (leased_jobs now db) ≡ false)
      → (leb per_user (other_leased c.user_id c.job.id now db) ≡ false)
      → (after.jobs ≡ update_row (λ j. j.id == c.job.id) g db.jobs)
      → ((user : ℕ) (j : Job) → of_user user (survey_of after j) ≡ of_user user (survey_of db j))
      → (g c.job).survey_id ≡ c.job.survey_id
      → WithinCapacity global per_user now db after
  capacity_left paired fresh room user_room written users same_survey = (
    (let count =
          total-update_row (λ j. if is_leased now j then 1 else 0) (λ j. j.id == c.job.id) g db.jobs
            fresh.0 in
        let most : (if is_leased now (g c.job) then 1 else 0) ≤ 1 = ground arith in
        let before = length-rows_where (is_leased now) db.jobs in
        let then_all : leased_jobs now after
            ≡ row_count (is_leased now) (update_row (λ j. j.id == c.job.id) g db.jobs) =
          length-rows_where (is_leased now) after.jobs ∙ ap (row_count (is_leased now)) written in
        let below : leased_jobs now db < global = ground arith in
        omega (arith, count, most, before, then_all, below)),
    λ user.
        let w : Job → Bool = λ j. is_leased now j && of_user user (survey_of after j) in
        let count : leased_of user now after
            ≡ row_count w (update_row (λ j. j.id == c.job.id) g db.jobs) =
          length-rows_where w after.jobs ∙ ap (row_count w) written in
        elim (Bool-cases (c.user_id == user)) [
          | inl own ↦
              let v : Job → Bool = λ j.
                not (j.id == c.job.id) && is_leased now j && of_user c.user_id (survey_of db j) in
              let e : c.user_id ≡ user = (==_iff c.user_id user).0 own in
              let bound =
                update_row-other (λ j. j.id == c.job.id) w v g db.jobs
                  (λ x miss. rw (miss, users user x, e) refl) in
              let others : other_leased c.user_id c.job.id now db ≡ row_count v db.jobs =
                length-rows_where v db.jobs in
              let less : other_leased c.user_id c.job.id now db < per_user = ground arith in
              omega (arith, count, bound, others, less, paired.keyed c.job.id)
          | inr stranger ↦
              let before : leased_of user now db ≡ row_count w db.jobs =
                length-rows_where (λ j. is_leased now j && of_user user (survey_of db j)) db.jobs
                ∙ row_count-cong (λ j. is_leased now j && of_user user (survey_of db j)) w db.jobs
                    (λ j. rw (users user j) refl) in
              let bound =
                total-update_row (λ j. if w j then 1 else 0) (λ j. j.id == c.job.id) g db.jobs
                  fresh.0 in
              let same : survey_of db (g c.job) ≡ survey_of db c.job =
                ap (λ k. find_row (λ s. s.id == k) db.surveys) same_survey in
              let not_mine : of_user user (survey_of after (g c.job)) ≡ false =
                users user (g c.job)
                ∙ ap (of_user user) same
                ∙ other_user c.user_id user (survey_of db c.job) fresh.1 stranger in
              let no_gain : (if w (g c.job) then 1 else 0) ≤ 0 = ground arith in
              omega (arith, count, bound, before, no_gain)
        ],
  )

module _ (worker lease global per_user now : ℕ) (db : Db) where
  take_at-WithinCapacity :
      (status : JobStatus) (c : Candidate) (job : Job) (survey : Survey)
      → Paired db.jobs db.surveys
      → Fresh db c
      → survey_of db c.job ≡ some survey
      → (leb global (leased_jobs now db) ≡ false)
      → (leb per_user (other_leased c.user_id c.job.id now db) ≡ false)
      → Claims
          (WithinCapacity global per_user now db)
          (take_at status worker lease now c job survey db)
  take_at-WithinCapacity job_queued c job survey paired fresh found room user_room =
      Claims-if (WithinCapacity global per_user now db) (is_queued survey.status) _ (λ waits.
        capacity_left global per_user now db c (run_job worker lease now)
          (start_run worker lease now c db) paired fresh room user_room refl
          (λ user j.
            run_survey-user user now c.job.survey_id db (start_run worker lease now c db).jobs j
              found)
          refl)
  take_at-WithinCapacity job_archiving c job survey paired fresh found room user_room =
      Claims-if (WithinCapacity global per_user now db) (null_or_due job.lease_expires_at now) _
        (λ is_due.
          capacity_left global per_user now db c (lease_archive worker lease now)
            (resume_archive worker lease now c db) paired fresh room user_room refl (λ user j. refl)
            refl)
  take_at-WithinCapacity job_running c job survey paired fresh found room user_room = tt
  take_at-WithinCapacity job_finished c job survey paired fresh found room user_room = tt

  claim_found-WithinCapacity :
      (c : Candidate) (survey : Option Survey) (job : Option Job)
      → Paired db.jobs db.surveys
      → Fresh db c
      → survey_of db c.job ≡ survey
      → (leb global (leased_jobs now db) ≡ false)
      → Claims
          (WithinCapacity global per_user now db)
          (claim_found worker lease per_user now c survey job db)
  claim_found-WithinCapacity c none job paired fresh found room = tt
  claim_found-WithinCapacity c (some survey) none paired fresh found room = tt
  claim_found-WithinCapacity c (some survey) (some job) paired fresh found room =
      Claims-else (WithinCapacity global per_user now db)
        (leb per_user (other_leased c.user_id c.job.id now db)) _
        (λ user_room.
          take_at-WithinCapacity job.status c job survey paired fresh found room user_room)

-- A claim that finds a job leaves at most the global limit of leased jobs, and brings no user above
-- its own limit: a user has afterwards at most that many, or no more than before.
pub claim_survey_job-WithinCapacity :
    (worker lease global per_user now : ℕ) (db : Db)
    → Paired db.jobs db.surveys
    → Claims
        (WithinCapacity global per_user now db)
        (Option.map (λ r. r.1) (claim_survey_job worker lease global per_user now db))
unfolding claim_candidate
claim_survey_job-WithinCapacity worker lease global per_user now db paired =
    claim_survey_job-Claims (WithinCapacity global per_user now db) worker lease per_user now db
      global paired
      (λ room c fresh.
        claim_found-WithinCapacity worker lease global per_user now db c (survey_of db c.job) _
          paired fresh refl room)
