-- ===== src/Survey/Claim.antt =====
-- `claim_survey_job` of scholight/db/queries_survey.py: the next job for a worker, fair to the users.
pub mod Capacity
use scholight.Prelude.{
  ℕ, zero, suc, ◌+◌, Bool, true, false, not, ◌&&◌, ◌||◌, Option, none, some, List, [], ◌∷◌, ◌==◌,
  ltb, leb, if◌then◌else◌, total, take, length,
}
use scholight.Prelude.Text.{codes}
use scholight.Prelude.Rows.{order_by, find_row, rows_where, update_row}
use scholight.Survey.Tables.{
  running, JobStatus, job_queued, job_running, job_archiving, job_finished, Survey, Job, Db,
  coalesce, is_null,
}
use scholight.Survey.Lifecycle.{is_queued, is_job_queued, is_job_running, is_job_archiving}

-- `x IS NULL OR x <= now`
abbrev pub null_or_due : Option ℕ → ℕ → Bool
null_or_due none now = true
null_or_due (some t) now = leb t now

-- `status IN ('running', 'archiving') AND lease_owner IS NOT NULL AND lease_expires_at > now()`
abbrev pub is_leased : ℕ → Job → Bool
is_leased now j =
    (is_job_running j.status || is_job_archiving j.status)
    && not (is_null j.lease_owner)
    && not (null_or_due j.lease_expires_at now)

-- `JOIN scholight.surveys s ON s.id = j.survey_id`
abbrev pub survey_of : Db → Job → Option Survey
survey_of db j = find_row (λ s. s.id == j.survey_id) db.surveys

abbrev pub of_user : ℕ → Option Survey → Bool
of_user user none = false
of_user user (some s) = s.user_id == user

-- The leased jobs of all users, and of one user.
abbrev pub leased_jobs : ℕ → Db → ℕ
leased_jobs now db = length (rows_where (is_leased now) db.jobs)

abbrev pub leased_of : ℕ → ℕ → Db → ℕ
leased_of user now db =
    length (rows_where (λ j. is_leased now j && of_user user (survey_of db j)) db.jobs)

abbrev pub is_candidate : ℕ → Job → Bool
is_candidate now j =
    is_job_queued j.status
    || is_job_archiving j.status
      && null_or_due j.next_archive_at now
      && null_or_due j.lease_expires_at now

pub record Candidate : Type 0 where
  pub job : Job
  pub user_id : ℕ

abbrev pub join_candidate : Job → Option Survey → List Candidate → List Candidate
join_candidate j none rest = rest
join_candidate j (some s) rest = record { job = j; user_id = s.user_id } ∷ rest

abbrev pub candidates_of : ℕ → Db → List Job → List Candidate
candidates_of now db [] = []
candidates_of now db (j ∷ js) =
    let rest = candidates_of now db js in
    if is_candidate now j then join_candidate j (survey_of db j) rest else rest

-- `CASE WHEN j.status = 'archiving' THEN 0 ELSE 1 END`
abbrev pub turn_class : Job → ℕ
turn_class j = if is_job_archiving j.status then 0 else 1

abbrev pub queue_before : Job → Job → Bool
queue_before a b = ltb a.queued_at b.queued_at || a.queued_at == b.queued_at && ltb a.id b.id

abbrev pub turn_before : Job → Job → Bool
turn_before a b =
    ltb (turn_class a) (turn_class b) || turn_class a == turn_class b && queue_before a b

-- `row_number() OVER (PARTITION BY s.user_id ORDER BY ...)`
abbrev pub turn_of : List Candidate → Candidate → ℕ
turn_of cs c = suc (length (rows_where (λ d. d.user_id == c.user_id && turn_before d.job c.job) cs))

-- `ORDER BY c.turn, c.queued_at, c.id`
abbrev pub fair_before : List Candidate → Candidate → Candidate → Bool
fair_before cs a b =
    ltb (turn_of cs a) (turn_of cs b) || turn_of cs a == turn_of cs b && queue_before a.job b.job

abbrev pub fair_candidates : ℕ → ℕ → Db → List Candidate
fair_candidates per_user now db =
    let cs = candidates_of now db db.jobs in
    take 32
      (order_by (fair_before cs) (rows_where (λ c. ltb (leased_of c.user_id now db) per_user) cs))

abbrev pub run_survey : ℕ → Survey → Survey
run_survey now s = record s {
  status = running;
  started_at = coalesce s.started_at now;
  updated_at = now;
}

abbrev pub run_job : ℕ → ℕ → ℕ → Job → Job
run_job worker lease now j = record j {
  status = job_running;
  lease_owner = some worker;
  lease_expires_at = some (now + lease);
  heartbeat_at = some now;
  started_at = coalesce j.started_at now;
  progress_stage = codes "planning";
}

abbrev pub lease_archive : ℕ → ℕ → ℕ → Job → Job
lease_archive worker lease now j = record j {
  lease_owner = some worker;
  lease_expires_at = some (now + lease);
  heartbeat_at = some now;
}

abbrev pub start_run : ℕ → ℕ → ℕ → Candidate → Db → Db
start_run worker lease now c db = record db {
  surveys = update_row (λ s. s.id == c.job.survey_id) (run_survey now) db.surveys;
  jobs = update_row (λ j. j.id == c.job.id) (run_job worker lease now) db.jobs;
}

abbrev pub resume_archive : ℕ → ℕ → ℕ → Candidate → Db → Db
resume_archive worker lease now c db = record db {
  jobs = update_row (λ j. j.id == c.job.id) (lease_archive worker lease now) db.jobs;
}

-- The writes on a candidate that its user has room for; none where it is passed over.
abbrev pub take_at : JobStatus → ℕ → ℕ → ℕ → Candidate → Job → Survey → Db → Option Db
take_at job_queued worker lease now c job survey db =
    if is_queued survey.status then some (start_run worker lease now c db) else none
take_at job_archiving worker lease now c job survey db =
    if null_or_due job.lease_expires_at now
    then some (resume_archive worker lease now c db)
    else none
take_at job_running worker lease now c job survey db = none
take_at job_finished worker lease now c job survey db = none

-- The leased jobs of a user but one.
abbrev pub other_leased : ℕ → ℕ → ℕ → Db → ℕ
other_leased user job_id now db = length (
    rows_where (λ j. not (j.id == job_id) && is_leased now j && of_user user (survey_of db j))
      db.jobs)

abbrev pub claim_found : ℕ → ℕ → ℕ → ℕ → Candidate → Option Survey → Option Job → Db → Option Db
claim_found worker lease per_user now c none job db = none
claim_found worker lease per_user now c (some survey) none db = none
claim_found worker lease per_user now c (some survey) (some job) db =
    if leb per_user (other_leased c.user_id c.job.id now db)
    then none
    else take_at job.status worker lease now c job survey db

-- One round of the loop over the candidates.
unfoldable pub claim_candidate : ℕ → ℕ → ℕ → ℕ → Candidate → Db → Option Db
claim_candidate worker lease per_user now c db =
    claim_found worker lease per_user now c (survey_of db c.job)
      (find_row (λ j. j.id == c.job.id) db.jobs) db

abbrev pub first_claimed : Candidate → Option Db → Option (ℕ × Db) → Option (ℕ × Db)
first_claimed c none rest = rest
first_claimed c (some after) rest = some (c.job.id, after)

unfoldable pub claim_first : ℕ → ℕ → ℕ → ℕ → List Candidate → Db → Option (ℕ × Db)
unfolding claim_candidate
claim_first worker lease per_user now [] db = none
claim_first worker lease per_user now (c ∷ cs) db =
    first_claimed c (claim_candidate worker lease per_user now c db)
      (claim_first worker lease per_user now cs db)

-- `claim_survey_job`: the id of the claimed job and the tables, or none.
unfoldable pub claim_survey_job : ℕ → ℕ → ℕ → ℕ → ℕ → Db → Option (ℕ × Db)
unfolding claim_first
claim_survey_job worker lease global per_user now db =
    if leb global (leased_jobs now db)
    then none
    else claim_first worker lease per_user now (fair_candidates per_user now db) db
