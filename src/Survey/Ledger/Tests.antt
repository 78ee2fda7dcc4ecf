-- ===== src/Survey/Ledger/Tests.antt =====
-- A survey from its request to its archive, and the theorems at it.
use mathlib.Core.Option
use scholight.Prelude.{
  ℕ, ◌≡◌, ◌≤◌, refl, true, false, Option, none, List, [], ◌∷◌, All, arith, if◌then◌else◌,
}
use scholight.Prelude.Text.{Text, codes, text_eq}
use scholight.Prelude.Result.{ok, err, ◌>>=◌, ◌>>◌, require, or_raise}
use scholight.Survey.Tables.{
  lock_survey_aggregate, cancelled, idempotency_conflict, Survey, Db, SurveyStatus, running,
}
use scholight.Survey.Lifecycle.{
  create_survey, create_with, fresh_survey, fresh_draft, release_reservation,
}
use scholight.Survey.Lifecycle.Again.{create_survey-create_survey}
use scholight.Survey.Start.{start_survey, start_locked, start_drafted}
use scholight.Survey.Cancel.{
  cancel_survey, cancel_locked, cancel_queued, cancel_running, without_job,
}
use scholight.Survey.Leases.{heartbeat_survey_job}
use scholight.Survey.Claim.{claim_survey_job, claim_first, claim_candidate}
use scholight.Survey.Claim.Capacity.{WithinCapacity, claim_survey_job-WithinCapacity}
use scholight.Survey.Ledger.Claiming.{Claims}
use scholight.Survey.Ledger.{counted_in, reservations}
use scholight.Survey.Ledger.Limit.{spent}
use scholight.Survey.Ledger.Paired.{running_jobs, runs_in}
use scholight.Survey.Ledger.Ending.{Agrees}
use scholight.Survey.Drafts.{complete_survey_draft}
use scholight.Survey.Drafts.Claim.{claim_survey_draft}
use scholight.Survey.Ledger.WorkCalls.{claim_draft, complete}
use scholight.Survey.Ledger.System.{
  Call, create, start, claim, heartbeat, cancel, work, run_all, empty_tables, quota_ledger,
  run_all-Balanced, empty-Balanced,
}
use scholight.Survey.Ledger.Daily.{daily_limit}

abbrev hash : Text
hash = codes "ab12"

abbrev no_overrides : ℕ → Option ℕ
no_overrides user = none

-- Two requests of user 7, of which the first is started and claimed, the second cancelled.
abbrev calls : List Call
calls =
    create 1 10 7 5 hash 20 2 100
    ∷ create 2 11 7 6 hash 20 2 101
    ∷ create 3 12 7 8 hash 20 2 102
    ∷ work (claim_draft 51 60 4 2 103)
    ∷ work (complete 10 51 (codes "# Draft") 105)
    ∷ start 1 7 30 9 hash false 110
    ∷ claim 50 60 4 2 120
    ∷ heartbeat 30 50 60 130
    ∷ cancel 2 7 140
    ∷ []

abbrev statuses : List Survey → List SurveyStatus
statuses [] = []
statuses (s ∷ ss) = s.status ∷ statuses ss

calls-statuses :
    statuses (run_all calls (empty_tables no_overrides)).surveys ≡ cancelled ∷ running ∷ []
unfolding ◌>>=◌ ◌>>◌ require or_raise create_survey create_with start_survey start_locked
    start_drafted claim_survey_job claim_first claim_candidate heartbeat_survey_job cancel_survey
    cancel_locked cancel_queued cancel_running without_job release_reservation lock_survey_aggregate
    complete_survey_draft claim_survey_draft
calls-statuses = refl

quota_ledger_example :
    let db = run_all calls (empty_tables no_overrides) in
    ((user date : ℕ) → counted_in user date db.usages ≡ reservations user date db.surveys)
    × All Agrees db.surveys
    × ((k : ℕ) → running_jobs k db.jobs ≤ runs_in k db.surveys)
quota_ledger_example = quota_ledger no_overrides calls

daily_limit_example : spent 7 20 (run_all calls (empty_tables no_overrides)).usages ≤ 2
daily_limit_example =
    daily_limit no_overrides 2 calls
      (omega arith, (omega arith, (omega arith, (tt, (tt, (tt, (tt, (tt, (tt, tt))))))))) 7 20

abbrev queued_calls : List Call
queued_calls =
    create 1 10 7 5 hash 20 2 100
    ∷ work (claim_draft 51 60 4 2 101)
    ∷ work (complete 10 51 (codes "# Draft") 105)
    ∷ start 1 7 30 9 hash false 110
    ∷ []

abbrev queued_tables : Db
queued_tables = run_all queued_calls (empty_tables no_overrides)

claim_survey_job-WithinCapacity_example :
    Claims
      (WithinCapacity 4 2 120 queued_tables)
      (Option.map (λ r. r.1) (claim_survey_job 50 60 4 2 120 queued_tables))
claim_survey_job-WithinCapacity_example =
    claim_survey_job-WithinCapacity 50 60 4 2 120 queued_tables
      (run_all-Balanced queued_calls (empty_tables no_overrides)
        (empty-Balanced no_overrides)).paired

abbrev requested : Survey
requested = fresh_survey 1 7 5 hash 20 100

abbrev requested_tables : Db
requested_tables = record (empty_tables no_overrides) {
  usages = record { user_id = 7; usage_date = 20; reserved_count = 1; succeeded_count = 0 } ∷ [];
  surveys = requested ∷ [];
  drafts = fresh_draft 10 1 5 hash none 100 ∷ [];
}

first_request :
    create_survey 1 10 7 5 hash 20 2 100 (empty_tables no_overrides)
    ≡ ok (requested, requested_tables)
unfolding ◌>>=◌ ◌>>◌ require or_raise create_survey create_with
first_request = refl

create_survey-create_survey_example :
    (text_eq requested.request_hash hash ≡ true)
    × ((other_id other_draft : ℕ) (other_hash : Text) (other_limit later : ℕ)
        → create_survey other_id other_draft 7 5 other_hash 20 other_limit later requested_tables
          ≡ (if text_eq requested.request_hash other_hash
              then ok (requested, requested_tables)
              else err idempotency_conflict))
create_survey-create_survey_example =
    create_survey-create_survey 1 10 7 5 hash 20 2 100 (empty_tables no_overrides) requested
      requested_tables first_request
