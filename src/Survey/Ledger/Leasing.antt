-- ===== src/Survey/Ledger/Leasing.antt =====
-- Heartbeats and progress keep the ledger of the daily quota.
use scholight.Prelude.{ℕ, refl, arith, Option-cases, inl, inr}
use scholight.Prelude.Text.{Text}
use scholight.Prelude.Rows.{find_row}
use scholight.Survey.Tables.{Db}
use scholight.Survey.Leases.{
  heartbeat_survey_job, beat, holds_lease, may_advance, update_survey_job_progress,
}
use scholight.Survey.Ledger.Paired.{update-NoMore}
use scholight.Survey.Ledger.Ending.{Balanced}
use scholight.Survey.Ledger.Recovering.{jobs-Balanced}

pub heartbeat_survey_job-Balanced :
    (job_id worker lease now : ℕ) (db : Db)
    → Balanced db
    → Balanced (heartbeat_survey_job job_id worker lease now db).1
unfolding heartbeat_survey_job
heartbeat_survey_job-Balanced job_id worker lease now db b =
    elim (Option-cases (find_row (holds_lease job_id worker) db.jobs)) [
      | inl missing ↦ rw (heartbeat_survey_job, missing) b
      | inr (j, found) ↦
          rw (heartbeat_survey_job, found)
            (jobs-Balanced db _ b (
              update-NoMore (holds_lease job_id worker) (beat lease now) db.jobs
                (λ j. (refl, λ k. omega arith))))
    ]

pub update_survey_job_progress-Balanced :
    (job_id worker : ℕ) (stage : Text) (db : Db)
    → Balanced db
    → Balanced (update_survey_job_progress job_id worker stage db).1
unfolding update_survey_job_progress
update_survey_job_progress-Balanced job_id worker stage db b =
    elim (Option-cases (find_row (may_advance job_id worker stage) db.jobs)) [
      | inl missing ↦ rw (update_survey_job_progress, missing) b
      | inr (j, found) ↦
          rw (update_survey_job_progress, found)
            (jobs-Balanced db _ b (
              update-NoMore (may_advance job_id worker stage)
                (λ j. record j { progress_stage = stage }) db.jobs (λ j. (refl, λ k. omega arith))))
    ]
