-- ===== src/Survey/Attempts/Tests.antt =====
-- A task that drafts and is stopped, one that runs a job up to its first checkpoint, and the theorems at
-- them.
use scholight.Prelude.{ℕ, ◌≡◌, ◌≤◌, ◌==◌, refl, true, false, Option, none, some, [], ◌∷◌, arith}
use scholight.Prelude.Int.{pos}
use scholight.Prelude.Text.{Text, codes}
use scholight.Prelude.Result.{ok, ◌>>=◌, ◌>>◌, require, or_raise, committed, Ensures}
use scholight.Prelude.Rows.{find_row}
use scholight.Prelude.Keys.{row_count}
use scholight.Survey.Tables.{
  lock_survey_aggregate, draft_ready, draft_work, full_work, Draft, Job, Attempt, Db,
}
use scholight.Survey.Lifecycle.{create_survey, create_with, fresh_draft}
use scholight.Survey.Start.{fresh_job, start_survey, start_locked, start_drafted}
use scholight.Survey.Ledger.WorkCalls.{reserved_tables}
use scholight.Survey.Ledger.System.{empty_tables}
use scholight.Survey.Attempts.{compute_count, is_open}
use scholight.Survey.Leases.{holds_lease}
use scholight.Survey.Attempts.Candidates.{WorkItem}
use scholight.Survey.Attempts.Reserve.{
  fresh_attempt, Reservation, reserve_next_compute_attempt, reserve_from, add_attempt,
}
use scholight.Survey.Attempts.Candidates.{compute_candidates}
use scholight.Survey.Attempts.Launch.{
  mark_compute_attempt_launching, mark_compute_attempt_launched, update_returning,
}
use scholight.Survey.Attempts.Claims.{
  claim_job, begin_attempt, Claimant, claim_exact_survey_draft, claim_exact_survey_job,
  claim_locked_job, claim_locked_draft, claim_rows,
}
use scholight.Survey.Attempts.Checkpoints.{
  runs_as, Commit, commit_survey_job_checkpoint, get_claimed_job_checkpoint,
}
use scholight.Survey.Attempts.Stops.{
  StopEvent, record_compute_attempt_stopped, record_compute_attempt_succeeded, stop_target,
}
use scholight.Survey.Attempts.Bound.Worn.{open_one, task_limit}
use scholight.Survey.Attempts.Bound.System.{
  Reach, here, next, elsewhere, reserve, launching, launched, claim_draft, stopped, compute_bounded,
}
use scholight.Survey.Attempts.Capacity.{
  Reserves, WithinCapacity, reserve_next_compute_attempt-WithinCapacity,
}
use scholight.Survey.Attempts.Register.{
  compare_and_swap, register_of, register_in, commit_survey_job_checkpoint-compare_and_swap,
}
use scholight.Survey.Attempts.Pointer.{
  commit_survey_job_checkpoint_once, get_claimed_job_checkpoint-commit,
}
use scholight.Survey.Attempts.Events.{Ignores, compute_events_once, stopped_ends}

abbrev hash : Text
hash = codes "ab12"

abbrev no_overrides : ℕ → Option ℕ
no_overrides user = none

abbrev first : Db
first = empty_tables no_overrides

abbrev requested : Db
requested = committed first (create_survey 1 10 7 5 hash 20 2 100 first)

abbrev for_draft : ℕ → ℕ → Reservation
for_draft attempt_id now = record {
  kind = draft_work;
  standard = codes "draft";
  high_memory = none;
  global = 2;
  per_user = 1;
  max_compute = 3;
  attempt_id = attempt_id;
  clock = now;
  now = now;
}

abbrev drafting : Db
drafting = reserved_tables requested (reserve_next_compute_attempt (for_draft 50 105) requested)

abbrev started : Db
started = (mark_compute_attempt_launching 50 106 drafting).1

abbrev placed : Db
placed = committed started (mark_compute_attempt_launched 50 (codes "arn:1") 107 started)

abbrev claimed : Db
claimed = committed placed (claim_exact_survey_draft 10 50 60 110 placed)

abbrev stop : StopEvent
stop = record {
  version = pos 4;
  exit_code = some (pos 137);
  stop_code = none;
  stopped_reason = none;
  failure_class = some (codes "oom");
  failure_details = [];
  may_retry = true;
}

abbrev halted : Db
halted = committed claimed (record_compute_attempt_stopped 50 stop 120 claimed)

abbrev again : Db
again = reserved_tables halted (reserve_next_compute_attempt (for_draft 51 130) halted)

claimed-Reach : Reach 3 first claimed
unfolding create_survey ◌>>=◌ or_raise ◌>>◌ require
claimed-Reach =
    next
      (next
        (next
          (next (next here (elsewhere first requested refl))
            (reserve (for_draft 50 105) requested refl))
          (launching 50 106 drafting))
        (launched 50 (codes "arn:1") 107 started))
      (claim_draft 10 50 60 110 placed)

again-counts :
    (compute_count draft_work 10 again ≡ 1)
    × (row_count (open_one draft_work 10) again.attempts ≡ 1)
unfolding ◌>>=◌ ◌>>◌ require or_raise create_survey create_with lock_survey_aggregate
    reserve_next_compute_attempt reserve_from compute_candidates add_attempt update_returning
    mark_compute_attempt_launching mark_compute_attempt_launched claim_exact_survey_draft
    claim_locked_draft record_compute_attempt_stopped stop_target
again-counts = (refl, refl)

compute_bounded_example :
    (row_count (open_one draft_work 10) again.attempts ≤ 1)
    × (compute_count draft_work 10 again ≤ task_limit draft_work 3)
compute_bounded_example =
    compute_bounded 3 no_overrides
      (next (next claimed-Reach (stopped 50 stop 120 claimed))
        (reserve (for_draft 51 130) halted refl))
      draft_work 10

reserve_next_compute_attempt-WithinCapacity_example :
    Ensures
      (Reserves (WithinCapacity (for_draft 51 130) halted))
      (reserve_next_compute_attempt (for_draft 51 130) halted)
reserve_next_compute_attempt-WithinCapacity_example =
    reserve_next_compute_attempt-WithinCapacity (for_draft 51 130) halted

compute_events_once_example :
    Ensures (Ignores 50 (pos 4)) (record_compute_attempt_stopped 50 stop 120 claimed)
    × Ensures (Ignores 50 (pos 4)) (record_compute_attempt_succeeded 50 (pos 4) (pos 0) 120 claimed)
compute_events_once_example = compute_events_once 50 stop (pos 0) 120 claimed

stopped_ends_example :
    Ensures
      (λ r. (is_open r.0.status ≡ false) × (find_row (λ a. a.id == 50) r.1.attempts ≡ some r.0))
      (record_compute_attempt_stopped 50 stop 120 claimed)
stopped_ends_example = stopped_ends 3 no_overrides claimed-Reach 50 stop 120

abbrev ready : Draft
ready = record (fresh_draft 10 1 5 hash none 100) { status = draft_ready; revision = some 1 }

abbrev drafted : Db
drafted = record requested { drafts = ready ∷ [] }

abbrev queued : Db
queued = committed drafted (start_survey 1 7 30 9 hash false 110 drafted)

abbrev for_job : Reservation
for_job = record (for_draft 60 120) { kind = full_work }

abbrev reserved : Db
reserved = reserved_tables queued (reserve_next_compute_attempt for_job queued)

abbrev runner : Claimant
runner = record {
  attempt_id = 60;
  lease = 90;
  workflow_version = codes "w1";
  executor_version = codes "e1";
  timeout = 1000;
}

abbrev running : Db
running = committed reserved (claim_exact_survey_job runner 30 125 125 reserved)

abbrev planned : Commit
planned = record { expected = 0; stage = codes "planning"; manifest_key = codes "k1" }

abbrev saved : Db
saved = committed running (commit_survey_job_checkpoint 30 60 planned 140 running)

commits : commit_survey_job_checkpoint 30 60 planned 140 running ≡ ok (true, saved)
unfolding ◌>>=◌ ◌>>◌ require or_raise create_survey create_with start_survey start_locked
    start_drafted lock_survey_aggregate reserve_next_compute_attempt reserve_from compute_candidates
    add_attempt claim_exact_survey_job claim_locked_job claim_rows commit_survey_job_checkpoint
commits = refl

abbrev running_job : Job
running_job = claim_job runner 125 (fresh_job 30 1 10 9 hash 110)

abbrev item : WorkItem
item = record {
  target_id = 30;
  survey_id = 1;
  queued_at = 110;
  user_id = 7;
  archives = false;
  attempts = 0;
  computes = 0;
  had_oom = false;
}

abbrev running_attempt : Attempt
running_attempt = begin_attempt 125 (fresh_attempt full_work 60 item (codes "draft") none 120)

running-claimed :
    (row_count (λ j. j.id == 30) running.jobs ≤ 1)
    × (find_row (holds_lease 30 60) running.jobs ≡ some running_job)
    × (find_row (runs_as 60) running.attempts ≡ some running_attempt)
unfolding ◌>>=◌ ◌>>◌ require or_raise create_survey create_with start_survey start_locked
    start_drafted lock_survey_aggregate reserve_next_compute_attempt reserve_from compute_candidates
    add_attempt claim_exact_survey_job claim_locked_job claim_rows
running-claimed = (omega arith, refl, refl)

commit_survey_job_checkpoint_once_example :
    commit_survey_job_checkpoint 30 61 planned 150 saved ≡ ok (false, saved)
commit_survey_job_checkpoint_once_example =
    commit_survey_job_checkpoint_once 30 60 planned 140 running saved running-claimed.0 commits 61
      planned 150 (omega arith)

get_claimed_job_checkpoint-commit_example :
    get_claimed_job_checkpoint 30 60 saved
    ≡ get_claimed_job_checkpoint 30 60 running >>= λ p. ok (record p {
      sequence = 1;
      stage = some (codes "planning");
      manifest_key = some (codes "k1");
    })
get_claimed_job_checkpoint-commit_example =
    get_claimed_job_checkpoint-commit 30 60 planned 140 running saved running-claimed.0 commits

commit_survey_job_checkpoint-compare_and_swap_example :
    (after : Db) × (commit_survey_job_checkpoint 30 60 planned 140 running
      ≡ ok ((compare_and_swap planned (register_of running_job)).0, after))
    × (register_in 30 60 after ≡ some (compare_and_swap planned (register_of running_job)).1)
commit_survey_job_checkpoint-compare_and_swap_example =
    commit_survey_job_checkpoint-compare_and_swap 30 60 planned 140 running running-claimed.0
      running-claimed.1 running-claimed.2
