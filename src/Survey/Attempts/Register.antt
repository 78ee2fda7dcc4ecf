-- ===== src/Survey/Attempts/Register.antt =====
-- The checkpoint of a job as a register that is compared and swapped, for
-- `commit_survey_job_checkpoint` of scholight/db/queries_survey_attempts.py.
use scholight.Prelude.{
  ℕ, ◌+◌, ◌≡◌, ◌≤◌, refl, ap, Bool, true, false, Option, none, some, ◌==◌, if◌then◌else◌, arith,
  Bool-cases, Option-cases, inl, inr,
}
use mathlib.Core.Option
use scholight.Prelude.Text.{Text}
use scholight.Prelude.Result.{ok, ◌>>=◌, or_raise}
use scholight.Prelude.Rows.{find_row, find_row-holds}
use scholight.Prelude.Keys.{row_count, row_count-less, find_row_unique}
use scholight.Survey.Tables.{Job, Attempt, Db}
use scholight.Survey.Leases.{holds_lease}
use scholight.Survey.Attempts.Launch.{or_zero}
use scholight.Survey.Attempts.Checkpoints.{
  at_checkpoint, Commit, commit_job, runs_as, commit_survey_job_checkpoint,
}
use scholight.Survey.Attempts.Pointer.{updated_first, at_checkpoint-holds, holds_lease-here}

-- What a job promises to the attempt that holds it: one register.
pub record Register : Type 0 where
  pub sequence : ℕ
  pub stage : Option Text
  pub manifest_key : Option Text

-- Compare and swap: the sequence is compared, and goes up by one.
abbrev pub compare_and_swap : Commit → Register → Bool × Register
compare_and_swap c r =
    if r.sequence == c.expected
    then (
      true,
      record {
        sequence = c.expected + 1;
        stage = some c.stage;
        manifest_key = some c.manifest_key;
      },
    )
    else (false, r)

abbrev pub register_of : Job → Register
register_of j = record {
  sequence = or_zero j.checkpoint_sequence;
  stage = j.checkpoint_stage;
  manifest_key = j.checkpoint_manifest_key;
}

abbrev pub register_in : ℕ → ℕ → Db → Option Register
register_in job_id attempt_id db =
    Option.map register_of (find_row (holds_lease job_id attempt_id) db.jobs)

sequence-at_checkpoint :
    (job_id attempt_id expected : ℕ) (j : Job)
    → holds_lease job_id attempt_id j ≡ true
    → (or_zero j.checkpoint_sequence == expected) ≡ true
    → at_checkpoint job_id attempt_id expected j ≡ true
sequence-at_checkpoint job_id attempt_id expected j holds same = ground arith

at_checkpoint-same :
    (job_id attempt_id expected : ℕ) (j : Job)
    → at_checkpoint job_id attempt_id expected j ≡ true
    → (or_zero j.checkpoint_sequence == expected) ≡ true
at_checkpoint-same job_id attempt_id expected j h = ground arith

-- While an attempt runs and holds its job, and the job is the only row with its id, a commit returns and
-- is one compare-and-swap of the register that the attempt sees: it tells whether the sequence was the
-- expected one, and the attempt holds the job afterwards with the register that results.
pub commit_survey_job_checkpoint-compare_and_swap :
    (job_id attempt_id : ℕ) (c : Commit) (now : ℕ) (db : Db) {j : Job} {a : Attempt}
    → row_count (λ i. i.id == job_id) db.jobs ≤ 1
    → find_row (holds_lease job_id attempt_id) db.jobs ≡ some j
    → find_row (runs_as attempt_id) db.attempts ≡ some a
    → (after : Db) × (commit_survey_job_checkpoint job_id attempt_id c now db
        ≡ ok ((compare_and_swap c (register_of j)).0, after))
      × (register_in job_id attempt_id after ≡ some (compare_and_swap c (register_of j)).1)
unfolding commit_survey_job_checkpoint or_raise ◌>>=◌
commit_survey_job_checkpoint-compare_and_swap job_id attempt_id c now db {j} alone held runs =
    let at = at_checkpoint job_id attempt_id c.expected in
    let q = holds_lease job_id attempt_id in
    let few : row_count q db.jobs ≤ 1 = omega (
      arith,
      alone,
      row_count-less q (λ i. i.id == job_id) db.jobs
          (λ i h. holds_lease-here job_id attempt_id i h),
    ) in
    let holds = find_row-holds q db.jobs held in
    elim (Bool-cases (or_zero j.checkpoint_sequence == c.expected)) [
      | inl same ↦
          let is = sequence-at_checkpoint job_id attempt_id c.expected j holds same in
          let fewer : row_count at db.jobs ≤ 1 = omega (
            arith,
            few,
            row_count-less at q db.jobs
                (λ i h. at_checkpoint-holds job_id attempt_id c.expected i h),
          ) in
          let found : find_row at db.jobs ≡ some j = find_row_unique q at db.jobs fewer held is in
          let there = updated_first at q (commit_job c now) db.jobs found few holds (λ i h. h) in
          rw (commit_survey_job_checkpoint, found, runs, same)
            (_, refl, ap (Option.map register_of) there)
      | inr other ↦
          let missing : find_row at db.jobs ≡ none = elim (Option-cases (find_row at db.jobs)) [
            | inl gone ↦ gone
            | inr (k, found) ↦ absurd (
                let k_at = find_row-holds at db.jobs found in
                let again =
                  find_row_unique at q db.jobs few found
                    (at_checkpoint-holds job_id attempt_id c.expected k k_at) in
                let one : k ≡ j = cc in
                let k_same = at_checkpoint-same job_id attempt_id c.expected k k_at in
                let differs : (or_zero k.checkpoint_sequence == c.expected) ≡ false =
                  rw one other in
                cc)
          ] in
          rw (commit_survey_job_checkpoint, missing, other)
            (db, refl, ap (Option.map register_of) held)
    ]
