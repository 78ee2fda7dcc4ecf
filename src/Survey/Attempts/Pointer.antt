-- ===== src/Survey/Attempts/Pointer.antt =====
-- The checkpoint of a job as its attempts see it: `commit_survey_job_checkpoint` and
-- `get_claimed_job_checkpoint`.
use mathlib.Core.Path.{subst}
use scholight.Prelude.{
  ℕ, ◌+◌, ◌≡◌, ◌≤◌, refl, sym, ◌∙◌, ap, Bool, true, false, some, List, [], ◌∷◌, ◌==◌, ==_iff,
  if◌then◌else◌, arith, Bool-cases, Option-cases, inl, inr,
}
use scholight.Prelude.Result.{Result, ok, err, ◌>>=◌, or_raise}
use scholight.Prelude.Rows.{find_row, update_row, find_row-holds}
use scholight.Prelude.Keys.{row_count-less, row_count, row_count-found, find_row_unique, total-keep}
use scholight.Survey.Tables.{Job, Db, Error}
use scholight.Survey.Leases.{holds_lease}
use scholight.Survey.Attempts.Launch.{or_zero}
use scholight.Survey.Attempts.Checkpoints.{
  at_checkpoint, Commit, commit_job, runs_as, commit_survey_job_checkpoint,
  get_claimed_job_checkpoint,
}

-- The first row that an update writes is found again by a test that it passes.
pub updated_first :
    (p q : Job → Bool) (f : Job → Job) (js : List Job) {j : Job}
    → find_row p js ≡ some j
    → row_count q js ≤ 1
    → q j ≡ true
    → ((i : Job) → q i ≡ true → q (f i) ≡ true)
    → find_row q (update_row p f js) ≡ some (f j)
updated_first p q f [] found alone is keeps = cc
updated_first p q f (i ∷ js) {j} found alone is keeps = elim (Bool-cases (p i)) [
  | inl hit ↦
      let e : some i ≡ some j = simp hit at found in
      let same : i ≡ j = cc in rw (hit, same, keeps j is) refl
  | inr miss ↦
      let later : find_row p js ≡ some j = simp miss at found in
      elim (Bool-cases (q i)) [
        | inl twice ↦ absurd (
            let less : 1 + row_count q js ≤ 1 = rw twice at alone in
            let there = find_row_unique p q js (omega (arith, less)) later is in
            let one = row_count-found q js there in omega (arith, less, one))
        | inr other ↦
            let less : 0 + row_count q js ≤ 1 = rw other at alone in
            rw (miss, other) (updated_first p q f js later (omega (arith, less)) is keeps)
      ]
]

-- A commit that went through, and the job before it.
record Committed (job_id attempt_id : ℕ) (c : Commit) (now : ℕ) (db after : Db) (j : Job)
    : Type 0 where
  found : find_row (at_checkpoint job_id attempt_id c.expected) db.jobs ≡ some j
  written :
      after.jobs
      ≡ update_row (at_checkpoint job_id attempt_id c.expected) (commit_job c now) db.jobs

commit_inverse :
    (job_id attempt_id : ℕ) (c : Commit) (now : ℕ) (db after : Db)
    → commit_survey_job_checkpoint job_id attempt_id c now db ≡ ok (true, after)
    → (j : Job) × Committed job_id attempt_id c now db after j
unfolding commit_survey_job_checkpoint or_raise ◌>>=◌
commit_inverse job_id attempt_id c now db after went =
    elim (Option-cases (find_row (at_checkpoint job_id attempt_id c.expected) db.jobs)) [
      | inl missing ↦
          absurd (let e = rw (commit_survey_job_checkpoint, missing) at went in ground arith)
      | inr (j, found) ↦ elim (Option-cases (find_row (runs_as attempt_id) db.attempts)) [
        | inl missing ↦
            absurd
              (let e = rw (commit_survey_job_checkpoint, found, missing) at went in ground arith)
        | inr (a, runs) ↦
            let e = rw (commit_survey_job_checkpoint, found, runs) at went in
            (j, record { found = found; written = ap jobs_after (sym e) })
      ]
    ]
  where
    jobs_after : Result Error (Bool × Db) → List Job
    jobs_after (ok p) = p.1.jobs
    jobs_after (err e) = []

at_checkpoint-here :
    (job_id attempt_id expected : ℕ) (j : Job)
    → at_checkpoint job_id attempt_id expected j ≡ true
    → (j.id == job_id) ≡ true
at_checkpoint-here job_id attempt_id expected j h = ground arith

pub at_checkpoint-sequence :
    (job_id attempt_id expected : ℕ) (j : Job)
    → at_checkpoint job_id attempt_id expected j ≡ true
    → or_zero j.checkpoint_sequence ≡ expected
at_checkpoint-sequence job_id attempt_id expected j h =
    (==_iff (or_zero j.checkpoint_sequence) expected).0 (ground arith)

pub at_checkpoint-holds :
    (job_id attempt_id expected : ℕ) (j : Job)
    → at_checkpoint job_id attempt_id expected j ≡ true
    → holds_lease job_id attempt_id j ≡ true
at_checkpoint-holds job_id attempt_id expected j h = ground arith

pub holds_lease-here :
    (job_id attempt_id : ℕ) (j : Job)
    → holds_lease job_id attempt_id j ≡ true
    → (j.id == job_id) ≡ true
holds_lease-here job_id attempt_id j h = ground arith

module _ (job_id attempt_id : ℕ) (c : Commit) (now : ℕ) (db after : Db)
    (alone : row_count (λ j. j.id == job_id) db.jobs ≤ 1)
    (went : commit_survey_job_checkpoint job_id attempt_id c now db ≡ ok (true, after)) where
  -- After a commit, where the job is the only row with its id, no attempt commits the same sequence of
  -- that job again, nor an earlier one: the call returns false and leaves the tables alone.
  pub commit_survey_job_checkpoint_once :
      (other : ℕ) (d : Commit) (later : ℕ)
      → d.expected ≤ c.expected
      → commit_survey_job_checkpoint job_id other d later after ≡ ok (false, after)
  unfolding commit_survey_job_checkpoint
  commit_survey_job_checkpoint_once other d later old =
      let (j, did) = commit_inverse job_id attempt_id c now db after went in
      let at = at_checkpoint job_id attempt_id c.expected in
      let q : Job → Bool = λ i. i.id == job_id in
      let is =
        at_checkpoint-here job_id attempt_id c.expected j (find_row-holds at db.jobs did.found) in
      let now_there : find_row q after.jobs ≡ some (commit_job c now j) =
        ap (find_row q) did.written
        ∙ updated_first at q (commit_job c now) db.jobs did.found alone is (λ i h. h) in
      let still : row_count q after.jobs ≤ 1 =
        let same =
          total-keep (λ i. if q i then 1 else 0) at (commit_job c now) db.jobs (λ i. refl) in
        let count = ap (row_count q) did.written in omega (arith, same, count, alone) in
      elim (Option-cases (find_row (at_checkpoint job_id other d.expected) after.jobs)) [
        | inl missing ↦ rw (commit_survey_job_checkpoint, missing) refl
        | inr (k, found) ↦ absurd (
            let holds = find_row-holds (at_checkpoint job_id other d.expected) after.jobs found in
            let here =
              find_row_unique (at_checkpoint job_id other d.expected) q after.jobs still found
                (at_checkpoint-here job_id other d.expected k holds) in
            let same : k ≡ commit_job c now j = cc in
            let seq = at_checkpoint-sequence job_id other d.expected k holds in
            let seq2 : c.expected + 1 ≡ d.expected =
              subst (λ x. or_zero x.checkpoint_sequence ≡ d.expected) same seq in
            omega (arith, seq2, old))
      ]

  -- After a commit, where the job is the only row with its id, the attempt reads back what it wrote: the
  -- next sequence, the stage and the manifest of the commit, and the versions and deadline as they were;
  -- and it is refused where it was before.
  pub get_claimed_job_checkpoint-commit :
      get_claimed_job_checkpoint job_id attempt_id after
      ≡ get_claimed_job_checkpoint job_id attempt_id db >>= λ p. ok (record p {
        sequence = c.expected + 1;
        stage = some c.stage;
        manifest_key = some c.manifest_key;
      })
  unfolding get_claimed_job_checkpoint or_raise ◌>>=◌
  get_claimed_job_checkpoint-commit =
      let (j, did) = commit_inverse job_id attempt_id c now db after went in
      let at = at_checkpoint job_id attempt_id c.expected in
      let q = holds_lease job_id attempt_id in
      let few : row_count q db.jobs ≤ 1 = omega (
        arith,
        alone,
        row_count-less q (λ i. i.id == job_id) db.jobs
            (λ i h. holds_lease-here job_id attempt_id i h),
      ) in
      let is =
        at_checkpoint-holds job_id attempt_id c.expected j (find_row-holds at db.jobs did.found) in
      let before : find_row q db.jobs ≡ some j = find_row_unique at q db.jobs few did.found is in
      let now_there : find_row q after.jobs ≡ some (commit_job c now j) =
        ap (find_row q) did.written
        ∙ updated_first at q (commit_job c now) db.jobs did.found few is (λ i h. h) in
      rw (now_there, before)
        (elim (Option-cases j.workflow_version) [
          | inl none_given ↦ rw none_given refl
          | inr (workflow, given) ↦ rw given (elim (Option-cases j.executor_version) [
            | inl none_given ↦ rw none_given refl
            | inr (executor, also) ↦ rw also (elim (Option-cases j.execution_deadline_at) [
              | inl none_given ↦ rw none_given refl
              | inr (deadline, too) ↦ rw too refl
            ])
          ])
        ])
