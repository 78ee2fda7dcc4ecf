-- ===== src/Survey/Ledger/Paired.antt =====
-- The jobs that run and the surveys that run.
use scholight.Prelude.{
  ℕ, ◌≡◌, ◌≤◌, sym, ap, Bool, ◌&&◌, Option, none, some, List, ◌==◌, ==_iff, if◌then◌else◌, total,
  arith, Bool-cases, inl, inr,
}
use scholight.Prelude.Rows.{find_row, update_row, delete_row}
use scholight.Prelude.Keys.{
  total-keep, update_row-le, delete_row-le, row_count, find_row-update_row,
}
use scholight.Survey.Tables.{Survey, Job}
use scholight.Survey.Lifecycle.{is_running, is_job_running}

-- The running jobs of a survey.
abbrev pub runs_job : ℕ → Job → ℕ
runs_job k j = if j.survey_id == k && is_job_running j.status then 1 else 0

abbrev pub running_jobs : ℕ → List Job → ℕ
running_jobs k = total (runs_job k)

abbrev pub runs : Survey → ℕ
runs s = if is_running s.status then 1 else 0

abbrev pub runs_option : Option Survey → ℕ
runs_option none = 0
runs_option (some s) = runs s

abbrev pub runs_in : ℕ → List Survey → ℕ
runs_in k ss = runs_option (find_row (λ s. s.id == k) ss)

-- A job that runs is the only one of its survey, and the survey runs. The key of a job is unique.
pub record Paired (js : List Job) (ss : List Survey) : Type 0 where
  pub keyed : (i : ℕ) → row_count (λ j. j.id == i) js ≤ 1
  pub running : (k : ℕ) → running_jobs k js ≤ runs_in k ss

-- No more jobs run, and no key came in.
pub record NoMore (is js : List Job) : Type 0 where
  pub keyed : (i : ℕ) → row_count (λ j. j.id == i) js ≤ row_count (λ j. j.id == i) is
  pub running : (k : ℕ) → running_jobs k js ≤ running_jobs k is

pub same-NoMore : (js : List Job) → NoMore js js
same-NoMore js = record { keyed = λ i. omega arith; running = λ k. omega arith }

pub delete-NoMore : (p : Job → Bool) (js : List Job) → NoMore js (delete_row p js)
delete-NoMore p js = record {
  keyed = λ i. delete_row-le _ p js;
  running = λ k. delete_row-le _ p js;
}

pub update-NoMore :
    (p : Job → Bool) (f : Job → Job) (js : List Job)
    → ((j : Job) → ((f j).id ≡ j.id) × ((k : ℕ) → runs_job k (f j) ≤ runs_job k j))
    → NoMore js (update_row p f js)
update-NoMore p f js keeps = record {
  keyed = λ i.
      let same =
        total-keep (λ j. if j.id == i then 1 else 0) p f js
          (λ j. ap (λ n. if n == i then 1 else 0) (keeps j).0) in
      omega (arith, same);
  running = λ k. update_row-le (runs_job k) p f js (λ j. (keeps j).1 k);
}

-- The keys stay where an update leaves them.
pub keyed-update :
    (p : Job → Bool) (f : Job → Job) (js : List Job) (ss : List Survey)
    → Paired js ss
    → ((j : Job) → (f j).id ≡ j.id)
    → (i : ℕ) → row_count (λ j. j.id == i) (update_row p f js) ≤ 1
keyed-update p f js ss paired keeps i =
    let same =
      total-keep (λ j. if j.id == i then 1 else 0) p f js
        (λ j. ap (λ n. if n == i then 1 else 0) (keeps j)) in
    omega (arith, same, paired.keyed i)

pub runs_in-update :
    (m k : ℕ) (f : Survey → Survey) (ss : List Survey) {x : Survey}
    → ((s : Survey) → (f s).id ≡ s.id)
    → find_row (λ s. s.id == m) ss ≡ some x
    → runs_in k (update_row (λ s. s.id == m) f ss) ≡ (if m == k then runs (f x) else runs_in k ss)
runs_in-update m k f ss {x} keeps found =
    let at = find_row-update_row (λ s. s.id) m k f ss keeps found in
    elim (Bool-cases (m == k)) [
      | inl one ↦ let e = rw one at at in rw one (ap runs_option e)
      | inr two ↦ let e = rw two at at in rw two (ap runs_option e)
    ]

pub runs_in-found :
    (k : ℕ) (ss : List Survey) {x : Survey}
    → find_row (λ s. s.id == k) ss ≡ some x
    → runs_in k ss ≡ runs x
runs_in-found k ss found = ap runs_option found

pub less-Paired : (is js : List Job) (ss : List Survey) → Paired is ss → NoMore is js → Paired js ss
less-Paired is js ss paired less = record {
  keyed = λ i. omega (arith, paired.keyed i, less.keyed i);
  running = λ k. omega (arith, paired.running k, less.running k);
}

-- An update of a survey that neither starts nor ends its run.
pub kept-Paired :
    (is js : List Job) (m : ℕ) (f : Survey → Survey) (ss : List Survey) {x : Survey}
    → Paired is ss
    → NoMore is js
    → ((s : Survey) → (f s).id ≡ s.id)
    → find_row (λ s. s.id == m) ss ≡ some x
    → is_running (f x).status ≡ is_running x.status
    → Paired js (update_row (λ s. s.id == m) f ss)
kept-Paired is js m f ss {x} paired less keeps found same = record {
  keyed = λ i. omega (arith, paired.keyed i, less.keyed i);
  running = λ k.
      let after = runs_in-update m k f ss keeps found in
      elim (Bool-cases (m == k)) [
        | inl one ↦
            let e : m ≡ k = (==_iff m k).0 one in
            let now_runs : runs_in k ss ≡ runs x = rw (sym e) (runs_in-found m ss found) in
            let then_runs = rw (one, same) at after in
            omega (arith, paired.running k, less.running k, now_runs, then_runs)
        | inr two ↦
            let then_runs = rw two at after in
            omega (arith, paired.running k, less.running k, then_runs)
      ];
}
