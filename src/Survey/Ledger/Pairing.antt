-- ===== src/Survey/Ledger/Pairing.antt =====
-- Jobs and surveys that begin, end or go together.
use scholight.Prelude.{
  ℕ, ◌≡◌, ◌≤◌, refl, sym, ap, Bool, true, false, none, some, List, ◌∷◌, ◌==◌, ==_iff, ==_refl,
  if◌then◌else◌, arith, Bool-cases, inl, inr,
}
use scholight.Prelude.Rows.{
  find_row, update_row, delete_row, delete_rows, total-update_row, total-delete_row,
}
use scholight.Prelude.Keys.{
  delete_rows-le, delete_rows-none, row_count, row_count-none, find_row-delete_row,
}
use scholight.Survey.Tables.{Survey, Job}
use scholight.Survey.Lifecycle.{is_running, is_job_running}
use scholight.Survey.Ledger.Paired.{
  Paired, runs_job, runs, runs_option, runs_in, keyed-update, runs_in-update, runs_in-found,
}

-- The survey of a running job runs.
pub running_survey :
    (js : List Job) (ss : List Survey) (p : Job → Bool) {j : Job} {x : Survey}
    → Paired js ss
    → find_row p js ≡ some j
    → is_job_running j.status ≡ true
    → find_row (λ s. s.id == j.survey_id) ss ≡ some x
    → is_running x.status ≡ true
running_survey js ss p {j} {x} paired job_found job_runs found =
    let one : runs_job j.survey_id j ≡ 1 = rw (==_refl j.survey_id, job_runs) refl in
    let counted = total-delete_row (runs_job j.survey_id) p js job_found in
    let at : runs_in j.survey_id ss ≡ runs x = runs_in-found j.survey_id ss found in
    let all = paired.running j.survey_id in
    elim (Bool-cases (is_running x.status)) [
      | inl yes_runs ↦ yes_runs
      | inr idle ↦ absurd (
          let zero_runs : runs x ≡ 0 = rw idle refl in
          omega (arith, one, counted, at, all, zero_runs))
    ]

-- A running job and its survey end their run together.
pub stopped-Paired :
    (js : List Job) (ss : List Survey) (p : Job → Bool) (g : Job → Job) (f : Survey → Survey)
    {j : Job} {x : Survey}
    → Paired js ss
    → find_row p js ≡ some j
    → is_job_running j.status ≡ true
    → find_row (λ s. s.id == j.survey_id) ss ≡ some x
    → ((i : Job) → ((g i).id ≡ i.id) × ((k : ℕ) → runs_job k (g i) ≡ 0))
    → ((s : Survey) → (f s).id ≡ s.id)
    → Paired (update_row p g js) (update_row (λ s. s.id == j.survey_id) f ss)
stopped-Paired js ss p g f {j} {x} paired job_found job_runs found stops keeps = record {
  keyed = keyed-update p g js ss paired (λ i. (stops i).0);
  running = λ k.
      let counted = total-update_row (runs_job k) p g js job_found in
      let gone : runs_job k (g j) ≡ 0 = (stops j).1 k in
      let after = runs_in-update j.survey_id k f ss keeps found in
      elim (Bool-cases (j.survey_id == k)) [
        | inl one ↦
            let e : j.survey_id ≡ k = (==_iff j.survey_id k).0 one in
            let was : runs_job k j ≡ 1 = rw (one, job_runs) refl in
            let at : runs_in k ss ≡ runs x = rw (sym e) (runs_in-found j.survey_id ss found) in
            let most : runs x ≤ 1 = ground arith in
            omega (arith, counted, gone, was, at, most, paired.running k)
        | inr two ↦
            let then_runs = rw two at after in
            omega (arith, counted, gone, then_runs, paired.running k)
      ];
}

-- A job and its survey begin their run together.
pub started-Paired :
    (js : List Job) (ss : List Survey) (p : Job → Bool) (g : Job → Job) (f : Survey → Survey)
    {j : Job} {x : Survey}
    → Paired js ss
    → find_row p js ≡ some j
    → is_running x.status ≡ false
    → find_row (λ s. s.id == j.survey_id) ss ≡ some x
    → ((i : Job) → ((g i).id ≡ i.id) × ((g i).survey_id ≡ i.survey_id))
    → ((s : Survey) → (f s).id ≡ s.id)
    → is_running (f x).status ≡ true
    → Paired (update_row p g js) (update_row (λ s. s.id == j.survey_id) f ss)
started-Paired js ss p g f {j} {x} paired job_found idle found keys keeps starts = record {
  keyed = keyed-update p g js ss paired (λ i. (keys i).0);
  running = λ k.
      let counted = total-update_row (runs_job k) p g js job_found in
      let after = runs_in-update j.survey_id k f ss keeps found in
      let same : (g j).survey_id ≡ j.survey_id = (keys j).1 in
      elim (Bool-cases (j.survey_id == k)) [
        | inl one ↦
            let e : j.survey_id ≡ k = (==_iff j.survey_id k).0 one in
            let at : runs_in k ss ≡ runs x = rw (sym e) (runs_in-found j.survey_id ss found) in
            let none_runs : runs x ≡ 0 = rw idle refl in
            let then_runs : runs_in k (update_row (λ s. s.id == j.survey_id) f ss) ≡ 1 =
              rw (one, starts) at after in
            let most : runs_job k (g j) ≤ 1 = ground arith in
            omega (arith, counted, at, none_runs, then_runs, most, paired.running k)
        | inr two ↦
            let then_runs = rw two at after in
            let elsewhere : runs_job k (g j) ≡ 0 = rw (same, two) refl in
            omega (arith, counted, then_runs, elsewhere, paired.running k)
      ];
}

-- A survey that does not run goes with its jobs.
pub deleted-Paired :
    (js : List Job) (ss : List Survey) (m : ℕ)
    → Paired js ss
    → Paired (delete_rows (λ j. j.survey_id == m) js) (delete_row (λ s. s.id == m) ss)
deleted-Paired js ss m paired = record {
  keyed = λ i.
      let less = delete_rows-le (λ j. if j.id == i then 1 else 0) (λ j. j.survey_id == m) js in
      omega (arith, less, paired.keyed i);
  running = λ k. elim (Bool-cases (m == k)) [
    | inl one ↦
        let e : m ≡ k = (==_iff m k).0 one in
        let gone =
          delete_rows-none (runs_job k) (λ j. j.survey_id == m) js
            (λ j miss. rw (sym e, miss) refl) in
        omega (arith, gone)
    | inr two ↦
        let kept = ap runs_option (find_row-delete_row (λ s. s.id) m k ss two) in
        let less = delete_rows-le (runs_job k) (λ j. j.survey_id == m) js in
        omega (arith, kept, less, paired.running k)
  ];
}

-- A new survey that does not run, with a key that may be new.
pub created-Paired :
    (js : List Job) (ss : List Survey) (s : Survey)
    → Paired js ss
    → find_row (λ t. t.id == s.id) ss ≡ none
    → Paired js (s ∷ ss)
created-Paired js ss s paired fresh = record {
  keyed = paired.keyed;
  running = λ k. elim (Bool-cases (s.id == k)) [
    | inl one ↦
        let e : s.id ≡ k = (==_iff s.id k).0 one in
        let none_runs : runs_in k ss ≡ 0 = rw (sym e) (ap runs_option fresh) in
        omega (arith, paired.running k, none_runs)
    | inr two ↦ rw two (paired.running k)
  ];
}

-- A new job that does not run.
pub new_job-Paired :
    (js : List Job) (ss : List Survey) (j : Job)
    → Paired js ss
    → is_job_running j.status ≡ false
    → find_row (λ i. i.id == j.id) js ≡ none
    → Paired (j ∷ js) ss
new_job-Paired js ss j paired idle fresh = record {
  keyed = λ i. elim (Bool-cases (j.id == i)) [
    | inl one ↦
        let e : j.id ≡ i = (==_iff j.id i).0 one in
        let no_row = row_count-none (λ x. x.id == j.id) js fresh in
        let none_here : row_count (λ x. x.id == i) js ≡ 0 = rw e at no_row in
        rw one (omega (arith, none_here))
    | inr two ↦ rw two (omega (arith, paired.keyed i))
  ];
  running =
      λ k. let no_run : runs_job k j ≡ 0 = ground arith in omega (arith, no_run, paired.running k);
}
