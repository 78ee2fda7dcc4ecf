-- ===== src/Survey/History/States.antt =====
-- The drafts and their surveys: what every transaction keeps, and how a write keeps it.
use scholight.Prelude.{
  ℕ, ◌≡◌, ◌≤◌, refl, sym, ◌∙◌, ap, Bool, true, false, not, ◌&&◌, ◌||◌, none, some, List, [], ◌∷◌,
  ◌==◌, ==_iff, arith, any, Bool-cases, inl, inr,
}
use scholight.Prelude.Rows.{find_row, rows_where, update_row, find_row-holds, total-update_row}
use scholight.Prelude.Keys.{row_count, find_row_unique}
use scholight.Survey.Tables.{Survey, Draft, Db, is_null}
use scholight.Survey.Lifecycle.{in_progress, is_ready}
use scholight.Survey.Drafts.{is_draft_running}
use scholight.Survey.Drafts.Revisions.{latest_of}
use scholight.Survey.History.Numbers.{is_active, bit, Numbered, Next}
use scholight.Survey.History.Rows.{Quiet, Quiet-Numbered, ready-Numbered}

-- A lease on a draft that does not run.
abbrev pub is_wild : Draft → Bool
is_wild d = not (is_null d.lease_owner) && not (is_draft_running d.status)

-- The drafts are a history, each belongs to a survey, and only running drafts are leased.
pub record History (db : Db) : Type 0 where
  pub numbered : Numbered db.drafts
  pub owned :
      (k : ℕ)
      → find_row (λ s. s.id == k) db.surveys ≡ none
      → row_count (λ d. d.survey_id == k) db.drafts ≡ 0
  pub held : row_count is_wild db.drafts ≡ 0

-- The surveys of the one tables are surveys of the other.
abbrev pub KeepsSurveys : Db → Db → Type 0
KeepsSurveys db after =
    (k : ℕ)
    → find_row (λ s. s.id == k) after.surveys ≡ none
    → find_row (λ s. s.id == k) db.surveys ≡ none

pub same-KeepsSurveys : (db after : Db) → after.surveys ≡ db.surveys → KeepsSurveys db after
same-KeepsSurveys db after same k gone = ap (find_row (λ s. s.id == k)) (sym same) ∙ gone

-- Nothing was written to the drafts.
pub elsewhere-History :
    (db after : Db) → History db → after.drafts ≡ db.drafts → KeepsSurveys db after → History after
elsewhere-History db after h same keeps = record {
  numbered = rw same h.numbered;
  owned = λ k gone. rw same (h.owned k (keeps k gone));
  held = rw same h.held;
}

pub written-History :
    (db after : Db) (ds : List Draft)
    → after.drafts ≡ ds
    → Numbered ds
    → ((k : ℕ)
        → find_row (λ s. s.id == k) after.surveys ≡ none
        → row_count (λ d. d.survey_id == k) ds ≡ 0)
    → row_count is_wild ds ≡ 0
    → History after
written-History db after ds same numbered owned held = record {
  numbered = rw same numbered;
  owned = λ k gone. rw same (owned k gone);
  held = rw same held;
}

module _ (db after : Db) (p : Draft → Bool) (f : Draft → Draft) {x : Draft} (h : History db)
    (found : find_row p db.drafts ≡ some x) (same : after.drafts ≡ update_row p f db.drafts)
    (keeps : KeepsSurveys db after) where
  updated_rest :
      Numbered (update_row p f db.drafts)
      → (f x).survey_id ≡ x.survey_id
      → is_wild (f x) ≡ false
      → History after
  updated_rest numbered same_survey tame =
      written-History db after (update_row p f db.drafts) same numbered
        (λ k gone.
          let count = total-update_row (λ d. bit (d.survey_id == k)) p f db.drafts found in
          let kept : bit ((f x).survey_id == k) ≡ bit (x.survey_id == k) =
            ap (λ s. bit (s == k)) same_survey in
          let was = h.owned k (keeps k gone) in omega (arith, count, kept, was))
        (let count = total-update_row (λ d. bit (is_wild d)) p f db.drafts found in
          let nothing : bit (is_wild (f x)) ≡ 0 = rw tame refl in
          let was = h.held in omega (arith, count, nothing, was))

  -- A write to a draft that is not ready, and stays so.
  pub Quiet-History :
      is_ready x.status ≡ false → Quiet x (f x) → is_wild (f x) ≡ false → History after
  Quiet-History waits quiet tame =
      updated_rest (Quiet-Numbered p f db.drafts h.numbered found waits quiet) quiet.survey tame

  -- A draft becomes the next ready revision.
  pub ready-History :
      is_ready x.status ≡ false
      → ((d : Draft)
          → ((f d).id ≡ d.id)
            × ((f d).survey_id ≡ d.survey_id)
            × Next (latest_of x.survey_id db.drafts) (f d))
      → is_wild (f x) ≡ false
      → History after
  ready-History waits becomes tame =
      updated_rest (ready-Numbered p f db.drafts h.numbered found waits becomes) (becomes x).1 tame

module _ (db after : Db) (d : Draft) (h : History db) (same : after.drafts ≡ d ∷ db.drafts)
    (tame : is_wild d ≡ false)
    (known : (k : ℕ) → find_row (λ s. s.id == k) after.surveys ≡ none → (d.survey_id == k) ≡ false)
    (keeps : KeepsSurveys db after) where
  pub inserted-History : Numbered (d ∷ db.drafts) → History after
  inserted-History numbered =
      written-History db after (d ∷ db.drafts) same numbered
        (λ k gone. rw (known k gone) (let was = h.owned k (keeps k gone) in omega (arith, was)))
        (rw tame (let was = h.held in omega (arith, was)))

-- A survey that is in the table.
pub found-known :
    (db : Db) (m : ℕ) {s : Survey}
    → find_row (λ s. s.id == m) db.surveys ≡ some s
    → (k : ℕ) → find_row (λ s. s.id == k) db.surveys ≡ none
    → (m == k) ≡ false
found-known db m {s} found k gone = elim (Bool-cases (m == k)) [
  | inr two ↦ two
  | inl one ↦
      let e : m ≡ k = (==_iff m k).0 one in
      let there : find_row (λ s. s.id == k) db.surveys ≡ some s = rw e at found in cc
]

-- None of the rows of a survey is in progress.
pub idle-count :
    (k : ℕ) (ds : List Draft)
    → any (λ d. in_progress d.status) (rows_where (λ d. d.survey_id == k) ds) ≡ false
    → row_count (is_active k) ds ≡ 0
idle-count k [] idle = refl
idle-count k (d ∷ ds) idle = elim (Bool-cases (d.survey_id == k)) [
  | inr other ↦ rw other (let rest = idle-count k ds (rw other at idle) in omega (arith, rest))
  | inl own ↦
      let both : (in_progress d.status ≡ false)
          × (any (λ e. in_progress e.status) (rows_where (λ e. e.survey_id == k) ds) ≡ false) =
        or_false _ _ (rw own at idle) in
      rw (own, both.0) (let rest = idle-count k ds both.1 in omega (arith, rest))
]
  where
    or_false : (a b : Bool) → (a || b) ≡ false → (a ≡ false) × (b ≡ false)
    or_false a b e = ground arith

find_row-in :
    (p q : Draft → Bool) (ds : List Draft) {x : Draft}
    → find_row p (rows_where q ds) ≡ some x
    → find_row (λ d. q d && p d) ds ≡ some x
find_row-in p q [] found = cc
find_row-in p q (d ∷ ds) found = elim (Bool-cases (q d)) [
  | inr out ↦ rw out (find_row-in p q ds (simp out at found))
  | inl own ↦ elim (Bool-cases (p d)) [
    | inl hit ↦ let e = simp (own, hit) at found in rw (own, hit) e
    | inr miss ↦ rw (own, miss) (find_row-in p q ds (simp (own, miss) at found))
  ]
]

pub row_count-and :
    (p q : Draft → Bool) (ds : List Draft) → row_count (λ d. p d && q d) ds ≤ row_count p ds
row_count-and p q [] = omega arith
row_count-and p q (d ∷ ds) =
    let most : bit (p d && q d) ≤ bit (p d) = ground arith in
    omega (arith, most, row_count-and p q ds)

-- A draft that was read with its survey's rows, as the row of its key that has a status.
pub draft_row :
    (k i : ℕ) (ds : List Draft) (q : Draft → Bool) {x : Draft}
    → Numbered ds
    → find_row (λ d. d.id == i) (rows_where (λ d. d.survey_id == k) ds) ≡ some x
    → q x ≡ true
    → find_row (λ d. d.id == i && q d) ds ≡ some x
draft_row k i ds q {x} h found is =
    let there = find_row-in (λ d. d.id == i) (λ d. d.survey_id == k) ds found in
    let both = find_row-holds (λ d. d.survey_id == k && d.id == i) ds there in
    let key : (x.id == i) ≡ true = ground arith in
    let less = row_count-and (λ d. d.id == i) q ds in
    find_row_unique (λ d. d.survey_id == k && d.id == i) (λ d. d.id == i && q d) ds
      (omega (arith, less, h.keyed i)) there (rw (key, is) refl)

pub any_row :
    (k i : ℕ) (ds : List Draft) {x : Draft}
    → Numbered ds
    → find_row (λ d. d.id == i) (rows_where (λ d. d.survey_id == k) ds) ≡ some x
    → find_row (λ d. d.id == i) ds ≡ some x
any_row k i ds {x} h found =
    let there = find_row-in (λ d. d.id == i) (λ d. d.survey_id == k) ds found in
    let both = find_row-holds (λ d. d.survey_id == k && d.id == i) ds there in
    find_row_unique (λ d. d.survey_id == k && d.id == i) (λ d. d.id == i) ds (h.keyed i) there
      (ground arith)
