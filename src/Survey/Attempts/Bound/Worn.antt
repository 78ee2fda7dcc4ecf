-- ===== src/Survey/Attempts/Bound/Worn.antt =====
-- The attempts of a work item only wear out: what a write to one of them keeps.
use scholight.Prelude.{
  ℕ, ◌+◌, ◌≡◌, ◌≤◌, refl, ap, Bool, true, false, not, ◌&&◌, ◌||◌, none, some, List, [], ◌∷◌,
  if◌then◌else◌, arith, All, Bool-cases, Option-cases, inl, inr,
}
use scholight.Prelude.Rows.{find_row, update_row, delete_rows, total-update_row, All-update_row}
use scholight.Prelude.Keys.{row_count, delete_rows-le}
use scholight.Survey.Tables.{WorkKind, draft_work, full_work, Attempt, is_key, is_null}
use scholight.Survey.Attempts.{is_open, for_target}

-- An open attempt of a target, and one that has begun or still may.
abbrev pub open_one : WorkKind → ℕ → Attempt → Bool
open_one kind t a = for_target kind t a && is_open a.status

abbrev pub spent_one : WorkKind → ℕ → Attempt → Bool
spent_one kind t a = for_target kind t a && (is_open a.status || not (is_null a.started_at))

-- An attempt that an event has ended is not open.
abbrev pub Ended : Attempt → Type 0
Ended a = is_null a.ecs_event_version ≡ false → is_open a.status ≡ false

-- What a write makes of an attempt.
pub record Worn (x y : Attempt) : Type 0 where
  pub draft : y.draft_id ≡ x.draft_id
  pub job : y.job_id ≡ x.job_id
  pub open_before : is_open y.status ≡ true → is_open x.status ≡ true
  pub begun_before :
      is_null y.started_at ≡ false → (is_open x.status || not (is_null x.started_at)) ≡ true
  pub ended : Ended y

-- The tasks of one draft, and of one job, whose last ones may only archive.
abbrev pub task_limit : WorkKind → ℕ → ℕ
task_limit draft_work most = most
task_limit full_work most = most + 8

pub record Bounded (most : ℕ) (as_rows : List Attempt) : Type 0 where
  pub single : (kind : WorkKind) (t : ℕ) → row_count (open_one kind t) as_rows ≤ 1
  pub spent :
      (kind : WorkKind) (t : ℕ) → row_count (spent_one kind t) as_rows ≤ task_limit kind most
  pub ended : All Ended as_rows

abbrev bit : Bool → ℕ
bit b = if b then 1 else 0

for_target-Worn :
    (kind : WorkKind) (t : ℕ) (x y : Attempt) → Worn x y → for_target kind t y ≡ for_target kind t x
for_target-Worn draft_work t x y w = ap (λ k. is_key k t) w.draft
for_target-Worn full_work t x y w = ap (λ k. is_key k t) w.job

Worn-open :
    (kind : WorkKind) (t : ℕ) (x y : Attempt)
    → Worn x y
    → bit (open_one kind t y) ≤ bit (open_one kind t x)
Worn-open kind t x y w = rw (for_target-Worn kind t x y w) (elim (Bool-cases (is_open y.status)) [
  | inl on ↦ rw (on, w.open_before on) (omega arith)
  | inr off ↦ rw off (ground arith)
])

Worn-spent :
    (kind : WorkKind) (t : ℕ) (x y : Attempt)
    → Worn x y
    → bit (spent_one kind t y) ≤ bit (spent_one kind t x)
Worn-spent kind t x y w =
    rw (for_target-Worn kind t x y w) (elim (Bool-cases (is_null y.started_at)) [
      | inr begun ↦ let was = w.begun_before begun in rw was (ground arith)
      | inl idle ↦ elim (Bool-cases (is_open y.status)) [
        | inl on ↦ let was = w.open_before on in rw (idle, was) (ground arith)
        | inr off ↦ rw (idle, off) (ground arith)
      ]
    ])

update_row-none :
    (p : Attempt → Bool) (f : Attempt → Attempt) (as_rows : List Attempt)
    → find_row p as_rows ≡ none
    → update_row p f as_rows ≡ as_rows
update_row-none p f [] missing = refl
update_row-none p f (a ∷ rest) missing = elim (Bool-cases (p a)) [
  | inl hit ↦ let there : some a ≡ none = simp hit at missing in cc
  | inr miss ↦ rw miss (ap (λ es. a ∷ es) (update_row-none p f rest (simp miss at missing)))
]

-- A write that wears an attempt out.
pub Worn-Bounded :
    (most : ℕ) (p : Attempt → Bool) (f : Attempt → Attempt) (as_rows : List Attempt)
    → Bounded most as_rows
    → ((x : Attempt) → find_row p as_rows ≡ some x → Worn x (f x))
    → Bounded most (update_row p f as_rows)
Worn-Bounded most p f as_rows b wears = elim (Option-cases (find_row p as_rows)) [
  | inl missing ↦ rw (update_row-none p f as_rows missing) b
  | inr (x, found) ↦
      let w = wears x found in
      record {
        single = λ kind t.
            let count = total-update_row (λ a. bit (open_one kind t a)) p f as_rows found in
            omega (arith, count, Worn-open kind t x (f x) w, b.single kind t);
        spent = λ kind t.
            let count = total-update_row (λ a. bit (spent_one kind t a)) p f as_rows found in
            omega (arith, count, Worn-spent kind t x (f x) w, b.spent kind t);
        ended = All-update_row Ended p f as_rows b.ended found w.ended;
      }
]

All-delete_rows :
    (P : Attempt → Type 0) (p : Attempt → Bool) (as_rows : List Attempt)
    → All P as_rows
    → All P (delete_rows p as_rows)
All-delete_rows P p [] h = tt
All-delete_rows P p (a ∷ rest) h = elim (Bool-cases (p a)) [
  | inl hit ↦ rw hit (All-delete_rows P p rest h.1)
  | inr miss ↦ rw miss (h.0, All-delete_rows P p rest h.1)
]

pub deleted-Bounded :
    (most : ℕ) (p : Attempt → Bool) (as_rows : List Attempt)
    → Bounded most as_rows
    → Bounded most (delete_rows p as_rows)
deleted-Bounded most p as_rows b = record {
  single = λ kind t.
      let less = delete_rows-le (λ a. bit (open_one kind t a)) p as_rows in
      omega (arith, less, b.single kind t);
  spent = λ kind t.
      let less = delete_rows-le (λ a. bit (spent_one kind t a)) p as_rows in
      omega (arith, less, b.spent kind t);
  ended = All-delete_rows Ended p as_rows b.ended;
}
