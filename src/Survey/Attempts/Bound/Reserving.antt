-- ===== src/Survey/Attempts/Bound/Reserving.antt =====
-- A reservation is made within the limits of its work item.
use mathlib.Core.Path.{subst₂}
use scholight.Prelude.{
  ℕ, ◌+◌, ◌≡◌, ◌≤◌, refl, ◌∙◌, Bool, true, not, ◌&&◌, Option, none, some, List, [], ◌∷◌, ==_iff,
  ltb, leb, if◌then◌else◌, arith, All, Bool-cases, inl, inr,
}
use scholight.Prelude.Result.{Ensures, Ensures-if, Ensures-bind, Ensures-require}
use scholight.Prelude.Rows.{find_row}
use scholight.Prelude.Keys.{row_count, row_count-none}
use scholight.Prelude.Queries.{length-rows_where}
use scholight.Survey.Tables.{
  WorkKind, draft_work, full_work, Attempt, Db, is_null, lock_survey_aggregate,
}
use scholight.Survey.Attempts.{for_target, open_attempts}
use scholight.Survey.Attempts.Reserve.{
  fresh_attempt, add_attempt, Reservation, may_reserve, reserve_from, reserve_next_compute_attempt,
}
use scholight.Survey.Attempts.Candidates.{WorkItem, compute_candidates}
use scholight.Survey.Attempts.Bound.Worn.{open_one, spent_one, Bounded, task_limit}
use scholight.Survey.Attempts.Bound.Counting.{Fits, compute_candidates-Fits}

-- The counts of a work item are those of its target, and its user is the survey's.
abbrev bit : Bool → ℕ
bit b = if b then 1 else 0

begun_one : WorkKind → ℕ → Attempt → Bool
begun_one kind t a = for_target kind t a && not (is_null a.started_at)

spent-le :
    (kind : WorkKind) (t : ℕ) (as_rows : List Attempt)
    → row_count (spent_one kind t) as_rows
      ≤ row_count (open_one kind t) as_rows + row_count (begun_one kind t) as_rows
unfolding begun_one
spent-le kind t [] = omega arith
spent-le kind t (a ∷ rest) =
    let here : bit (spent_one kind t a) ≤ bit (open_one kind t a) + bit (begun_one kind t a) =
      ground arith in
    omega (arith, here, spent-le kind t rest)

spent-le-all :
    (kind : WorkKind) (t : ℕ) (as_rows : List Attempt)
    → row_count (spent_one kind t) as_rows ≤ row_count (for_target kind t) as_rows
spent-le-all kind t [] = omega arith
spent-le-all kind t (a ∷ rest) =
    let here : bit (spent_one kind t a) ≤ bit (for_target kind t a) = ground arith in
    omega (arith, here, spent-le-all kind t rest)

-- A target with no open attempt has a task left.
item-room :
    (kind : WorkKind) (most : ℕ) (db : Db) (i : WorkItem)
    → Fits kind most db i
    → row_count (open_one kind i.target_id) db.attempts ≡ 0
    → row_count (spent_one kind i.target_id) db.attempts + 1 ≤ task_limit kind most
unfolding begun_one
item-room draft_work most db i f idle =
    let less = spent-le draft_work i.target_id db.attempts in
    let count =
      f.counted.computes ∙ length-rows_where (begun_one draft_work i.target_id) db.attempts in
    let within : ltb i.computes most ≡ true = f.within in
    let room : i.computes + 1 ≤ most = ground arith in omega (arith, less, count, room, idle)
item-room full_work most db i f idle = elim (Bool-cases i.archives) [
  | inl last ↦
      let less = spent-le-all full_work i.target_id db.attempts in
      let count =
        f.counted.attempts ∙ length-rows_where (for_target full_work i.target_id) db.attempts in
      let within : ltb i.attempts (most + 8) ≡ true = simp last at f.within in
      let room : i.attempts + 1 ≤ most + 8 = ground arith in omega (arith, less, count, room)
  | inr computing ↦
      let less = spent-le full_work i.target_id db.attempts in
      let count =
        f.counted.computes ∙ length-rows_where (begun_one full_work i.target_id) db.attempts in
      let within : ltb i.computes most ≡ true = simp computing at f.within in
      let room : i.computes + 1 ≤ most = ground arith in omega (arith, less, count, room, idle)
]

-- A new attempt is one of its own target only.
fresh-other :
    (kind other : WorkKind) (t : ℕ) (r : Reservation) (i : WorkItem)
    → (for_target other t (fresh_attempt kind r.attempt_id i r.standard r.high_memory r.now) ≡ true)
    → (kind ≡ other) × (i.target_id ≡ t)
fresh-other draft_work draft_work t r i h = (refl, (==_iff i.target_id t).0 h)
fresh-other full_work full_work t r i h = (refl, (==_iff i.target_id t).0 h)
fresh-other draft_work full_work t r i h = cc
fresh-other full_work draft_work t r i h = cc

abbrev pub ReservedBound : ℕ → Option (Attempt × Db) → Type 0
ReservedBound most none = Unit
ReservedBound most (some p) = Bounded most p.1.attempts

is_null-none : {A : Type 0} (o : Option A) → is_null o ≡ true → o ≡ none
is_null-none none e = refl
is_null-none (some a) e = cc

added-Bounded :
    (most : ℕ) (r : Reservation) (i : WorkItem) (db : Db)
    → Bounded most db.attempts
    → Fits r.kind most db i
    → find_row (open_one r.kind i.target_id) db.attempts ≡ none
    → Bounded most
        (fresh_attempt r.kind r.attempt_id i r.standard r.high_memory r.now ∷ db.attempts)
added-Bounded most r i db b fits free =
    let a = fresh_attempt r.kind r.attempt_id i r.standard r.high_memory r.now in
    let idle = row_count-none (open_one r.kind i.target_id) db.attempts free in
    let room = item-room r.kind most db i fits idle in
    record {
      single = λ kind t. elim (Bool-cases (for_target kind t a)) [
        | inr other ↦ rw other (omega (arith, b.single kind t))
        | inl own ↦
            let (k, e) = fresh-other r.kind kind t r i own in
            let none_open : row_count (open_one kind t) db.attempts ≡ 0 =
              subst₂ (λ l u. row_count (open_one l u) db.attempts ≡ 0) k e idle in
            let most_one : bit (open_one kind t a) ≤ 1 = ground arith in
            omega (arith, none_open, most_one)
      ];
      spent = λ kind t. elim (Bool-cases (for_target kind t a)) [
        | inr other ↦ rw other (omega (arith, b.spent kind t))
        | inl own ↦
            let (k, e) = fresh-other r.kind kind t r i own in
            let left : row_count (spent_one kind t) db.attempts + 1 ≤ task_limit kind most =
              subst₂ (λ l u. row_count (spent_one l u) db.attempts + 1 ≤ task_limit l most) k e
                room in
            let most_one : bit (spent_one kind t a) ≤ 1 = ground arith in
            omega (arith, left, most_one)
      ];
      ended = (λ e. cc, b.ended);
    }

reserve_from-Bounded :
    (most : ℕ) (r : Reservation) (is : List WorkItem) (db : Db)
    → Bounded most db.attempts
    → All (Fits r.kind most db) is
    → Ensures (ReservedBound most) (reserve_from r is db)
unfolding reserve_from add_attempt
reserve_from-Bounded most r [] db b fits = tt
reserve_from-Bounded most r (i ∷ is) db b fits =
    let rest = reserve_from-Bounded most r is db b fits.1 in
    Ensures-bind (ReservedBound most) (lock_survey_aggregate i.survey_id none db) _ (λ found at.
      Ensures-if (ReservedBound most) (may_reserve r i found db) _ _
        (λ may. Ensures-require (ReservedBound most) _ _ _ (λ new.
          Ensures-require (ReservedBound most)
            (is_null (find_row (open_one r.kind i.target_id) db.attempts)) _ _
            (λ free.
              Ensures-require (ReservedBound most) _ _ _
                (λ number. added-Bounded most r i db b fits.0 (is_null-none _ free)))))
        (λ passed. rest))

pub reserve_next_compute_attempt-Bounded :
    (r : Reservation) (db : Db)
    → Bounded r.max_compute db.attempts
    → Ensures (ReservedBound r.max_compute) (reserve_next_compute_attempt r db)
unfolding reserve_next_compute_attempt
reserve_next_compute_attempt-Bounded r db b =
    Ensures-require (ReservedBound r.max_compute) _ _ _ (λ positive.
      Ensures-if (ReservedBound r.max_compute) (leb r.global (open_attempts r.kind db)) _ _
        (λ full. tt)
        (λ room.
          reserve_from-Bounded r.max_compute r
            (compute_candidates r.kind r.per_user r.max_compute r.now db) db b
            (compute_candidates-Fits r.kind r.per_user r.max_compute r.now db)))
