-- ===== src/Survey/Attempts/Capacity.antt =====
-- What a reservation leaves of the capacity.
use mathlib.Core.Path.{subst}
use scholight.Prelude.{
  ℕ, ◌+◌, ◌≡◌, ◌≤◌, ◌<◌, max, refl, Bool, true, false, ◌&&◌, Option, none, some, List, [], ◌∷◌,
  ◌==◌, ==_iff, ltb, leb, arith, All, Bool-cases, inl, inr, length,
}
use scholight.Prelude.Result.{Ensures, Ensures-if, Ensures-bind, Ensures-require}
use scholight.Prelude.Rows.{rows_where}
use scholight.Survey.Tables.{
  WorkKind, draft_work, full_work, Attempt, Db, lock_survey_aggregate, Locked,
}
use scholight.Survey.Claim.{of_user}
use scholight.Survey.Attempts.{is_open, of_kind, open_attempts, open_of, survey_of_attempt}
use scholight.Survey.Attempts.Reserve.{
  Reservation, fresh_attempt, add_attempt, candidate_is_current, may_reserve, reserve_from,
  reserve_next_compute_attempt,
}
use scholight.Survey.Attempts.Candidates.{WorkItem, compute_candidates}
use scholight.Survey.Attempts.Bound.Counting.{Fits, compute_candidates-Fits}

-- The capacity after a reservation: the open attempts of the kind are within the global limit, no user is
-- brought above its own, and the other kind is as it was.
pub record WithinCapacity (r : Reservation) (db after : Db) : Type 0 where
  pub global : open_attempts r.kind after ≤ r.global
  pub users : (user : ℕ) → open_of r.kind user after ≤ max r.per_user (open_of r.kind user db)
  pub others :
      (kind : WorkKind)
      → of_kind r.kind kind ≡ false
      → open_attempts kind after ≡ open_attempts kind db

abbrev pub Reserves : (Db → Type 0) → Option (Attempt × Db) → Type 0
Reserves P none = Unit
Reserves P (some p) = P p.1

and_right : (a b : Bool) → (a && b) ≡ true → b ≡ true
and_right a b h = ground arith

kind_sym : (a b : WorkKind) → of_kind a b ≡ false → of_kind b a ≡ false
kind_sym draft_work draft_work h = h
kind_sym full_work full_work h = h
kind_sym draft_work full_work h = refl
kind_sym full_work draft_work h = refl

not_full : (limit n : ℕ) → leb limit n ≡ false → n < limit
not_full limit n room = ground arith

room_left : (n limit : ℕ) → ltb n limit ≡ true → n < limit
room_left n limit room = ground arith

-- One row more counts for one at most, and only where the query takes it.
one_more :
    (p : Attempt → Bool) (a : Attempt) (as_rows : List Attempt)
    → length (rows_where p (a ∷ as_rows)) ≤ 1 + length (rows_where p as_rows)
one_more p a as_rows = elim (Bool-cases (p a)) [
  | inl hit ↦ rw hit (omega arith)
  | inr miss ↦ rw miss (omega arith)
]

not_taken :
    (p : Attempt → Bool) (a : Attempt) (as_rows : List Attempt)
    → p a ≡ false
    → length (rows_where p (a ∷ as_rows)) ≡ length (rows_where p as_rows)
not_taken p a as_rows miss = rw miss refl

max_left : (a b n : ℕ) → n ≤ a → n ≤ max a b
max_left a b n h = omega arith

max_right : (a b n : ℕ) → n ≤ b → n ≤ max a b
max_right a b n h = omega arith

added-WithinCapacity :
    (r : Reservation) (i : WorkItem) (db : Db)
    → Fits r.kind r.max_compute db i
    → leb r.global (open_attempts r.kind db) ≡ false
    → ltb (open_of r.kind i.user_id db) r.per_user ≡ true
    → WithinCapacity r db (record db {
      attempts = fresh_attempt r.kind r.attempt_id i r.standard r.high_memory r.now ∷ db.attempts;
    })
added-WithinCapacity r i db fits room user_room =
    let a : Attempt = fresh_attempt r.kind r.attempt_id i r.standard r.high_memory r.now in
    record {
      global =
          let more = one_more (λ x. of_kind r.kind x.work_kind && is_open x.status) a db.attempts in
          let below = not_full r.global (open_attempts r.kind db) room in
          omega (arith, more, below);
      users = λ user.
          let p : Attempt → Bool = λ x.
            of_kind r.kind x.work_kind
            && is_open x.status
            && of_user user (survey_of_attempt db x) in
          elim (Bool-cases (i.user_id == user)) [
            | inr stranger ↦
                let miss : p a ≡ false = rw (fits.counted.owner user, stranger) (ground arith) in
                let same = not_taken p a db.attempts miss in
                max_right r.per_user (open_of r.kind user db) _ (omega (arith, same))
            | inl same ↦
                let e : i.user_id ≡ user = (==_iff i.user_id user).0 same in
                let less : open_of r.kind user db < r.per_user =
                  subst (λ u. open_of r.kind u db < r.per_user) e
                    (room_left (open_of r.kind i.user_id db) r.per_user user_room) in
                let more = one_more p a db.attempts in
                max_left r.per_user (open_of r.kind user db) _ (omega (arith, more, less))
          ];
      others = λ kind differs. rw (kind_sym r.kind kind differs) refl;
    }

reserve_from-WithinCapacity :
    (r : Reservation) (is : List WorkItem) (db : Db)
    → All (Fits r.kind r.max_compute db) is
    → leb r.global (open_attempts r.kind db) ≡ false
    → Ensures (Reserves (WithinCapacity r db)) (reserve_from r is db)
unfolding reserve_from add_attempt
reserve_from-WithinCapacity r [] db fits room = tt
reserve_from-WithinCapacity r (i ∷ is) db fits room =
    let P = Reserves (WithinCapacity r db) in
    let rest = reserve_from-WithinCapacity r is db fits.1 room in
    Ensures-bind P (lock_survey_aggregate i.survey_id none db) _ (λ found at.
      Ensures-if P (may_reserve r i found db) _ _
        (λ may. Ensures-require P _ _ _ (λ new. Ensures-require P _ _ _ (λ free.
          Ensures-require P _ _ _
            (λ number. added-WithinCapacity r i db fits.0 room (user_room r i found db may)))))
        (λ passed. rest))
  where
    user_room :
        (r : Reservation) (i : WorkItem) (found : Option Locked) (db : Db)
        → may_reserve r i found db ≡ true
        → ltb (open_of r.kind i.user_id db) r.per_user ≡ true
    user_room r i none db may = cc
    user_room r i (some l) db may =
        and_right (candidate_is_current r.kind r.clock l i.target_id) _ may

-- A reservation that is made leaves at most the global limit of open attempts of its kind, brings no
-- user above its own limit (a user has afterwards at most that many, or no more than before), and
-- leaves the attempts of the other kind alone.
pub reserve_next_compute_attempt-WithinCapacity :
    (r : Reservation) (db : Db)
    → Ensures (Reserves (WithinCapacity r db)) (reserve_next_compute_attempt r db)
unfolding reserve_next_compute_attempt
reserve_next_compute_attempt-WithinCapacity r db =
    let P = Reserves (WithinCapacity r db) in
    Ensures-require P _ _ _ (λ positive.
      Ensures-if P (leb r.global (open_attempts r.kind db)) _ _ (λ full. tt)
        (λ room.
          reserve_from-WithinCapacity r
            (compute_candidates r.kind r.per_user r.max_compute r.now db) db
            (compute_candidates-Fits r.kind r.per_user r.max_compute r.now db) room))
