-- ===== src/Survey/Attempts/Events.antt =====
-- The events of ECS, which arrive at least once and in any order, at `record_compute_attempt_stopped`
-- and `record_compute_attempt_succeeded`.
use scholight.Survey.Attempts.Bound.Wearing.{give_up-attempts, stop_target-attempts}
use scholight.Prelude.{ℕ, ◌≡◌, refl, ◌∙◌, ap, true, false, Option, none, some, ◌==◌, ==_refl, arith}
use scholight.Prelude.Int.{ℤ, leb_ℤ}
use scholight.Prelude.Result.{
  if_either, Result, ok, err, ◌>>=◌, or_raise, Ensures, Ensures-if, Ensures-or_raise, Ensures-mono,
}
use scholight.Prelude.Rows.{find_row, All-find_row}
use scholight.Prelude.Keys.{find_row-update_row}
use scholight.Survey.Tables.{Attempt, Db, Error, db_error, is_null}
use scholight.Survey.Attempts.{is_open}
use scholight.Survey.Attempts.Stops.{
  is_stale, StopEvent, is_final, stop_attempt, exit_clean, target_over, write_attempt,
  record_compute_attempt_stopped, record_compute_attempt_succeeded,
}
use scholight.Survey.Ledger.System.{empty_tables}
use scholight.Survey.Attempts.Bound.Worn.{Ended}
use scholight.Survey.Attempts.Bound.Writes.{KeepsBound, record_compute_attempt_stopped-KeepsBound}
use scholight.Survey.Attempts.Bound.System.{Reach, Reach-Bounded, empty-Bounded}

-- The attempt of an event is found again, and has seen that event or a newer one.
record Handled (attempt_id : ℕ) (version : ℤ) (r : Attempt × Db) : Type 0 where
  pub kept : find_row (λ a. a.id == attempt_id) r.1.attempts ≡ some r.0
  pub noted : is_stale r.0.ecs_event_version version ≡ true

leb_ℤ_refl : (a : ℤ) → leb_ℤ a a ≡ true
leb_ℤ_refl a = ground arith

is_stale_older :
    (seen : Option ℤ) (a b : ℤ) → is_stale seen b ≡ true → leb_ℤ a b ≡ true → is_stale seen a ≡ true
is_stale_older none a b h k = cc
is_stale_older (some s) a b h k = ground arith

stale_seen : (seen : Option ℤ) (version : ℤ) → is_stale seen version ≡ true → is_null seen ≡ false
stale_seen none version h = cc
stale_seen (some s) version h = refl

written-found :
    (attempt_id : ℕ) (f : Attempt → Attempt) (db : Db) {a : Attempt}
    → ((x : Attempt) → (f x).id ≡ x.id)
    → find_row (λ x. x.id == attempt_id) db.attempts ≡ some a
    → find_row (λ x. x.id == attempt_id) (write_attempt attempt_id f db).attempts ≡ some (f a)
written-found attempt_id f db keeps found =
    find_row-update_row (λ x. x.id) attempt_id attempt_id f db.attempts keeps found
    ∙ rw (==_refl attempt_id) refl

stopped-Handled :
    (attempt_id : ℕ) (e : StopEvent) (now : ℕ) (db : Db)
    → Ensures (Handled attempt_id e.version) (record_compute_attempt_stopped attempt_id e now db)
unfolding record_compute_attempt_stopped
stopped-Handled attempt_id e now db =
    let P = Handled attempt_id e.version in
    Ensures-or_raise P (find_row (λ a. a.id == attempt_id) db.attempts) db_error _ (λ current found.
      Ensures-if P (is_stale current.ecs_event_version e.version) _ _
        (λ stale. record { kept = found; noted = stale })
        (λ newer. record {
          kept =
              let after = write_attempt attempt_id (stop_attempt e now) db in
              let there = written-found attempt_id (stop_attempt e now) db (λ x. refl) found in
              if_either
                (λ d.
                  find_row (λ a. a.id == attempt_id) d.attempts ≡ some (stop_attempt e now current))
                (is_final current.status) after _ there
                (ap (find_row (λ a. a.id == attempt_id)) (
                    stop_target-attempts current.work_kind current attempt_id e.may_retry now after)
                  ∙ there);
          noted = leb_ℤ_refl e.version;
        }))

exited-Handled :
    (attempt_id : ℕ) (version code : ℤ) (now : ℕ) (db : Db)
    → Ensures
        (Handled attempt_id version)
        (record_compute_attempt_succeeded attempt_id version code now db)
unfolding record_compute_attempt_succeeded
exited-Handled attempt_id version code now db =
    let P = Handled attempt_id version in
    Ensures-or_raise P (find_row (λ a. a.id == attempt_id) db.attempts) db_error _ (λ current found.
      Ensures-if P (is_stale current.ecs_event_version version) _ _
        (λ stale. record { kept = found; noted = stale })
        (λ newer. record {
          kept =
              let over = target_over current.work_kind current db in
              let after = write_attempt attempt_id (exit_clean over version code now) db in
              let there =
                written-found attempt_id (exit_clean over version code now) db (λ x. refl) found in
              if_either
                (λ d.
                  find_row (λ a. a.id == attempt_id) d.attempts
                  ≡ some (exit_clean over version code now current))
                over after _ there
                (ap (find_row (λ a. a.id == attempt_id))
                    (give_up-attempts current.work_kind current attempt_id after)
                  ∙ there);
          noted = leb_ℤ_refl version;
        }))

stopped_stale :
    (attempt_id : ℕ) (e : StopEvent) (now : ℕ) (version : ℤ) (r : Attempt × Db)
    → Handled attempt_id version r
    → leb_ℤ e.version version ≡ true
    → record_compute_attempt_stopped attempt_id e now r.1 ≡ ok r
unfolding record_compute_attempt_stopped or_raise ◌>>=◌
stopped_stale attempt_id e now version r h old =
    let stale = is_stale_older r.0.ecs_event_version e.version version h.noted old in
    rw (record_compute_attempt_stopped, h.kept, stale) refl

exited_stale :
    (attempt_id : ℕ) (older code : ℤ) (now : ℕ) (version : ℤ) (r : Attempt × Db)
    → Handled attempt_id version r
    → leb_ℤ older version ≡ true
    → record_compute_attempt_succeeded attempt_id older code now r.1 ≡ ok r
unfolding record_compute_attempt_succeeded or_raise ◌>>=◌
exited_stale attempt_id older code now version r h old =
    let stale = is_stale_older r.0.ecs_event_version older version h.noted old in
    rw (record_compute_attempt_succeeded, h.kept, stale) refl

-- What an event that arrives late does: nothing.
abbrev pub Ignores : ℕ → ℤ → Attempt × Db → Type 0
Ignores attempt_id version r =
    (later : ℕ) (d : StopEvent) (code : ℤ)
    → leb_ℤ d.version version ≡ true
    → (record_compute_attempt_stopped attempt_id d later r.1 ≡ ok r)
      × (record_compute_attempt_succeeded attempt_id d.version code later r.1 ≡ ok r)

Handled-Ignores :
    (attempt_id : ℕ) (version : ℤ) (r : Attempt × Db)
    → Handled attempt_id version r
    → Ignores attempt_id version r
Handled-Ignores attempt_id version r h later d code old = (
  stopped_stale attempt_id d later version r h old,
  exited_stale attempt_id d.version code later version r h old,
)

-- Once a stop or a clean exit of an attempt is recorded, the same event again, and every older event of
-- that attempt of either sort, returns the attempt and changes nothing.
pub compute_events_once :
    (attempt_id : ℕ) (e : StopEvent) (code : ℤ) (now : ℕ) (db : Db)
    → Ensures (Ignores attempt_id e.version) (record_compute_attempt_stopped attempt_id e now db)
      × Ensures
          (Ignores attempt_id e.version)
          (record_compute_attempt_succeeded attempt_id e.version code now db)
compute_events_once attempt_id e code now db = (
  Ensures-mono (Handled attempt_id e.version) (Ignores attempt_id e.version) _
      (Handled-Ignores attempt_id e.version) (stopped-Handled attempt_id e now db),
  Ensures-mono (Handled attempt_id e.version) (Ignores attempt_id e.version) _
      (Handled-Ignores attempt_id e.version) (exited-Handled attempt_id e.version code now db),
)

-- From empty tables, after any transactions in any order: a stop that is recorded leaves its attempt
-- ended, in the table as in the result.
pub stopped_ends :
    (most : ℕ) (overrides : ℕ → Option ℕ) {db : Db}
    → Reach most (empty_tables overrides) db
    → (attempt_id : ℕ) (e : StopEvent) (now : ℕ)
    → Ensures
        (λ r.
          (is_open r.0.status ≡ false)
          × (find_row (λ a. a.id == attempt_id) r.1.attempts ≡ some r.0))
        (record_compute_attempt_stopped attempt_id e now db)
stopped_ends most overrides {db} reach attempt_id e now =
    both (record_compute_attempt_stopped attempt_id e now db)
      (record_compute_attempt_stopped-KeepsBound most attempt_id e now db
        (Reach-Bounded most (empty-Bounded most) reach))
      (stopped-Handled attempt_id e now db)
  where
    both :
        (r : Result Error (Attempt × Db))
        → KeepsBound most r
        → Ensures (Handled attempt_id e.version) r
        → Ensures
            (λ r.
              (is_open r.0.status ≡ false)
              × (find_row (λ a. a.id == attempt_id) r.1.attempts ≡ some r.0))
            r
    both (ok (a, after)) b h = (
      (All-find_row Ended (λ x. x.id == attempt_id) after.attempts b.ended h.kept)
          (stale_seen a.ecs_event_version e.version h.noted),
      h.kept,
    )
    both (err f) b h = tt
