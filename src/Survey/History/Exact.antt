-- ===== src/Survey/History/Exact.antt =====
-- The heartbeat and the end of a compute attempt, as they write its draft, keep the history.
use scholight.Prelude.{
  ℕ, ◌+◌, ◌≡◌, refl, sym, ap, Bool, true, false, none, some, List, [], ◌∷◌, ◌==◌, arith, Bool-cases,
  Option-cases, inl, inr,
}
use scholight.Prelude.Int.{ℤ}
use scholight.Prelude.Result.{Ensures-if, Ensures-or_raise}
use scholight.Prelude.Rows.{find_row, update_row, find_row-holds}
use scholight.Prelude.Keys.{row_count}
use scholight.Survey.Tables.{WorkKind, draft_work, full_work, Draft, Attempt, Db, db_error}
use scholight.Survey.Drafts.{is_draft_running}
use scholight.Survey.Drafts.Leases.{beat_draft}
use scholight.Survey.Attempts.Checkpoints.{
  heartbeat_compute_attempt, beat_target, holds_draft_of, holds_job_of, runs_as, seen,
}
use scholight.Survey.Attempts.Stops.{
  record_compute_attempt_succeeded, record_compute_attempt_stopped, StopEvent, give_up, stop_target,
  leases_draft, requeue, stop_draft, write_attempt, exit_clean, stop_attempt, is_stale, is_final,
  target_over,
}
use scholight.Survey.History.Rows.{Quiet}
use scholight.Survey.History.States.{
  History, same-KeepsSurveys, elsewhere-History, Quiet-History, is_wild,
}
use scholight.Survey.History.Drafting.{KeepsHistory}
use scholight.Survey.History.Leasing.{beat_draft-History, running-active}
use scholight.Survey.History.ExactClaims.{attempts-History}

update_row-none :
    (p : Draft → Bool) (f : Draft → Draft) (ds : List Draft)
    → find_row p ds ≡ none
    → update_row p f ds ≡ ds
update_row-none p f [] missing = refl
update_row-none p f (d ∷ ds) missing = elim (Bool-cases (p d)) [
  | inl hit ↦ let there : some d ≡ none = simp hit at missing in cc
  | inr miss ↦ rw miss (ap (λ es. d ∷ es) (update_row-none p f ds (simp miss at missing)))
]

none-counted :
    (w p : Draft → Bool) (ds : List Draft) {x : Draft}
    → row_count w ds ≡ 0
    → find_row p ds ≡ some x
    → w x ≡ false
none-counted w p [] zero_count found = cc
none-counted w p (d ∷ ds) {x} zero_count found = elim (Bool-cases (w d)) [
  | inl counted ↦
      let more : 1 + row_count w ds ≡ 0 = rw counted at zero_count in absurd (omega (arith, more))
  | inr passed ↦
      let less : 0 + row_count w ds ≡ 0 = rw passed at zero_count in
      elim (Bool-cases (p d)) [
        | inl hit ↦
            let e : some d ≡ some x = simp hit at found in let is : d ≡ x = cc in rw (sym is) passed
        | inr miss ↦ none-counted w p ds (omega (arith, less)) (simp miss at found)
      ]
]

-- A write to a draft that runs, if there is one.
running-History :
    (p : Draft → Bool) (f : Draft → Draft) (db : Db)
    → History db
    → ((x : Draft) → find_row p db.drafts ≡ some x → is_draft_running x.status ≡ true)
    → ((x : Draft) → is_draft_running x.status ≡ true → Quiet x (f x) × (is_wild (f x) ≡ false))
    → History (record db { drafts = update_row p f db.drafts })
running-History p f db h runs quiet = elim (Option-cases (find_row p db.drafts)) [
  | inl missing ↦
      elsewhere-History db (record db { drafts = update_row p f db.drafts }) h
        (update_row-none p f db.drafts missing)
        (same-KeepsSurveys db (record db { drafts = update_row p f db.drafts }) refl)
  | inr (x, found) ↦
      let on = runs x found in
      Quiet-History db (record db { drafts = update_row p f db.drafts }) p f h found refl
        (same-KeepsSurveys db (record db { drafts = update_row p f db.drafts }) refl)
        (running-active x.status on).0 (quiet x on).0 (quiet x on).1
]

give_up-History :
    (kind : WorkKind) (a : Attempt) (attempt_id : ℕ) (db : Db)
    → History db
    → History (give_up kind a attempt_id db)
unfolding give_up
give_up-History full_work a attempt_id db h = record {
  numbered = h.numbered;
  owned = h.owned;
  held = h.held;
}
give_up-History draft_work a attempt_id db h =
    running-History (leases_draft a attempt_id) requeue db h
      (λ x found.
        let leased = find_row-holds (leases_draft a attempt_id) db.drafts found in
        let tame = none-counted is_wild (leases_draft a attempt_id) db.drafts h.held found in
        ground arith)
      (λ x on. (
        record {
          id = refl;
          survey = refl;
          unready = refl;
          active = λ e. (running-active x.status on).1;
        },
        refl,
      ))

pub record_compute_attempt_succeeded-KeepsHistory :
    (attempt_id : ℕ) (version code : ℤ) (now : ℕ) (db : Db)
    → History db
    → KeepsHistory (record_compute_attempt_succeeded attempt_id version code now db)
unfolding record_compute_attempt_succeeded
record_compute_attempt_succeeded-KeepsHistory attempt_id version code now db h =
    let P : Attempt × Db → Type 0 = λ p. History p.1 in
    Ensures-or_raise P (find_row (λ a. a.id == attempt_id) db.attempts) db_error _ (λ current found.
      Ensures-if P (is_stale current.ecs_event_version version) _ _ (λ stale. h)
        (λ newer.
          let after =
            write_attempt attempt_id
              (exit_clean (target_over current.work_kind current db) version code now) db in
          let kept : History after = attempts-History db _ h in
          elim (Bool-cases (target_over current.work_kind current db)) [
            | inl over ↦ rw over (rw over at kept)
            | inr open_target ↦
                let given = give_up-History current.work_kind current attempt_id after kept in
                rw open_target (rw open_target at given)
          ]))

stop_target-History :
    (kind : WorkKind) (a : Attempt) (attempt_id : ℕ) (may_retry : Bool) (now : ℕ) (db : Db)
    → History db
    → History (stop_target kind a attempt_id may_retry now db)
unfolding stop_target
stop_target-History full_work a attempt_id may_retry now db h = record {
  numbered = h.numbered;
  owned = h.owned;
  held = h.held;
}
stop_target-History draft_work a attempt_id may_retry now db h =
    running-History (holds_draft_of a attempt_id) (stop_draft may_retry now) db h
      (λ x found.
        let held = find_row-holds (holds_draft_of a attempt_id) db.drafts found in ground arith)
      (stopped may_retry)
  where
    stopped :
        (b : Bool) (x : Draft)
        → is_draft_running x.status ≡ true
        → Quiet x (stop_draft b now x) × (is_wild (stop_draft b now x) ≡ false)
    stopped true x on = (
      record {
        id = refl;
        survey = refl;
        unready = refl;
        active = λ e. (running-active x.status on).1;
      },
      refl,
    )
    stopped false x on =
        (record { id = refl; survey = refl; unready = refl; active = λ e. cc }, refl)

pub record_compute_attempt_stopped-KeepsHistory :
    (attempt_id : ℕ) (e : StopEvent) (now : ℕ) (db : Db)
    → History db
    → KeepsHistory (record_compute_attempt_stopped attempt_id e now db)
unfolding record_compute_attempt_stopped
record_compute_attempt_stopped-KeepsHistory attempt_id e now db h =
    let P : Attempt × Db → Type 0 = λ p. History p.1 in
    Ensures-or_raise P (find_row (λ a. a.id == attempt_id) db.attempts) db_error _ (λ current found.
      Ensures-if P (is_stale current.ecs_event_version e.version) _ _ (λ stale. h)
        (λ newer.
          let after = write_attempt attempt_id (stop_attempt e now) db in
          let kept : History after = attempts-History db _ h in
          elim (Bool-cases (is_final current.status)) [
            | inl over ↦ rw over kept
            | inr open_attempt ↦ rw open_attempt (
                stop_target-History current.work_kind current attempt_id e.may_retry now after kept)
          ]))

beat_target-History :
    (kind : WorkKind) (a : Attempt) (attempt_id lease now : ℕ) (db : Db)
    → History db
    → History (beat_target kind a attempt_id lease now db).1
unfolding beat_target
beat_target-History full_work a attempt_id lease now db h =
    elim (Option-cases (find_row (holds_job_of a attempt_id) db.jobs)) [
      | inl missing ↦ rw (beat_target, missing) h
      | inr (j, found) ↦
          rw (beat_target, found) (record { numbered = h.numbered; owned = h.owned; held = h.held })
    ]
beat_target-History draft_work a attempt_id lease now db h =
    elim (Option-cases (find_row (holds_draft_of a attempt_id) db.drafts)) [
      | inl missing ↦ rw (beat_target, missing) h
      | inr (d, found) ↦
          rw (beat_target, found)
            (let mine = find_row-holds (holds_draft_of a attempt_id) db.drafts found in
              let runs : is_draft_running d.status ≡ true = ground arith in
              let after : Db = record db {
                drafts = update_row (holds_draft_of a attempt_id) (beat_draft lease now) db.drafts;
                attempts = seen attempt_id now db.attempts;
              } in
              beat_draft-History (holds_draft_of a attempt_id) lease now db after h found runs refl
                (same-KeepsSurveys db after refl))
    ]

pub heartbeat_compute_attempt-History :
    (attempt_id lease now : ℕ) (db : Db)
    → History db
    → History (heartbeat_compute_attempt attempt_id lease now db).1
unfolding heartbeat_compute_attempt
heartbeat_compute_attempt-History attempt_id lease now db h =
    elim (Option-cases (find_row (runs_as attempt_id) db.attempts)) [
      | inl missing ↦ rw (heartbeat_compute_attempt, missing) h
      | inr (a, found) ↦
          rw (heartbeat_compute_attempt, found)
            (beat_target-History a.work_kind a attempt_id lease now db h)
    ]
