-- ===== src/Survey/Attempts/Bound/Wearing.antt =====
-- What the writes to an attempt make of it.
use scholight.Prelude.{ℕ, ◌≡◌, refl, sym, ◌∙◌, ap, Bool, true, false, if◌then◌else◌, arith}
use scholight.Survey.Tables.{
  AttemptStatus, retryable, attempt_failed, WorkKind, draft_work, full_work, Attempt, Db, is_null,
}
use scholight.Survey.Attempts.{is_open}
use scholight.Survey.Attempts.Stops.{give_up, stop_target, is_final}
use scholight.Survey.Attempts.Bound.Worn.{Ended, Worn}

pub give_up-attempts :
    (kind : WorkKind) (a : Attempt) (attempt_id : ℕ) (db : Db)
    → (give_up kind a attempt_id db).attempts ≡ db.attempts
unfolding give_up
give_up-attempts draft_work a attempt_id db = refl
give_up-attempts full_work a attempt_id db = refl

pub stop_target-attempts :
    (kind : WorkKind) (a : Attempt) (attempt_id : ℕ) (may_retry : Bool) (now : ℕ) (db : Db)
    → (stop_target kind a attempt_id may_retry now db).attempts ≡ db.attempts
unfolding stop_target
stop_target-attempts draft_work a attempt_id may_retry now db = refl
stop_target-attempts full_work a attempt_id may_retry now db = refl

pub stopped-closed :
    (may_retry : Bool) (s : AttemptStatus)
    → is_open (if is_final s then s else if may_retry then retryable else attempt_failed) ≡ false
stopped-closed may_retry s = ground arith

-- A write to an open attempt that leaves its target and its event alone.
pub Worn-open_kept :
    (x y : Attempt)
    → Ended x
    → is_open x.status ≡ true
    → y.draft_id ≡ x.draft_id
    → y.job_id ≡ x.job_id
    → y.ecs_event_version ≡ x.ecs_event_version
    → Worn x y
Worn-open_kept x y was on draft job version = record {
  draft = draft;
  job = job;
  open_before = λ e. on;
  begun_before = λ e. rw on refl;
  ended = λ e. let off = was (ap is_null (sym version) ∙ e) in cc;
}

-- A write that closes an attempt, or leaves it closed.
pub Worn-closed :
    (x y : Attempt)
    → is_open y.status ≡ false
    → y.draft_id ≡ x.draft_id
    → y.job_id ≡ x.job_id
    → y.started_at ≡ x.started_at
    → Worn x y
Worn-closed x y off draft job started = record {
  draft = draft;
  job = job;
  open_before = λ e. cc;
  begun_before = λ e.
      let begun : is_null x.started_at ≡ false = ap is_null (sym started) ∙ e in
      rw begun (ground arith);
  ended = λ e. off;
}

-- A write to other columns.
pub Worn-aside :
    (x y : Attempt)
    → Ended x
    → y.status ≡ x.status
    → y.draft_id ≡ x.draft_id
    → y.job_id ≡ x.job_id
    → y.started_at ≡ x.started_at
    → y.ecs_event_version ≡ x.ecs_event_version
    → Worn x y
Worn-aside x y was status draft job started version = record {
  draft = draft;
  job = job;
  open_before = λ e. ap is_open (sym status) ∙ e;
  begun_before = λ e.
      let begun : is_null x.started_at ≡ false = ap is_null (sym started) ∙ e in
      rw begun (ground arith);
  ended = λ e. ap is_open status ∙ was (ap is_null (sym version) ∙ e);
}
