-- ===== src/Survey/Attempts/Launch.antt =====
-- The launch of a reserved attempt and the lists that the control plane reads,
-- scholight/db/queries_survey_attempts.py.
use scholight.Prelude.{
  ℕ, ◌+◌, ◌-◌, min, Bool, true, false, not, ◌&&◌, ◌||◌, Option, none, some, List, [], ◌∷◌, ◌==◌,
  ltb, leb, get_elem?, length, take,
}
use scholight.Prelude.Text.{Text, codes, text_eq}
use scholight.Prelude.Result.{Result, ok, ◌>>=◌, ◌>>◌, require, or_raise}
use scholight.Prelude.Rows.{find_row, rows_where, update_row, order_by}
use scholight.Survey.Tables.{
  AttemptStatus, reserved, launching, launched, attempt_running, string, Attempt, Db, Error,
  invalid_limits, db_error, Tx, coalesce, is_key, is_null,
}
use scholight.Survey.Attempts.{of_kind}

-- `status IN ('reserved', 'launching')`
abbrev pub is_launchable : AttemptStatus → Bool
is_launchable reserved = true
is_launchable launching = true
is_launchable s = false

abbrev pub is_launched : AttemptStatus → Bool
is_launched launched = true
is_launched s = false

abbrev pub is_attempt_running : AttemptStatus → Bool
is_attempt_running attempt_running = true
is_attempt_running s = false

abbrev pub is_due : ℕ → Attempt → Bool
is_due now a = is_launchable a.status && leb a.next_launch_at now

-- `UPDATE survey_compute_attempts SET f WHERE p RETURNING *`
unfoldable pub update_returning : (Attempt → Bool) → (Attempt → Attempt) → Db → Option Attempt × Db
update_returning p f db = elim (find_row p db.attempts) [
  | none ↦ (none, db)
  | some a ↦ (some (f a), record db { attempts = update_row p f db.attempts })
]

-- `mark_compute_attempt_launching`
unfoldable pub mark_compute_attempt_launching : ℕ → ℕ → Db → Option Attempt × Db
unfolding update_returning
mark_compute_attempt_launching attempt_id now db =
    update_returning (λ a. a.id == attempt_id && is_due now a)
      (λ a. record a { status = launching }) db

abbrev due_before : Attempt → Attempt → Bool
due_before a b =
    ltb a.next_launch_at b.next_launch_at
    || a.next_launch_at == b.next_launch_at
      && (ltb a.created_at b.created_at || a.created_at == b.created_at && ltb a.id b.id)

-- `list_due_compute_attempts`
unfoldable list_due_compute_attempts : ℕ → ℕ → Db → Result Error (List Attempt)
list_due_compute_attempts limit now db = do
  require (leb 1 limit && leb limit 64) invalid_limits
  ok (take limit (order_by due_before (rows_where (is_due now) db.attempts)))

abbrev is_listed : Attempt → Bool
is_listed a = (is_launched a.status || is_attempt_running a.status) && not (is_null a.ecs_task_arn)

-- `coalesce(x, y, z)`
abbrev coalesce_to : Option ℕ → Option ℕ → ℕ → ℕ
coalesce_to (some x) y z = x
coalesce_to none (some y) z = y
coalesce_to none none z = z

abbrev last_seen : Attempt → ℕ
last_seen a = coalesce_to a.heartbeat_at a.launched_at a.created_at

abbrev seen_before : Attempt → Attempt → Bool
seen_before a b = ltb (last_seen a) (last_seen b) || last_seen a == last_seen b && ltb a.id b.id

-- `list_active_compute_attempts`
unfoldable list_active_compute_attempts : ℕ → Db → Result Error (List Attempt)
list_active_compute_attempts limit db = do
  require (leb 1 limit && leb limit 128) invalid_limits
  ok (take limit (order_by seen_before (rows_where is_listed db.attempts)))

-- `x = y` of a nullable text
abbrev is_text : Option Text → Text → Bool
is_text none t = false
is_text (some s) t = text_eq s t

-- `get_compute_attempt_by_task_arn`
unfoldable get_compute_attempt_by_task_arn : Text → Db → Option Attempt
get_compute_attempt_by_task_arn arn db = find_row (λ a. is_text a.ecs_task_arn arn) db.attempts

-- `(x IS NOT NULL AND y = x)`
abbrev same_key : Option ℕ → Option ℕ → Bool
same_key none y = false
same_key (some x) y = is_key y x

abbrev same_target : Attempt → Attempt → Bool
same_target current a =
    of_kind current.work_kind a.work_kind
    && (same_key current.draft_id a.draft_id || same_key current.job_id a.job_id)

-- `count_started_compute_attempts`
unfoldable count_started_compute_attempts : ℕ → Db → ℕ
count_started_compute_attempts attempt_id db =
    elim (find_row (λ a. a.id == attempt_id) db.attempts) [
      | none ↦ 0
      | some current ↦
          length (rows_where (λ a. same_target current a && not (is_null a.started_at)) db.attempts)
    ]

abbrev delays : List ℕ
delays = 15 ∷ 30 ∷ 60 ∷ 120 ∷ 300 ∷ []

abbrev pub or_zero : Option ℕ → ℕ
or_zero none = 0
or_zero (some n) = n

-- `delays[min(failures - 1, len(delays) - 1)]`; the index lies within the list.
abbrev launch_delay : ℕ → ℕ
launch_delay failures = or_zero (get_elem? delays (min (failures - 1) (length delays - 1)))

abbrev pub defer_launch : Text → ℕ → Attempt → Attempt
defer_launch reason now a = record a {
  status = reserved;
  launch_failures = a.launch_failures + 1;
  next_launch_at = now + launch_delay (a.launch_failures + 1);
  failure_class = some (codes "launch");
  failure_details = (codes "container_reason", string (take 512 reason)) ∷ [];
}

-- `record_compute_launch_failure`
unfoldable pub record_compute_launch_failure : ℕ → Text → ℕ → Db → Tx Attempt
record_compute_launch_failure attempt_id reason now db = do
  current ← or_raise (find_row (λ a. a.id == attempt_id) db.attempts) db_error
  require (is_launchable current.status) db_error
  ok (
    defer_launch reason now current,
    record db {
      attempts = update_row (λ a. a.id == attempt_id) (defer_launch reason now) db.attempts;
    },
  )

abbrev no_other_arn : Option Text → Text → Bool
no_other_arn none arn = true
no_other_arn (some s) arn = text_eq s arn

abbrev pub takes_arn : ℕ → Text → Attempt → Bool
takes_arn attempt_id arn a =
    a.id == attempt_id
    && (is_launchable a.status || is_launched a.status)
    && no_other_arn a.ecs_task_arn arn

abbrev pub launch_as : Text → ℕ → Attempt → Attempt
launch_as arn now a = record a {
  status = launched;
  ecs_task_arn = some arn;
  launched_at = coalesce a.launched_at now;
}

-- `mark_compute_attempt_launched`; a task belongs to one attempt, as the unique index says.
unfoldable pub mark_compute_attempt_launched : ℕ → Text → ℕ → Db → Tx Attempt
mark_compute_attempt_launched attempt_id arn now db = do
  current ← or_raise (find_row (takes_arn attempt_id arn) db.attempts) db_error
  require
      (is_null (find_row (λ a. not (a.id == attempt_id) && is_text a.ecs_task_arn arn) db.attempts))
      db_error
  ok (
    launch_as arn now current,
    record db { attempts = update_row (takes_arn attempt_id arn) (launch_as arn now) db.attempts },
  )
