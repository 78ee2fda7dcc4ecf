-- ===== src/Extract/Gate.antt =====
-- scholight/web_extract/admission.py: `BoundedGate`, its futures, and `Permit`. A future is a
-- reference into the gate's store. The two halves of the coroutine `acquire` are two functions,
-- one up to its `await` and one from there on. Metrics are left out.
pub mod System
pub mod Counting
pub mod Release
pub mod Invariant
pub mod Enter
pub mod Wake
pub mod Steps
pub mod Safety
mod Tests
use scholight.Prelude.{
  ℕ, suc, ◌+◌, Bool, true, false, not, ◌&&◌, List, [], ◌∷◌, ◌++◌, leb, if◌then◌else◌, length,
  update, contains, erase,
}
use scholight.Prelude.Int.{ℤ, pos, ◌+ℤ◌, ◌-ℤ◌, ltb_ℤ}

-- What `set_result(None)` and a cancellation make of a future.
pub data Future : Type 0 where
  pending granted cancelled : Future

-- `future.done()`: it has a result or is cancelled.
abbrev pub done : Future → Bool
done pending = false
done granted = true
done cancelled = true

-- `future.cancelled()`
abbrev pub is_cancelled : Future → Bool
is_cancelled cancelled = true
is_cancelled _ = false

pub record Gate : Type 0 where
  pub capacity : ℕ
  pub max_waiters : ℕ
  pub active : ℤ
  pub queue : List ℕ
  pub futures : ℕ → Future
  pub next : ℕ  -- the reference that `create_future` returns next

abbrev pub is_empty {ℓ} : {A : Type ℓ} → List A → Bool
is_empty [] = true
is_empty (_ ∷ _) = false

-- `BoundedGate.__init__`
unfoldable pub new : ℕ → ℕ → Gate
new capacity max_waiters = record {
  capacity = capacity;
  max_waiters = max_waiters;
  active = pos 0;
  queue = [];
  futures = λ _. pending;
  next = 0;
}

-- How the first half of `acquire` ends: with a slot, with `capacity_error`, or at the `await`.
pub data Entry : Type 0 where
  admitted rejected : Entry
  waiting : ℕ → Entry

unfoldable pub acquire : Gate → Gate × Entry
acquire g =
    if ltb_ℤ g.active (pos g.capacity) && is_empty g.queue
    then (record g { active = g.active +ℤ pos 1 }, admitted)
    else if leb g.max_waiters (length g.queue)
    then (g, rejected)
    else (
      record g {
        queue = g.queue ++ g.next ∷ [];
        futures = update g.futures g.next pending;
        next = g.next + 1;
      },
      waiting g.next,
    )

-- The loop of `release`: it drops the futures that are done and grants the first that is not.
unfoldable pub hand_over : List ℕ → Gate → Gate
hand_over [] g = record g { queue = [] }
hand_over (f ∷ q) g =
    if done (g.futures f)
    then hand_over q g
    else record g { queue = q; active = g.active +ℤ pos 1; futures = update g.futures f granted }

unfoldable pub release : Gate → Gate
unfolding hand_over
release g = hand_over g.queue (record g { active = g.active -ℤ pos 1 })

-- What the awaiting task is thrown: its own deadline, or any other exception.
pub data Interrupt : Type 0 where
  timeout other : Interrupt

-- What a failed `acquire` raises: `capacity_error`, or the exception once more.
pub data Raised : Type 0 where
  capacity_error reraised : Raised

abbrev raised : Interrupt → Raised
raised timeout = capacity_error
raised other = reraised

-- The `except` block of `acquire`.
unfoldable pub abandon : ℕ → Interrupt → Gate → Gate × Raised
unfolding release
abandon f error g = (
  if done (g.futures f) && not (is_cancelled (g.futures f))
      then release g
      else if contains f g.queue
      then record g { queue = erase f g.queue }
      else g,
  raised error,
)
