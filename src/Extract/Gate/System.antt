-- ===== src/Extract/Gate/System.antt =====
-- The tasks round one gate. Between two awaits a task runs alone (asyncio), so each step is one
-- half of a coroutine; the order of the steps is free, and so is the moment of an interrupt.
use scholight.Prelude.{ℕ, suc, ◌≡◌, ◌≢◌, true, List, [], ◌∷◌, contains, erase, update}
use scholight.Extract.Gate.{
  pending, granted, cancelled, Gate, Entry, admitted, rejected, waiting, Interrupt, acquire,
  release, abandon, new,
}

-- Who has a slot, by number, and who is suspended in `acquire`, by future.
pub record World : Type 0 where
  pub gate : Gate
  pub holders : ℕ
  pub waiters : List ℕ

unfoldable pub start : ℕ → ℕ → World
unfolding new
start capacity max_waiters = record { gate = new capacity max_waiters; holders = 0; waiters = [] }

-- A task calls `acquire` and runs up to its first `await`, its return or its exception.
abbrev pub entered : Gate × Entry → World → World
entered (g, admitted) w = record w { gate = g; holders = suc w.holders }
entered (g, rejected) w = record w { gate = g }
entered (g, waiting f) w = record w { gate = g; waiters = f ∷ w.waiters }

abbrev pub interrupted : ℕ → Gate → Gate
interrupted f g = record g { futures = update g.futures f cancelled }

pub data Step : World → World → Type 0 where
  -- `acquire` up to its end or its `await`
  enter : (w : World) → Step w (entered (acquire w.gate) w)
  -- A deadline or a cancellation reaches a task whose future is pending: asyncio cancels it.
  interrupt :
      (w : World) (f : ℕ)
      → contains f w.waiters ≡ true
      → w.gate.futures f ≡ pending
      → Step w (record w { gate = interrupted f w.gate })
  -- The `await` of a granted future returns.
  resume :
      (w : World) (f : ℕ)
      → contains f w.waiters ≡ true
      → w.gate.futures f ≡ granted
      → Step w (record w { holders = suc w.holders; waiters = erase f w.waiters })
  -- The `await` raises: its future was cancelled, or the interrupt came after the grant.
  fail :
      (w : World) (f : ℕ) (error : Interrupt)
      → contains f w.waiters ≡ true
      → w.gate.futures f ≢ pending
      → Step w (record w { gate = (abandon f error w.gate).0; waiters = erase f w.waiters })
  -- The end of `slot`, or a `Permit` that is closed.
  leave :
      (w : World) (n : ℕ)
      → w.holders ≡ suc n
      → Step w (record w { gate = release w.gate; holders = n })

pub data Reach (s : World) : World → Type 0 where
  here : Reach s s
  next : {t u : World} → Reach s t → Step t u → Reach s u
