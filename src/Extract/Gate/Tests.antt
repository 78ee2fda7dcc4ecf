-- ===== src/Extract/Gate/Tests.antt =====
-- Runs of a gate with one slot and room for one waiter.
use scholight.Prelude.{◌+◌, ◌≤◌, ◌≡◌, refl, true, [], ◌∷◌, contains, length, update}
use scholight.Prelude.Int.{pos, ◌+ℤ◌, ◌-ℤ◌}
use scholight.Extract.Gate.{
  pending, granted, cancelled, Gate, rejected, capacity_error, timeout, acquire, release, abandon,
}
use scholight.Extract.Gate.System.{World, start, entered, enter, Reach, here, next}
use scholight.Extract.Gate.Counting.{count_granted}
use scholight.Extract.Gate.Release.{release_fifo}
use scholight.Extract.Gate.Safety.{slots_bounded, waiting_means_full, quiet_gate_free}

-- One task holds the slot, one waits.
abbrev one_inside : World
one_inside = entered (acquire (start 1 1).gate) (start 1 1)

abbrev one_waits : World
one_waits = entered (acquire one_inside.gate) one_inside

one_waits-Reach : Reach (start 1 1) one_waits
one_waits-Reach = next (next here (enter (start 1 1))) (enter one_inside)

slots_bounded_example :
    (one_waits.gate.active
      ≡ pos (one_waits.holders + count_granted one_waits.gate.futures one_waits.waiters))
    × (one_waits.holders + count_granted one_waits.gate.futures one_waits.waiters ≤ 1)
    × (length one_waits.gate.queue ≤ 1)
slots_bounded_example = slots_bounded 1 1 one_waits-Reach

waiting_means_full_example :
    (one_waits.gate.active ≡ pos 1) × (contains 0 one_waits.gate.queue ≡ true)
unfolding acquire start ◌+ℤ◌
waiting_means_full_example = waiting_means_full 1 1 one_waits-Reach 0 refl refl

quiet_gate_free_example : ((start 1 1).gate.active ≡ pos 0) × ((start 1 1).gate.queue ≡ [])
unfolding start
quiet_gate_free_example = quiet_gate_free 1 1 here refl refl

third_rejected : (acquire one_waits.gate).1 ≡ rejected
unfolding acquire start ◌+ℤ◌
third_rejected = refl

-- A deadline that strikes after the grant gives the slot back.
late_timeout :
    let w = one_waits in
    let (g, e) = abandon 0 timeout (release w.gate) in (g.active ≡ pos 0) × (e ≡ capacity_error)
unfolding acquire start ◌+ℤ◌ ◌-ℤ◌ release abandon
late_timeout = (refl, refl)

abbrev crowd : Gate
crowd = record {
  capacity = 2;
  max_waiters = 4;
  active = pos 2;
  queue = 3 ∷ 4 ∷ 5 ∷ [];
  futures = update (λ _. pending) 3 cancelled;
  next = 6;
}

release_fifo_example :
    release crowd ≡ record crowd { queue = 5 ∷ []; futures = update crowd.futures 4 granted }
release_fifo_example = release_fifo crowd (3 ∷ []) (5 ∷ []) 4 refl (refl, tt) refl
