-- ===== src/Extract/Gate/Safety.antt =====
-- What the tasks that share one gate can rely on, after any steps from a new gate.
use scholight.Prelude.{
  ℕ, ◌+◌, ◌≤◌, ◌≡◌, refl, ◌∙◌, ap, inl, inr, true, List, [], ◌∷◌, arith, contains, length, ==_refl,
}
use scholight.Prelude.Int.{pos, ◌-ℤ◌}
use scholight.Extract.Gate.{pending, Gate, acquire, release, hand_over, abandon, new}
use scholight.Extract.Gate.System.{
  World, start, Step, enter, interrupt, resume, fail, leave, Reach, here, next,
}
use scholight.Extract.Gate.Counting.{count_granted}
use scholight.Extract.Gate.Invariant.{Inv, start-Inv}
use scholight.Extract.Gate.Steps.{Reach-Inv}

-- The limits of a gate are fixed.
abbrev SameLimits : Gate → Gate → Type 0
SameLimits g h = (g.capacity ≡ h.capacity) × (g.max_waiters ≡ h.max_waiters)

hand_over-SameLimits : (q : List ℕ) (g : Gate) → SameLimits (hand_over q g) g
unfolding hand_over
hand_over-SameLimits [] g = (refl, refl)
hand_over-SameLimits (f ∷ q) g = ground (arith, hand_over-SameLimits q g)

release-SameLimits : (g : Gate) → SameLimits (release g) g
unfolding release
release-SameLimits g = hand_over-SameLimits g.queue (record g { active = g.active -ℤ pos 1 })

Step-SameLimits : {w u : World} → Step w u → SameLimits u.gate w.gate
unfolding acquire abandon
Step-SameLimits (enter w) = ground arith
Step-SameLimits (interrupt w f c p) = (refl, refl)
Step-SameLimits (resume w f c g) = (refl, refl)
Step-SameLimits (fail w f error c over) = ground (arith, release-SameLimits w.gate)
Step-SameLimits (leave w n e) = release-SameLimits w.gate

Reach-SameLimits : {s w : World} → Reach s w → SameLimits w.gate s.gate
Reach-SameLimits here = (refl, refl)
Reach-SameLimits (next r step) =
    let (a, b) = Step-SameLimits step in let (c, d) = Reach-SameLimits r in (a ∙ c, b ∙ d)

module _ {w : World} (capacity max_waiters : ℕ) (r : Reach (start capacity max_waiters) w) where
  reached-Inv : Inv w
  reached-Inv = Reach-Inv (start-Inv capacity max_waiters) r

  reached_limits : (w.gate.capacity ≡ capacity) × (w.gate.max_waiters ≡ max_waiters)
  unfolding start new
  reached_limits = Reach-SameLimits r

  -- Whatever tasks enter, leave, time out or are cancelled, and in whatever order: the gate's count
  -- of active slots is the number of tasks that hold one plus the number of futures that are
  -- granted to a task which has not run since, that number is at most the capacity, and at most
  -- `max_waiters` futures stand in the queue.
  pub slots_bounded :
      (w.gate.active ≡ pos (w.holders + count_granted w.gate.futures w.waiters))
      × (w.holders + count_granted w.gate.futures w.waiters ≤ capacity)
      × (length w.gate.queue ≤ max_waiters)
  slots_bounded =
      let v = reached-Inv in ground (arith, v.counted, v.within, v.short, reached_limits)

  -- No wake-up is lost: while the future of a suspended task is pending, all slots are in use and
  -- the future stands in the queue, where `release` finds it.
  pub waiting_means_full :
      (f : ℕ)
      → contains f w.waiters ≡ true
      → w.gate.futures f ≡ pending
      → (w.gate.active ≡ pos capacity) × (contains f w.gate.queue ≡ true)
  waiting_means_full f c p =
      let v = reached-Inv in
      let queued = v.awaited f c p in
      elim v.full [
        | inl empty ↦ absurd (ground (arith, queued, ap (contains f) empty))
        | inr all_used ↦ (ground (arith, v.counted, all_used, reached_limits), queued)
      ]

  -- No slot leaks: once no task holds a slot and none is suspended in `acquire`, the gate counts
  -- no active slot and its queue is empty.
  pub quiet_gate_free :
      w.holders ≡ 0 → w.waiters ≡ [] → (w.gate.active ≡ pos 0) × (w.gate.queue ≡ [])
  quiet_gate_free idle nobody =
      let v = reached-Inv in
      (
        ground (arith, v.counted, idle, ap (count_granted w.gate.futures) nobody),
        no_member w.gate.queue λ f q. ground (arith, v.queued f q, ap (contains f) nobody),
      )
    where
      no_member : (q : List ℕ) → ((f : ℕ) → contains f q ≡ true → ⊥) → q ≡ []
      no_member [] h = refl
      no_member (f ∷ q) h = absurd (h f (ground (arith, ==_refl f)))
