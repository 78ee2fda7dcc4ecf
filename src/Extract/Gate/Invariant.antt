-- ===== src/Extract/Gate/Invariant.antt =====
-- What holds of a gate and its tasks between two steps.
use mathlib.Core.Path.{subst}
use scholight.Prelude.{
  ℕ, suc, ◌+◌, ◌≤◌, ◌<◌, ◌≡◌, refl, ◌≢◌, ◌⊎◌, inl, inr, true, false, List, [], ◌∷◌, ◌++◌, arith,
  update, contains, Distinct, All, length, length-append, ==_refl, ==_iff, ◌==◌, Bool-cases,
  contains-append, not-contains_of_All, ap,
}
use scholight.Prelude.Int.{pos, pos_part, neg_part, ◌-ℤ◌, int_laws}
use scholight.Extract.Gate.{Future, pending, granted, done, Gate, release}
use scholight.Extract.Gate.System.{World, start}
use scholight.Extract.Gate.Counting.{count_granted, count_granted-update}
use scholight.Extract.Gate.Release.{FirstPending, granting, hand_over_cases}

-- `surplus` slots are counted as active although no task has them: 1 inside `release`, else 0.
pub record InvAt (surplus : ℕ) (w : World) : Type 0 where
  pub counted : w.gate.active ≡ pos (surplus + w.holders + count_granted w.gate.futures w.waiters)
  pub within : surplus + w.holders + count_granted w.gate.futures w.waiters ≤ w.gate.capacity
  pub full :
      (w.gate.queue ≡ [])
      ⊎ (surplus + w.holders + count_granted w.gate.futures w.waiters ≡ w.gate.capacity)
  pub short : length w.gate.queue ≤ w.gate.max_waiters
  pub queued :
      (f : ℕ)
      → contains f w.gate.queue ≡ true
      → (contains f w.waiters ≡ true) × (w.gate.futures f ≢ granted)
  pub awaited :
      (f : ℕ)
      → contains f w.waiters ≡ true
      → w.gate.futures f ≡ pending
      → contains f w.gate.queue ≡ true
  pub old : (f : ℕ) → contains f w.waiters ≡ true → f < w.gate.next
  pub queue_distinct : Distinct w.gate.queue
  pub waiters_distinct : Distinct w.waiters

abbrev pub Inv : World → Type 0
Inv = InvAt 0

-- A gate that nobody has used satisfies the invariant.
pub start-Inv : (capacity max_waiters : ℕ) → Inv (start capacity max_waiters)
unfolding start
start-Inv capacity max_waiters = record {
  counted = refl;
  within = omega arith;
  full = inl refl;
  short = omega arith;
  queued = λ f c. absurd (ground arith);
  awaited = λ f c p. absurd (ground arith);
  old = λ f c. absurd (ground arith);
  queue_distinct = tt;
  waiters_distinct = tt;
}

-- Facts about a queue that is split at one future.
Distinct-split :
    (before after : List ℕ) (f : ℕ)
    → Distinct (before ++ f ∷ after)
    → Distinct after × (contains f after ≡ false)
Distinct-split [] after f d = (d.1, not-contains_of_All f after d.0)
Distinct-split (r ∷ before) after f d = Distinct-split before after f d.1

length-split : (before after : List ℕ) (f : ℕ) → length after ≤ length (before ++ f ∷ after)
length-split before after f = omega (arith, length-append {0} before (f ∷ after))

contains-split :
    (before after : List ℕ) (f r : ℕ)
    → contains r after ≡ true
    → contains r (before ++ f ∷ after) ≡ true
contains-split before after f r h = ground (arith, contains-append r before (f ∷ after))

not-contains_of_done :
    (fs : ℕ → Future) (before : List ℕ) (r : ℕ)
    → All (λ q. done (fs q) ≡ true) before
    → fs r ≡ pending
    → contains r before ≡ false
not-contains_of_done fs [] r h p = refl
not-contains_of_done fs (q ∷ before) r h p = elim (Bool-cases (r == q)) [
  | inl same ↦ let e : r ≡ q = (==_iff r q).0 same in absurd (ground (arith, ap fs e))
  | inr apart ↦ rw apart (not-contains_of_done fs before r h.1 p)
]

-- With no pending future in the queue the slot becomes free.
release-Inv_idle :
    (w : World)
    → InvAt 1 w
    → All (λ r. done (w.gate.futures r) ≡ true) w.gate.queue
    → Inv (record w { gate = record w.gate { active = w.gate.active -ℤ pos 1; queue = [] } })
release-Inv_idle w v over = record {
  counted = omega (int_laws, ap pos_part v.counted, ap neg_part v.counted);
  within = omega (arith, v.within);
  full = inl refl;
  short = omega arith;
  queued = λ f c. absurd (ground arith);
  awaited = λ f c p.
      absurd (
        ground (arith, not-contains_of_done w.gate.futures w.gate.queue f over p, v.awaited f c p));
  old = v.old;
  queue_distinct = tt;
  waiters_distinct = v.waiters_distinct;
}

module _ (w : World) (v : InvAt 1 w) (p : FirstPending w.gate.futures w.gate.queue) where
  open w use {gate, waiters, holders}

  chosen_queued : contains p.chosen gate.queue ≡ true
  chosen_queued =
      rw (p.split)
        (ground (arith, contains-append p.chosen p.before (p.chosen ∷ p.after), ==_refl p.chosen))

  granted_count :
      count_granted (update gate.futures p.chosen granted) waiters
      ≡ suc (count_granted gate.futures waiters)
  granted_count = ground (
    arith,
    p.waits,
    count_granted-update gate.futures p.chosen granted waiters v.waiters_distinct
        (v.queued p.chosen chosen_queued).0,
  )

  after-Distinct : Distinct p.after × (contains p.chosen p.after ≡ false)
  after-Distinct =
      Distinct-split p.before p.after p.chosen (subst Distinct p.split v.queue_distinct)

  after_queued : (f : ℕ) → contains f p.after ≡ true → contains f gate.queue ≡ true
  after_queued f c = rw (p.split) (contains-split p.before p.after p.chosen f c)

  slots_full : 1 + holders + count_granted gate.futures waiters ≡ gate.capacity
  slots_full = elim v.full [
    | inl empty ↦ absurd (ground (arith, chosen_queued, ap (contains p.chosen) empty))
    | inr all_used ↦ all_used
  ]

  after_short : length p.after ≤ gate.max_waiters
  after_short = omega (arith, v.short, ap length p.split, length-split p.before p.after p.chosen)

  after_waits :
      (f : ℕ)
      → contains f p.after ≡ true
      → (contains f waiters ≡ true) × (update gate.futures p.chosen granted f ≢ granted)
  after_waits f c =
      let (listed, waits) = v.queued f (after_queued f c) in
      (listed, ground (arith, waits, after-Distinct.1, c))

  after_awaited :
      (f : ℕ)
      → contains f waiters ≡ true
      → update gate.futures p.chosen granted f ≡ pending
      → contains f p.after ≡ true
  after_awaited f c h = elim (Bool-cases (p.chosen == f)) [
    | inl same ↦ absurd (ground arith)
    | inr apart ↦
        let h' : gate.futures f ≡ pending = ground arith in
        ground (
          arith,
          contains-append f p.before (p.chosen ∷ p.after),
          ap (contains f) p.split,
          v.awaited f c h',
          not-contains_of_done gate.futures p.before f p.skipped h',
        )
  ]

  release-Inv_grant :
      Inv (record w { gate = granting p (record gate { active = gate.active -ℤ pos 1 }) })
  release-Inv_grant = record {
    counted = omega (int_laws, granted_count, ap pos_part v.counted, ap neg_part v.counted);
    within = omega (arith, granted_count, v.within);
    full = inr (omega (arith, granted_count, slots_full));
    short = after_short;
    queued = after_waits;
    awaited = after_awaited;
    old = v.old;
    queue_distinct = after-Distinct.0;
    waiters_distinct = v.waiters_distinct;
  }

-- `release` gives up a slot that is counted, and all else holds after it.
pub release-Inv : (w : World) → InvAt 1 w → Inv (record w { gate = release w.gate })
unfolding release
release-Inv w v =
    let g : Gate = record w.gate { active = w.gate.active -ℤ pos 1 } in
    elim (hand_over_cases g w.gate.queue) [
      | inl (over, e) ↦ rw e (release-Inv_idle w v over)
      | inr (p, e) ↦ rw e (release-Inv_grant w v p)
    ]
