-- ===== src/Extract/Gate/Enter.antt =====
-- A task that enters keeps the invariant of the gate.
use scholight.Prelude.{
  Distinct-snoc, All-ne_of_not-contains, ℕ, suc, ◌+◌, ◌≡◌, refl, ◌≢◌, inl, inr, true, false, ◌&&◌,
  [], ◌∷◌, ◌++◌, arith, update, contains, length, length-append, ==_refl, ==_iff, ◌==◌, leb,
  Bool-cases, contains-append, ap,
}
use scholight.Prelude.Int.{pos, pos_part, neg_part, ltb_ℤ, ◌+ℤ◌, int_laws}
use scholight.Extract.Gate.{pending, granted, is_empty, acquire}
use scholight.Extract.Gate.System.{World, entered}
use scholight.Extract.Gate.Counting.{count_granted, count_granted-update_out}
use scholight.Extract.Gate.Invariant.{Inv}

contains-false : (f : ℕ) (w : World) → Inv w → w.gate.next ≡ f → contains f w.waiters ≡ false
contains-false f w v e = elim (Bool-cases (contains f w.waiters)) [
  | inl c ↦ absurd (omega (arith, v.old f c))
  | inr c ↦ c
]

-- A task that is admitted.
admitted-Inv :
    (w : World)
    → Inv w
    → ltb_ℤ w.gate.active (pos w.gate.capacity) ≡ true
    → is_empty w.gate.queue ≡ true
    → Inv (record w {
      gate = record w.gate { active = w.gate.active +ℤ pos 1 };
      holders = suc w.holders;
    })
admitted-Inv w v free empty = record {
  counted = omega (int_laws, ap pos_part v.counted, ap neg_part v.counted);
  within = ground (arith, v.counted);
  full = inl (ground arith);
  short = v.short;
  queued = v.queued;
  awaited = v.awaited;
  old = v.old;
  queue_distinct = v.queue_distinct;
  waiters_distinct = v.waiters_distinct;
}

module _ (w : World) (v : Inv w) where
  open w use {gate, waiters, holders}

  not-contains_next : contains gate.next waiters ≡ false
  not-contains_next = contains-false gate.next w v refl

  next_not_queued : contains gate.next gate.queue ≡ false
  next_not_queued = elim (Bool-cases (contains gate.next gate.queue)) [
    | inl c ↦ absurd (ground (arith, (v.queued gate.next c).0, not-contains_next))
    | inr c ↦ c
  ]

  waiting_count :
      count_granted (update gate.futures gate.next pending) (gate.next ∷ waiters)
      ≡ count_granted gate.futures waiters
  waiting_count = ground (
    arith,
    ==_refl gate.next,
    count_granted-update_out gate.futures gate.next pending waiters not-contains_next,
  )

  busy_full :
      ltb_ℤ gate.active (pos gate.capacity) && is_empty gate.queue ≡ false
      → holders + count_granted gate.futures waiters ≡ gate.capacity
  busy_full busy = elim v.full [
    | inl empty ↦ ground (arith, v.counted, v.within, ap is_empty empty)
    | inr all_used ↦ omega (arith, all_used)
  ]

  waiting_queued :
      (f : ℕ)
      → contains f (gate.queue ++ gate.next ∷ []) ≡ true
      → (contains f (gate.next ∷ waiters) ≡ true)
        × (update gate.futures gate.next pending f ≢ granted)
  waiting_queued f c = elim (Bool-cases (f == gate.next)) [
    | inl same ↦
        let e : f ≡ gate.next = (==_iff f gate.next).0 same in
        (rw same, ground (arith, ==_refl gate.next))
    | inr apart ↦
        let listed : contains f gate.queue ≡ true =
          ground (arith, contains-append f gate.queue (gate.next ∷ [])) in
        (rw apart (v.queued f listed).0, ground (arith, (v.queued f listed).1))
  ]

  waiting_awaited :
      (f : ℕ)
      → contains f (gate.next ∷ waiters) ≡ true
      → update gate.futures gate.next pending f ≡ pending
      → contains f (gate.queue ++ gate.next ∷ []) ≡ true
  waiting_awaited f c h = elim (Bool-cases (f == gate.next)) [
    | inl same ↦ ground (arith, contains-append f gate.queue (gate.next ∷ []))
    | inr apart ↦ ground (
      arith,
      contains-append f gate.queue (gate.next ∷ []),
      v.awaited f (ground arith) (ground arith),
    )
  ]

  -- A task that is put into the queue.
  waiting-Inv :
      ltb_ℤ gate.active (pos gate.capacity) && is_empty gate.queue ≡ false
      → leb gate.max_waiters (length gate.queue) ≡ false
      → Inv (record w {
        gate = record gate {
          queue = gate.queue ++ gate.next ∷ [];
          futures = update gate.futures gate.next pending;
          next = gate.next + 1;
        };
        waiters = gate.next ∷ waiters;
      })
  waiting-Inv busy room = record {
    counted = omega (int_laws, waiting_count, ap pos_part v.counted, ap neg_part v.counted);
    within = omega (arith, waiting_count, v.within);
    full = inr (omega (arith, waiting_count, busy_full busy));
    short = ground (arith, length-append {0} gate.queue (gate.next ∷ []));
    queued = waiting_queued;
    awaited = waiting_awaited;
    old = λ f c. ground (arith, v.old f);
    queue_distinct = Distinct-snoc gate.queue gate.next v.queue_distinct next_not_queued;
    waiters_distinct =
        (All-ne_of_not-contains gate.next waiters not-contains_next, v.waiters_distinct);
  }

pub enter-Inv : (w : World) → Inv w → Inv (entered (acquire w.gate) w)
unfolding acquire
enter-Inv w v =
    elim (Bool-cases (ltb_ℤ w.gate.active (pos w.gate.capacity) && is_empty w.gate.queue)) [
      | inl free ↦ rw free (admitted-Inv w v (ground arith) (ground arith))
      | inr busy ↦ elim (Bool-cases (leb w.gate.max_waiters (length w.gate.queue))) [
        | inl crowded ↦ rw (busy, crowded) v
        | inr room ↦ rw (busy, room) (waiting-Inv w v busy room)
      ]
    ]
