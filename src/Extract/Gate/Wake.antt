-- ===== src/Extract/Gate/Wake.antt =====
-- A suspended task that is interrupted, or goes on, keeps the invariant of the gate.
use mathlib.Core.Path.{subst}
use scholight.Prelude.{
  contains_of_erase, erase-absent, length-erase-le, ℕ, suc, ◌+◌, ◌≡◌, refl, sym, ◌≢◌, ◌⊎◌, inl, inr,
  true, [], arith, update, contains, erase, Bool-cases, contains-erase_ne, Distinct-erase, ap,
}
use scholight.Prelude.Int.{pos_part, neg_part, int_laws}
use scholight.Extract.Gate.{Future, pending, granted, cancelled, abandon, Interrupt}
use scholight.Extract.Gate.System.{World, interrupted}
use scholight.Extract.Gate.Counting.{
  weight, count_granted, count_granted-update, count_granted-erase,
}
use scholight.Extract.Gate.Invariant.{Inv, InvAt, release-Inv}

-- An interrupt of a pending future.
pub interrupt-Inv :
    (w : World) (f : ℕ)
    → Inv w
    → contains f w.waiters ≡ true
    → w.gate.futures f ≡ pending
    → Inv (record w { gate = interrupted f w.gate })
interrupt-Inv w f v c p =
    let same : count_granted (update w.gate.futures f cancelled) w.waiters
        ≡ count_granted w.gate.futures w.waiters =
      ground (
        arith,
        p,
        count_granted-update w.gate.futures f cancelled w.waiters v.waiters_distinct c,
      ) in
    record {
      counted = rw same v.counted;
      within = rw same v.within;
      full = rw same v.full;
      short = v.short;
      queued = λ r q. ((v.queued r q).0, ground (arith, (v.queued r q).1));
      awaited = λ r q h. v.awaited r q (ground arith);
      old = v.old;
      queue_distinct = v.queue_distinct;
      waiters_distinct = v.waiters_distinct;
    }

-- The task of `f` goes on, and its future is no longer waited for. A granted slot is then counted
-- although no task has it; of a cancelled future nothing was counted.
module _ (w : World) (f : ℕ) (v : Inv w) (c : contains f w.waiters ≡ true) where
  woken_count :
      count_granted w.gate.futures (erase f w.waiters) + weight (w.gate.futures f)
      ≡ count_granted w.gate.futures w.waiters
  woken_count = count_granted-erase w.gate.futures f w.waiters c

  granted_count :
      w.gate.futures f ≡ granted
      → count_granted w.gate.futures w.waiters
        ≡ 1 + count_granted w.gate.futures (erase f w.waiters)
  granted_count g = ground (arith, woken_count, ap weight g)

  still_waiting :
      (r : ℕ) → f ≢ r → contains r w.waiters ≡ true → contains r (erase f w.waiters) ≡ true
  still_waiting r apart h = ground (arith, contains-erase_ne r f w.waiters (ground arith))

  granted_full :
      w.gate.futures f ≡ granted
      → (w.gate.queue ≡ [])
        ⊎ (1 + w.holders + count_granted w.gate.futures (erase f w.waiters) ≡ w.gate.capacity)
  granted_full g = elim v.full [
    | inl empty ↦ inl empty
    | inr all_used ↦ inr (omega (arith, granted_count g, all_used))
  ]

  granted-InvAt : w.gate.futures f ≡ granted → InvAt 1 (record w { waiters = erase f w.waiters })
  granted-InvAt g = record {
    counted = omega (int_laws, granted_count g, ap pos_part v.counted, ap neg_part v.counted);
    within = omega (arith, granted_count g, v.within);
    full = granted_full g;
    short = v.short;
    queued = λ r q.
        (still_waiting r (λ e. (v.queued r q).1 (rw (← e) g)) (v.queued r q).0, (v.queued r q).1);
    awaited = λ r h. v.awaited r (contains_of_erase f r w.waiters v.waiters_distinct h).0;
    old = λ r h. v.old r (contains_of_erase f r w.waiters v.waiters_distinct h).0;
    queue_distinct = v.queue_distinct;
    waiters_distinct = Distinct-erase f w.waiters v.waiters_distinct;
  }

  pub resume-Inv :
      w.gate.futures f ≡ granted
      → Inv (record w { holders = suc w.holders; waiters = erase f w.waiters })
  resume-Inv g =
      let u = granted-InvAt g in
      record {
        counted = omega (int_laws, ap pos_part u.counted, ap neg_part u.counted);
        within = omega (arith, u.within);
        full = elim u.full [ inl empty ↦ inl empty | inr all_used ↦ inr (omega (arith, all_used)) ];
        short = u.short;
        queued = u.queued;
        awaited = u.awaited;
        old = u.old;
        queue_distinct = u.queue_distinct;
        waiters_distinct = u.waiters_distinct;
      }

  cancelled_count :
      w.gate.futures f ≡ cancelled
      → count_granted w.gate.futures w.waiters ≡ count_granted w.gate.futures (erase f w.waiters)
  cancelled_count g = ground (arith, woken_count, ap weight g)

  cancelled-Inv :
      w.gate.futures f ≡ cancelled
      → Inv (record w {
        gate = record w.gate { queue = erase f w.gate.queue };
        waiters = erase f w.waiters;
      })
  cancelled-Inv g = record {
    counted = omega (int_laws, cancelled_count g, ap pos_part v.counted, ap neg_part v.counted);
    within = omega (arith, cancelled_count g, v.within);
    full = elim v.full [
      | inl empty ↦ inl (ap (erase f) empty)
      | inr all_used ↦ inr (omega (arith, cancelled_count g, all_used))
    ];
    short = omega (arith, length-erase-le f w.gate.queue, v.short);
    queued = λ r q.
        let (listed, apart) = contains_of_erase f r w.gate.queue v.queue_distinct q in
        (still_waiting r apart (v.queued r listed).0, (v.queued r listed).1);
    awaited = λ r h p.
        let (listed, apart) = contains_of_erase f r w.waiters v.waiters_distinct h in
        ground
          (arith, contains-erase_ne r f w.gate.queue (λ e. apart (sym e)), v.awaited r listed p);
    old = λ r h. v.old r (contains_of_erase f r w.waiters v.waiters_distinct h).0;
    queue_distinct = Distinct-erase f w.gate.queue v.queue_distinct;
    waiters_distinct = Distinct-erase f w.waiters v.waiters_distinct;
  }

  pub fail-Inv :
      (error : Interrupt)
      → w.gate.futures f ≢ pending
      → Inv (record w { gate = (abandon f error w.gate).0; waiters = erase f w.waiters })
  unfolding abandon
  fail-Inv error over = split (w.gate.futures f) refl
    where
      split :
          (x : Future)
          → w.gate.futures f ≡ x
          → Inv (record w { gate = (abandon f error w.gate).0; waiters = erase f w.waiters })
      split pending e = absurd (over e)
      split granted e =
          rw e (release-Inv (record w { waiters = erase f w.waiters }) (granted-InvAt e))
      split cancelled e = elim (Bool-cases (contains f w.gate.queue)) [
        | inl listed ↦ rw (e, listed) (cancelled-Inv e)
        | inr gone ↦
            rw (e, gone)
              (subst
                (λ q.
                  Inv
                    (record w { gate = record w.gate { queue = q }; waiters = erase f w.waiters }))
                (erase-absent f w.gate.queue gone) (cancelled-Inv e))
      ]
