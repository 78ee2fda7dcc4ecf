-- ===== src/Extract/Gate/Steps.antt =====
-- Every step of a task keeps the invariant of the gate.
use scholight.Prelude.{ℕ, suc, ◌≡◌, inl, inr, arith, ap}
use scholight.Prelude.Int.{pos_part, neg_part, int_laws}
use scholight.Extract.Gate.{release}
use scholight.Extract.Gate.System.{
  World, Step, enter, interrupt, resume, fail, leave, Reach, here, next,
}
use scholight.Extract.Gate.Invariant.{Inv, release-Inv}
use scholight.Extract.Gate.Enter.{enter-Inv}
use scholight.Extract.Gate.Wake.{interrupt-Inv, resume-Inv, fail-Inv}

leave-Inv :
    (w : World) (n : ℕ)
    → Inv w
    → w.holders ≡ suc n
    → Inv (record w { gate = release w.gate; holders = n })
leave-Inv w n v e =
    release-Inv (record w { holders = n })
      record {
        counted = omega (int_laws, e, ap pos_part v.counted, ap neg_part v.counted);
        within = omega (arith, e, v.within);
        full = elim v.full [
          | inl empty ↦ inl empty
          | inr all_used ↦ inr (omega (arith, e, all_used))
        ];
        short = v.short;
        queued = v.queued;
        awaited = v.awaited;
        old = v.old;
        queue_distinct = v.queue_distinct;
        waiters_distinct = v.waiters_distinct;
      }

pub Step-Inv : {w u : World} → Step w u → Inv w → Inv u
Step-Inv (enter w) v = enter-Inv w v
Step-Inv (interrupt w f c p) v = interrupt-Inv w f v c p
Step-Inv (resume w f c g) v = resume-Inv w f v c g
Step-Inv (fail w f error c over) v = fail-Inv w f v c error over
Step-Inv (leave w n e) v = leave-Inv w n v e

pub Reach-Inv : {s w : World} → Inv s → Reach s w → Inv w
Reach-Inv v here = v
Reach-Inv v (next r step) = Step-Inv step (Reach-Inv v r)
