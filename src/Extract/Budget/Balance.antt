-- ===== src/Extract/Budget/Balance.antt =====
-- The counter of the budget is what its holders have reserved.
use scholight.Prelude.{
  ℕ, ◌+◌, ◌≤◌, ◌≡◌, refl, ap, ◌∙◌, Bool, true, false, some, [], ◌∷◌, arith, total, total-append,
  total-set, total-remove_at, get_elem?, set, remove_at,
}
use scholight.Prelude.Int.{ℤ, pos, pos_part, neg_part, ◌+ℤ◌, ◌-ℤ◌, ◌≤ℤ◌, int_laws}
use scholight.Extract.Budget.{
  Result, ok, err, MemoryModel, Budget, Observed, Lease, new, release, lease, close,
}
use scholight.Extract.Budget.System.{
  held, World, start, transferred, closed_at, started, Step, open_lease, change, shut, begin_start,
  end_start, Reach, here, next, booked, Inv,
}
use scholight.Extract.Budget.Outcomes.{Replaces, Transfers, startup-Replaces, transfer-Transfers}

-- An exchange of one amount for another, on both sides of the invariant.
exchange-Inv :
    (w u : World) (old amount : ℕ)
    → Inv w
    → u.budget.reserved_bytes ≡ w.budget.reserved_bytes -ℤ pos old +ℤ pos amount
    → booked u + old ≡ booked w + amount
    → booked u ≤ u.budget.high
    → Inv u
exchange-Inv w u old amount v moved sums fit = record {
  balanced = omega (
    int_laws,
    ap pos_part moved,
    ap neg_part moved,
    ap pos_part v.balanced,
    ap neg_part v.balanced,
    sums,
  );
  bounded = fit;
}

exchanged :
    (w : World) (r : ℤ) (old amount sum working high : ℕ)
    → Inv w
    → r ≡ w.budget.reserved_bytes -ℤ pos old +ℤ pos amount
    → sum + old ≡ booked w + amount
    → pos working +ℤ r ≤ℤ pos high
    → sum ≤ high
exchanged w r old amount sum working high v moved sums fit = omega (
  int_laws,
  ap pos_part moved,
  ap neg_part moved,
  ap pos_part v.balanced,
  ap neg_part v.balanced,
  sums,
  fit,
)

change-Inv :
    (w : World) (i : ℕ) (l : Lease) (o : Observed)
    → get_elem? w.leases i ≡ some l
    → (r : Result ℕ × Budget × Lease) → Transfers o w.budget l r
    → Inv w
    → Inv (transferred i r w)
change-Inv w i l o e (ok amount, b, l') ((working, s, a, moved, fit, same), open_still, new_lease)
      v =
    let sums : booked (transferred i (ok amount, b, l') w) + l.amount ≡ booked w + amount =
      ground (arith, total-set held w.leases i l' e) in
    exchange-Inv w (transferred i (ok amount, b, l') w) l.amount amount v moved sums (
      rw same
        (exchanged w b.reserved_bytes l.amount amount _ working w.budget.high v moved sums fit))
change-Inv w i l o e (err x, b, l') ((kept, same), same_lease) v =
    let sums : booked (transferred i (err x, b, l') w) ≡ booked w =
      ground (arith, total-set held w.leases i l' e) in
    record { balanced = rw (kept, sums) v.balanced; bounded = rw (same, sums) v.bounded }

begin-Inv :
    (w : World) (o : Observed) (r : Result ℕ × Budget)
    → Replaces o 0 w.budget r
    → Inv w
    → Inv (started r w)
begin-Inv w o (ok amount, b) (working, s, a, moved, fit, same) v =
    let sums : booked (started (ok amount, b) w) + 0 ≡ booked w + amount = omega arith in
    exchange-Inv w (started (ok amount, b) w) 0 amount v moved sums
      (rw same (exchanged w b.reserved_bytes 0 amount _ working w.budget.high v moved sums fit))
begin-Inv w o (err x, b) (kept, same) v = record {
  balanced = rw kept v.balanced;
  bounded = rw same v.bounded;
}

shut-Inv :
    (w : World) (i amount : ℕ) (closed : Bool)
    → get_elem? w.leases i ≡ some (record { amount = amount; closed = closed })
    → Inv w
    → Inv (closed_at i (close w.budget (record { amount = amount; closed = closed })) w)
unfolding close
shut-Inv w i amount true e v =
    let l : Lease = record { amount = amount; closed = true } in
    let sums : total held (set w.leases i l) ≡ total held w.leases =
      omega (arith, total-set held w.leases i l e) in
    record { balanced = rw sums v.balanced; bounded = rw sums v.bounded }
shut-Inv w i amount false e v =
    let l : Lease = record { amount = amount; closed = true } in
    let sums : total held (set w.leases i l) + amount ≡ total held w.leases =
      omega (arith, total-set held w.leases i l e) in
    record {
      balanced = omega (int_laws, sums, ap pos_part v.balanced, ap neg_part v.balanced);
      bounded = omega (arith, sums, v.bounded);
    }

end-Inv :
    (w : World) (i amount : ℕ)
    → get_elem? w.starts i ≡ some amount
    → Inv w
    → Inv (record w { budget = release amount w.budget; starts = remove_at w.starts i })
unfolding release
end-Inv w i amount e v =
    let sums = total-remove_at (λ a. a) w.starts i e in
    record {
      balanced = omega (int_laws, sums, ap pos_part v.balanced, ap neg_part v.balanced);
      bounded = omega (arith, sums, v.bounded);
    }

Step-Inv : {w u : World} → Step w u → Inv w → Inv u
unfolding lease
Step-Inv (open_lease w) v =
    let sums = total-append held w.leases (lease ∷ []) in
    record {
      balanced = omega (int_laws, sums, ap pos_part v.balanced, ap neg_part v.balanced);
      bounded = omega (arith, sums, v.bounded);
    }
Step-Inv (change w i {l = l} e o stage size mime warm) v =
    change-Inv w i l o e _ (transfer-Transfers o stage size mime warm w.budget l) v
Step-Inv (shut w i {l = l} e) v = shut-Inv w i l.amount l.closed e v
Step-Inv (begin_start w o kind) v = begin-Inv w o _ (startup-Replaces o kind w.budget) v
Step-Inv (end_start w i {amount = amount} e) v = end-Inv w i amount e v

start-Inv : (m : MemoryModel) (high : ℕ) → Inv (start m high)
unfolding start
start-Inv m high = record { balanced = refl; bounded = omega arith }

Reach-Inv : {s w : World} → Inv s → Reach s w → Inv w
Reach-Inv v here = v
Reach-Inv v (next r step) = Step-Inv step (Reach-Inv v r)

high-replace :
    (o : Observed) (old : ℕ) (b : Budget) (r : Result ℕ × Budget)
    → Replaces o old b r
    → r.1.high ≡ b.high
high-replace o old b (ok a, b') h = h.5
high-replace o old b (err e, b') h = h.1

high-transfer :
    (o : Observed) (b : Budget) (l : Lease) (r : Result ℕ × Budget × Lease)
    → Transfers o b l r
    → r.1.high ≡ b.high
high-transfer o b l (ok a, b', l') h = h.0.5
high-transfer o b l (err e, b', l') h = h.0.1

high-started : (r : Result ℕ × Budget) (w : World) → (started r w).budget ≡ r.1
high-started (ok a, b) w = refl
high-started (err e, b) w = refl

high-Step : {w u : World} → Step w u → u.budget.high ≡ w.budget.high
unfolding release close
high-Step (open_lease w) = refl
high-Step (change w i {l = l} e o stage size mime warm) =
    high-transfer o w.budget l _ (transfer-Transfers o stage size mime warm w.budget l)
high-Step (shut w i {l = l} e) = ground arith
high-Step (begin_start w o kind) =
    rw high-started (high-replace o 0 w.budget _ (startup-Replaces o kind w.budget))
high-Step (end_start w i e) = refl

pub high-Reach : {s w : World} → Reach s w → w.budget.high ≡ s.budget.high
high-Reach here = refl
high-Reach (next r step) = high-Step step ∙ high-Reach r

-- Whatever leases are opened, transferred and closed, and whatever worker starts begin and end, in
-- any order and with any samples: the budget's counter is the sum of what the open leases hold and
-- of the allowances of the starts in progress, and it never exceeds `high`.
pub budget_balanced :
    (m : MemoryModel) (high : ℕ) {w : World}
    → Reach (start m high) w
    → (w.budget.reserved_bytes ≡ pos (total held w.leases + total (λ a. a) w.starts))
      × (total held w.leases + total (λ a. a) w.starts ≤ high)
unfolding start new
budget_balanced m high {w} r =
    let v : Inv w = Reach-Inv (start-Inv m high) r in
    (v.balanced, omega (arith, v.bounded, high-Reach r))
