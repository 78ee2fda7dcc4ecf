-- ===== src/Extract/Budget/Retry.antt =====
-- What a refusal for memory pressure means: waiting for other reservations does not help.
use scholight.Prelude.{
  ℕ, ◌+◌, ◌-◌, ◌≤◌, ◌≡◌, refl, sym, ◌∙◌, ap, Bool, true, false, not, some, List, total, total-set,
  get_elem?, ltb, leb, ◌&&◌, if◌then◌else◌, arith,
}
use scholight.Prelude.Int.{pos, ◌+ℤ◌, ◌-ℤ◌}
use scholight.Extract.Budget.{
  Error, negative_size, closed_lease, capacity, pressure, not_admitted, Result, ok, err,
  MemoryModel, Budget, Observed, Lease, replace, replace_at,
}
use scholight.Extract.Budget.System.{World, start, Reach, held, booked}
use scholight.Extract.Budget.Balance.{high-Reach, budget_balanced}

abbrev pub is_pressure : Error → Bool
is_pressure negative_size = false
is_pressure closed_lease = false
is_pressure capacity = false
is_pressure pressure = true
is_pressure not_admitted = false

held-total :
    (ls : List Lease) (i : ℕ) {l : Lease} → get_elem? ls i ≡ some l → held l ≤ total held ls
held-total ls i {l} at = omega (arith, total-set held ls i (record l { closed = true }) at)

sum-pos : (a b : ℕ) → pos a +ℤ pos b ≡ pos (a + b)
unfolding ◌+ℤ◌
sum-pos a b = ground arith

rest-pos : (old others : ℕ) → pos (old + others) -ℤ pos old ≡ pos others
unfolding ◌-ℤ◌
rest-pos old others = ground arith

-- The outcome on natural numbers.
abbrev outcome : ℕ → ℕ → ℕ → ℕ → Result ℕ
outcome working others amount high =
    if ltb high (working + (others + amount))
    then if ltb high (working + amount) && leb amount high then err pressure else err capacity
    else ok amount

replace_at-outcome :
    (working old others amount : ℕ) (b : Budget)
    → b.reserved_bytes ≡ pos (old + others)
    → (replace_at working old amount false b).0 ≡ outcome working others amount b.high
unfolding replace_at
replace_at-outcome working old others amount b e =
    let whole : b.reserved_bytes -ℤ pos old +ℤ pos amount ≡ pos (others + amount) =
      rw (e, rest-pos, sum-pos) refl in
    let needed : pos working +ℤ pos (others + amount) ≡ pos (working + (others + amount)) =
      sum-pos working (others + amount) in
    let alone : pos working +ℤ pos amount ≡ pos (working + amount) = sum-pos working amount in
    rw (whole, needed, alone) (ground arith)

-- The outcome for an open lease of a budget, by what all others hold.
replace-outcome :
    (m : MemoryModel) (high : ℕ) {w : World} (i : ℕ) {l : Lease} (o : Observed) (working amount : ℕ)
    → Reach (start m high) w
    → get_elem? w.leases i ≡ some l
    → l.closed ≡ false
    → o.admits ≡ true
    → o.sample ≡ some working
    → (replace o l.amount amount false w.budget).0
      ≡ outcome working (booked w - l.amount) amount high
unfolding replace start
replace-outcome m high {w} i {l} o working amount r at still_open admits sampled =
    let (balanced, bounded) = budget_balanced m high r in
    let inside : l.amount ≤ booked w = ground (arith, held-total w.leases i at) in
    let counted : booked w ≡ l.amount + (booked w - l.amount) = omega (arith, inside) in
    let at_once =
      replace_at-outcome working l.amount (booked w - l.amount) amount w.budget
        (balanced ∙ ap pos counted) in
    let same_high : w.budget.high ≡ high = high-Reach r in
    simp (admits, sampled) (at_once ∙ ap (outcome working (booked w - l.amount) amount) same_high)

asked_again :
    (working first second amount high : ℕ) (e : Error)
    → amount ≤ high
    → outcome working first amount high ≡ err e
    → (outcome working second amount high ≡ (
        if is_pressure e
        then err pressure
        else if leb (working + second + amount) high
        then ok amount
        else err capacity))
      × (leb (working + amount) high ≡ not (is_pressure e))
asked_again working first second amount high pressure fits h = (ground arith, ground arith)
asked_again working first second amount high capacity fits h = (ground arith, ground arith)
asked_again working first second amount high negative_size fits h = absurd (ground arith)
asked_again working first second amount high closed_lease fits h = absurd (ground arith)
asked_again working first second amount high not_admitted fits h = absurd (ground arith)

-- An open lease asks for an amount that could fit below `high` and is refused, while admission is
-- open and the sample is read. It asks again at the same working set, in any state that the budget
-- gets to with the lease unchanged. If the refusal was memory pressure it is refused so again,
-- whatever others have released. Otherwise it succeeds exactly when the working set, what all others
-- hold by then and the amount fit below `high`. And the refusal was memory pressure exactly when
-- the amount would not fit with no other reservation.
pub replace-replace :
    (m : MemoryModel) (high : ℕ) {v w : World} (i : ℕ) (l : Lease) (o : Observed)
    (working amount : ℕ) (e : Error)
    → Reach (start m high) v
    → Reach (start m high) w
    → get_elem? v.leases i ≡ some l
    → get_elem? w.leases i ≡ some l
    → l.closed ≡ false
    → o.admits ≡ true
    → o.sample ≡ some working
    → amount ≤ high
    → (replace o l.amount amount false v.budget).0 ≡ err e
    → ((replace o l.amount amount false w.budget).0 ≡ (
        if is_pressure e
        then err pressure
        else if leb (working + (booked w - l.amount) + amount) high
        then ok amount
        else err capacity))
      × (leb (working + amount) high ≡ not (is_pressure e))
replace-replace m high {v} {w} i l o working amount e reach_v reach_w at_v at_w still_open admits
      sampled fits h =
    let first = replace-outcome m high i o working amount reach_v at_v still_open admits sampled in
    let second = replace-outcome m high i o working amount reach_w at_w still_open admits sampled in
    let (again, why) =
      asked_again working (booked v - l.amount) (booked w - l.amount) amount high e fits
        (sym first ∙ h) in
    (second ∙ again, why)
