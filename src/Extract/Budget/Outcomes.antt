-- ===== src/Extract/Budget/Outcomes.antt =====
-- What one replacement and one transfer do, by how they end.
use scholight.Prelude.{
  ℕ, ◌≡◌, refl, inl, inr, Bool, true, false, some, arith, Bool-cases, Option-cases,
}
use scholight.Prelude.Int.{ℤ, pos, ◌+ℤ◌, ◌-ℤ◌, ◌≤ℤ◌, ltb_ℤ}
use scholight.Prelude.Text.{Text}
use scholight.Extract.Budget.{
  Stage, WorkerKind, Result, ok, err, Budget, Observed, Lease, replace_at, replace, transfer_from,
  startup, transfer, estimate, take_amount,
}

-- How a replacement changes the budget, by how it ends.
abbrev pub Replaces : Observed → ℕ → Budget → Result ℕ × Budget → Type 0
Replaces o old b (ok amount, b') =
    (working : ℕ) × (o.sample ≡ some working)
    × (o.admits ≡ true)
    × (b'.reserved_bytes ≡ b.reserved_bytes -ℤ pos old +ℤ pos amount)
    × (pos working +ℤ b'.reserved_bytes ≤ℤ pos b.high)
    × (b'.high ≡ b.high)
Replaces o old b (err _, b') = (b'.reserved_bytes ≡ b.reserved_bytes) × (b'.high ≡ b.high)

not-ltb_ℤ : (a b : ℤ) → ltb_ℤ a b ≡ false → b ≤ℤ a
not-ltb_ℤ a b h = ground arith

replace_at-Replaces :
    (o : Observed) (working old amount : ℕ) (starting : Bool) (b : Budget)
    → o.sample ≡ some working
    → o.admits ≡ true
    → Replaces o old b (replace_at working old amount starting b)
unfolding replace_at
replace_at-Replaces o working old amount starting b e h =
    let r : ℤ = b.reserved_bytes -ℤ pos old +ℤ pos amount in
    elim (Bool-cases (ltb_ℤ (pos b.high) (pos working +ℤ r))) [
      | inl over ↦ ground arith
      | inr fit ↦ rw fit (working, e, h, refl, not-ltb_ℤ (pos b.high) (pos working +ℤ r) fit, refl)
    ]

pub replace-Replaces :
    (o : Observed) (old amount : ℕ) (starting : Bool) (b : Budget)
    → Replaces o old b (replace o old amount starting b)
unfolding replace
replace-Replaces o old amount starting b = elim (Bool-cases o.admits) [
  | inr refused ↦ simp refused (refl, refl)
  | inl admitted ↦ elim (Option-cases o.sample) [
    | inl unread ↦ ground arith
    | inr (working, e) ↦
        simp (admitted, e) (replace_at-Replaces o working old amount starting b e admitted)
  ]
]

transfer_from-Replaces :
    (o : Observed) (old : ℕ) (stage : Stage) (size : ℤ) (mime : Text) (warm : Bool) (b : Budget)
    → Replaces o old b (transfer_from o old stage size mime warm b)
unfolding transfer_from
transfer_from-Replaces o old stage size mime warm b =
    split (estimate b.model stage size mime warm) refl
  where
    split :
        (r : Result ℕ)
        → estimate b.model stage size mime warm ≡ r
        → Replaces o old b (transfer_from o old stage size mime warm b)
    split (err e) h = rw (h, transfer_from) (refl, refl)
    split (ok amount) h = rw (h, transfer_from) (replace-Replaces o old amount false b)

pub startup-Replaces :
    (o : Observed) (kind : WorkerKind) (b : Budget) → Replaces o 0 b (startup o kind b)
unfolding startup
startup-Replaces o WorkerKind.parser b = replace-Replaces o 0 b.model.parser_startup true b
startup-Replaces o WorkerKind.browser b = replace-Replaces o 0 b.model.browser_startup true b

-- What a transfer does to its lease and to the budget, by how it ends.
abbrev pub Transfers : Observed → Budget → Lease → Result ℕ × Budget × Lease → Type 0
Transfers o b l (ok amount, b', l') =
    Replaces o l.amount b (ok amount, b') × (l.closed ≡ false) × (l' ≡ record l { amount = amount })
Transfers o b l (err e, b', l') = Replaces o l.amount b (err e, b') × (l' ≡ l)

take_amount-Transfers :
    (o : Observed) (b : Budget) (l : Lease) (r : Result ℕ × Budget)
    → l.closed ≡ false
    → Replaces o l.amount b r
    → Transfers o b l (take_amount r l)
take_amount-Transfers o b l (ok amount, b') c h = (h, c, refl)
take_amount-Transfers o b l (err e, b') c h = (h, refl)

-- A transfer that returns an amount has read a working set, and with it the new reservations stay
-- within `high`; the budget has exchanged the lease's old amount for the new one, and the lease,
-- which was open, holds the new one. A transfer that raises leaves the lease as it was and the
-- budget's counter too.
pub transfer-Transfers :
    (o : Observed) (stage : Stage) (size : ℤ) (mime : Text) (warm : Bool) (b : Budget) (l : Lease)
    → Transfers o b l (transfer o stage size mime warm b l)
unfolding transfer
transfer-Transfers o stage size mime warm b l = elim (Bool-cases l.closed) [
  | inl over ↦ simp over ((refl, refl), refl)
  | inr open_still ↦ simp open_still (
      take_amount-Transfers o b l (transfer_from o l.amount stage size mime warm b) open_still
        (transfer_from-Replaces o l.amount stage size mime warm b))
]
