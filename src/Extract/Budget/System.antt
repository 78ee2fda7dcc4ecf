-- ===== src/Extract/Budget/System.antt =====
-- The budget and everything that has reserved from it: leases, and worker starts in progress.
use scholight.Prelude.{
  ℕ, ◌+◌, ◌≤◌, ◌≡◌, Bool, some, List, [], ◌∷◌, ◌++◌, total, get_elem?, set, remove_at,
  if◌then◌else◌,
}
use scholight.Prelude.Int.{ℤ, pos}
use scholight.Prelude.Text.{Text}
use scholight.Extract.Budget.{
  Stage, WorkerKind, Result, ok, err, MemoryModel, Budget, Observed, Lease, new, release, startup,
  lease, transfer, close,
}

-- A closed lease holds nothing, whatever its amount still says.
abbrev pub held : Lease → ℕ
held l = if l.closed then 0 else l.amount

pub record World : Type 0 where
  pub budget : Budget
  pub leases : List Lease
  pub starts : List ℕ  -- the amounts between the two halves of `startup`

unfoldable pub start : MemoryModel → ℕ → World
unfolding new
start m high = record { budget = new m high; leases = []; starts = [] }

abbrev pub transferred : ℕ → Result ℕ × Budget × Lease → World → World
transferred i (_, b, l) w = record w { budget = b; leases = set w.leases i l }

abbrev pub closed_at : ℕ → Budget × Lease → World → World
closed_at i (b, l) w = record w { budget = b; leases = set w.leases i l }

abbrev pub started : Result ℕ × Budget → World → World
started (ok amount, b) w = record w { budget = b; starts = amount ∷ w.starts }
started (err _, b) w = record w { budget = b }

pub data Step : World → World → Type 0 where
  open_lease : (w : World) → Step w (record w { leases = w.leases ++ lease ∷ [] })
  change :
      (w : World) (i : ℕ) {l : Lease}
      → get_elem? w.leases i ≡ some l
      → (o : Observed) (stage : Stage) (size : ℤ) (mime : Text) (warm : Bool)
      → Step w (transferred i (transfer o stage size mime warm w.budget l) w)
  shut :
      (w : World) (i : ℕ) {l : Lease}
      → get_elem? w.leases i ≡ some l
      → Step w (closed_at i (close w.budget l) w)
  begin_start :
      (w : World) (o : Observed) (kind : WorkerKind) → Step w (started (startup o kind w.budget) w)
  end_start :
      (w : World) (i : ℕ) {amount : ℕ}
      → get_elem? w.starts i ≡ some amount
      → Step w (record w { budget = release amount w.budget; starts = remove_at w.starts i })

pub data Reach (s : World) : World → Type 0 where
  here : Reach s s
  next : {t u : World} → Reach s t → Step t u → Reach s u

abbrev pub booked : World → ℕ
booked w = total held w.leases + total (λ a. a) w.starts

pub record Inv (w : World) : Type 0 where
  pub balanced : w.budget.reserved_bytes ≡ pos (booked w)
  pub bounded : booked w ≤ w.budget.high
