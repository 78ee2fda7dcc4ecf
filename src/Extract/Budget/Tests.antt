-- ===== src/Extract/Budget/Tests.antt =====
-- Leases on a budget of 640 MiB.
use scholight.Prelude.{
  ◌+◌, ◌-◌, ◌*◌, ◌≤◌, ◌≡◌, refl, true, false, not, leb, if◌then◌else◌, some, [], ◌∷◌, arith, total,
}
use scholight.Prelude.Int.{pos, negsuc, ◌+ℤ◌, ◌-ℤ◌}
use scholight.Prelude.Text.{codes}
use scholight.Extract.Budget.{
  Stage, WorkerKind, ok, err, pressure, capacity, Lease, startup, negative_size, Budget, Observed,
  default_model, mib, new, media_type, stage_choice, estimate, replace, transfer, lease,
}
use scholight.Extract.Budget.System.{
  World, start, transferred, open_lease, change, begin_start, started, booked, here, next, Reach,
  held,
}
use scholight.Extract.Budget.Outcomes.{Transfers, transfer-Transfers}
use scholight.Extract.Budget.Balance.{budget_balanced}
use scholight.Extract.Budget.Costs.{estimate_mono}
use scholight.Extract.Budget.Retry.{is_pressure, replace-replace}

abbrev calm : Observed
calm = record { admits = true; sample = some (100 * mib) }

abbrev fresh : Budget
fresh = record {
  model = default_model;
  high = 640 * mib;
  reserved_bytes = pos 0;
  pressure_calls = 0;
}

media_type_runs : media_type (codes " Text/HTML ; charset=utf-8") ≡ codes "text/html"
unfolding media_type
media_type_runs = refl

html_transfer : transfer calm Stage.parse (pos 1000) (codes "text/html") false fresh lease ≡ (
  ok (63 * mib + 106000),
  record fresh { reserved_bytes = pos (63 * mib + 106000) },
  record { amount = 63 * mib + 106000; closed = false },
)
unfolding transfer lease media_type stage_choice ◌+ℤ◌ ◌-ℤ◌
html_transfer = refl

negative_refused : estimate default_model Stage.parse (negsuc 0) [] true ≡ err negative_size
unfolding estimate
negative_refused = refl

transfer-Transfers_example :
    Transfers calm fresh lease
      (transfer calm Stage.parse (pos 1000) (codes "text/html") false fresh lease)
transfer-Transfers_example =
    transfer-Transfers calm Stage.parse (pos 1000) (codes "text/html") false fresh lease

abbrev opened : World
opened = record { budget = fresh; leases = lease ∷ []; starts = [] }

abbrev parsing : World
parsing =
    transferred 0 (transfer calm Stage.parse (pos 1000) (codes "text/html") false fresh lease)
      opened

parsing-Reach : Reach (start default_model (640 * mib)) parsing
unfolding start new
parsing-Reach =
    next (next here (open_lease (start default_model (640 * mib))))
      (change opened 0 refl calm Stage.parse (pos 1000) (codes "text/html") false)

budget_balanced_example :
    (parsing.budget.reserved_bytes
      ≡ pos (total held parsing.leases + total (λ a. a) parsing.starts))
    × (total held parsing.leases + total (λ a. a) parsing.starts ≤ 640 * mib)
budget_balanced_example = budget_balanced default_model (640 * mib) parsing-Reach

estimate_mono_example : (94 * mib + 1000 ≤ 94 * mib + 2000) × (94 * mib + 2000 ≤ 309 * mib + 2000)
unfolding estimate stage_choice media_type
estimate_mono_example =
    estimate_mono Stage.parse (codes "application/pdf") true 1000 2000 (omega arith) refl refl refl

-- At a working set of 100 MiB the lease of `parsing` asks for 600 MiB, and asks again when a worker
-- start has come in between.
abbrev starting_too : World
starting_too = started (startup calm WorkerKind.parser parsing.budget) parsing

starting_too-Reach : Reach (start default_model (640 * mib)) starting_too
starting_too-Reach = next parsing-Reach (begin_start parsing calm WorkerKind.parser)

abbrev parsed : Lease
parsed = record { amount = 63 * mib + 106000; closed = false }

replace-replace_example :
    ((replace calm parsed.amount (600 * mib) false starting_too.budget).0 ≡ (
      if is_pressure pressure
      then err pressure
      else if leb (100 * mib + (booked starting_too - parsed.amount) + 600 * mib) (640 * mib)
      then ok (600 * mib)
      else err capacity))
    × (leb (100 * mib + 600 * mib) (640 * mib) ≡ not (is_pressure pressure))
unfolding transfer lease media_type stage_choice ◌+ℤ◌ ◌-ℤ◌ replace startup
replace-replace_example =
    replace-replace default_model (640 * mib) 0 parsed calm (100 * mib) (600 * mib) pressure
      parsing-Reach starting_too-Reach refl refl refl refl refl (omega arith) refl

pressure_runs : (replace calm 0 (600 * mib) false fresh).0 ≡ err pressure
unfolding replace ◌+ℤ◌ ◌-ℤ◌
pressure_runs = refl
