-- ===== src/Extract/Budget.antt =====
-- scholight/web_extract/reservations.py: the memory model, the budget, and its leases.
-- Amounts are natural numbers; the budget's counter is an integer, since the code subtracts from it.
pub mod System
pub mod Outcomes
pub mod Balance
pub mod Costs
pub mod Retry
mod Tests
use scholight.Prelude.{
  ℕ, suc, ◌+◌, ◌*◌, Bool, true, false, not, ◌&&◌, ◌||◌, Option, none, some, List, [], ◌∷◌,
  if◌then◌else◌,
}
use scholight.Prelude.Int.{ℤ, pos, negsuc, ◌+ℤ◌, ◌-ℤ◌, ltb_ℤ, leb_ℤ}
use scholight.Prelude.Text.{Text, codes, one_of, text_eq, starts_with, before, strip, lower}

abbrev pub mib : ℕ
mib = 1024 * 1024

pub data Stage : Type 0 where
  download parse browser : Stage

pub data WorkerKind : Type 0 where
  parser browser : WorkerKind

-- The exceptions: `ValueError` and `RuntimeError` of this module, `capacity_error`,
-- `RetainedMemoryPressureError`, and whatever the callback `admit` raises.
pub data Error : Type 0 where
  negative_size closed_lease capacity pressure not_admitted : Error

pub data Result (A : Type 0) : Type 0 where
  ok : A → Result A
  err : Error → Result A

pub record StageCost : Type 0 where
  pub fixed : ℕ
  pub per_input_byte : ℕ

-- `StageCost.estimate`
abbrev pub cost : StageCost → ℕ → ℕ
cost c size = c.fixed + c.per_input_byte * size

pub record MemoryModel : Type 0 where
  pub download : StageCost
  pub html : StageCost
  pub pdf : StageCost
  pub pdf_warm : StageCost
  pub text : StageCost
  pub browser : StageCost
  pub browser_warm : StageCost
  pub parser_startup : ℕ
  pub browser_startup : ℕ

abbrev stage_cost : ℕ → ℕ → StageCost
stage_cost m per = record { fixed = m * mib; per_input_byte = per }

-- The defaults of `MemoryModel`.
abbrev pub default_model : MemoryModel
default_model = record {
  download = stage_cost 11 1;
  html = stage_cost 63 106;
  pdf = stage_cost 309 1;
  pdf_warm = stage_cost 94 1;
  text = stage_cost 25 1;
  browser = stage_cost 253 0;
  browser_warm = stage_cost 243 0;
  parser_startup = 224 * mib;
  browser_startup = 265 * mib;
}

-- `mime.partition(";")[0].strip().lower()`
unfoldable pub media_type : Text → Text
media_type mime = lower (strip (before b';' mime))

-- The chain of tests of `MemoryModel.estimate`, on the normalized type.
unfoldable pub stage_choice : MemoryModel → Stage → Text → Bool → StageCost
stage_choice m Stage.download mime warm = m.download
stage_choice m Stage.browser mime warm = if warm then m.browser_warm else m.browser
stage_choice m Stage.parse mime warm =
    if one_of mime (codes "text/html" ∷ codes "application/xhtml+xml" ∷ [])
    then m.html
    else if text_eq mime (codes "application/pdf")
    then if warm then m.pdf_warm else m.pdf
    else if starts_with mime (codes "text/")
        || one_of mime (codes "application/json" ∷ codes "application/xml" ∷ [])
    then m.text
    else m.pdf

unfoldable pub estimate : MemoryModel → Stage → ℤ → Text → Bool → Result ℕ
estimate m stage (negsuc _) mime warm = err negative_size
estimate m stage (pos size) mime warm = ok (cost (stage_choice m stage (media_type mime) warm) size)

pub record Budget : Type 0 where
  pub model : MemoryModel
  pub high : ℕ
  pub reserved_bytes : ℤ
  pub pressure_calls : ℕ  -- how often `on_pressure` was called

-- `MemoryBudget.__init__`
unfoldable pub new : MemoryModel → ℕ → Budget
new m high = record { model = m; high = high; reserved_bytes = pos 0; pressure_calls = 0 }

-- What the two callbacks give at one call: whether `admit` returns, and the sample, `none` where
-- reading it raises one of the caught exceptions.
pub record Observed : Type 0 where
  pub admits : Bool
  pub sample : Option ℕ

-- The part of `_replace` behind the sample.
unfoldable pub replace_at : ℕ → ℕ → ℕ → Bool → Budget → Result ℕ × Budget
replace_at working old new startup b =
    let reserved = b.reserved_bytes -ℤ pos old +ℤ pos new in
    if ltb_ℤ (pos b.high) (pos working +ℤ reserved)
    then if (ltb_ℤ (pos b.high) (pos working +ℤ pos new) || startup) && leb_ℤ (pos new) (pos b.high)
      then (err pressure, record b { pressure_calls = suc b.pressure_calls })
      else (err capacity, b)
    else (ok new, record b { reserved_bytes = reserved })

-- `MemoryBudget._replace`
unfoldable pub replace : Observed → ℕ → ℕ → Bool → Budget → Result ℕ × Budget
unfolding replace_at
replace o old new startup b =
    if o.admits
    then elim o.sample [
      | none ↦ (err capacity, b)
      | some working ↦ replace_at working old new startup b
    ]
    else (err not_admitted, b)

-- `MemoryBudget.release`
unfoldable pub release : ℕ → Budget → Budget
release amount b = record b { reserved_bytes = b.reserved_bytes -ℤ pos amount }

-- `MemoryBudget.transfer`
unfoldable pub transfer_from : Observed → ℕ → Stage → ℤ → Text → Bool → Budget → Result ℕ × Budget
unfolding replace estimate
transfer_from o old stage size mime warm b = elim (estimate b.model stage size mime warm) [
  | err e ↦ (err e, b)
  | ok amount ↦ replace o old amount false b
]

-- `MemoryBudget.startup`, up to its `yield`: the amount is what `release` gets at the end.
unfoldable pub startup : Observed → WorkerKind → Budget → Result ℕ × Budget
unfolding replace
startup o WorkerKind.parser b = replace o 0 b.model.parser_startup true b
startup o WorkerKind.browser b = replace o 0 b.model.browser_startup true b

-- `MemoryReservation`
pub record Lease : Type 0 where
  pub amount : ℕ
  pub closed : Bool

-- `MemoryBudget.lease`
unfoldable pub lease : Lease
lease = record { amount = 0; closed = false }

-- `self._amount = self._budget.transfer(...)`: an exception leaves the lease as it is.
abbrev pub take_amount : Result ℕ × Budget → Lease → Result ℕ × Budget × Lease
take_amount (ok amount, b) l = (ok amount, b, record l { amount = amount })
take_amount (err e, b) l = (err e, b, l)

-- `MemoryReservation.transfer`
unfoldable pub transfer :
    Observed → Stage → ℤ → Text → Bool → Budget → Lease → Result ℕ × Budget × Lease
unfolding transfer_from
transfer o stage size mime warm b l =
    if l.closed
    then (err closed_lease, b, l)
    else take_amount (transfer_from o l.amount stage size mime warm b) l

-- `MemoryReservation.close`
unfoldable pub close : Budget → Lease → Budget × Lease
unfolding release
close b l = if l.closed then (b, l) else (release l.amount b, record l { closed = true })
