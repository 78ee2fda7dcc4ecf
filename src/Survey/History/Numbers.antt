-- ===== src/Survey/History/Numbers.antt =====
-- The table of drafts as a history: the numbers of the ready drafts.
use scholight.Prelude.{
  ℕ, ◌+◌, ◌≡◌, ◌≤◌, Bool, true, false, ◌&&◌, Option, none, some, List, ◌==◌, leb, if◌then◌else◌,
  arith,
}
use scholight.Prelude.Keys.{row_count}
use scholight.Survey.Tables.{Draft, is_key}
use scholight.Survey.Lifecycle.{in_progress, is_ready}
use scholight.Survey.Drafts.{next_revision}
use scholight.Survey.Drafts.Revisions.{latest_of}

-- A draft that is queued or runs, and a ready one of a number.
abbrev pub is_active : ℕ → Draft → Bool
is_active k d = d.survey_id == k && in_progress d.status

abbrev pub has_number : ℕ → ℕ → Draft → Bool
has_number k n d = d.survey_id == k && is_ready d.status && is_key d.revision n

abbrev pub up_to : Option ℕ → ℕ → Bool
up_to none n = false
up_to (some m) n = leb 1 n && leb n m

abbrev pub bit : Bool → ℕ
bit b = if b then 1 else 0

abbrev pub Small : Option ℕ → Type 0
Small none = Unit
Small (some n) = n ≤ 10

-- Keys are unique, a survey has one active draft at most, and its ready ones are numbered from 1
-- to the latest, each number once, and to 10 at most.
pub record Numbered (ds : List Draft) : Type 0 where
  pub keyed : (i : ℕ) → row_count (λ d. d.id == i) ds ≤ 1
  pub single : (k : ℕ) → row_count (is_active k) ds ≤ 1
  pub numbers :
      (k n : ℕ) → row_count (has_number k n) ds ≡ (if up_to (latest_of k ds) n then 1 else 0)
  pub small : (k : ℕ) → Small (latest_of k ds)

pub up_to-next :
    (o : Option ℕ) (n : ℕ)
    → (if up_to (some (next_revision o)) n then 1 else 0)
      ≡ (if next_revision o == n then 1 else 0) + (if up_to o n then 1 else 0)
up_to-next none n = ground arith
up_to-next (some m) n = ground arith

-- What a draft that becomes the next ready revision of its survey has.
pub record Next (o : Option ℕ) (y : Draft) : Type 0 where
  pub ready : is_ready y.status ≡ true
  pub number : y.revision ≡ some (next_revision o)
  pub small : next_revision o ≤ 10

pub Next-numbers :
    (o : Option ℕ) (y : Draft) (k n : ℕ)
    → Next o y
    → bit (has_number k n y) ≡ bit (y.survey_id == k && next_revision o == n)
Next-numbers o y k n next = rw (next.ready, next.number) (ground arith)

pub ready-idle : (y : Draft) → is_ready y.status ≡ true → in_progress y.status ≡ false
ready-idle y h = ground arith
