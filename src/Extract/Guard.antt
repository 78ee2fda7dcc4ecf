-- ===== src/Extract/Guard.antt =====
-- `MemoryGuard` of scholight/web_extract/memory.py: `tick`, `admit` and the two notes on pressure.
-- The sample, the clock, `can_reclaim` and how far the reclaim task has come are inputs. While `tick`
-- sleeps, other coroutines run: the notes on pressure that they make are an input as well.
pub mod Hysteresis
mod Tests
use scholight.Prelude.{
  ℕ, ◌+◌, Bool, true, false, not, ◌&&◌, ◌||◌, Option, none, some, List, [], ◌∷◌, ltb, leb,
  if◌then◌else◌,
}

-- The reclaim task: there is none, or it runs, returned, or raised.
pub data Recovery : Type 0 where
  absent : Recovery
  running : Recovery
  returned : Recovery
  raised : Recovery

-- `last_reclaim` is `none` for minus infinity.
pub record Guard : Type 0 where
  pub high : ℕ
  pub low : ℕ
  pub pressure : Bool
  pub last_reclaim : Option ℕ
  pub paused : Bool
  pub recovery : Recovery

unfoldable pub new : ℕ → ℕ → Guard
new high low = record {
  high = high;
  low = low;
  pressure = false;
  last_reclaim = none;
  paused = false;
  recovery = absent;
}

abbrev pub is_absent : Recovery → Bool
is_absent absent = true
is_absent r = false

abbrev pub has_raised : Recovery → Bool
has_raised raised = true
has_raised r = false

-- `self._recovery is None or self._recovery.done()`
abbrev pub is_over : Recovery → Bool
is_over running = false
is_over r = true

-- `admit`: false is `extract_capacity_exceeded`.
unfoldable pub admit : Guard → Bool
admit g = not g.paused

unfoldable pub request_reclaim : Guard → Guard
request_reclaim g = record g { pressure = true }

unfoldable pub capacity_recovered : Guard → Guard
capacity_recovered g = record g { pressure = false }

-- A call of `request_reclaim` or of `capacity_recovered`.
pub data Note : Type 0 where
  requested : Note
  recovered : Note

unfoldable pub take_notes : List Note → Guard → Guard
unfolding request_reclaim capacity_recovered
take_notes [] g = g
take_notes (requested ∷ notes) g = take_notes notes (request_reclaim g)
take_notes (recovered ∷ notes) g = take_notes notes (capacity_recovered g)

-- `self._clock() - self._last_pressure_reclaim >= 30`, with the clock's first reading.
abbrev pub rested : ℕ → Option ℕ → Bool
rested checked none = true
rested checked (some last) = leb (last + 30) checked

abbrev pub high_water : ℕ → Guard → Bool
high_water working_set g = leb g.high working_set && (not g.paused || is_absent g.recovery)

abbrev pub idle_pressure : ℕ → Bool → Guard → Bool
idle_pressure checked can_reclaim g =
    g.pressure && is_absent g.recovery && rested checked g.last_reclaim && can_reclaim

-- The first part of `tick`: `checked` and `now` are the two readings of the clock, `soon` is how far
-- the new task comes in `sleep(0)`, and `notes` are those made meanwhile.
unfoldable pub begin_reclaim : ℕ → ℕ → ℕ → Bool → Recovery → List Note → Guard → Guard
unfolding take_notes
begin_reclaim working_set checked now can_reclaim soon notes g =
    if high_water working_set g || idle_pressure checked can_reclaim g
    then take_notes notes
        (record g { paused = true; pressure = false; last_reclaim = some now; recovery = soon })
    else g

-- The second part: a task that raised is started again; otherwise admission may resume.
unfoldable pub settle : ℕ → Guard → Guard
settle working_set g =
    if has_raised g.recovery
    then record g { recovery = running }
    else if ltb working_set g.low && is_over g.recovery
    then record g { paused = false; recovery = absent }
    else g

-- `tick`; a sample of `none` is one that could not be read.
unfoldable pub tick : Option ℕ → ℕ → ℕ → Bool → Recovery → List Note → Guard → Guard
unfolding begin_reclaim settle
tick none checked now can_reclaim soon notes g = record g { paused = true }
tick (some working_set) checked now can_reclaim soon notes g =
    settle working_set (begin_reclaim working_set checked now can_reclaim soon notes g)
