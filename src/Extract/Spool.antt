-- ===== src/Extract/Spool.antt =====
-- `Spool` and `SpoolFile` of scholight/web_extract/spool.py. Files stand in a list and are named by
-- their index. Whether the operating system carries out a call is an input. The files' contents are not
-- modelled: `size` is the counter of `SpoolFile`, and a write that fails may leave bytes on the disk
-- that it does not count.
pub mod System
pub mod Balance
pub mod Reserved
mod Tests
use scholight.Prelude.{
  ℕ, ◌+◌, Bool, true, false, not, ◌||◌, Option, none, some, List, [], ◌∷◌, ◌++◌, length, ltb,
  contains, get_elem?, set, if◌then◌else◌, ◌==◌,
}
use scholight.Prelude.Int.{ℤ, pos, neg_part, pos_part, ◌+ℤ◌, ◌-ℤ◌, ltb_ℤ, sub_ℕ}

pub record SpoolFile : Type 0 where
  pub limit : ℕ
  pub size : ℕ
  pub closed : Bool

pub record Spool : Type 0 where
  pub max_bytes : ℕ
  pub reserved_bytes : ℤ
  pub started : Bool
  pub files : List ℕ
  pub bodies : List SpoolFile

pub data Outcome : Type 0 where
  done : Outcome
  not_started : Outcome
  capacity_exceeded : Outcome
  response_too_large : Outcome
  key_error : Outcome
  os_error : Outcome

unfoldable pub new : ℕ → Spool
new max_bytes = record {
  max_bytes = max_bytes;
  reserved_bytes = pos 0;
  started = false;
  files = [];
  bodies = [];
}

-- `start`: `locked` says that the lock was taken.
unfoldable pub start : Bool → Spool → Outcome × Spool
start locked s = if locked then (done, record s { started = true }) else (os_error, s)

abbrev pub registered : ℕ → Spool → Spool
registered limit s = record s {
  reserved_bytes = s.reserved_bytes +ℤ pos limit;
  files = length s.bodies ∷ s.files;
  bodies = s.bodies ++ record { limit = limit; size = 0; closed = false } ∷ [];
}

-- `allocate`: `created` says that the file could be created.
unfoldable pub allocate : Bool → ℤ → Spool → Outcome × Spool
allocate created limit s =
    if not s.started
    then (not_started, s)
    else if ltb_ℤ limit (pos 0) || ltb_ℤ (pos s.max_bytes) (s.reserved_bytes +ℤ limit)
    then (capacity_exceeded, s)
    else if created
    then (done, registered (pos_part limit) s)
    else (os_error, s)

-- `SpoolFile.write` of `n` bytes: `written` says that the stream took them.
unfoldable pub write : Bool → ℕ → SpoolFile → Outcome × SpoolFile
write written n f =
    if ltb f.limit (f.size + n)
    then (response_too_large, f)
    else if written
    then (done, record f { size = f.size + n })
    else (os_error, f)

-- `set.remove`, of an element that is there.
abbrev pub discard : ℕ → List ℕ → List ℕ
discard i [] = []
discard i (j ∷ js) = if i == j then discard i js else j ∷ discard i js

-- `Spool.release`
unfoldable pub release : ℕ → SpoolFile → Spool → Outcome × Spool
release i f s =
    if contains i s.files
    then (
      done,
      record s { files = discard i s.files; reserved_bytes = s.reserved_bytes -ℤ pos f.limit },
    )
    else (key_error, s)

-- The end of `SpoolFile.close`, whose last line is not reached when `release` raises.
abbrev pub released : ℕ → SpoolFile → Outcome × Spool → Outcome × Spool
released i f (done, s) = (done, record s { bodies = set s.bodies i (record f { closed = true }) })
released i f (o, s) = (o, s)

-- `SpoolFile.close`: `unlinked` says that the file could be removed, or was not there.
unfoldable pub close_file : Bool → ℕ → SpoolFile → Spool → Outcome × Spool
unfolding release
close_file unlinked i f s =
    if f.closed then (done, s) else if unlinked then released i f (release i f s) else (os_error, s)

-- `SpoolFile.seal`
unfoldable pub seal : ℕ → SpoolFile → Spool → Spool
seal i f s = record s {
  reserved_bytes = s.reserved_bytes -ℤ sub_ℕ f.limit f.size;
  bodies = set s.bodies i (record f { limit = f.size });
}
