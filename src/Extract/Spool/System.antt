-- ===== src/Extract/Spool/System.antt =====
-- A spool with its files, and what callers do to them. A file is written and sealed while it is
-- open, and may be closed again and again.
use scholight.Prelude.{
  ℕ, ◌≡◌, ◌≤◌, Bool, false, not, some, total, contains, get_elem?, set, if◌then◌else◌,
}
use scholight.Prelude.Int.{ℤ, pos}
use scholight.Extract.Spool.{SpoolFile, Spool, Outcome, start, allocate, write, close_file, seal}

-- What a file counts for: its limit, until it is closed.
abbrev pub held : SpoolFile → ℕ
held f = if f.closed then 0 else f.limit

abbrev pub written_at : ℕ → Outcome × SpoolFile → Spool → Spool
written_at i r s = record s { bodies = set s.bodies i r.1 }

pub data Step : Spool → Spool → Type 0 where
  begin : (s : Spool) (locked : Bool) → Step s (start locked s).1
  open_file : (s : Spool) (created : Bool) (limit : ℤ) → Step s (allocate created limit s).1
  put :
      (s : Spool) (i : ℕ) {f : SpoolFile}
      → get_elem? s.bodies i ≡ some f
      → f.closed ≡ false
      → (written : Bool) (n : ℕ) → Step s (written_at i (write written n f) s)
  finish :
      (s : Spool) (i : ℕ) {f : SpoolFile}
      → get_elem? s.bodies i ≡ some f
      → f.closed ≡ false
      → Step s (seal i f s)
  shut :
      (s : Spool) (i : ℕ) {f : SpoolFile}
      → get_elem? s.bodies i ≡ some f
      → (unlinked : Bool) → Step s (close_file unlinked i f s).1

pub data Reach (s : Spool) : Spool → Type 0 where
  here : Reach s s
  next : {t u : Spool} → Reach s t → Step t u → Reach s u

pub record Inv (s : Spool) : Type 0 where
  pub balanced : s.reserved_bytes ≡ pos (total held s.bodies)
  pub bounded : total held s.bodies ≤ s.max_bytes
  pub sizes : (i : ℕ) {f : SpoolFile} → get_elem? s.bodies i ≡ some f → f.size ≤ f.limit
  pub listed :
      (i : ℕ) {f : SpoolFile} → get_elem? s.bodies i ≡ some f → contains i s.files ≡ not f.closed
