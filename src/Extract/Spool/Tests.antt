-- ===== src/Extract/Spool/Tests.antt =====
-- A spool of 100 bytes.
use scholight.Prelude.{◌≡◌, refl, true, false, some, get_elem?}
use scholight.Prelude.Int.{pos, ◌+ℤ◌, ◌-ℤ◌}
use scholight.Extract.Spool.{
  SpoolFile, Spool, done, os_error, capacity_exceeded, new, start, allocate, close_file,
}
use scholight.Extract.Spool.System.{begin, open_file, Reach, here, next}
use scholight.Extract.Spool.Reserved.{close_file-done}

abbrev started : Spool
started = (start true (new 100)).1

abbrev one_file : Spool
one_file = (allocate true (pos 60) started).1

-- The first file is open, so that 41 bytes more do not fit.
second_refused : (allocate true (pos 41) one_file).0 ≡ capacity_exceeded
unfolding allocate start new ◌+ℤ◌
second_refused = refl

one_file-Reach : Reach (new 100) one_file
one_file-Reach = next (next here (begin (new 100) true)) (open_file started true (pos 60))

abbrev first_file : SpoolFile
first_file = record { limit = 60; size = 0; closed = false }

-- The disk refuses to unlink the file: it stays open, and a second try succeeds.
failed_close : close_file false 0 first_file one_file ≡ (os_error, one_file)
unfolding close_file allocate start new ◌+ℤ◌
failed_close = refl

close_file-done_example :
    ((close_file true 0 first_file one_file).0 ≡ done)
    × ((get_elem? (close_file true 0 first_file one_file).1.bodies 0
          ≡ some (record first_file { closed = true }))
        × ((close_file true 0 first_file one_file).1.reserved_bytes
            ≡ one_file.reserved_bytes -ℤ pos 60))
unfolding allocate start new ◌+ℤ◌
close_file-done_example = close_file-done 100 0 first_file true one_file-Reach refl
