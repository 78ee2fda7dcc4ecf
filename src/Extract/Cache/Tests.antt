-- ===== src/Extract/Cache/Tests.antt =====
-- A cache of two small documents.
use scholight.Prelude.{ℕ, ◌≡◌, ◌≤◌, refl, some, none, replicate, length, Option}
use scholight.Prelude.Int.{pos, ◌+ℤ◌}
use scholight.Prelude.Text.{Text, codes}
use scholight.Extract.Cursor.{new_cursor, position}
use scholight.Extract.Cache.{prune, Entry, Cache, PageSlice, new, put_private, read}
use scholight.Extract.Cache.Accounting.{Unique, stored_size, Counted}
use scholight.Extract.Cache.System.{put, Reach, here, next, cache_limited}
use scholight.Extract.Cache.Serving.{Serves, read-Serves}

abbrev signed : Text → Text
signed s = codes "Zm9v=="

-- A size that counts the characters of the content.
abbrev measured : Text → Entry Unit → ℕ
measured token entry = length entry.content

abbrev first_id : Text
first_id = replicate 32 b'x'

abbrev empty_cache : Cache Unit
empty_cache = new 10 600 8

-- `hello world` of actor `ann`, put at time 5.
abbrev one_document : Cache Unit
one_document =
    (put_private signed measured 5 5 5 first_id (codes "ann") (codes "u") (codes "hello world") tt
      empty_cache).1

abbrev hello_page : Option (PageSlice Unit)
hello_page = (read signed 6 (new_cursor signed first_id 0) (codes "ann") (pos 5) one_document).0

hello_read :
    hello_page
    ≡ some (record {
      content = codes "hello";
      next_cursor = some (new_cursor signed first_id 5);
      metadata = tt;
    })
unfolding read put_private new new_cursor position ◌+ℤ◌
hello_read = refl

expired_read :
    (read signed 15 (new_cursor signed first_id 0) (codes "ann") (pos 5) one_document).0 ≡ none
unfolding read put_private new new_cursor position ◌+ℤ◌
expired_read = refl

one_document-Reach : Reach signed measured empty_cache one_document
unfolding new prune
one_document-Reach =
    next here
      (put empty_cache 5 5 5 first_id (codes "ann") (codes "u") (codes "hello world") tt refl)

one_document-Counted : Counted one_document
unfolding put_private new ◌+ℤ◌
one_document-Counted = record { counted = refl; unique = (refl, tt) }

cache_limited_example :
    (one_document.bytes ≡ pos (stored_size one_document.entries))
    × (stored_size one_document.entries ≤ one_document.max_bytes)
    × (length one_document.entries ≤ one_document.max_entries)
    × Unique one_document.entries
cache_limited_example = cache_limited signed measured 10 600 8 one_document-Reach

abbrev world_page : PageSlice Unit
world_page = record { content = codes "world"; next_cursor = none; metadata = tt }

read-Serves_example :
    Serves signed 6 (new_cursor signed first_id 6) (codes "ann") (pos 50) one_document world_page
unfolding read put_private new new_cursor position ◌+ℤ◌
read-Serves_example =
    read-Serves signed 6 (new_cursor signed first_id 6) (codes "ann") (pos 50) one_document
      one_document world_page one_document-Counted refl
