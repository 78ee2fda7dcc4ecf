-- ===== src/Pipeline/Chunker.antt =====
-- scholight/pipeline/chunkers/md_chunker.py: `_split_character`, the last resort of the chunker.
-- A text is a list of code points.
pub mod Loop
mod Tests
use scholight.Prelude.{
  ℕ, zero, suc, ◌+◌, ◌*◌, Bool, true, false, Option, none, some, List, [], ◌∷◌, ◌++◌, length, ltb,
  if◌then◌else◌, min,
}
use scholight.Prelude.Text.{Text, strip}
use scholight.Store.Slices.{slice}

abbrev pub is_nil {ℓ} : {A : Type ℓ} → List A → Bool
is_nil [] = true
is_nil (_ ∷ _) = false

-- `not chunk.strip()`
unfoldable pub blank : Text → Bool
blank t = is_nil (strip t)

-- The loop of `_split_character`, from the chunks found so far: the next start is read off their
-- number. `none` means that the fuel ran out.
unfoldable pub split_from : ℕ → ℕ → Text → List Text → Option (List Text)
unfolding blank
split_from zero size t chunks = none
split_from (suc fuel) size t chunks =
    let start = length chunks * size in
    let chunk = slice start (min (start + size) (length t)) t in
    let rest = split_from fuel size t (if blank chunk then chunks else chunks ++ chunk ∷ []) in
    if ltb start (length t) then rest else some chunks

-- `_split_character`, with as many rounds as the text has characters and one more.
unfoldable pub split_character : ℕ → Text → Option (List Text)
unfolding split_from
split_character size t = split_from (suc (length t)) size t []
