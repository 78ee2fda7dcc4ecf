-- ===== src/Pipeline/Chunker/Tests.antt =====
-- Runs of the character splitter of scholight/pipeline/chunkers/md_chunker.py.
use scholight.Prelude.{◌≡◌, refl, none, some, [], ◌∷◌, arith}
use scholight.Prelude.Text.{Text}
use scholight.Store.Slices.{slices, range_from}
use scholight.Pipeline.Chunker.{split_from, split_character, blank}
use scholight.Pipeline.Chunker.Loop.{split_character-slices, split_from-blank}

-- `abc`
abbrev letters : Text
letters = 97 ∷ 98 ∷ 99 ∷ []

-- `ab`, two tabs and `c`
abbrev tabbed : Text
tabbed = 97 ∷ 98 ∷ 9 ∷ 9 ∷ 99 ∷ []

letters_split : split_character 2 letters ≡ some ((97 ∷ 98 ∷ []) ∷ (99 ∷ []) ∷ [])
unfolding split_character
letters_split = refl

tabbed_not_split : split_character 2 tabbed ≡ none
unfolding split_character
tabbed_not_split = refl

split_character-slices_example : split_character 2 letters ≡ some (slices 2 letters)
unfolding slices range_from blank
split_character-slices_example = split_character-slices 2 letters (omega arith) (refl, (refl, tt))

split_from-blank_example : split_from 1000 2 tabbed [] ≡ none
unfolding blank
split_from-blank_example = split_from-blank 1000 1 2 tabbed (omega arith) refl
