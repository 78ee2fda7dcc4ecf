-- ===== src/Extract/Cursor/Tests.antt =====
-- Cursors with an empty signature and with one of padding.
use scholight.Prelude.{◌≡◌, refl, some, none, ◌++◌, arith, replicate}
use scholight.Prelude.Text.{Text, codes}
use scholight.Extract.Cursor.{new_cursor, position}
use scholight.Extract.Cursor.Laws.{Base64, position_sound, position-new_cursor}

abbrev signed : Text → Text
signed s = codes "Zm9v=="

signed-Base64 : Base64 signed
signed-Base64 = record { short = λ s. omega arith; ascii = λ s. refl; no_dot = λ s. refl }

abbrev entry_id : Text
entry_id = replicate 32 b'x'

cursor_text : new_cursor signed entry_id 407 ≡ entry_id ++ codes ".407.Zm9v"
unfolding new_cursor
cursor_text = refl

-- Another spelling of the same offset is refused.
zero_padded : position signed (entry_id ++ codes ".0407.Zm9v") ≡ none
unfolding position
zero_padded = refl

position-new_cursor_example :
    position signed (new_cursor signed entry_id 407) ≡ some (entry_id, 407)
position-new_cursor_example =
    position-new_cursor signed signed-Base64 entry_id 407 refl refl refl (omega arith)

position_sound_example : entry_id ++ codes ".407.Zm9v" ≡ new_cursor signed entry_id 407
unfolding position
position_sound_example = position_sound signed (entry_id ++ codes ".407.Zm9v") entry_id 407 refl
