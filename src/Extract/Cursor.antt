-- ===== src/Extract/Cursor.antt =====
-- The cursors of scholight/web_extract/cache.py: `_new_cursor` and `_position`. The signature of a
-- payload, the text of `urlsafe_b64encode(hmac.digest(key, payload, sha256))`, is a parameter.
pub mod Decimal
pub mod Texts
pub mod Laws
mod Tests
use scholight.Prelude.{
  ℕ, zero, suc, ◌+◌, ◌*◌, ◌-◌, ◌/◌, ◌%◌, Bool, true, false, not, ◌&&◌, ◌||◌, Option, none, some,
  List, [], ◌∷◌, ◌++◌, length, all, ltb, leb, ◌==◌, if◌then◌else◌,
}
use scholight.Prelude.Text.{Text, text_eq}

-- `str(n)`, with a round per digit and before the digits `acc`; `n` rounds are enough.
unfoldable pub decimal_from : ℕ → ℕ → Text → Text
decimal_from zero n acc = (b'0' + n) ∷ acc
decimal_from (suc fuel) n acc =
    let rest = decimal_from fuel (n / 10) ((b'0' + n % 10) ∷ acc) in
    if ltb n 10 then (b'0' + n) ∷ acc else rest

unfoldable pub decimal : ℕ → Text
unfolding decimal_from
decimal n = decimal_from n n []

-- `int(s)` of decimal digits
abbrev pub int_from : ℕ → Text → ℕ
int_from n [] = n
int_from n (c ∷ s) = int_from (n * 10 + (c - b'0')) s

-- `s.isdecimal()` of an ASCII text
abbrev pub is_decimal : Text → Bool
is_decimal [] = false
is_decimal (c ∷ s) = all (λ d. leb b'0' d && leb d b'9') (c ∷ s)

abbrev pub is_ascii : Text → Bool
is_ascii s = all (λ c. ltb c 128) s

abbrev pub push_char : ℕ → List Text → List Text
push_char c [] = (c ∷ []) ∷ []
push_char c (p ∷ ps) = (c ∷ p) ∷ ps

-- `s.split(sep)`, of one character
abbrev pub split_on : ℕ → Text → List Text
split_on sep [] = [] ∷ []
split_on sep (c ∷ s) = if c == sep then [] ∷ split_on sep s else push_char c (split_on sep s)

-- `c`, before what is left of the text behind it.
abbrev pub keep_char : ℕ → ℕ → Text → Text
keep_char d c [] = if c == d then [] else c ∷ []
keep_char d c (e ∷ s) = c ∷ e ∷ s

-- `s.rstrip(d)`
abbrev pub strip_right : ℕ → Text → Text
strip_right d [] = []
strip_right d (c ∷ s) = keep_char d c (strip_right d s)

module _ (sign : Text → Text) where
  -- `_new_cursor`
  unfoldable pub new_cursor : Text → ℕ → Text
  unfolding decimal
  new_cursor entry_id offset =
      let payload = entry_id ++ b'.' ∷ decimal offset in
      payload ++ b'.' ∷ strip_right b'=' (sign payload)

  unfoldable pub position_of : Text → List Text → Option (Text × ℕ)
  unfolding new_cursor
  position_of cursor (entry_id ∷ offset ∷ signature ∷ []) =
      if not (length entry_id == 32) || not (is_decimal offset) || ltb 20 (length offset)
      then none
      else (let found = int_from 0 offset in
          if text_eq cursor (new_cursor entry_id found) then some (entry_id, found) else none)
  position_of cursor parts = none

  -- `_position`
  unfoldable pub position : Text → Option (Text × ℕ)
  unfolding position_of
  position cursor =
      if ltb 128 (length cursor) || not (is_ascii cursor)
      then none
      else position_of cursor (split_on b'.' cursor)
