-- ===== src/Extract/Cursor/Laws.antt =====
-- What `_position` accepts: exactly the cursors that `_new_cursor` makes.
use scholight.Prelude.{
  ℕ, ◌≡◌, ◌≤◌, ◌<◌, refl, ◌∙◌, ap, Bool, true, false, not, ◌||◌, Option, none, some, List, [], ◌∷◌,
  ◌++◌, length, ltb, ◌==◌, if◌then◌else◌, arith, Bool-cases, inl, inr, contains, length-append,
  append_assoc,
}
use scholight.Prelude.Text.{Text, text_eq}
use scholight.Extract.Cursor.{
  decimal, int_from, is_decimal, is_ascii, split_on, strip_right, new_cursor, position, position_of,
}
use scholight.Extract.Cursor.Decimal.{
  ten_to, int_from-decimal, decimal-Digit, length-decimal, is_decimal-digits,
}
use scholight.Extract.Cursor.Texts.{
  split_on-none, split_on-append, is_ascii-append, is_ascii-digits, contains-digits,
  strip_right-prefix, contains-prefix, is_ascii-prefix,
}
use scholight.Prelude.TextEquality.{text_eq_refl, eq_of_text_eq}

-- What is relied on of the signature of a payload: base64url text of a SHA-256 digest.
pub record Base64 (sign : Text → Text) : Type 0 where
  pub short : (s : Text) → length (sign s) ≤ 44
  pub ascii : (s : Text) → is_ascii (sign s) ≡ true
  pub no_dot : (s : Text) → contains b'.' (sign s) ≡ false

checked_cursor :
    (cursor made a entry_id : Text) (found offset : ℕ) (refused : Bool)
    → (let given : Option (Text × ℕ) = some (a, found) in
        (if refused then none else (if text_eq cursor made then given else none))
        ≡ some (entry_id, offset))
    → (cursor ≡ made) × (a ≡ entry_id) × (found ≡ offset)
checked_cursor cursor made a entry_id found offset true h = cc
checked_cursor cursor made a entry_id found offset false h =
    elim (Bool-cases (text_eq cursor made)) [
      | inl same ↦
          let given : Option (Text × ℕ) = some (a, found) in
          let e : given ≡ some (entry_id, offset) = ground arith in
          (eq_of_text_eq cursor made same, cc, cc)
      | inr other ↦ absurd (ground arith)
    ]

module _ (sign : Text → Text) where
  position_of_sound :
      (cursor entry_id : Text) (offset : ℕ) (parts : List Text)
      → position_of sign cursor parts ≡ some (entry_id, offset)
      → cursor ≡ new_cursor sign entry_id offset
  unfolding position_of
  position_of_sound cursor entry_id offset [] h = cc
  position_of_sound cursor entry_id offset (a ∷ []) h = cc
  position_of_sound cursor entry_id offset (a ∷ b ∷ []) h = cc
  position_of_sound cursor entry_id offset (a ∷ b ∷ c ∷ []) h =
      let (made, e, f) =
        checked_cursor cursor (new_cursor sign a (int_from 0 b)) a entry_id (int_from 0 b) offset _
          h in
      made ∙ ap (λ t. new_cursor sign t (int_from 0 b)) e ∙ ap (new_cursor sign entry_id) f
  position_of_sound cursor entry_id offset (a ∷ b ∷ c ∷ d ∷ rest) h = cc

  -- An accepted cursor is the one that was made for its entry and offset: no other spelling of
  -- either, and no other signature, is accepted.
  pub position_sound :
      (cursor entry_id : Text) (offset : ℕ)
      → position sign cursor ≡ some (entry_id, offset)
      → cursor ≡ new_cursor sign entry_id offset
  unfolding position
  position_sound cursor entry_id offset h =
      elim (Bool-cases (ltb 128 (length cursor) || not (is_ascii cursor))) [
        | inl refused ↦ absurd (ground arith)
        | inr fine ↦ position_of_sound cursor entry_id offset (split_on b'.' cursor) (ground arith)
      ]

  position_of-made :
      (entry_id sig : Text) (offset : ℕ)
      → length entry_id ≡ 32
      → offset < ten_to 20
      → position_of sign (new_cursor sign entry_id offset) (entry_id ∷ decimal offset ∷ sig ∷ [])
        ≡ some (entry_id, offset)
  unfolding position_of
  position_of-made entry_id sig offset long small =
      let back : int_from 0 (decimal offset) ≡ offset = int_from-decimal offset in
      let (few, some_digits) = length-decimal 19 offset small in
      let digits : is_decimal (decimal offset) ≡ true =
        is_decimal-digits (decimal offset) some_digits (decimal-Digit offset) in
      let is_long : (length entry_id == 32) ≡ true = ground arith in
      let is_short : ltb 20 (length (decimal offset)) ≡ false = ground arith in
      let same : text_eq (new_cursor sign entry_id offset) (new_cursor sign entry_id offset)
          ≡ true =
        text_eq_refl (new_cursor sign entry_id offset) in
      rw (back, digits, is_long, is_short, same) refl

  -- The parts of a cursor.
  record Parts (entry_id : Text) (offset : ℕ) : Type 0 where
    sig : Text
    short : length sig ≤ 44
    plain : is_ascii sig ≡ true
    no_dot : contains b'.' sig ≡ false
    made : new_cursor sign entry_id offset ≡ entry_id ++ (b'.' ∷ (decimal offset ++ (b'.' ∷ sig)))

  module _ (base64 : Base64 sign) where
    parts : (entry_id : Text) (offset : ℕ) → Parts entry_id offset
    unfolding new_cursor
    parts entry_id offset =
        let payload = entry_id ++ b'.' ∷ decimal offset in
        let (rest, e) = strip_right-prefix b'=' (sign payload) in
        let sig : Text = strip_right b'=' (sign payload) in
        record {
          sig = sig;
          short = omega (arith, length-append sig rest, ap length e, base64.short payload);
          plain = is_ascii-prefix sig rest (ap is_ascii e ∙ base64.ascii payload);
          no_dot = contains-prefix sig rest (ap (contains b'.') e ∙ base64.no_dot payload);
          made = append_assoc entry_id (b'.' ∷ decimal offset) (b'.' ∷ sig);
        }

    -- A cursor made for an entry and an offset leads back to both.
    pub position-new_cursor :
        (entry_id : Text) (offset : ℕ)
        → length entry_id ≡ 32
        → is_ascii entry_id ≡ true
        → contains b'.' entry_id ≡ false
        → offset < ten_to 20
        → position sign (new_cursor sign entry_id offset) ≡ some (entry_id, offset)
    unfolding position
    position-new_cursor entry_id offset long plain clean small =
        let p = parts entry_id offset in
        let tail : Text = decimal offset ++ (b'.' ∷ p.sig) in
        let clean_digits : contains b'.' (decimal offset) ≡ false =
          contains-digits (decimal offset) (decimal-Digit offset) in
        let cuts : split_on b'.' (new_cursor sign entry_id offset)
            ≡ entry_id ∷ decimal offset ∷ p.sig ∷ [] =
          ap (split_on b'.') p.made
          ∙ split_on-append b'.' entry_id tail clean
          ∙ ap (λ t. entry_id ∷ t) (split_on-append b'.' (decimal offset) p.sig clean_digits)
          ∙ ap (λ t. entry_id ∷ decimal offset ∷ t) (split_on-none b'.' p.sig p.no_dot) in
        let size : length (new_cursor sign entry_id offset) ≤ 98 = omega (
          arith,
          ap length p.made,
          length-append entry_id (b'.' ∷ tail),
          length-append (decimal offset) (b'.' ∷ p.sig),
          (length-decimal 19 offset small).0,
          p.short,
        ) in
        let all_ascii : is_ascii (new_cursor sign entry_id offset) ≡ true =
          ap is_ascii p.made
          ∙ is_ascii-append entry_id (b'.' ∷ tail) plain (
              is_ascii-append (decimal offset) (b'.' ∷ p.sig)
                (is_ascii-digits (decimal offset) (decimal-Digit offset)) p.plain) in
        let fits : ltb 128 (length (new_cursor sign entry_id offset)) ≡ false = ground arith in
        rw (fits, all_ascii, cuts) (position_of-made entry_id p.sig offset long small)
