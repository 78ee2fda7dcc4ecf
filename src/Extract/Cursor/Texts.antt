-- ===== src/Extract/Cursor/Texts.antt =====
-- Texts compared, cut at a separator and stripped.
use scholight.Prelude.{
  ℕ, ◌≡◌, refl, ap, true, false, [], ◌∷◌, ◌++◌, ◌==◌, arith, Bool-cases, inl, inr, All, contains,
  contains-append, ==_refl,
}
use scholight.Prelude.Text.{Text}
use scholight.Extract.Cursor.{is_ascii, split_on, strip_right, keep_char}
use scholight.Extract.Cursor.Decimal.{Digit}

pub split_on-none : (sep : ℕ) (s : Text) → contains sep s ≡ false → split_on sep s ≡ s ∷ []
split_on-none sep [] h = refl
split_on-none sep (c ∷ s) h =
    let e : split_on sep s ≡ s ∷ [] = split_on-none sep s (ground arith) in
    let other : (c == sep) ≡ false = ground arith in rw (other, e) refl

pub split_on-append :
    (sep : ℕ) (s rest : Text)
    → contains sep s ≡ false
    → split_on sep (s ++ sep ∷ rest) ≡ s ∷ split_on sep rest
split_on-append sep [] rest h = let same : (sep == sep) ≡ true = ==_refl sep in rw same refl
split_on-append sep (c ∷ s) rest h =
    let e : split_on sep (s ++ sep ∷ rest) ≡ s ∷ split_on sep rest =
      split_on-append sep s rest (ground arith) in
    let other : (c == sep) ≡ false = ground arith in rw (other, e) refl

pub is_ascii-append :
    (s t : Text) → is_ascii s ≡ true → is_ascii t ≡ true → is_ascii (s ++ t) ≡ true
is_ascii-append [] t h k = k
is_ascii-append (c ∷ s) t h k = ground (arith, is_ascii-append s t (ground arith) k)

pub is_ascii-digits : (s : Text) → All Digit s → is_ascii s ≡ true
is_ascii-digits [] h = refl
is_ascii-digits (c ∷ s) h = ground (arith, is_ascii-digits s h.1)

pub contains-digits : (s : Text) → All Digit s → contains b'.' s ≡ false
contains-digits [] h = refl
contains-digits (c ∷ s) h = ground (arith, contains-digits s h.1)

pub keep_char-prefix :
    (d c : ℕ) (kept rest s : Text)
    → kept ++ rest ≡ s
    → (more : Text) × (keep_char d c kept ++ more ≡ c ∷ s)
keep_char-prefix d c [] rest s e = elim (Bool-cases (c == d)) [
  | inl same ↦ (c ∷ s, rw same refl)
  | inr other ↦ (s, rw other refl)
]
keep_char-prefix d c (k ∷ kept) rest s e = (rest, ap (λ t. c ∷ t) e)

-- Stripping keeps a prefix.
pub strip_right-prefix : (d : ℕ) (s : Text) → (rest : Text) × (strip_right d s ++ rest ≡ s)
strip_right-prefix d [] = ([], refl)
strip_right-prefix d (c ∷ s) =
    let (rest, e) = strip_right-prefix d s in keep_char-prefix d c (strip_right d s) rest s e

pub contains-prefix : (s t : Text) → contains b'.' (s ++ t) ≡ false → contains b'.' s ≡ false
contains-prefix s t h = ground (arith, contains-append b'.' s t)

pub is_ascii-prefix : (s t : Text) → is_ascii (s ++ t) ≡ true → is_ascii s ≡ true
is_ascii-prefix [] t h = refl
is_ascii-prefix (c ∷ s) t h = ground (arith, is_ascii-prefix s t (ground arith))
