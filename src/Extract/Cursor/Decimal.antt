-- ===== src/Extract/Cursor/Decimal.antt =====
-- Printing a number and reading it back.
use scholight.Prelude.{
  ℕ, zero, suc, ◌+◌, ◌*◌, ◌/◌, ◌%◌, ◌≡◌, ◌≤◌, ◌<◌, refl, ◌∙◌, ap, true, ◌&&◌, [], ◌∷◌, length, all,
  ltb, leb, arith, Bool-cases, inl, inr, All,
}
use scholight.Prelude.Text.{Text}
use scholight.Extract.Cursor.{decimal_from, decimal, int_from, is_decimal}

-- A character that is a digit.
abbrev pub Digit : ℕ → Type 0
Digit c = (b'0' ≤ c) × (c ≤ b'9')

div_smaller : (n fuel : ℕ) → n ≤ suc fuel → 10 ≤ n → n / 10 ≤ fuel
div_smaller n fuel enough more = omega arith

int_from-decimal_from :
    (fuel n : ℕ) (acc : Text) → n ≤ fuel → int_from 0 (decimal_from fuel n acc) ≡ int_from n acc
unfolding decimal_from
int_from-decimal_from zero n acc enough = ap (λ k. int_from k acc) (omega arith)
int_from-decimal_from (suc fuel) n acc enough = elim (Bool-cases (ltb n 10)) [
  | inl small ↦ rw small (ap (λ k. int_from k acc) (omega arith))
  | inr more ↦ rw more (
      int_from-decimal_from fuel (n / 10) ((b'0' + n % 10) ∷ acc)
        (div_smaller n fuel enough (ground arith))
      ∙ ap (λ k. int_from k acc) (omega arith))
]

pub int_from-decimal : (n : ℕ) → int_from 0 (decimal n) ≡ n
unfolding decimal
int_from-decimal n = int_from-decimal_from n n [] (omega arith)

decimal_from-Digit :
    (fuel n : ℕ) (acc : Text) → n ≤ fuel → All Digit acc → All Digit (decimal_from fuel n acc)
unfolding decimal_from
decimal_from-Digit zero n acc enough h = ((omega arith, omega arith), h)
decimal_from-Digit (suc fuel) n acc enough h = elim (Bool-cases (ltb n 10)) [
  | inl small ↦ rw small ((omega arith, ground arith), h)
  | inr more ↦ rw more (
      decimal_from-Digit fuel (n / 10) ((b'0' + n % 10) ∷ acc)
        (div_smaller n fuel enough (ground arith)) ((omega arith, omega arith), h))
]

pub decimal-Digit : (n : ℕ) → All Digit (decimal n)
unfolding decimal
decimal-Digit n = decimal_from-Digit n n [] (omega arith) tt

abbrev pub ten_to : ℕ → ℕ
ten_to zero = 1
ten_to (suc k) = 10 * ten_to k

length-decimal_from :
    (k fuel n : ℕ) (acc : Text)
    → n < ten_to (suc k)
    → n ≤ fuel
    → (length (decimal_from fuel n acc) ≤ suc k + length acc)
      × (0 < length (decimal_from fuel n acc))
unfolding decimal_from
length-decimal_from k zero n acc small enough = (omega arith, omega arith)
length-decimal_from zero (suc fuel) n acc small enough =
    let one : ltb n 10 ≡ true = ground arith in rw one (omega arith, omega arith)
length-decimal_from (suc k) (suc fuel) n acc small enough = elim (Bool-cases (ltb n 10)) [
  | inl one ↦ rw one (omega arith, omega arith)
  | inr more ↦ rw more (
      let below : n / 10 < ten_to (suc k) = omega arith in
      let (few, some_digits) =
        length-decimal_from k fuel (n / 10) ((b'0' + n % 10) ∷ acc) below
          (div_smaller n fuel enough (ground arith)) in
      (omega arith, some_digits))
]

-- A number below 10 ^ (k + 1) has at most k + 1 digits, and at least one.
pub length-decimal :
    (k n : ℕ) → n < ten_to (suc k) → (length (decimal n) ≤ suc k) × (0 < length (decimal n))
unfolding decimal
length-decimal k n small =
    let (few, some_digits) = length-decimal_from k n n [] small (omega arith) in
    (omega arith, some_digits)

all-digits : (s : Text) → All Digit s → all (λ d. leb b'0' d && leb d b'9') s ≡ true
all-digits [] h = refl
all-digits (c ∷ s) h = ground (arith, all-digits s h.1)

pub is_decimal-digits : (s : Text) → 0 < length s → All Digit s → is_decimal s ≡ true
is_decimal-digits [] some_digits h = absurd (omega arith)
is_decimal-digits (c ∷ s) some_digits h = all-digits (c ∷ s) h
