-- ===== src/Pipeline/Chunker/Loop.antt =====
-- When the loop of `_split_character` ends, and what it returns.
use scholight.Prelude.{
  ℕ, zero, suc, ◌+◌, ◌-◌, ◌*◌, ◌≡◌, ◌≤◌, ◌<◌, refl, sym, ◌∙◌, ap, true, false, none, some, List, [],
  ◌∷◌, ◌++◌, map, length, ltb, min, arith, length-append, Bool-cases, inl, inr, append_assoc,
  append-nil, All, take, drop, length-drop,
}
use scholight.Prelude.Text.{Text}
use scholight.Store.Slices.{slice, slices, range_from}
use scholight.Store.Slices.Laws.{take-all}
use scholight.Pipeline.Chunker.{blank, split_from, split_character}

-- The k-th slice of a text.
abbrev piece : ℕ → Text → ℕ → Text
piece size t k = slice (k * size) (k * size + size) t

take-min : (n m : ℕ) (xs : Text) → length xs ≤ m → take (min n m) xs ≡ take n xs
take-min n m xs h = elim (Bool-cases (ltb m n)) [
  | inl cut ↦
      let e : min n m ≡ m = ground arith in
      ap (λ k. take k xs) e ∙ take-all m xs h ∙ sym (take-all n xs (ground arith))
  | inr whole ↦ let e : min n m ≡ n = ground arith in ap (λ k. take k xs) e
]

-- The code cuts at the end of the text itself.
cut-piece :
    (start size : ℕ) (t : Text)
    → slice start (min (start + size) (length t)) t ≡ slice start (start + size) t
cut-piece start size t =
    let e : min (start + size) (length t) - start ≡ min size (length t - start) = omega arith in
    let f : start + size - start ≡ size = omega arith in
    ap (λ k. take k (drop start t)) e
    ∙ take-min size (length t - start) (drop start t) (omega (arith, length-drop start t))
    ∙ ap (λ k. take k (drop start t)) (sym f)

-- A text with a blank slice hangs the loop: once the chunks before the blank slice are found, no
-- number of rounds ends it.
stuck :
    (fuel size : ℕ) (t : Text) (chunks : List Text)
    → length chunks * size < length t
    → blank (piece size t (length chunks)) ≡ true
    → split_from fuel size t chunks ≡ none
unfolding split_from
stuck zero size t chunks more empty = refl
stuck (suc fuel) size t chunks more empty =
    ground (arith, cut-piece (length chunks * size) size t, stuck fuel size t chunks more empty)

split_from-over :
    (fuel size : ℕ) (t : Text) (chunks : List Text)
    → length t ≤ length chunks * size
    → split_from (suc fuel) size t chunks ≡ some chunks
unfolding split_from
split_from-over fuel size t chunks over = ground arith

split_from-more :
    (fuel size : ℕ) (t : Text) (chunks : List Text)
    → length chunks * size < length t
    → blank (piece size t (length chunks)) ≡ false
    → split_from (suc fuel) size t chunks
      ≡ split_from fuel size t (chunks ++ piece size t (length chunks) ∷ [])
unfolding split_from
split_from-more fuel size t chunks more solid =
    ground (arith, cut-piece (length chunks * size) size t)

range_from-over : (fuel start stop size : ℕ) → stop ≤ start → range_from fuel start stop size ≡ []
unfolding range_from
range_from-over zero start stop size over = refl
range_from-over (suc fuel) start stop size over = ground arith

range_from-next :
    (fuel start stop size : ℕ)
    → start < stop
    → range_from (suc fuel) start stop size ≡ start ∷ range_from fuel (start + size) stop size
unfolding range_from
range_from-next fuel start stop size more = ground arith

-- The slices of a text at the starts `start`, `start + size`, ...
abbrev cuts : ℕ → ℕ → ℕ → Text → List Text
cuts fuel start size t = map (λ i. slice i (i + size) t) (range_from fuel start (length t) size)

cuts-over : (fuel start size : ℕ) (t : Text) → length t ≤ start → cuts fuel start size t ≡ []
cuts-over fuel start size t over =
    ap (map (λ i. slice i (i + size) t)) (range_from-over fuel start (length t) size over)

cuts-next :
    (fuel start size : ℕ) (t : Text)
    → start < length t
    → cuts (suc fuel) start size t ≡ slice start (start + size) t ∷ cuts fuel (start + size) size t
cuts-next fuel start size t more =
    ap (map (λ i. slice i (i + size) t)) (range_from-next fuel start (length t) size more)

next_start :
    (start size : ℕ) (chunks : List Text) (c : Text)
    → length chunks * size ≡ start
    → length (chunks ++ c ∷ []) * size ≡ start + size
next_start start size chunks c at =
    let e : length (chunks ++ c ∷ []) ≡ length chunks + 1 = length-append chunks (c ∷ []) in
    rw e (omega arith)

split_from-zero : (size : ℕ) (t : Text) (chunks : List Text) → split_from zero size t chunks ≡ none
unfolding split_from
split_from-zero size t chunks = refl

-- As long as no slice is blank the loop goes on over the starts that `range` would list.
split_from-range :
    (fuel start size : ℕ) (t : Text) (chunks : List Text)
    → 0 < size
    → length chunks * size ≡ start
    → length t ≤ start + fuel
    → All (λ c. blank c ≡ false) (cuts fuel start size t)
    → split_from (suc fuel) size t chunks ≡ some (chunks ++ cuts fuel start size t)
split_from-range zero start size t chunks pos at enough solid =
    split_from-over 0 size t chunks (omega arith)
    ∙ ap some (sym (append-nil chunks))
    ∙ ap (λ r. some (chunks ++ r)) (sym (cuts-over 0 start size t (omega arith)))
split_from-range (suc fuel) start size t chunks pos at enough solid =
    elim (Bool-cases (ltb start (length t))) [
      | inr over ↦
          split_from-over (suc fuel) size t chunks (ground arith)
          ∙ ap some (sym (append-nil chunks))
          ∙ ap (λ r. some (chunks ++ r)) (sym (cuts-over (suc fuel) start size t (ground arith)))
      | inl more ↦
          let c = slice start (start + size) t in
          let e : piece size t (length chunks) ≡ c = ap (λ k. slice k (k + size) t) at in
          let lt : start < length t = ground arith in
          let (first, others) = simp (cuts-next fuel start size t lt) at solid in
          let next : chunks ++ cuts (suc fuel) start size t
              ≡ (chunks ++ c ∷ []) ++ cuts fuel (start + size) size t =
            ap (λ r. chunks ++ r) (cuts-next fuel start size t lt)
            ∙ sym (append_assoc chunks (c ∷ []) (cuts fuel (start + size) size t)) in
          split_from-more (suc fuel) size t chunks (ground arith) (ap blank e ∙ first)
          ∙ ap (λ c. split_from (suc fuel) size t (chunks ++ c ∷ [])) e
          ∙ split_from-range fuel (start + size) size t (chunks ++ c ∷ []) pos
              (next_start start size chunks c at) (omega arith) others
          ∙ ap some (sym next)
    ]

-- A text none of whose slices of the chunk size is blank is cut into those slices.
pub split_character-slices :
    (size : ℕ) (t : Text)
    → 0 < size
    → All (λ c. blank c ≡ false) (slices size t)
    → split_character size t ≡ some (slices size t)
unfolding split_character slices
split_character-slices size t pos solid =
    split_from-range (length t) 0 size t [] pos (omega arith) (omega arith) solid

earlier_inside : (i d size n : ℕ) → (i + d) * size < n → i * size < n
earlier_inside i d size n more = omega arith

-- A loop that has not passed slice k, which is blank, never passes it.
hangs_before :
    (fuel left k size : ℕ) (t : Text) (chunks : List Text)
    → left + length chunks ≡ k
    → k * size < length t
    → blank (piece size t k) ≡ true
    → split_from fuel size t chunks ≡ none
hangs_before zero left k size t chunks e more empty = split_from-zero size t chunks
hangs_before (suc fuel) zero k size t chunks e more empty =
    let at : k ≡ length chunks = omega arith in
    stuck (suc fuel) size t chunks (rw (sym at) more) (rw (sym at) empty)
hangs_before (suc fuel) (suc left) k size t chunks e more empty =
    let at : k ≡ length chunks + suc left = omega arith in
    let inside : length chunks * size < length t =
      earlier_inside (length chunks) (suc left) size (length t) (rw (sym at) more) in
    elim (Bool-cases (blank (piece size t (length chunks)))) [
      | inl here ↦ stuck (suc fuel) size t chunks inside here
      | inr solid ↦
          split_from-more fuel size t chunks inside solid
          ∙ hangs_before fuel left k size t (chunks ++ piece size t (length chunks) ∷ [])
              (omega (arith, length-append chunks (piece size t (length chunks) ∷ []))) more empty
    ]

-- A text with a blank slice is never cut: whatever the number of rounds, the loop is still running.
pub split_from-blank :
    (fuel k size : ℕ) (t : Text)
    → k * size < length t
    → blank (slice (k * size) (k * size + size) t) ≡ true
    → split_from fuel size t [] ≡ none
split_from-blank fuel k size t more empty = hangs_before fuel k k size t [] (omega arith) more empty
