-- ===== src/Store/Slices/Full.antt =====
-- The slices of a list that fills its first slice and goes on.
use scholight.Prelude.{
  ℕ, zero, suc, ◌+◌, ◌-◌, ◌≤◌, ◌<◌, ◌≡◌, refl, ◌∙◌, ap, List, [], ◌∷◌, ◌++◌, map, take, drop,
  length, arith, length-append,
}
use scholight.Store.Slices.{range_from, slice, slices}
use scholight.Store.Slices.Laws.{take-all}

range_from-two :
    (fuel stop size : ℕ)
    → size < stop
    → stop ≤ size + size
    → range_from (suc (suc fuel)) 0 stop size ≡ 0 ∷ (0 + size) ∷ []
unfolding range_from
range_from-two zero stop size lt le = ground arith
range_from-two (suc fuel) stop size lt le = ground arith

module _ {ℓ} {A : Type ℓ} where
  take-append : (n : ℕ) (xs ys : List A) → length xs ≡ n → take n (xs ++ ys) ≡ xs
  take-append zero [] ys h = refl
  take-append zero (x ∷ xs) ys h = absurd (omega arith)
  take-append (suc n) [] ys h = absurd (omega arith)
  take-append (suc n) (x ∷ xs) ys h = ap (λ t. x ∷ t) (take-append n xs ys (omega arith))

  drop-append : (n : ℕ) (xs ys : List A) → length xs ≡ n → drop n (xs ++ ys) ≡ ys
  drop-append zero [] ys h = refl
  drop-append zero (x ∷ xs) ys h = absurd (omega arith)
  drop-append (suc n) [] ys h = absurd (omega arith)
  drop-append (suc n) (x ∷ xs) ys h = drop-append n xs ys (omega arith)

  -- A list that fills one slice and begins a second.
  pub slices-two :
      (size : ℕ) (xs ys : List A)
      → length xs ≡ size
      → 0 < size
      → 0 < length ys
      → length ys ≤ size
      → slices size (xs ++ ys) ≡ xs ∷ ys ∷ []
  unfolding slices
  slices-two size xs ys ex pos more few =
      let n : ℕ = length (xs ++ ys) in
      let en : n ≡ size + length ys = omega (arith, ex, length-append {ℓ} xs ys) in
      let fuel : n ≡ suc (suc (n - 2)) = omega arith in
      let both : range_from n 0 n size ≡ 0 ∷ (0 + size) ∷ [] =
        ap (λ f. range_from f 0 n size) fuel
        ∙ range_from-two (n - 2) n size (omega arith) (omega arith) in
      let z : 0 + size ≡ size = omega arith in
      let first : 0 + size - 0 ≡ size = omega arith in
      let second : size + size - size ≡ size = omega arith in
      ap (map (λ i. slice i (i + size) (xs ++ ys))) both
      ∙ (rw (
        first,
        z,
        second,
        take-append size xs ys ex,
        drop-append size xs ys ex,
        take-all size ys few,
      ))

range_from-more :
    (fuel stop size : ℕ)
    → size < stop
    → range_from (suc (suc fuel)) 0 stop size
      ≡ 0 ∷ (0 + size) ∷ range_from fuel (0 + size + size) stop size
unfolding range_from
range_from-more fuel stop size lt = ground arith

module _ {ℓ} {A : Type ℓ} where
  -- A list that goes on behind its first slice.
  pub slices_more :
      (size : ℕ) (xs ys : List A)
      → length xs ≡ size
      → 0 < size
      → 0 < length ys
      → (rest : List (List A)) × (slices size (xs ++ ys) ≡ xs ∷ take size ys ∷ rest)
  unfolding slices
  slices_more size xs ys ex pos more =
      let n : ℕ = length (xs ++ ys) in
      let en : n ≡ size + length ys = omega (arith, ex, length-append {ℓ} xs ys) in
      let fuel : n ≡ suc (suc (n - 2)) = omega arith in
      let begins : range_from n 0 n size
          ≡ 0 ∷ (0 + size) ∷ range_from (n - 2) (0 + size + size) n size =
        ap (λ f. range_from f 0 n size) fuel ∙ range_from-more (n - 2) n size (omega arith) in
      let first_slice : slice 0 (0 + size) (xs ++ ys) ≡ xs =
        ap {A = ℕ} (λ k. take k (xs ++ ys)) (omega arith) ∙ take-append size xs ys ex in
      let second_slice : slice (0 + size) (0 + size + size) (xs ++ ys) ≡ take size ys =
        ap {A = ℕ} (λ k. take k (drop (0 + size) (xs ++ ys))) (omega arith)
        ∙ ap {A = ℕ} (λ k. take size (drop k (xs ++ ys))) (omega arith)
        ∙ ap (take size) (drop-append size xs ys ex) in
      (
        map (λ i. slice i (i + size) (xs ++ ys)) (range_from (n - 2) (0 + size + size) n size),
        ap (map (λ i. slice i (i + size) (xs ++ ys))) begins
            ∙ ap
                (λ (s : List A × List A).
                  s.0
                  ∷ s.1
                  ∷ map (λ i. slice i (i + size) (xs ++ ys))
                      (range_from (n - 2) (0 + size + size) n size))
                (λ i. (first_slice i, second_slice i)),
      )
