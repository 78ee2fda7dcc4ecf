-- ===== src/Store/Slices/Laws.antt =====
-- Slicing a list loses nothing, repeats nothing and keeps the order.
use scholight.Prelude.{
  ℕ, zero, suc, ◌+◌, ◌-◌, ◌*◌, ◌≤◌, ◌<◌, ◌≡◌, refl, sym, ◌∙◌, ap, List, [], ◌∷◌, ◌++◌, map, take,
  drop, length, ltb, arith, Bool-cases, inl, inr, take-append-drop, length-take, length-drop, All,
  min,
}
use scholight.Store.Slices.{range_from, slice, slices}

-- The slices one after another.
abbrev pub join {ℓ} : {A : Type ℓ} → List (List A) → List A
join [] = []
join (xs ∷ xss) = xs ++ join xss

module _ {ℓ} {A : Type ℓ} where
  pub drop-all : (n : ℕ) (xs : List A) → length xs ≤ n → drop n xs ≡ []
  drop-all zero [] h = refl
  drop-all zero (x ∷ xs) h = absurd (omega arith)
  drop-all (suc n) [] h = refl
  drop-all (suc n) (x ∷ xs) h = drop-all n xs (omega arith)

  pub drop-drop : (k m n : ℕ) (xs : List A) → k ≡ m + n → drop k xs ≡ drop n (drop m xs)
  drop-drop k zero n xs e = ap (λ t. drop t xs) (omega arith)
  drop-drop zero (suc m) n xs e = absurd (omega arith)
  drop-drop (suc k) (suc m) zero [] e = refl
  drop-drop (suc k) (suc m) (suc n) [] e = refl
  drop-drop (suc k) (suc m) n (x ∷ xs) e = drop-drop k m n xs (omega arith)

  pub slice-append-drop :
      (i size : ℕ) (xs : List A) → slice i (i + size) xs ++ drop (i + size) xs ≡ drop i xs
  slice-append-drop i size xs =
      let e : i + size - i ≡ size = omega arith in
      rw (e, drop-drop (i + size) i size xs refl) (take-append-drop size (drop i xs))

  join-slices_from :
      (fuel i size : ℕ) (xs : List A)
      → 0 < size
      → length xs ≤ i + fuel
      → join (map (λ k. slice k (k + size) xs) (range_from fuel i (length xs) size)) ≡ drop i xs
  unfolding range_from
  join-slices_from zero i size xs pos enough = sym (drop-all i xs (omega arith))
  join-slices_from (suc fuel) i size xs pos enough = elim (Bool-cases (ltb i (length xs))) [
    | inr over ↦ rw over (sym (drop-all i xs (ground arith)))
    | inl more ↦ rw more (
        ap (λ t. slice i (i + size) xs ++ t)
          (join-slices_from fuel (i + size) size xs pos (omega arith))
        ∙ slice-append-drop i size xs)
  ]

  -- Slices of a positive size, one after another, are the list again.
  pub join-slices : (size : ℕ) (xs : List A) → 0 < size → join (slices size xs) ≡ xs
  unfolding slices
  join-slices size xs pos = join-slices_from (length xs) 0 size xs pos (omega arith)

  pub length-slice :
      (i size : ℕ) (xs : List A) → length (slice i (i + size) xs) ≡ min size (length xs - i)
  length-slice i size xs = omega (arith, length-take (i + size - i) (drop i xs), length-drop i xs)

  slices_from-bounded :
      (fuel i size : ℕ) (xs : List A)
      → 0 < size
      → All
          (λ s. (0 < length s) × (length s ≤ size))
          (map (λ k. slice k (k + size) xs) (range_from fuel i (length xs) size))
  unfolding range_from
  slices_from-bounded zero i size xs pos = tt
  slices_from-bounded (suc fuel) i size xs pos = elim (Bool-cases (ltb i (length xs))) [
    | inr over ↦ rw over tt
    | inl more ↦ rw more (
      (ground (arith, length-slice i size xs), omega (arith, length-slice i size xs)),
      slices_from-bounded fuel (i + size) size xs pos,
    )
  ]

  -- No slice is empty, and none is longer than the size.
  pub slices_bounded :
      (size : ℕ) (xs : List A)
      → 0 < size
      → All (λ s. (0 < length s) × (length s ≤ size)) (slices size xs)
  unfolding slices
  slices_bounded size xs pos = slices_from-bounded (length xs) 0 size xs pos

one_more :
    (k i stop size : ℕ)
    → i < stop
    → (stop ≤ i + size + k * size) × (0 < k → i + size + k * size < stop + size)
    → (stop ≤ i + suc k * size) × (0 < suc k → i + suc k * size < stop + size)
one_more zero i stop size lt (enough, tight) = (omega arith, λ h. omega arith)
one_more (suc k) i stop size lt (enough, tight) =
    (omega arith, λ h. omega (arith, tight (omega arith)))

-- How many numbers a range with a positive step lists.
length-range_from :
    (fuel i stop size : ℕ)
    → 0 < size
    → stop ≤ i + fuel
    → (stop ≤ i + length (range_from fuel i stop size) * size)
      × (0 < length (range_from fuel i stop size)
          → i + length (range_from fuel i stop size) * size < stop + size)
unfolding range_from
length-range_from zero i stop size pos enough = (omega arith, λ h. omega arith)
length-range_from (suc fuel) i stop size pos enough = elim (Bool-cases (ltb i stop)) [
  | inr over ↦ rw over (ground arith, λ h. omega arith)
  | inl more ↦ rw more (
      one_more (length (range_from fuel (i + size) stop size)) i stop size (ground arith)
        (length-range_from fuel (i + size) stop size pos (omega arith)))
]

length-map {ℓ κ} :
    {A : Type ℓ} {B : Type κ} (f : A → B) (xs : List A) → length (map f xs) ≡ length xs
length-map f [] = refl
length-map f (x ∷ xs) = ap suc (length-map f xs)

-- The number of slices of a list that is not empty is its length divided by the size, rounded up.
pub length-slices {ℓ} :
    {A : Type ℓ} (size : ℕ) (xs : List A)
    → 0 < size
    → 0 < length xs
    → (length xs ≤ length (slices size xs) * size)
      × (length (slices size xs) * size < length xs + size)
unfolding slices
length-slices size xs pos some_items =
    let (enough, tight) = length-range_from (length xs) 0 (length xs) size pos (omega arith) in
    rw length-map (at_least (length (range_from (length xs) 0 (length xs) size)) enough tight)
  where
    at_least :
        (k : ℕ)
        → length xs ≤ 0 + k * size
        → (0 < k → 0 + k * size < length xs + size)
        → (length xs ≤ k * size) × (k * size < length xs + size)
    at_least zero enough tight = absurd (omega arith)
    at_least (suc k) enough tight = (omega arith, omega (arith, tight (omega arith)))

module _ {ℓ} {A : Type ℓ} where
  pub take-all : (n : ℕ) (xs : List A) → length xs ≤ n → take n xs ≡ xs
  take-all zero [] h = refl
  take-all zero (x ∷ xs) h = absurd (omega arith)
  take-all (suc n) [] h = refl
  take-all (suc n) (x ∷ xs) h = ap (λ t. x ∷ t) (take-all n xs (omega arith))
