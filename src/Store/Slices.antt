-- ===== src/Store/Slices.antt =====
-- `batched` of scholight/store/client.py, and the list slices that the sharding of
-- scholight/store/concurrent.py takes: `items[i : i + size] for i in range(0, len(items), size)`.
pub mod Laws
pub mod Full
use scholight.Prelude.{
  ℕ, zero, suc, ◌+◌, ◌-◌, ◌≤◌, ◌<◌, List, [], ◌∷◌, map, take, drop, length, ltb, if◌then◌else◌,
}

-- `range(start, stop, step)`, with fuel: `stop` is enough of it, for a positive step.
unfoldable pub range_from : ℕ → ℕ → ℕ → ℕ → List ℕ
range_from zero start stop step = []
range_from (suc fuel) start stop step =
    if ltb start stop then start ∷ range_from fuel (start + step) stop step else []

-- `items[i : j]` for `0 <= i`
abbrev pub slice {ℓ} : {A : Type ℓ} → ℕ → ℕ → List A → List A
slice i j xs = take (j - i) (drop i xs)

unfoldable pub slices {ℓ} : {A : Type ℓ} → ℕ → List A → List (List A)
slices size xs = map (λ i. slice i (i + size) xs) (range_from (length xs) 0 (length xs) size)

-- `batched`, of the default size.
unfoldable pub batched {ℓ} : {A : Type ℓ} → List A → List (List A)
unfolding slices
batched xs = slices 1000 xs
