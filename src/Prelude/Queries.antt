-- ===== src/Prelude/Queries.antt =====
-- What a query returns: its rows are rows of the table, and with unique keys each is found again.
use Prim.Native.Nat.{ℕ, zero, suc, ◌+◌, ◌≤◌}
use mathlib.Core.Path.{◌≡◌, refl}
use mathlib.Core.Bool.{Bool}
use mathlib.Core.Option.{some}
use mathlib.Core.List.{List, [], ◌∷◌}
use mathlib.Core.Logic.{inl, inr}
use native.Mathlib.Omega.{arith}
use scholight.Prelude.Tests.{Bool-cases, ◌==◌, ==_refl}
use scholight.Prelude.Lists.{All, All-map, length, take}
use scholight.Prelude.Rows.{find_row, rows_where, insert_by, order_by}
use scholight.Prelude.Keys.{row_count, row_count-found}

module _ {ℓ} {A : Type ℓ} where
  -- The length of what a query returns is the number of rows that it counts.
  pub length-rows_where : (p : A → Bool) (xs : List A) → length (rows_where p xs) ≡ row_count p xs
  length-rows_where p [] = refl
  length-rows_where p (x ∷ xs) = elim (Bool-cases (p x)) [
    | inl hit ↦ rw hit (omega (arith, length-rows_where p xs))
    | inr miss ↦ rw miss (omega (arith, length-rows_where p xs))
  ]

module _ {ℓ} {A : Type ℓ} (key : A → ℕ) where
  -- With unique keys every row is the one that its key finds.
  pub keyed-All :
      (xs : List A)
      → ((i : ℕ) → row_count (λ y. key y == i) xs ≤ 1)
      → All (λ x. find_row (λ y. key y == key x) xs ≡ some x) xs
  keyed-All [] keyed = tt
  keyed-All (x ∷ xs) keyed = (
    rw (==_refl (key x)) refl,
    All-map (λ z. find_row (λ y. key y == key z) xs ≡ some z)
        (λ z. find_row (λ y. key y == key z) (x ∷ xs) ≡ some z)
        (λ z found. elim (Bool-cases (key x == key z)) [
          | inr miss ↦ rw miss found
          | inl twice ↦ absurd (
              let two : 1 + row_count (λ y. key y == key z) xs ≤ 1 = rw twice at (keyed (key z)) in
              let one = row_count-found (λ y. key y == key z) xs found in omega (arith, one, two))
        ])
        xs (keyed-All xs (λ i. let all = keyed i in omega (arith, all))),
  )

module _ {ℓ κ} {A : Type ℓ} (P : A → Type κ) where
  pub All-rows_where : (p : A → Bool) (xs : List A) → All P xs → All P (rows_where p xs)
  All-rows_where p [] h = tt
  All-rows_where p (x ∷ xs) h = elim (Bool-cases (p x)) [
    | inl hit ↦ rw hit (h.0, All-rows_where p xs h.1)
    | inr miss ↦ rw miss (All-rows_where p xs h.1)
  ]

  All-insert_by :
      (before : A → A → Bool) (x : A) (ys : List A) → P x → All P ys → All P (insert_by before x ys)
  All-insert_by before x [] h k = (h, tt)
  All-insert_by before x (y ∷ ys) h k = elim (Bool-cases (before y x)) [
    | inl first ↦ rw first (k.0, All-insert_by before x ys h k.1)
    | inr last ↦ rw last (h, k)
  ]

  pub All-order_by : (before : A → A → Bool) (xs : List A) → All P xs → All P (order_by before xs)
  All-order_by before [] h = tt
  All-order_by before (x ∷ xs) h =
      All-insert_by before x (order_by before xs) h.0 (All-order_by before xs h.1)

  pub All-take : (n : ℕ) (xs : List A) → All P xs → All P (take n xs)
  All-take zero xs h = tt
  All-take (suc n) [] h = tt
  All-take (suc n) (x ∷ xs) h = (h.0, All-take n xs h.1)
