-- ===== src/Prelude/Rows.antt =====
-- Tables as lists of rows. A row is updated and deleted by its primary key, so that the first row
-- with the key is the row.
use Prim.Native.Nat.{ℕ, ◌+◌}
use mathlib.Core.Path.{◌≡◌, sym, subst}
use mathlib.Core.Bool.{Bool, true}
use mathlib.Core.Option.{Option, none, some}
use mathlib.Core.List.{List, [], ◌∷◌}
use mathlib.Core.Logic.{inl, inr}
use native.Mathlib.Omega.{arith}
use scholight.Prelude.Tests.{if◌then◌else◌, Bool-cases}
use scholight.Prelude.Lists.{total, All}

module _ {ℓ} {A : Type ℓ} where
  -- `SELECT * ... WHERE p`, one row
  abbrev pub find_row : (A → Bool) → List A → Option A
  find_row p [] = none
  find_row p (x ∷ xs) = if p x then some x else find_row p xs

  -- `SELECT * ... WHERE p`
  abbrev pub rows_where : (A → Bool) → List A → List A
  rows_where p [] = []
  rows_where p (x ∷ xs) = if p x then x ∷ rows_where p xs else rows_where p xs

  -- `UPDATE ... SET f WHERE p`, of a key
  abbrev pub update_row : (A → Bool) → (A → A) → List A → List A
  update_row p f [] = []
  update_row p f (x ∷ xs) = if p x then f x ∷ xs else x ∷ update_row p f xs

  -- `UPDATE ... SET f WHERE p`
  abbrev pub update_rows : (A → Bool) → (A → A) → List A → List A
  update_rows p f [] = []
  update_rows p f (x ∷ xs) = (if p x then f x else x) ∷ update_rows p f xs

  -- `DELETE ... WHERE p`, of a key
  abbrev pub delete_row : (A → Bool) → List A → List A
  delete_row p [] = []
  delete_row p (x ∷ xs) = if p x then xs else x ∷ delete_row p xs

  -- `DELETE ... WHERE p`
  abbrev pub delete_rows : (A → Bool) → List A → List A
  delete_rows p [] = []
  delete_rows p (x ∷ xs) = if p x then delete_rows p xs else x ∷ delete_rows p xs

  pub find_row-holds : (p : A → Bool) (xs : List A) {x : A} → find_row p xs ≡ some x → p x ≡ true
  find_row-holds p [] h = cc
  find_row-holds p (y ∷ xs) {x} h = elim (Bool-cases (p y)) [
    | inl hit ↦ let e : some y ≡ some x = ground arith in let f : y ≡ x = cc in rw f at hit
    | inr miss ↦ find_row-holds p xs (simp miss at h)
  ]

  pub total-update_row :
      (w : A → ℕ) (p : A → Bool) (f : A → A) (xs : List A) {x : A}
      → find_row p xs ≡ some x
      → total w (update_row p f xs) + w x ≡ total w xs + w (f x)
  total-update_row w p f [] h = cc
  total-update_row w p f (y ∷ xs) {x} h = elim (Bool-cases (p y)) [
    | inl hit ↦
        let e : some y ≡ some x = ground arith in let f : y ≡ x = cc in rw (hit, f) (omega arith)
    | inr miss ↦
        let rest = total-update_row w p f xs (simp miss at h) in rw miss (omega (arith, rest))
  ]

  pub total-delete_row :
      (w : A → ℕ) (p : A → Bool) (xs : List A) {x : A}
      → find_row p xs ≡ some x
      → total w (delete_row p xs) + w x ≡ total w xs
  total-delete_row w p [] h = cc
  total-delete_row w p (y ∷ xs) {x} h = elim (Bool-cases (p y)) [
    | inl hit ↦
        let e : some y ≡ some x = ground arith in let f : y ≡ x = cc in rw (hit, f) (omega arith)
    | inr miss ↦
        let rest = total-delete_row w p xs (simp miss at h) in rw miss (omega (arith, rest))
  ]

module _ {ℓ} {A : Type ℓ} where
  abbrev pub insert_by : (A → A → Bool) → A → List A → List A
  insert_by before x [] = x ∷ []
  insert_by before x (y ∷ ys) = if before y x then y ∷ insert_by before x ys else x ∷ y ∷ ys

  -- `ORDER BY`, where `before y x` says that y comes first
  abbrev pub order_by : (A → A → Bool) → List A → List A
  order_by before [] = []
  order_by before (x ∷ xs) = insert_by before x (order_by before xs)

module _ {ℓ κ} {A : Type ℓ} (P : A → Type κ) where
  pub All-find_row : (p : A → Bool) (xs : List A) {x : A} → All P xs → find_row p xs ≡ some x → P x
  All-find_row p [] h e = cc
  All-find_row p (y ∷ xs) {x} h e = elim (Bool-cases (p y)) [
    | inl hit ↦ let f : some y ≡ some x = ground arith in let g : y ≡ x = cc in rw (sym g) h.0
    | inr miss ↦ All-find_row p xs h.1 (simp miss at e)
  ]

  pub All-update_row :
      (p : A → Bool) (f : A → A) (xs : List A) {x : A}
      → All P xs
      → find_row p xs ≡ some x
      → P (f x)
      → All P (update_row p f xs)
  All-update_row p f [] h e k = cc
  All-update_row p f (y ∷ xs) {x} h e k = elim (Bool-cases (p y)) [
    | inl hit ↦
        let g : some y ≡ some x = ground arith in
        let i : x ≡ y = cc in rw hit (subst (λ z. P (f z)) i k, h.1)
    | inr miss ↦ rw miss (h.0, All-update_row p f xs h.1 (simp miss at e) k)
  ]

  pub All-delete_row : (p : A → Bool) (xs : List A) → All P xs → All P (delete_row p xs)
  All-delete_row p [] h = tt
  All-delete_row p (y ∷ xs) h = elim (Bool-cases (p y)) [
    | inl hit ↦ rw hit h.1
    | inr miss ↦ rw miss (h.0, All-delete_row p xs h.1)
  ]
