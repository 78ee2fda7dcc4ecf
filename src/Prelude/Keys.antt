-- ===== src/Prelude/Keys.antt =====
-- Tables by their keys: what an update or a deletion of a row does to a lookup and to a count.
use Prim.Native.Nat.{ℕ, ◌+◌, ◌≤◌}
use mathlib.Core.Path.{◌≡◌, refl, sym, ap, ◌∙◌}
use mathlib.Core.Bool.{Bool, true, false}
use mathlib.Core.Option.{none, some}
use mathlib.Core.List.{List, [], ◌∷◌}
use mathlib.Core.Logic.{inl, inr}
use native.Mathlib.Omega.{arith}
use scholight.Prelude.Tests.{if◌then◌else◌, Bool-cases, ◌==◌, ==_iff}
use scholight.Prelude.Lists.{total}
use scholight.Prelude.Rows.{find_row, update_row, delete_row, delete_rows}

module _ {ℓ} {A : Type ℓ} where
  pub total-keep :
      (w : A → ℕ) (p : A → Bool) (f : A → A) (xs : List A)
      → ((x : A) → w (f x) ≡ w x)
      → total w (update_row p f xs) ≡ total w xs
  total-keep w p f [] keeps = refl
  total-keep w p f (x ∷ xs) keeps = elim (Bool-cases (p x)) [
    | inl hit ↦ rw hit (omega (arith, keeps x))
    | inr miss ↦ rw miss (omega (arith, total-keep w p f xs keeps))
  ]

  pub update_row-le :
      (w : A → ℕ) (p : A → Bool) (f : A → A) (xs : List A)
      → ((x : A) → w (f x) ≤ w x)
      → total w (update_row p f xs) ≤ total w xs
  update_row-le w p f [] less = omega arith
  update_row-le w p f (x ∷ xs) less = elim (Bool-cases (p x)) [
    | inl hit ↦ rw hit (omega (arith, less x))
    | inr miss ↦ rw miss (omega (arith, update_row-le w p f xs less))
  ]

  pub delete_row-le :
      (w : A → ℕ) (p : A → Bool) (xs : List A) → total w (delete_row p xs) ≤ total w xs
  delete_row-le w p [] = omega arith
  delete_row-le w p (x ∷ xs) = elim (Bool-cases (p x)) [
    | inl hit ↦ rw hit (omega arith)
    | inr miss ↦ rw miss (omega (arith, delete_row-le w p xs))
  ]

  pub delete_rows-le :
      (w : A → ℕ) (p : A → Bool) (xs : List A) → total w (delete_rows p xs) ≤ total w xs
  delete_rows-le w p [] = omega arith
  delete_rows-le w p (x ∷ xs) = elim (Bool-cases (p x)) [
    | inl hit ↦ rw hit (omega (arith, delete_rows-le w p xs))
    | inr miss ↦ rw miss (omega (arith, delete_rows-le w p xs))
  ]

  -- Nothing is left to count when the counted rows are the deleted ones.
  pub delete_rows-none :
      (w : A → ℕ) (p : A → Bool) (xs : List A)
      → ((x : A) → p x ≡ false → w x ≡ 0)
      → total w (delete_rows p xs) ≡ 0
  delete_rows-none w p [] h = refl
  delete_rows-none w p (x ∷ xs) h = elim (Bool-cases (p x)) [
    | inl hit ↦ rw hit (delete_rows-none w p xs h)
    | inr miss ↦ rw miss (omega (arith, delete_rows-none w p xs h, h x miss))
  ]

  abbrev pub row_count : (A → Bool) → List A → ℕ
  row_count p = total (λ x. if p x then 1 else 0)

  pub row_count-none : (p : A → Bool) (xs : List A) → find_row p xs ≡ none → row_count p xs ≡ 0
  row_count-none p [] h = refl
  row_count-none p (x ∷ xs) h = elim (Bool-cases (p x)) [
    | inl hit ↦ let e : some x ≡ none = simp hit at h in absurd (ground arith)
    | inr miss ↦ rw miss (omega (arith, row_count-none p xs (simp miss at h)))
  ]

  pub row_count-found :
      (p : A → Bool) (xs : List A) {x : A} → find_row p xs ≡ some x → 1 ≤ row_count p xs
  row_count-found p [] h = cc
  row_count-found p (x ∷ xs) h = elim (Bool-cases (p x)) [
    | inl hit ↦ rw hit (omega arith)
    | inr miss ↦ rw miss (omega (arith, row_count-found p xs (simp miss at h)))
  ]

  -- A row that is found in another way is the row of its key, where the key is unique.
  pub row_count-less :
      (p q : A → Bool) (xs : List A)
      → ((x : A) → p x ≡ true → q x ≡ true)
      → row_count p xs ≤ row_count q xs
  row_count-less p q [] within = omega arith
  row_count-less p q (x ∷ xs) within = elim (Bool-cases (p x)) [
    | inl hit ↦ rw (hit, within x hit) (omega (arith, row_count-less p q xs within))
    | inr miss ↦ rw miss (omega (arith, row_count-less p q xs within))
  ]

  pub find_row_unique :
      (p q : A → Bool) (xs : List A) {x : A}
      → row_count q xs ≤ 1
      → find_row p xs ≡ some x
      → q x ≡ true
      → find_row q xs ≡ some x
  find_row_unique p q [] alone found is_key = cc
  find_row_unique p q (y ∷ xs) {x} alone found is_key = elim (Bool-cases (p y)) [
    | inl hit ↦
        let e : some y ≡ some x = simp hit at found in
        let same : y ≡ x = cc in rw (same, is_key) refl
    | inr miss ↦
        let later : find_row p xs ≡ some x = simp miss at found in
        elim (Bool-cases (q y)) [
          | inr other ↦ rw other (
              let a : 0 + row_count q xs ≤ 1 = rw other at alone in
              find_row_unique p q xs (omega (arith, a)) later is_key)
          | inl twice ↦ absurd (
              let less : row_count q xs ≤ 0 =
                let a : 1 + row_count q xs ≤ 1 = rw twice at alone in omega (arith, a) in
              let there : find_row q xs ≡ some x =
                find_row_unique p q xs (omega (arith, less)) later is_key in
              let one = row_count-found q xs there in omega (arith, less, one))
        ]
  ]

module _ {ℓ} {A : Type ℓ} (key : A → ℕ) (m k : ℕ) where
  other_key : (x : A) → key x ≡ m → (key x == k) ≡ (m == k)
  other_key x e = ap (λ n. n == k) e

  pub find_row-update_row :
      (f : A → A) (xs : List A) {x : A}
      → ((y : A) → key (f y) ≡ key y)
      → find_row (λ y. key y == m) xs ≡ some x
      → find_row (λ y. key y == k) (update_row (λ y. key y == m) f xs)
        ≡ (if m == k then some (f x) else find_row (λ y. key y == k) xs)
  find_row-update_row f [] keeps found = cc
  find_row-update_row f (y ∷ xs) {x} keeps found = elim (Bool-cases (key y == m)) [
    | inl hit ↦
        let g : some y ≡ some x = simp hit at found in
        let same : y ≡ x = cc in
        let at : (key y == k) ≡ (m == k) = other_key y ((==_iff (key y) m).0 hit) in
        rw (hit, keeps y, at, same)
          (elim (Bool-cases (m == k)) [ inl one ↦ rw one refl | inr two ↦ rw two refl ])
    | inr miss ↦
        let rest = find_row-update_row f xs keeps (simp miss at found) in
        rw (miss, rest)
          (elim (Bool-cases (m == k)) [
            | inl one ↦
                let e : m ≡ k = (==_iff m k).0 one in
                let other : (key y == k) ≡ false = rw (sym e) miss in rw (one, other) refl
            | inr two ↦ rw two refl
          ])
  ]

  pub find_row-delete_row :
      (xs : List A)
      → (m == k) ≡ false
      → find_row (λ y. key y == k) (delete_row (λ y. key y == m) xs) ≡ find_row (λ y. key y == k) xs
  find_row-delete_row [] differ = refl
  find_row-delete_row (y ∷ xs) differ = elim (Bool-cases (key y == m)) [
    | inl hit ↦
        let at : (key y == k) ≡ false = other_key y ((==_iff (key y) m).0 hit) ∙ differ in
        rw (hit, at) refl
    | inr miss ↦ rw (miss, find_row-delete_row xs differ) refl
  ]
