-- ===== src/Prelude/Store.antt =====
-- Objects that the program shares by reference live in a store, a function from references.
use Prim.Native.Nat.{ℕ, suc, ◌≤◌}
use mathlib.Core.Path.{◌≡◌, refl, sym, ap, subst}
use mathlib.Core.Logic.{◌≢◌, inl, inr}
use mathlib.Core.List.{List, [], ◌∷◌, ◌++◌}
use mathlib.Core.Bool.{Bool, true, false, ◌||◌}
use native.Mathlib.Omega.{arith}
use scholight.Prelude.Tests.{◌==◌, if◌then◌else◌, ==_iff, ==_refl, Bool-cases}
use scholight.Prelude.Lists.{length, All, All-append}

-- `store[r] = v`
abbrev pub update {ℓ} : {A : Type ℓ} → (ℕ → A) → ℕ → A → ℕ → A
update f r v q = if r == q then v else f q

-- `r in xs`, by the identity of references.
abbrev pub contains : ℕ → List ℕ → Bool
contains r [] = false
contains r (x ∷ xs) = if r == x then true else contains r xs

-- `xs.remove(r)`: the first occurrence.
abbrev pub erase : ℕ → List ℕ → List ℕ
erase r [] = []
erase r (x ∷ xs) = if r == x then xs else x ∷ erase r xs

-- No reference is listed twice.
abbrev pub Distinct : List ℕ → Type 0
Distinct [] = Unit
Distinct (x ∷ xs) = All (λ y. x ≢ y) xs × Distinct xs

pub All-if {ℓ κ} :
    {A : Type ℓ} (b : Bool) (P : A → Type κ) {x y : A} → P x → P y → P (if b then x else y)
All-if true P h k = h
All-if false P h k = k

pub length-erase :
    (r : ℕ) (xs : List ℕ) → contains r xs ≡ true → suc (length (erase r xs)) ≡ length xs
length-erase r [] h = absurd (ground arith)
length-erase r (x ∷ xs) h = ground (arith, length-erase r xs)

pub All-erase {κ} : (P : ℕ → Type κ) (r : ℕ) (xs : List ℕ) → All P xs → All P (erase r xs)
All-erase P r [] h = tt
All-erase P r (x ∷ xs) h = All-if (r == x) (All P) h.1 (h.0, All-erase P r xs h.1)

pub Distinct-erase : (r : ℕ) (xs : List ℕ) → Distinct xs → Distinct (erase r xs)
Distinct-erase r [] h = tt
Distinct-erase r (x ∷ xs) h =
    All-if (r == x) Distinct h.1 (All-erase (λ y. x ≢ y) r xs h.0, Distinct-erase r xs h.1)

-- A fact about each listed reference, at one of them.
pub All-at {κ} : (P : ℕ → Type κ) (r : ℕ) (xs : List ℕ) → All P xs → contains r xs ≡ true → P r
All-at P r [] h c = absurd (ground arith)
All-at P r (x ∷ xs) h c = elim (Bool-cases (r == x)) [
  | inl same ↦ let e : r ≡ x = (==_iff r x).0 same in rw e h.0
  | inr other ↦ All-at P r xs h.1 (ground arith)
]

pub contains-erase_ne : (q r : ℕ) (xs : List ℕ) → q ≢ r → contains q (erase r xs) ≡ contains q xs
contains-erase_ne q r [] h = refl
contains-erase_ne q r (x ∷ xs) h = ground (arith, contains-erase_ne q r xs h)

pub contains-append :
    (r : ℕ) (xs ys : List ℕ) → contains r (xs ++ ys) ≡ contains r xs || contains r ys
contains-append r [] ys = refl
contains-append r (x ∷ xs) ys = ground (arith, contains-append r xs ys)

-- What holds of every reference that is listed and satisfies `P` elsewhere.
pub All-tabulate {κ} :
    (P : ℕ → Type κ) (xs : List ℕ) → ((r : ℕ) → contains r xs ≡ true → P r) → All P xs
All-tabulate P [] f = tt
All-tabulate P (x ∷ xs) f =
    (f x (ground (arith, ==_refl x)), All-tabulate P xs (λ r c. f r (ground arith)))

pub not-contains_of_All : (r : ℕ) (xs : List ℕ) → All (λ y. r ≢ y) xs → contains r xs ≡ false
not-contains_of_All r [] h = refl
not-contains_of_All r (x ∷ xs) h = ground (arith, not-contains_of_All r xs h.1)

pub Distinct-snoc :
    (xs : List ℕ) (f : ℕ) → Distinct xs → contains f xs ≡ false → Distinct (xs ++ f ∷ [])
Distinct-snoc [] f d h = (tt, tt)
Distinct-snoc (x ∷ xs) f d h = (
  All-append (λ y. x ≢ y) xs (f ∷ []) d.0 (λ e. ground (arith, ==_refl f), tt),
  Distinct-snoc xs f d.1 (ground arith),
)

pub All-ne_of_not-contains : (f : ℕ) (xs : List ℕ) → contains f xs ≡ false → All (λ y. f ≢ y) xs
All-ne_of_not-contains f [] h = tt
All-ne_of_not-contains f (x ∷ xs) h =
    (λ e. ground (arith, ==_refl f), All-ne_of_not-contains f xs (ground arith))

pub not-contains-erase_self : (f : ℕ) (xs : List ℕ) → Distinct xs → contains f (erase f xs) ≡ false
not-contains-erase_self f [] d = refl
not-contains-erase_self f (x ∷ xs) d = elim (Bool-cases (f == x)) [
  | inl same ↦
      let e : f ≡ x = (==_iff f x).0 same in
      rw same (not-contains_of_All f xs (subst (λ y. All (λ z. y ≢ z) xs) (sym e) d.0))
  | inr apart ↦ ground (arith, not-contains-erase_self f xs d.1)
]

pub contains_of_erase :
    (f r : ℕ) (xs : List ℕ)
    → Distinct xs
    → contains r (erase f xs) ≡ true
    → (contains r xs ≡ true) × (f ≢ r)
contains_of_erase f r xs d h = elim (Bool-cases (r == f)) [
  | inl same ↦
      let e : r ≡ f = (==_iff r f).0 same in
      absurd (ground (arith, not-contains-erase_self f xs d, ap (λ t. contains t (erase f xs)) e))
  | inr apart ↦ (ground (arith, contains-erase_ne r f xs (ground arith)), ground arith)
]

pub erase-absent : (f : ℕ) (xs : List ℕ) → contains f xs ≡ false → erase f xs ≡ xs
erase-absent f [] h = refl
erase-absent f (x ∷ xs) h = ground (arith, erase-absent f xs)

pub length-erase-le : (f : ℕ) (xs : List ℕ) → length (erase f xs) ≤ length xs
length-erase-le f [] = omega arith
length-erase-le f (x ∷ xs) = ground (arith, length-erase-le f xs)
