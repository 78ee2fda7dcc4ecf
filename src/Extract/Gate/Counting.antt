-- ===== src/Extract/Gate/Counting.antt =====
-- How many of the listed futures have been granted.
use scholight.Prelude.{
  ℕ, ◌+◌, ◌≡◌, refl, true, false, List, [], ◌∷◌, arith, total, update, contains, erase, Distinct,
  ◌==◌, not-contains_of_All, Bool-cases, inl, inr, ==_iff,
}
use scholight.Extract.Gate.{Future, granted}

abbrev pub weight : Future → ℕ
weight granted = 1
weight _ = 0

abbrev pub count_granted : (ℕ → Future) → List ℕ → ℕ
count_granted fs = total (λ f. weight (fs f))

pub count_granted-update_out :
    (fs : ℕ → Future) (r : ℕ) (v : Future) (ws : List ℕ)
    → contains r ws ≡ false
    → count_granted (update fs r v) ws ≡ count_granted fs ws
count_granted-update_out fs r v [] h = refl
count_granted-update_out fs r v (x ∷ ws) h = ground (arith, count_granted-update_out fs r v ws)

pub count_granted-update :
    (fs : ℕ → Future) (r : ℕ) (v : Future) (ws : List ℕ)
    → Distinct ws
    → contains r ws ≡ true
    → count_granted (update fs r v) ws + weight (fs r) ≡ count_granted fs ws + weight v
count_granted-update fs r v [] d h = absurd (ground arith)
count_granted-update fs r v (x ∷ ws) d h = elim (Bool-cases (r == x)) [
  | inl same ↦
      let e : r ≡ x = (==_iff r x).0 same in
      ground (arith, count_granted-update_out fs r v ws, not-contains_of_All x ws d.0)
  | inr apart ↦ ground (arith, count_granted-update fs r v ws d.1)
]

pub count_granted-erase :
    (fs : ℕ → Future) (r : ℕ) (ws : List ℕ)
    → contains r ws ≡ true
    → count_granted fs (erase r ws) + weight (fs r) ≡ count_granted fs ws
count_granted-erase fs r [] h = absurd (ground arith)
count_granted-erase fs r (x ∷ ws) h = elim (Bool-cases (r == x)) [
  | inl same ↦ let e : r ≡ x = (==_iff r x).0 same in ground arith
  | inr apart ↦ ground (arith, count_granted-erase fs r ws)
]
