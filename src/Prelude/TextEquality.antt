-- ===== src/Prelude/TextEquality.antt =====
-- The comparison of texts as an equality.
use scholight.Prelude.{◌≡◌, refl, true, [], ◌∷◌, ◌==◌, arith, Bool-cases, inl, inr, ==_iff, ==_refl}
use scholight.Prelude.Text.{Text, text_eq}

pub text_eq_refl : (s : Text) → text_eq s s ≡ true
text_eq_refl [] = refl
text_eq_refl (c ∷ s) = ground (arith, text_eq_refl s, ==_refl c)

pub eq_of_text_eq : (s t : Text) → text_eq s t ≡ true → s ≡ t
eq_of_text_eq [] [] h = refl
eq_of_text_eq [] (d ∷ t) h = cc
eq_of_text_eq (c ∷ s) [] h = cc
eq_of_text_eq (c ∷ s) (d ∷ t) h = elim (Bool-cases (c == d)) [
  | inl same ↦
      let e : c ≡ d = (==_iff c d).0 same in
      let f : s ≡ t = eq_of_text_eq s t (ground arith) in λ i. e i ∷ f i
  | inr other ↦ absurd (ground arith)
]

pub text_eq_sym : (s t : Text) → text_eq s t ≡ text_eq t s
text_eq_sym [] [] = refl
text_eq_sym [] (d ∷ t) = refl
text_eq_sym (c ∷ s) [] = refl
text_eq_sym (c ∷ s) (d ∷ t) = ground (arith, text_eq_sym s t)
