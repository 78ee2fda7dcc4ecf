-- ===== src/Extract/Cache/Keys.antt =====
-- The keys of the cache under its list operations.
use scholight.Prelude.{
  suc, ◌≡◌, refl, ◌∙◌, ap, false, none, some, List, [], ◌∷◌, ◌++◌, length, arith, Bool-cases, inl,
  inr,
}
use scholight.Prelude.Text.{Text, text_eq}
use scholight.Prelude.TextEquality.{eq_of_text_eq, text_eq_sym}
use scholight.Extract.Cache.{SizedEntry, lookup, pop, store}
use scholight.Extract.Cache.Accounting.{Unique}

module _ {M : Type 0} where
  pub store-new :
      (item : SizedEntry M) (xs : List (SizedEntry M))
      → lookup item.key xs ≡ none
      → store item xs ≡ xs ++ item ∷ []
  store-new item [] h = refl
  store-new item (x ∷ xs) h = ground (arith, store-new item xs)

  pub lookup-append :
      (q : Text) (xs : List (SizedEntry M)) (item : SizedEntry M)
      → lookup q xs ≡ none
      → text_eq q item.key ≡ false
      → lookup q (xs ++ item ∷ []) ≡ none
  lookup-append q [] item h apart = rw apart refl
  lookup-append q (x ∷ xs) item h apart = ground (arith, lookup-append q xs item)

  pub Unique-append :
      (xs : List (SizedEntry M)) (item : SizedEntry M)
      → Unique xs
      → lookup item.key xs ≡ none
      → Unique (xs ++ item ∷ [])
  Unique-append [] item u h = (refl, tt)
  Unique-append (x ∷ xs) item u h = elim (Bool-cases (text_eq item.key x.key)) [
    | inl same ↦ absurd (ground arith)
    | inr apart ↦ (
      lookup-append x.key xs item u.0 (text_eq_sym x.key item.key ∙ apart),
      Unique-append xs item u.1 (ground arith),
    )
  ]

  pub lookup-pop_self :
      (key : Text) (xs : List (SizedEntry M)) → Unique xs → lookup key (pop key xs) ≡ none
  lookup-pop_self key [] u = refl
  lookup-pop_self key (x ∷ xs) u = elim (Bool-cases (text_eq key x.key)) [
    | inl same ↦ rw same (ap (λ k. lookup k xs) (eq_of_text_eq key x.key same) ∙ u.0)
    | inr apart ↦ rw (apart, apart) (lookup-pop_self key xs u.1)
  ]

  pub key-lookup :
      (key : Text) (xs : List (SizedEntry M)) {x : SizedEntry M}
      → lookup key xs ≡ some x
      → key ≡ x.key
  key-lookup key [] h = cc
  key-lookup key (y ∷ xs) {x} h = elim (Bool-cases (text_eq key y.key)) [
    | inl same ↦ let e : y ≡ x = ground arith in eq_of_text_eq key y.key same ∙ ap (λ z. z.key) e
    | inr apart ↦ key-lookup key xs (simp apart at h)
  ]

  pub length-pop :
      (key : Text) (xs : List (SizedEntry M)) {x : SizedEntry M}
      → lookup key xs ≡ some x
      → suc (length (pop key xs)) ≡ length xs
  length-pop key [] h = cc
  length-pop key (y ∷ xs) h = elim (Bool-cases (text_eq key y.key)) [
    | inl same ↦ rw same refl
    | inr apart ↦ let e = length-pop key xs (simp apart at h) in rw apart (ap suc e)
  ]
