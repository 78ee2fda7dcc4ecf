-- ===== src/Extract/Cache/Accounting.antt =====
-- What the cache counts, and the limits that it keeps.
use scholight.Prelude.{
  ℕ, zero, suc, ◌+◌, ◌≡◌, ◌≤◌, refl, sym, ◌∙◌, ap, false, none, some, List, [], ◌∷◌, length, leb,
  arith, Bool-cases, Option-cases, inl, inr, total,
}
use scholight.Prelude.Int.{pos, pos_part, neg_part, int_laws}
use scholight.Prelude.Text.{Text, text_eq}
use scholight.Prelude.TextEquality.{text_eq_refl}
use scholight.Extract.Cache.{
  SizedEntry, Cache, lookup, pop, drop_entry, drop_expired, over_limit, drop_first, drop_oldest,
  prune,
}

module _ {M : Type 0} where
  -- No key is listed twice.
  abbrev pub Unique : List (SizedEntry M) → Type 0
  Unique [] = Unit
  Unique (x ∷ xs) = (lookup x.key xs ≡ none) × Unique xs

  abbrev pub stored_size : List (SizedEntry M) → ℕ
  stored_size xs = total (λ x. x.size) xs

  pub record Counted (c : Cache M) : Type 0 where
    pub counted : c.bytes ≡ pos (stored_size c.entries)
    pub unique : Unique c.entries

  pub total-pop :
      (key : Text) (xs : List (SizedEntry M)) {x : SizedEntry M}
      → lookup key xs ≡ some x
      → stored_size (pop key xs) + x.size ≡ stored_size xs
  total-pop key [] h = cc
  total-pop key (y ∷ xs) h = elim (Bool-cases (text_eq key y.key)) [
    | inl same ↦ ground arith
    | inr other ↦ let e = total-pop key xs (simp other at h) in rw other (omega (arith, e))
  ]

  pub lookup-pop :
      (q key : Text) (xs : List (SizedEntry M)) → lookup q xs ≡ none → lookup q (pop key xs) ≡ none
  lookup-pop q key [] h = refl
  lookup-pop q key (y ∷ xs) h = ground (arith, lookup-pop q key xs)

  pub Unique-pop : (key : Text) (xs : List (SizedEntry M)) → Unique xs → Unique (pop key xs)
  Unique-pop key [] u = u
  Unique-pop key (y ∷ xs) u = elim (Bool-cases (text_eq key y.key)) [
    | inl same ↦ rw same u.1
    | inr other ↦ rw other (lookup-pop y.key key xs u.0, Unique-pop key xs u.1)
  ]

  pub drop_entry-Counted : (key : Text) (c : Cache M) → Counted c → Counted (drop_entry key c)
  unfolding drop_entry
  drop_entry-Counted key c v = elim (Option-cases (lookup key c.entries)) [
    | inl missing ↦ rw (drop_entry, missing) v
    | inr (x, found) ↦
        rw (drop_entry, found)
          (let sums = total-pop key c.entries found in
            record {
              counted = omega (int_laws, sums, ap pos_part v.counted, ap neg_part v.counted);
              unique = Unique-pop key c.entries v.unique;
            })
  ]

  pub drop_expired-Counted :
      (now : ℕ) (xs : List (SizedEntry M)) (c : Cache M)
      → Counted c
      → Counted (drop_expired now xs c)
  unfolding drop_expired
  drop_expired-Counted now [] c v = v
  drop_expired-Counted now (x ∷ xs) c v = elim (Bool-cases (leb x.value.expires_at now)) [
    | inl over ↦
        rw over (drop_expired-Counted now xs (drop_entry x.key c) (drop_entry-Counted x.key c v))
    | inr alive ↦ rw alive (drop_expired-Counted now xs c v)
  ]

  pub drop_first-Counted :
      (xs : List (SizedEntry M)) (c : Cache M) → Counted c → Counted (drop_first xs c)
  unfolding drop_first
  drop_first-Counted [] c v = v
  drop_first-Counted (x ∷ xs) c v = drop_entry-Counted x.key c v

  drop_oldest-Counted : (fuel : ℕ) (c : Cache M) → Counted c → Counted (drop_oldest fuel c)
  unfolding drop_oldest
  drop_oldest-Counted zero c v = v
  drop_oldest-Counted (suc fuel) c v = elim (Bool-cases (over_limit c)) [
    | inl over ↦
        rw over
          (drop_oldest-Counted fuel (drop_first c.entries c) (drop_first-Counted c.entries c v))
    | inr fine ↦ rw fine v
  ]

  pub prune-Counted : (now : ℕ) (c : Cache M) → Counted c → Counted (prune now c)
  unfolding prune
  prune-Counted now c v = drop_oldest-Counted _ _ (drop_expired-Counted now c.entries c v)

  pub record Limited (c : Cache M) : Type 0 where
    pub bytes_fit : stored_size c.entries ≤ c.max_bytes
    pub entries_fit : length c.entries ≤ c.max_entries

  Limited-of_under : (c : Cache M) → Counted c → over_limit c ≡ false → Limited c
  Limited-of_under c v fine = record {
    bytes_fit = ground (arith, ap pos_part v.counted, ap neg_part v.counted);
    entries_fit = ground arith;
  }

  pop-missing : (key : Text) (xs : List (SizedEntry M)) → lookup key xs ≡ none → pop key xs ≡ xs
  pop-missing key [] h = refl
  pop-missing key (y ∷ xs) h = ground (arith, pop-missing key xs)

  pub entries-drop_entry :
      (key : Text) (c : Cache M) → (drop_entry key c).entries ≡ pop key c.entries
  unfolding drop_entry
  entries-drop_entry key c = elim (Option-cases (lookup key c.entries)) [
    | inl missing ↦ rw (drop_entry, missing) (sym (pop-missing key c.entries missing))
    | inr (x, found) ↦ rw (drop_entry, found) refl
  ]

  pop-first : (x : SizedEntry M) (xs : List (SizedEntry M)) → pop x.key (x ∷ xs) ≡ xs
  pop-first x xs = let same = text_eq_refl x.key in rw same refl

  length-drop_first :
      (xs : List (SizedEntry M)) (c : Cache M) (fuel : ℕ)
      → c.entries ≡ xs
      → length xs ≤ suc fuel
      → length (drop_first xs c).entries ≤ fuel
  unfolding drop_first
  length-drop_first [] c fuel e enough = omega (arith, ap length e)
  length-drop_first (x ∷ xs) c fuel e enough =
      let left : (drop_entry x.key c).entries ≡ xs =
        entries-drop_entry x.key c ∙ ap (pop x.key) e ∙ pop-first x xs in
      omega (arith, ap length left)

  stored_size_none : (xs : List (SizedEntry M)) → length xs ≤ 0 → stored_size xs ≡ 0
  stored_size_none [] h = refl
  stored_size_none (x ∷ xs) h = absurd (omega arith)

  -- A round per item is enough.
  drop_oldest-Limited :
      (fuel : ℕ) (c : Cache M) → Counted c → length c.entries ≤ fuel → Limited (drop_oldest fuel c)
  unfolding drop_oldest
  drop_oldest-Limited zero c v enough = record {
    bytes_fit = omega (arith, stored_size_none c.entries enough);
    entries_fit = omega arith;
  }
  drop_oldest-Limited (suc fuel) c v enough = elim (Bool-cases (over_limit c)) [
    | inl over ↦ rw over (
        drop_oldest-Limited fuel (drop_first c.entries c) (drop_first-Counted c.entries c v)
          (length-drop_first c.entries c fuel refl enough))
    | inr fine ↦ rw fine (Limited-of_under c v fine)
  ]

  pub prune-Limited : (now : ℕ) (c : Cache M) → Counted c → Limited (prune now c)
  unfolding prune
  prune-Limited now c v =
      drop_oldest-Limited _ _ (drop_expired-Counted now c.entries c v) (omega arith)
