-- ===== src/Extract/Spool/Balance.antt =====
-- The reserved bytes are the limits of the open files.
use scholight.Prelude.{
  ℕ, zero, suc, ◌+◌, ◌≡◌, ◌≢◌, ◌≤◌, ◌<◌, ◌⊎◌, refl, sym, ◌∙◌, ap, Bool, true, false, not, some,
  List, [], ◌∷◌, ◌++◌, total, total-set, total-append, contains, get_elem?, set, length, ltb,
  ==_refl, if◌then◌else◌, arith, Bool-cases, inl, inr,
}
use scholight.Prelude.Int.{ℤ, pos, pos_part, neg_part, ◌+ℤ◌, ltb_ℤ, int_laws, +ℤ_parts}
use scholight.Extract.Spool.{
  SpoolFile, Spool, Outcome, done, start, registered, write, discard, os_error, release, close_file,
}
use scholight.Extract.Spool.System.{held, Inv}

module _ {ℓ} {A : Type ℓ} where
  get_elem?-set :
      (xs : List A) (i : ℕ) (v : A) (j : ℕ) {w : A}
      → get_elem? (set xs i v) j ≡ some w
      → ((i ≡ j) × (v ≡ w)) ⊎ ((i ≢ j) × (get_elem? xs j ≡ some w))
  get_elem?-set [] i v j h = absurd (ground arith)
  get_elem?-set (x ∷ xs) zero v zero h = inl (refl, cc)
  get_elem?-set (x ∷ xs) zero v (suc j) h = inr ((λ e. omega arith), h)
  get_elem?-set (x ∷ xs) (suc i) v zero h = inr ((λ e. omega arith), h)
  get_elem?-set (x ∷ xs) (suc i) v (suc j) h = elim (get_elem?-set xs i v j h) [
    | inl (e, f) ↦ inl (ap suc e, f)
    | inr (ne, f) ↦ inr ((λ e. ne (omega arith)), f)
  ]

  get_elem?-snoc :
      (xs : List A) (v : A) (j : ℕ) {w : A}
      → get_elem? (xs ++ v ∷ []) j ≡ some w
      → ((j ≡ length xs) × (v ≡ w)) ⊎ ((j < length xs) × (get_elem? xs j ≡ some w))
  get_elem?-snoc [] v zero h = inl (refl, cc)
  get_elem?-snoc [] v (suc j) h = absurd (ground arith)
  get_elem?-snoc (x ∷ xs) v zero h = inr (omega arith, h)
  get_elem?-snoc (x ∷ xs) v (suc j) h = elim (get_elem?-snoc xs v j h) [
    | inl (e, f) ↦ inl (ap suc e, f)
    | inr (lt, f) ↦ inr (omega arith, f)
  ]

contains-discard_self : (i : ℕ) (js : List ℕ) → contains i (discard i js) ≡ false
contains-discard_self i [] = refl
contains-discard_self i (j ∷ js) = ground (arith, contains-discard_self i js)

contains-discard : (i k : ℕ) (js : List ℕ) → i ≢ k → contains k (discard i js) ≡ contains k js
contains-discard i k [] ne = refl
contains-discard i k (j ∷ js) ne = ground (arith, contains-discard i k js ne)

pub start-Inv : (locked : Bool) (s : Spool) → Inv s → Inv (start locked s).1
unfolding start
start-Inv true s v = record {
  balanced = v.balanced;
  bounded = v.bounded;
  sizes = v.sizes;
  listed = v.listed;
}
start-Inv false s v = v

pub registered-Inv :
    (limit : ℕ) (s : Spool)
    → Inv s
    → ltb_ℤ (pos s.max_bytes) (s.reserved_bytes +ℤ pos limit) ≡ false
    → Inv (registered limit s)
registered-Inv limit s v fits =
    let f : SpoolFile = record { limit = limit; size = 0; closed = false } in
    let sums = total-append held s.bodies (f ∷ []) in
    record {
      balanced = omega (int_laws, sums, ap pos_part v.balanced, ap neg_part v.balanced);
      bounded = ground (
        arith,
        +ℤ_parts s.reserved_bytes (pos limit),
        sums,
        ap pos_part v.balanced,
        ap neg_part v.balanced,
      );
      sizes = λ j {f = g} h. elim (get_elem?-snoc s.bodies f j h) [
        | inl (e, same) ↦ rw (sym same) (omega arith)
        | inr (lt, old) ↦ v.sizes j old
      ];
      listed = λ j {f = g} h. elim (get_elem?-snoc s.bodies f j h) [
        | inl (e, same) ↦
            let first : contains j (length s.bodies ∷ s.files) ≡ true = ground (arith, ==_refl j) in
            rw (sym same) first
        | inr (lt, old) ↦
            let kept = v.listed j old in
            let other : contains j (length s.bodies ∷ s.files) ≡ contains j s.files =
              ground arith in
            other ∙ kept
      ];
    }

-- A file replaced by one that is as open, with its size within its limit.
pub replaced-Inv :
    (s : Spool) (i : ℕ) (f g : SpoolFile) (r : ℤ)
    → Inv s
    → get_elem? s.bodies i ≡ some f
    → f.closed ≡ false
    → g.closed ≡ false
    → g.size ≤ g.limit
    → g.limit ≤ f.limit
    → pos_part r + neg_part s.reserved_bytes + f.limit
      ≡ neg_part r + pos_part s.reserved_bytes + g.limit
    → Inv (record s { reserved_bytes = r; bodies = set s.bodies i g })
replaced-Inv s i f g r v at open_before open_after fits smaller moved =
    let sums : total held (set s.bodies i g) + f.limit ≡ total held s.bodies + g.limit =
      ground (arith, total-set held s.bodies i g at) in
    record {
      balanced = omega (int_laws, sums, moved, ap pos_part v.balanced, ap neg_part v.balanced);
      bounded = omega (arith, sums, v.bounded);
      sizes = λ j {f = h} e. elim (get_elem?-set s.bodies i g j e) [
        | inl (place, same) ↦ rw (sym same) fits
        | inr (apart, old) ↦ v.sizes j old
      ];
      listed = λ j {f = h} e. elim (get_elem?-set s.bodies i g j e) [
        | inl (place, same) ↦
            let kept : contains i s.files ≡ not f.closed = v.listed i at in
            let state : f.closed ≡ h.closed =
              open_before ∙ sym open_after ∙ ap (λ x. x.closed) same in
            ap (λ k. contains k s.files) (sym place) ∙ kept ∙ ap not state
        | inr (apart, old) ↦ v.listed j old
      ];
    }

pub write-Fits :
    (written : Bool) (n : ℕ) (f : SpoolFile)
    → f.size ≤ f.limit
    → ((write written n f).1.size ≤ f.limit)
      × ((write written n f).1.limit ≡ f.limit)
      × ((write written n f).1.closed ≡ f.closed)
unfolding write
write-Fits written n f h = elim (Bool-cases (ltb f.limit (f.size + n))) [
  | inl over ↦ rw over (h, refl, refl)
  | inr room ↦ let le : f.size + n ≤ f.limit = ground arith in rw room (went written le)
]
  where
    went :
        (b : Bool)
        → f.size + n ≤ f.limit
        → (let r : Outcome × SpoolFile =
              if b then (done, record f { size = f.size + n }) else (os_error, f) in
            (r.1.size ≤ f.limit) × (r.1.limit ≡ f.limit) × (r.1.closed ≡ f.closed))
    went true le = (le, refl, refl)
    went false le = (h, refl, refl)

-- Closing an open file finds it registered.
pub close_file-Inv :
    (unlinked : Bool) (s : Spool) (i : ℕ) (f : SpoolFile)
    → get_elem? s.bodies i ≡ some f
    → Inv s
    → Inv (close_file unlinked i f s).1
unfolding close_file release
close_file-Inv false s i f at v = elim (Bool-cases f.closed) [
  | inl shut_before ↦ rw shut_before v
  | inr still_open ↦ rw still_open v
]
close_file-Inv true s i f at v = elim (Bool-cases f.closed) [
  | inl shut_before ↦ rw shut_before v
  | inr still_open ↦
      let has : contains i s.files ≡ true = v.listed i at ∙ ap not still_open in
      let g : SpoolFile = record f { closed = true } in
      let sums : total held (set s.bodies i g) + f.limit ≡ total held s.bodies =
        ground (arith, total-set held s.bodies i g at) in
      let all_listed : (j : ℕ) (h : SpoolFile)
          → get_elem? (set s.bodies i g) j ≡ some h
          → contains j (discard i s.files) ≡ not h.closed =
        λ j h e. elim (get_elem?-set s.bodies i g j e) [
          | inl (place, same) ↦
              ap (λ k. contains k (discard i s.files)) (sym place)
              ∙ contains-discard_self i s.files
              ∙ ap (λ (x : SpoolFile). not x.closed) same
          | inr (apart, old) ↦ contains-discard i j s.files apart ∙ v.listed j old
        ] in
      rw (still_open, has)
        (record {
          balanced = omega (int_laws, sums, ap pos_part v.balanced, ap neg_part v.balanced);
          bounded = omega (arith, sums, v.bounded);
          sizes = λ j {f = h} e. elim (get_elem?-set s.bodies i g j e) [
            | inl (place, same) ↦ rw (sym same) (v.sizes i at)
            | inr (apart, old) ↦ v.sizes j old
          ];
          listed = λ j {f = h} e. all_listed j h e;
        })
]
