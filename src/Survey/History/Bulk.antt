-- ===== src/Survey/History/Bulk.antt =====
-- What a write to the drafts of one survey does to the history.
use scholight.Prelude.{
  ℕ, ◌≡◌, ◌≤◌, refl, sym, ◌∙◌, ap, Bool, true, false, none, List, [], ◌∷◌, ◌==◌, ==_iff,
  if◌then◌else◌, arith, Bool-cases, inl, inr,
}
use scholight.Prelude.Rows.{rows_where, update_rows, delete_rows}
use scholight.Prelude.Keys.{row_count, delete_rows-le, delete_rows-none}
use scholight.Survey.Tables.{Draft}
use scholight.Survey.Lifecycle.{is_ready}
use scholight.Survey.Drafts.{latest_revision}
use scholight.Survey.Drafts.Revisions.{latest_of}
use scholight.Survey.History.Numbers.{is_active, has_number, bit, Numbered}
use scholight.Prelude.{total}
use scholight.Survey.History.Rows.{Quiet, Quiet-active}

module _ (w : Draft → ℕ) (p : Draft → Bool) (f : Draft → Draft) where
  pub update_rows-le :
      (ds : List Draft)
      → ((d : Draft) → p d ≡ true → w (f d) ≤ w d)
      → total w (update_rows p f ds) ≤ total w ds
  update_rows-le [] less = omega arith
  update_rows-le (d ∷ ds) less = elim (Bool-cases (p d)) [
    | inl hit ↦ rw hit (omega (arith, less d hit, update_rows-le ds less))
    | inr miss ↦ rw miss (omega (arith, update_rows-le ds less))
  ]

  pub update_rows-same :
      (ds : List Draft)
      → ((d : Draft) → p d ≡ true → w (f d) ≡ w d)
      → total w (update_rows p f ds) ≡ total w ds
  update_rows-same [] same = refl
  update_rows-same (d ∷ ds) same = elim (Bool-cases (p d)) [
    | inl hit ↦ rw hit (omega (arith, same d hit, update_rows-same ds same))
    | inr miss ↦ rw miss (omega (arith, update_rows-same ds same))
  ]

latest_revision-update_rows :
    (p q : Draft → Bool) (f : Draft → Draft) (ds : List Draft)
    → ((d : Draft)
        → p d ≡ true
        → (is_ready d.status ≡ false) × (is_ready (f d).status ≡ false) × (q (f d) ≡ q d))
    → latest_revision (rows_where q (update_rows p f ds)) ≡ latest_revision (rows_where q ds)
latest_revision-update_rows p q f [] quiet = refl
latest_revision-update_rows p q f (d ∷ ds) quiet =
    let rest = latest_revision-update_rows p q f ds quiet in
    elim (Bool-cases (p d)) [
      | inl hit ↦
          let (waits, still, same) = quiet d hit in
          rw (hit, same)
            (elim (Bool-cases (q d)) [
              | inl own ↦ rw (own, still, waits) rest
              | inr other ↦ rw other rest
            ])
      | inr miss ↦
          rw miss
            (elim (Bool-cases (q d)) [ inl own ↦ rw (own, rest) refl | inr other ↦ rw other rest ])
    ]

-- Drafts that are not ready, and stay so.
pub all-Quiet-Numbered :
    (p : Draft → Bool) (f : Draft → Draft) (ds : List Draft)
    → Numbered ds
    → ((d : Draft) → p d ≡ true → (is_ready d.status ≡ false) × Quiet d (f d))
    → Numbered (update_rows p f ds)
all-Quiet-Numbered p f ds h quiet = record {
  keyed = λ i.
      let same =
        update_rows-same (λ d. bit (d.id == i)) p f ds
          (λ d hit. ap (λ s. bit (s == i)) (quiet d hit).1.id) in
      omega (arith, same, h.keyed i);
  single = λ k.
      let less =
        update_rows-le (λ d. bit (is_active k d)) p f ds
          (λ d hit. Quiet-active k d (f d) (quiet d hit).1) in
      omega (arith, less, h.single k);
  numbers = λ k n.
      let same =
        update_rows-same (λ d. bit (has_number k n d)) p f ds
          (λ d hit. let (waits, q) = quiet d hit in rw (waits, q.unready) (ground arith)) in
      let was = h.numbers k n in rw (latest_same k) (omega (arith, same, was));
  small = λ k. rw (latest_same k) (h.small k);
}
  where
    latest_same : (k : ℕ) → latest_of k (update_rows p f ds) ≡ latest_of k ds
    latest_same k =
        latest_revision-update_rows p (λ d. d.survey_id == k) f ds
          (λ d hit. let (waits, q) = quiet d hit in (waits, q.unready, ap (λ s. s == k) q.survey))

not_sym : (a b : ℕ) → (a == b) ≡ false → (b == a) ≡ false
not_sym a b h = ground arith

module _ (m : ℕ) where
  deleted_latest :
      (k : ℕ) (ds : List Draft)
      → latest_of k (delete_rows (λ d. d.survey_id == m) ds)
        ≡ (if m == k then none else latest_of k ds)
  deleted_latest k [] = ground arith
  deleted_latest k (d ∷ ds) =
      let rest = deleted_latest k ds in
      elim (Bool-cases (d.survey_id == m)) [
        | inl hit ↦
            let e : d.survey_id ≡ m = (==_iff d.survey_id m).0 hit in
            rw hit (
              rest
              ∙ (rw e
                  (elim (Bool-cases (m == k)) [ inl one ↦ rw one refl | inr two ↦ rw two refl ])))
        | inr miss ↦ rw miss (elim (Bool-cases (d.survey_id == k)) [
          | inr other ↦ rw other rest
          | inl own ↦
              let e : d.survey_id ≡ k = (==_iff d.survey_id k).0 own in
              let two : (m == k) ≡ false = rw (sym e) (not_sym d.survey_id m miss) in
              let kept = rw two at rest in rw (own, two, kept) refl
        ])
      ]

  deleted_count :
      (w : Draft → Bool) (ds : List Draft)
      → ((d : Draft) → d.survey_id ≡ m → w d ≡ false)
      → row_count w (delete_rows (λ d. d.survey_id == m) ds) ≡ row_count w ds
  deleted_count w [] out = refl
  deleted_count w (d ∷ ds) out = elim (Bool-cases (d.survey_id == m)) [
    | inl hit ↦
        rw (hit, out d ((==_iff d.survey_id m).0 hit)) (omega (arith, deleted_count w ds out))
    | inr miss ↦ rw miss (omega (arith, deleted_count w ds out))
  ]

  -- The drafts of a survey are deleted.
  pub deleted-Numbered :
      (ds : List Draft) → Numbered ds → Numbered (delete_rows (λ d. d.survey_id == m) ds)
  deleted-Numbered ds h = record {
    keyed = λ i.
        let less = delete_rows-le (λ d. bit (d.id == i)) (λ d. d.survey_id == m) ds in
        omega (arith, less, h.keyed i);
    single = λ k.
        let less = delete_rows-le (λ d. bit (is_active k d)) (λ d. d.survey_id == m) ds in
        omega (arith, less, h.single k);
    numbers = λ k n. elim (Bool-cases (m == k)) [
      | inl one ↦
          let e : m ≡ k = (==_iff m k).0 one in
          let latest = rw one at (deleted_latest k ds) in
          rw latest (
            delete_rows-none (λ d. bit (has_number k n d)) (λ d. d.survey_id == m) ds
              (λ d miss. let other : (d.survey_id == k) ≡ false = rw e at miss in rw other refl))
      | inr two ↦
          let latest = rw two at (deleted_latest k ds) in
          rw latest (
            deleted_count (has_number k n) ds
              (λ d e. let other : (d.survey_id == k) ≡ false = rw e two in rw other refl)
            ∙ h.numbers k n)
    ];
    small = λ k.
        rw (deleted_latest k ds)
          (elim (Bool-cases (m == k)) [ inl one ↦ rw one tt | inr two ↦ rw two (h.small k) ]);
  }
