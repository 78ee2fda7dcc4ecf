-- ===== src/Survey/History/Rows.antt =====
-- What a write to one draft does to the history.
use mathlib.Core.Path.{subst}
use scholight.Prelude.{
  ℕ, ◌≡◌, ◌≤◌, refl, sym, ◌∙◌, ap, Bool, true, false, some, List, [], ◌∷◌, ◌==◌, ==_iff, ==_refl,
  if◌then◌else◌, arith, Bool-cases, inl, inr,
}
use scholight.Prelude.Rows.{find_row, rows_where, update_row, total-update_row}
use scholight.Prelude.Keys.{row_count}
use scholight.Survey.Tables.{Draft}
use scholight.Survey.Lifecycle.{in_progress, is_ready}
use scholight.Survey.Drafts.{latest_revision, next_revision}
use scholight.Survey.Drafts.Revisions.{latest_of, latest_revision-update_row, max_revision_next}
use scholight.Survey.History.Numbers.{
  is_active, has_number, up_to, bit, Numbered, up_to-next, Next, Next-numbers, ready-idle,
}

-- A write to a draft that is not ready, and stays so.
latest_revision-unready :
    (p q : Draft → Bool) (f : Draft → Draft) (ds : List Draft) {x : Draft}
    → find_row p ds ≡ some x
    → is_ready x.status ≡ false
    → is_ready (f x).status ≡ false
    → q (f x) ≡ q x
    → latest_revision (rows_where q (update_row p f ds)) ≡ latest_revision (rows_where q ds)
latest_revision-unready p q f [] found waits still same = cc
latest_revision-unready p q f (d ∷ ds) {x} found waits still same = elim (Bool-cases (p d)) [
  | inl hit ↦
      let e : some d ≡ some x = simp hit at found in
      let is : d ≡ x = cc in
      rw (hit, is, same)
        (elim (Bool-cases (q x)) [
          | inl own ↦ rw (own, still, waits) refl
          | inr other ↦ rw other refl
        ])
  | inr miss ↦
      let rest = latest_revision-unready p q f ds (simp miss at found) waits still same in
      rw miss
        (elim (Bool-cases (q d)) [ inr other ↦ rw other rest | inl own ↦ rw (own, rest) refl ])
]

-- A write to a draft of another survey.
latest_revision-other :
    (p q : Draft → Bool) (f : Draft → Draft) (ds : List Draft) {x : Draft}
    → find_row p ds ≡ some x
    → q x ≡ false
    → q (f x) ≡ false
    → latest_revision (rows_where q (update_row p f ds)) ≡ latest_revision (rows_where q ds)
latest_revision-other p q f [] found out still_out = cc
latest_revision-other p q f (d ∷ ds) {x} found out still_out = elim (Bool-cases (p d)) [
  | inl hit ↦
      let e : some d ≡ some x = simp hit at found in
      let is : d ≡ x = cc in rw (hit, is, still_out, out) refl
  | inr miss ↦
      let rest = latest_revision-other p q f ds (simp miss at found) out still_out in
      rw miss
        (elim (Bool-cases (q d)) [ inr other ↦ rw other rest | inl own ↦ rw (own, rest) refl ])
]

-- What a write leaves of a draft that is not ready.
pub record Quiet (x y : Draft) : Type 0 where
  pub id : y.id ≡ x.id
  pub survey : y.survey_id ≡ x.survey_id
  pub unready : is_ready y.status ≡ false
  pub active : in_progress y.status ≡ true → in_progress x.status ≡ true

pub Quiet-active : (k : ℕ) (x y : Draft) → Quiet x y → bit (is_active k y) ≤ bit (is_active k x)
Quiet-active k x y quiet = rw quiet.survey (elim (Bool-cases (in_progress y.status)) [
  | inl on ↦ rw (on, quiet.active on) (omega arith)
  | inr off ↦ rw off (ground arith)
])

pub Quiet-Numbered :
    (p : Draft → Bool) (f : Draft → Draft) (ds : List Draft) {x : Draft}
    → Numbered ds
    → find_row p ds ≡ some x
    → is_ready x.status ≡ false
    → Quiet x (f x)
    → Numbered (update_row p f ds)
Quiet-Numbered p f ds {x} h found waits quiet =
    let same : (k : ℕ) → latest_of k (update_row p f ds) ≡ latest_of k ds = λ k.
      latest_revision-unready p (λ d. d.survey_id == k) f ds found waits quiet.unready
        (ap (λ s. s == k) quiet.survey) in
    record {
      keyed = λ i.
          let count = total-update_row (λ d. if d.id == i then 1 else 0) p f ds found in
          let kept : bit ((f x).id == i) ≡ bit (x.id == i) =
            ap (λ s. if s == i then 1 else 0) quiet.id in
          omega (arith, count, kept, h.keyed i);
      single = λ k.
          let count = total-update_row (λ d. if is_active k d then 1 else 0) p f ds found in
          let less = Quiet-active k x (f x) quiet in omega (arith, count, less, h.single k);
      numbers = λ k n.
          let count = total-update_row (λ d. if has_number k n d then 1 else 0) p f ds found in
          let none_before : bit (has_number k n x) ≡ 0 = rw waits (ground arith) in
          let none_after : bit (has_number k n (f x)) ≡ 0 = rw quiet.unready (ground arith) in
          let was = h.numbers k n in
          rw (same k) (omega (arith, count, none_before, none_after, was));
      small = λ k. rw (same k) (h.small k);
    }

-- A draft that becomes ready as the next revision.
pub ready-Numbered :
    (p : Draft → Bool) (f : Draft → Draft) (ds : List Draft) {x : Draft}
    → Numbered ds
    → find_row p ds ≡ some x
    → is_ready x.status ≡ false
    → ((d : Draft)
        → ((f d).id ≡ d.id)
          × ((f d).survey_id ≡ d.survey_id)
          × Next (latest_of x.survey_id ds) (f d))
    → Numbered (update_row p f ds)
ready-Numbered p f ds {x} h found waits becomes =
    let (same_id, same_survey, next) = becomes x in
    let number = next_revision (latest_of x.survey_id ds) in
    let own_latest : latest_of x.survey_id (update_row p f ds) ≡ some number =
      latest_revision-update_row p (λ d. d.survey_id == x.survey_id) f number ds found
        (==_refl x.survey_id) waits
        (λ d. let (i, s, m) = becomes d in (ap (λ t. t == x.survey_id) s, m.ready, m.number))
      ∙ max_revision_next (latest_of x.survey_id ds) in
    record {
      keyed = λ i.
          let count = total-update_row (λ d. if d.id == i then 1 else 0) p f ds found in
          let kept : bit ((f x).id == i) ≡ bit (x.id == i) =
            ap (λ s. if s == i then 1 else 0) same_id in
          omega (arith, count, kept, h.keyed i);
      single = λ k.
          let count = total-update_row (λ d. if is_active k d then 1 else 0) p f ds found in
          let over : bit (is_active k (f x)) ≡ 0 =
            rw (ready-idle (f x) next.ready) (ground arith) in
          omega (arith, count, over, h.single k);
      numbers = λ k n.
          let count = total-update_row (λ d. if has_number k n d then 1 else 0) p f ds found in
          let before : bit (has_number k n x) ≡ 0 = rw waits (ground arith) in
          let after = Next-numbers (latest_of x.survey_id ds) (f x) k n next in
          elim (Bool-cases (x.survey_id == k)) [
            | inl one ↦
                let e : x.survey_id ≡ k = (==_iff x.survey_id k).0 one in
                let mine : (f x).survey_id ≡ k = same_survey ∙ e in
                let latest : latest_of k (update_row p f ds) ≡ some number =
                  subst (λ m. latest_of m (update_row p f ds) ≡ some number) e own_latest in
                let was : row_count (has_number k n) ds ≡ bit (up_to (latest_of x.survey_id ds) n) =
                  subst (λ m. row_count (has_number k n) ds ≡ bit (up_to (latest_of m ds) n))
                    (sym e) (h.numbers k n) in
                let more = up_to-next (latest_of x.survey_id ds) n in
                let one_more : bit (has_number k n (f x)) ≡ bit (number == n) =
                  after ∙ (rw (mine, ==_refl k) refl) in
                rw latest (omega (arith, count, before, one_more, was, more))
            | inr two ↦
                let other : ((f x).survey_id == k) ≡ false = rw same_survey two in
                let none_after : bit (has_number k n (f x)) ≡ 0 = rw other refl in
                let was = h.numbers k n in
                rw (latest_revision-other p (λ d. d.survey_id == k) f ds found two other)
                  (omega (arith, count, before, none_after, was))
          ];
      small = λ k. elim (Bool-cases (x.survey_id == k)) [
        | inl one ↦
            let e : x.survey_id ≡ k = (==_iff x.survey_id k).0 one in
            let latest : latest_of k (update_row p f ds) ≡ some number =
              subst (λ m. latest_of m (update_row p f ds) ≡ some number) e own_latest in
            rw latest next.small
        | inr two ↦
            let other : ((f x).survey_id == k) ≡ false = rw same_survey two in
            rw (latest_revision-other p (λ d. d.survey_id == k) f ds found two other) (h.small k)
      ];
    }
