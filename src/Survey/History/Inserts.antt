-- ===== src/Survey/History/Inserts.antt =====
-- What a new draft does to the history.
use mathlib.Core.Path.{subst}
use scholight.Prelude.{
  ℕ, ◌≡◌, ◌≤◌, refl, sym, ◌∙◌, false, none, some, List, ◌∷◌, ◌==◌, ==_iff, ==_refl, arith,
  Bool-cases, inl, inr,
}
use scholight.Prelude.Rows.{find_row}
use scholight.Prelude.Keys.{row_count, row_count-none}
use scholight.Survey.Tables.{Draft}
use scholight.Survey.Lifecycle.{is_ready}
use scholight.Survey.Drafts.{next_revision}
use scholight.Survey.Drafts.Revisions.{latest_of, max_revision_next}
use scholight.Survey.History.Numbers.{
  is_active, has_number, up_to, bit, Numbered, up_to-next, Next, Next-numbers, ready-idle,
}

fresh-keyed :
    (d : Draft) (ds : List Draft)
    → Numbered ds
    → find_row (λ e. e.id == d.id) ds ≡ none
    → (i : ℕ) → row_count (λ y. y.id == i) (d ∷ ds) ≤ 1
fresh-keyed d ds h fresh i = elim (Bool-cases (d.id == i)) [
  | inr two ↦ rw two (omega (arith, h.keyed i))
  | inl one ↦
      let e : d.id ≡ i = (==_iff d.id i).0 one in
      let no_row = row_count-none (λ y. y.id == d.id) ds fresh in
      let none_here : row_count (λ y. y.id == i) ds ≡ 0 = rw e at no_row in
      rw one (omega (arith, none_here))
]

-- A new draft that is not ready, of a survey with none in progress.
pub queued-Numbered :
    (d : Draft) (ds : List Draft)
    → Numbered ds
    → is_ready d.status ≡ false
    → find_row (λ e. e.id == d.id) ds ≡ none
    → row_count (is_active d.survey_id) ds ≡ 0
    → Numbered (d ∷ ds)
queued-Numbered d ds h waits fresh idle =
    let same : (k : ℕ) → latest_of k (d ∷ ds) ≡ latest_of k ds = λ k.
      elim (Bool-cases (d.survey_id == k)) [
        | inl own ↦ rw (own, waits) refl
        | inr other ↦ rw other refl
      ] in
    record {
      keyed = λ i. fresh-keyed d ds h fresh i;
      single = λ k. elim (Bool-cases (d.survey_id == k)) [
        | inr two ↦ rw two (omega (arith, h.single k))
        | inl one ↦
            let e : d.survey_id ≡ k = (==_iff d.survey_id k).0 one in
            let none_here : row_count (is_active k) ds ≡ 0 = rw e at idle in
            let most : bit (is_active k d) ≤ 1 = ground arith in omega (arith, most, none_here)
      ];
      numbers = λ k n.
          let nothing : bit (has_number k n d) ≡ 0 = rw waits (ground arith) in
          let was = h.numbers k n in rw (same k) (omega (arith, nothing, was));
      small = λ k. rw (same k) (h.small k);
    }

-- A new draft that is the next ready revision.
pub written-Numbered :
    (d : Draft) (ds : List Draft)
    → Numbered ds
    → Next (latest_of d.survey_id ds) d
    → find_row (λ e. e.id == d.id) ds ≡ none
    → Numbered (d ∷ ds)
written-Numbered d ds h next fresh =
    let number = next_revision (latest_of d.survey_id ds) in
    let latest_here : latest_of d.survey_id (d ∷ ds) ≡ some number =
      rw (==_refl d.survey_id, next.ready, next.number)
        (max_revision_next (latest_of d.survey_id ds)) in
    record {
      keyed = λ i. fresh-keyed d ds h fresh i;
      single = λ k.
          let over : bit (is_active k d) ≡ 0 = rw (ready-idle d next.ready) (ground arith) in
          omega (arith, over, h.single k);
      numbers = λ k n. elim (Bool-cases (d.survey_id == k)) [
        | inr two ↦
            let none_here : bit (has_number k n d) ≡ 0 = rw two refl in
            let same : latest_of k (d ∷ ds) ≡ latest_of k ds = rw two refl in
            let was = h.numbers k n in rw same (omega (arith, none_here, was))
        | inl one ↦
            let e : d.survey_id ≡ k = (==_iff d.survey_id k).0 one in
            let latest : latest_of k (d ∷ ds) ≡ some number =
              subst (λ m. latest_of m (d ∷ ds) ≡ some number) e latest_here in
            let was : row_count (has_number k n) ds ≡ bit (up_to (latest_of d.survey_id ds) n) =
              subst (λ m. row_count (has_number k n) ds ≡ bit (up_to (latest_of m ds) n)) (sym e)
                (h.numbers k n) in
            let one_more : bit (has_number k n d) ≡ bit (number == n) =
              Next-numbers (latest_of d.survey_id ds) d k n next ∙ (rw one refl) in
            let more = up_to-next (latest_of d.survey_id ds) n in
            rw latest (omega (arith, one_more, was, more))
      ];
      small = λ k. elim (Bool-cases (d.survey_id == k)) [
        | inr two ↦
            let same : latest_of k (d ∷ ds) ≡ latest_of k ds = rw two refl in rw same (h.small k)
        | inl one ↦
            let e : d.survey_id ≡ k = (==_iff d.survey_id k).0 one in
            let latest : latest_of k (d ∷ ds) ≡ some number =
              subst (λ m. latest_of m (d ∷ ds) ≡ some number) e latest_here in
            rw latest next.small
      ];
    }
