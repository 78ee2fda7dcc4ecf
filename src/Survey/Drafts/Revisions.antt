-- ===== src/Survey/Drafts/Revisions.antt =====
-- The numbers of ready drafts.
use scholight.Prelude.{
  ℕ, ◌+◌, ◌≡◌, ◌≤◌, max, refl, sym, ◌∙◌, ap, Bool, true, false, Option, none, some, List, [], ◌∷◌,
  ◌==◌, ==_iff, ==_refl, arith, Bool-cases, inl, inr,
}
use scholight.Prelude.Result.{Ensures, Ensures-or_raise, Ensures-require}
use scholight.Prelude.Rows.{find_row, rows_where, update_row}
use scholight.Survey.Tables.{
  DraftStatus, draft_queued, draft_running, draft_ready, draft_failed, draft_cancelled, Draft, Db,
  Locked, lease_lost,
}
use scholight.Survey.Lifecycle.{is_ready}
use scholight.Survey.Drafts.{
  lock_draft, max_revision, latest_revision, next_revision, same_base, is_draft_running,
}
use scholight.Survey.Ledger.Locks.{Ensures-locked}

-- The latest revision of a survey.
abbrev pub latest_of : ℕ → List Draft → Option ℕ
latest_of k ds = latest_revision (rows_where (λ d. d.survey_id == k) ds)

-- The draft is the next revision of its survey, of at most ten, on the latest one, and then the latest.
pub record Numbers (db : Db) (r : Draft × Db) : Type 0 where
  pub number : r.0.revision ≡ some (next_revision (latest_of r.0.survey_id db.drafts))
  pub small : next_revision (latest_of r.0.survey_id db.drafts) ≤ 10
  pub base : r.0.based_on_revision ≡ latest_of r.0.survey_id db.drafts
  pub latest : latest_of r.0.survey_id r.1.drafts ≡ r.0.revision
  pub found : find_row (λ d. d.id == r.0.id) r.1.drafts ≡ some r.0

max_revision_swap :
    (a b c : Option ℕ) → max_revision a (max_revision b c) ≡ max_revision b (max_revision a c)
max_revision_swap none none c = refl
max_revision_swap none (some n) c = refl
max_revision_swap (some m) none c = refl
max_revision_swap (some m) (some n) none = ap some (let e : max m n ≡ max n m = omega arith in e)
max_revision_swap (some m) (some n) (some k) =
    ap some (let e : max m (max n k) ≡ max n (max m k) = omega arith in e)

pub max_revision_next :
    (o : Option ℕ) → max_revision (some (next_revision o)) o ≡ some (next_revision o)
max_revision_next none = refl
max_revision_next (some n) = ap some (let e : max (n + 1) n ≡ n + 1 = omega arith in e)

-- A draft that becomes ready counts as one revision more.
pub latest_revision-update_row :
    (p q : Draft → Bool) (f : Draft → Draft) (n : ℕ) (ds : List Draft) {x : Draft}
    → find_row p ds ≡ some x
    → q x ≡ true
    → is_ready x.status ≡ false
    → ((d : Draft) → (q (f d) ≡ q d) × (is_ready (f d).status ≡ true) × ((f d).revision ≡ some n))
    → latest_revision (rows_where q (update_row p f ds))
      ≡ max_revision (some n) (latest_revision (rows_where q ds))
latest_revision-update_row p q f n [] found mine waits becomes = cc
latest_revision-update_row p q f n (d ∷ ds) {x} found mine waits becomes = elim (Bool-cases (p d)) [
  | inl hit ↦
      let e : some d ≡ some x = simp hit at found in
      let same : d ≡ x = cc in
      let (keeps, is_now, numbered) = becomes x in
      rw (hit, same, keeps, mine, is_now, numbered, waits) refl
  | inr miss ↦
      let rest = latest_revision-update_row p q f n ds (simp miss at found) mine waits becomes in
      rw miss (elim (Bool-cases (q d)) [
        | inr other ↦ rw other rest
        | inl own ↦ rw own (elim (Bool-cases (is_ready d.status)) [
          | inr idle ↦ rw idle rest
          | inl done ↦
              rw (done, rest)
                (max_revision_swap d.revision (some n) (latest_revision (rows_where q ds)))
        ])
      ])
]

find_row-rows_where :
    (p q : Draft → Bool) (ds : List Draft) {x : Draft}
    → find_row p ds ≡ some x
    → q x ≡ true
    → find_row p (rows_where q ds) ≡ some x
find_row-rows_where p q [] found mine = cc
find_row-rows_where p q (d ∷ ds) {x} found mine = elim (Bool-cases (p d)) [
  | inl hit ↦
      let e : some d ≡ some x = simp hit at found in
      let same : d ≡ x = cc in let own : q d ≡ true = rw same mine in rw (own, hit, same) refl
  | inr miss ↦
      let rest = find_row-rows_where p q ds (simp miss at found) mine in
      elim (Bool-cases (q d)) [ inl own ↦ rw (own, miss) rest | inr other ↦ rw other rest ]
]

-- What a worker that holds a draft knows of it.
pub record Held (draft_id : ℕ) (db : Db) (r : Draft × Locked) : Type 0 where
  pub row : find_row (λ d. d.id == draft_id) db.drafts ≡ some r.0
  pub drafts : r.1.drafts ≡ rows_where (λ d. d.survey_id == r.0.survey_id) db.drafts
  pub runs : is_draft_running r.0.status ≡ true

pub lock_draft-Held :
    (draft_id worker : ℕ) (db : Db) → Ensures (Held draft_id db) (lock_draft draft_id worker db)
unfolding lock_draft
lock_draft-Held draft_id worker db =
    let P : Draft × Locked → Type 0 = Held draft_id db in
    Ensures-or_raise P (find_row (λ d. d.id == draft_id) db.drafts) lease_lost _ (λ draft found.
      Ensures-locked P draft.survey_id none db lease_lost _ (λ l lock.
        Ensures-or_raise P (find_row (λ d. d.id == draft_id) l.drafts) lease_lost _ (λ mine at.
          Ensures-require P _ _ _ (λ holds.
            let there =
              find_row-rows_where (λ d. d.id == draft_id) (λ d. d.survey_id == draft.survey_id)
                db.drafts found (==_refl draft.survey_id) in
            let again : some draft ≡ some mine =
              sym there ∙ ap (find_row (λ d. d.id == draft_id)) (sym lock.draft_rows) ∙ at in
            let same : draft ≡ mine = cc in
            record {
              row = found ∙ again;
              drafts =
                  lock.draft_rows
                  ∙ ap (λ k. rows_where (λ d. d.survey_id == k) db.drafts)
                      (ap (λ d. d.survey_id) same);
              runs = ground arith;
            }))))

pub running_unready : (s : DraftStatus) → is_draft_running s ≡ true → is_ready s ≡ false
running_unready draft_running h = refl
running_unready draft_queued h = refl
running_unready draft_ready h = cc
running_unready draft_failed h = refl
running_unready draft_cancelled h = refl

pub same_base-eq : (a b : Option ℕ) → same_base a b ≡ true → a ≡ b
same_base-eq none none h = refl
same_base-eq none (some n) h = cc
same_base-eq (some m) none h = cc
same_base-eq (some m) (some n) h = ap some ((==_iff m n).0 h)
