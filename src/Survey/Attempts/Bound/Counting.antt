-- ===== src/Survey/Attempts/Bound/Counting.antt =====
-- The counts of a candidate are those of the tables.
use scholight.Prelude.{
  ℕ, ◌≡◌, refl, Bool, true, ◌&&◌, List, [], ◌∷◌, ◌==◌, ltb, All, Bool-cases, Option-cases, inl, inr,
}
use scholight.Prelude.Rows.{find_row, rows_where}
use scholight.Prelude.Queries.{All-order_by, All-take}
use scholight.Survey.Tables.{WorkKind, draft_work, full_work, Draft, Job, Db}
use scholight.Survey.Claim.{survey_of, of_user}
use scholight.Survey.Drafts.Claim.{survey_of_draft}
use scholight.Survey.Attempts.{open_of, attempt_count, compute_count}
use scholight.Survey.Attempts.Candidates.{
  WorkItem, draft_eligible, job_eligible, eligible_drafts, eligible_jobs, eligible, within_attempts,
  compute_candidates, fair_item_before,
}

pub record Counted (kind : WorkKind) (db : Db) (i : WorkItem) : Type 0 where
  pub attempts : i.attempts ≡ attempt_count kind i.target_id db
  pub computes : i.computes ≡ compute_count kind i.target_id db
  pub owner :
      (u : ℕ) → of_user u (find_row (λ s. s.id == i.survey_id) db.surveys) ≡ (i.user_id == u)

eligible_drafts-Counted :
    (db : Db) (ds : List Draft) → All (Counted draft_work db) (eligible_drafts db ds)
eligible_drafts-Counted db [] = tt
eligible_drafts-Counted db (d ∷ ds) =
    let rest = eligible_drafts-Counted db ds in
    elim (Option-cases (survey_of_draft db d)) [
      | inl missing ↦ rw missing rest
      | inr (s, found) ↦ rw found (elim (Bool-cases (draft_eligible db d s)) [
        | inl fits ↦
            rw fits (record { attempts = refl; computes = refl; owner = λ u. rw found refl }, rest)
        | inr other ↦ rw other rest
      ])
    ]

eligible_jobs-Counted :
    (now : ℕ) (db : Db) (js : List Job) → All (Counted full_work db) (eligible_jobs now db js)
eligible_jobs-Counted now db [] = tt
eligible_jobs-Counted now db (j ∷ js) =
    let rest = eligible_jobs-Counted now db js in
    elim (Option-cases (survey_of db j)) [
      | inl missing ↦ rw missing rest
      | inr (s, found) ↦ rw found (elim (Bool-cases (job_eligible now db j)) [
        | inl fits ↦
            rw fits (record { attempts = refl; computes = refl; owner = λ u. rw found refl }, rest)
        | inr other ↦ rw other rest
      ])
    ]

eligible-Counted :
    (kind : WorkKind) (now : ℕ) (db : Db) → All (Counted kind db) (eligible kind now db)
eligible-Counted draft_work now db = eligible_drafts-Counted db db.drafts
eligible-Counted full_work now db = eligible_jobs-Counted now db db.jobs

-- A candidate of a query, and its counts.
pub record Fits (kind : WorkKind) (most : ℕ) (db : Db) (i : WorkItem) : Type 0 where
  pub counted : Counted kind db i
  pub within : within_attempts kind most i ≡ true

rows-Fits :
    (kind : WorkKind) (most : ℕ) (db : Db) (q : WorkItem → Bool) (is : List WorkItem)
    → All (Counted kind db) is
    → All (Fits kind most db) (rows_where (λ i. within_attempts kind most i && q i) is)
rows-Fits kind most db q [] h = tt
rows-Fits kind most db q (i ∷ is) h =
    let rest = rows-Fits kind most db q is h.1 in
    elim (Bool-cases (within_attempts kind most i)) [
      | inr over ↦ rw over rest
      | inl within ↦ elim (Bool-cases (q i)) [
        | inl fits ↦ rw (within, fits) (record { counted = h.0; within = within }, rest)
        | inr other ↦ rw (within, other) rest
      ]
    ]

pub compute_candidates-Fits :
    (kind : WorkKind) (per_user most now : ℕ) (db : Db)
    → All (Fits kind most db) (compute_candidates kind per_user most now db)
unfolding compute_candidates
compute_candidates-Fits kind per_user most now db = All-take (Fits kind most db) 32 _ (
    All-order_by (Fits kind most db) (fair_item_before (eligible kind now db)) _ (
      rows-Fits kind most db (λ i. ltb (open_of kind i.user_id db) per_user) (eligible kind now db)
        (eligible-Counted kind now db)))
