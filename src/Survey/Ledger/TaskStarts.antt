-- ===== src/Survey/Ledger/TaskStarts.antt =====
-- The start of a task, from its reservation to its claim of a draft, leaves the surveys and the usage rows
-- alone: scholight/db/queries_survey_attempts.py.
use scholight.Prelude.{
  ℕ, refl, Bool, Option, none, some, List, [], ◌∷◌, ◌&&◌, ◌==◌, leb, Option-cases, inl, inr,
}
use scholight.Prelude.Text.{Text}
use scholight.Prelude.Result.{
  Ensures, Ensures-bind, Ensures-if, Ensures-require, Ensures-or_raise, if_cases,
}
use scholight.Prelude.Rows.{find_row}
use scholight.Survey.Tables.{
  draft_work, Draft, Attempt, Db, db_error, Locked, lock_survey_aggregate,
}
use scholight.Survey.Lifecycle.{is_drafting}
use scholight.Survey.Drafts.Claim.{is_draft_queued}
use scholight.Survey.Attempts.{open_attempts}
use scholight.Survey.Attempts.Reserve.{
  Reservation, reserve_next_compute_attempt, reserve_from, may_reserve, add_attempt,
}
use scholight.Survey.Attempts.Candidates.{WorkItem}
use scholight.Survey.Attempts.Launch.{
  update_returning, record_compute_launch_failure, mark_compute_attempt_launched, takes_arn,
}
use scholight.Survey.Attempts.Claims.{claim_exact_survey_draft, claim_locked_draft, may_claim}
use scholight.Survey.Ledger.Paired.{same-NoMore}
use scholight.Survey.Ledger.Tasks.{WorkOnly, same-WorkOnly}

attempts-WorkOnly :
    (db : Db) (as_rows : List Attempt) → WorkOnly db (record db { attempts = as_rows })
attempts-WorkOnly db as_rows = record {
  overrides = refl;
  usages = refl;
  surveys = refl;
  jobs = same-NoMore db.jobs;
}

pub update_returning-WorkOnly :
    (p : Attempt → Bool) (f : Attempt → Attempt) (db : Db) → WorkOnly db (update_returning p f db).1
unfolding update_returning
update_returning-WorkOnly p f db = elim (Option-cases (find_row p db.attempts)) [
  | inl missing ↦ rw (update_returning, missing) (same-WorkOnly db)
  | inr (a, found) ↦ rw (update_returning, found) (attempts-WorkOnly db _)
]

abbrev pub Reserved : Db → Option (Attempt × Db) → Type 0
Reserved db none = Unit
Reserved db (some p) = WorkOnly db p.1

reserve_from-Reserved :
    (r : Reservation) (is : List WorkItem) (db : Db) → Ensures (Reserved db) (reserve_from r is db)
unfolding reserve_from add_attempt
reserve_from-Reserved r [] db = tt
reserve_from-Reserved r (i ∷ is) db =
    let P = Reserved db in
    let rest = reserve_from-Reserved r is db in
    Ensures-bind P (lock_survey_aggregate i.survey_id none db) _ (λ found at.
      Ensures-if P (may_reserve r i found db) _ _
        (λ may. Ensures-require P _ _ _ (λ a.
          Ensures-require P _ _ _ (λ b. Ensures-require P _ _ _ (λ c. attempts-WorkOnly db _))))
        (λ passed. rest))

pub reserve_next_compute_attempt-Reserved :
    (r : Reservation) (db : Db) → Ensures (Reserved db) (reserve_next_compute_attempt r db)
unfolding reserve_next_compute_attempt
reserve_next_compute_attempt-Reserved r db =
    let P = Reserved db in
    Ensures-require P _ _ _ (λ positive.
      Ensures-if P (leb r.global (open_attempts r.kind db)) _ _ (λ full. tt)
        (λ room. reserve_from-Reserved r _ db))

claim_locked_draft-WorkOnly :
    (draft_id attempt_id lease now : ℕ) (found : Option Locked) (db : Db)
    → WorkOnly db (claim_locked_draft draft_id attempt_id lease now found db).1
unfolding claim_locked_draft
claim_locked_draft-WorkOnly draft_id attempt_id lease now none db = same-WorkOnly db
claim_locked_draft-WorkOnly draft_id attempt_id lease now (some l) db =
    elim (Option-cases (find_row (λ d. d.id == draft_id) l.drafts)) [
      | inl gone ↦ rw (claim_locked_draft, gone) (same-WorkOnly db)
      | inr (d, at) ↦
          rw (claim_locked_draft, at)
            (if_cases (λ (p : Option Draft × Db). WorkOnly db p.1)
              (is_drafting l.survey.status && is_draft_queued d.status) _ _
              (λ free. record {
                overrides = refl;
                usages = refl;
                surveys = refl;
                jobs = same-NoMore db.jobs;
              })
              (λ busy. same-WorkOnly db))
    ]

pub claim_exact_survey_draft-WorkOnly :
    (draft_id attempt_id lease now : ℕ) (db : Db)
    → Ensures (λ p. WorkOnly db p.1) (claim_exact_survey_draft draft_id attempt_id lease now db)
unfolding claim_exact_survey_draft
claim_exact_survey_draft-WorkOnly draft_id attempt_id lease now db =
    let P : Option Draft × Db → Type 0 = λ p. WorkOnly db p.1 in
    elim (Option-cases (find_row (λ a. a.id == attempt_id) db.attempts)) [
      | inl missing ↦ rw (claim_exact_survey_draft, missing) (same-WorkOnly db)
      | inr (a, found) ↦
          rw (claim_exact_survey_draft, found)
            (Ensures-if P (may_claim draft_work a.draft_id draft_id a) _ _
              (λ may.
                Ensures-bind P (lock_survey_aggregate a.survey_id none db) _
                  (λ rows at. claim_locked_draft-WorkOnly draft_id attempt_id lease now rows db))
              (λ may_not. same-WorkOnly db))
    ]

pub record_compute_launch_failure-WorkOnly :
    (attempt_id : ℕ) (reason : Text) (now : ℕ) (db : Db)
    → Ensures (λ p. WorkOnly db p.1) (record_compute_launch_failure attempt_id reason now db)
unfolding record_compute_launch_failure
record_compute_launch_failure-WorkOnly attempt_id reason now db =
    let P : Attempt × Db → Type 0 = λ p. WorkOnly db p.1 in
    Ensures-or_raise P (find_row (λ a. a.id == attempt_id) db.attempts) db_error _
      (λ current found. Ensures-require P _ _ _ (λ waits. attempts-WorkOnly db _))

pub mark_compute_attempt_launched-WorkOnly :
    (attempt_id : ℕ) (arn : Text) (now : ℕ) (db : Db)
    → Ensures (λ p. WorkOnly db p.1) (mark_compute_attempt_launched attempt_id arn now db)
unfolding mark_compute_attempt_launched
mark_compute_attempt_launched-WorkOnly attempt_id arn now db =
    let P : Attempt × Db → Type 0 = λ p. WorkOnly db p.1 in
    Ensures-or_raise P (find_row (takes_arn attempt_id arn) db.attempts) db_error _
      (λ current found. Ensures-require P _ _ _ (λ alone. attempts-WorkOnly db _))
