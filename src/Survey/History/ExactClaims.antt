-- ===== src/Survey/History/ExactClaims.antt =====
-- The exact claim of a draft keeps the invariant of the drafts.
use scholight.Prelude.{
  ℕ, ◌≡◌, refl, sym, ◌∙◌, ap, true, ◌&&◌, Option, none, some, List, ◌==◌, arith, Bool-cases,
  Option-cases, inl, inr,
}
use scholight.Prelude.Result.{Ensures-if, Ensures-bind, Ensures-at}
use scholight.Prelude.Rows.{find_row, rows_where, update_row}
use scholight.Survey.Tables.{draft_work, Draft, Attempt, Db, Locked, lock_survey_aggregate}
use scholight.Survey.Lifecycle.{is_drafting}
use scholight.Survey.Drafts.Claim.{is_draft_queued, run_draft}
use scholight.Survey.Ledger.Locks.{Locks, lock_survey_aggregate-Locks}
use scholight.Survey.Attempts.Claims.{
  claim_exact_survey_draft, claim_locked_draft, may_claim, begin_attempt,
}
use scholight.Survey.History.States.{History, same-KeepsSurveys}
use scholight.Survey.History.Drafting.{KeepsHistory}
use scholight.Survey.History.Leasing.{run_draft-History}

pub attempts-History :
    (db : Db) (rows : List Attempt) → History db → History (record db { attempts = rows })
attempts-History db rows h = record { numbered = h.numbered; owned = h.owned; held = h.held }

claim_locked_draft-History :
    (survey_id draft_id attempt_id lease now : ℕ) (found : Option Locked) (db : Db)
    → History db
    → Locks survey_id none db found
    → History (claim_locked_draft draft_id attempt_id lease now found db).1
unfolding claim_locked_draft
claim_locked_draft-History survey_id draft_id attempt_id lease now none db h lock = h
claim_locked_draft-History survey_id draft_id attempt_id lease now (some l) db h lock =
    elim (Option-cases (find_row (λ d. d.id == draft_id) l.drafts)) [
      | inl gone ↦ rw (claim_locked_draft, gone) h
      | inr (d, at) ↦
          rw (claim_locked_draft, at)
            (elim (Bool-cases (is_drafting l.survey.status && is_draft_queued d.status)) [
              | inr busy ↦ rw busy h
              | inl free ↦ rw free (
                  let waits : is_draft_queued d.status ≡ true = ground arith in
                  let there : find_row (λ e. e.id == draft_id)
                        (rows_where (λ e. e.survey_id == survey_id) db.drafts)
                      ≡ some d =
                    ap (find_row (λ e. e.id == draft_id)) (sym lock.draft_rows) ∙ at in
                  let after : Db = record db {
                    drafts =
                        update_row (λ e. e.id == draft_id && is_draft_queued e.status)
                          (run_draft attempt_id lease now) db.drafts;
                    attempts = update_row (λ a. a.id == attempt_id) (begin_attempt now) db.attempts;
                  } in
                  run_draft-History survey_id draft_id attempt_id lease now db after h there waits
                    refl (same-KeepsSurveys db after refl))
            ])
    ]

pub claim_exact_survey_draft-KeepsHistory :
    (draft_id attempt_id lease now : ℕ) (db : Db)
    → History db
    → KeepsHistory (claim_exact_survey_draft draft_id attempt_id lease now db)
unfolding claim_exact_survey_draft
claim_exact_survey_draft-KeepsHistory draft_id attempt_id lease now db h =
    let P : Option Draft × Db → Type 0 = λ p. History p.1 in
    elim (Option-cases (find_row (λ a. a.id == attempt_id) db.attempts)) [
      | inl missing ↦ rw (claim_exact_survey_draft, missing) h
      | inr (a, found) ↦
          rw (claim_exact_survey_draft, found)
            (Ensures-if P (may_claim draft_work a.draft_id draft_id a) _ _
              (λ may. Ensures-bind P (lock_survey_aggregate a.survey_id none db) _ (λ l at.
                claim_locked_draft-History a.survey_id draft_id attempt_id lease now l db h (
                  Ensures-at (Locks a.survey_id none db) _
                    (lock_survey_aggregate-Locks a.survey_id none db) at)))
              (λ no_claim. h))
    ]
