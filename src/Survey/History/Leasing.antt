-- ===== src/Survey/History/Leasing.antt =====
-- Claims and leases of drafts keep the history.
use mathlib.Core.Path.{subst}
use scholight.Prelude.{
  ℕ, ◌≡◌, refl, sym, ◌∙◌, ap, Bool, true, false, ◌&&◌, Option, none, some, List, [], ◌∷◌, ◌==◌, ltb,
  leb, arith, Bool-cases, Option-cases, inl, inr, length,
}
use scholight.Prelude.Result.{Result, Ensures, Ensures-bind, Ensures-at}
use scholight.Prelude.Rows.{find_row, rows_where, update_row, find_row-holds}
use scholight.Survey.Tables.{
  DraftStatus, draft_queued, draft_running, draft_ready, draft_failed, draft_cancelled, Draft, Db,
  Error, Locked, lock_survey_aggregate,
}
use scholight.Survey.Lifecycle.{is_drafting, is_ready, in_progress}
use scholight.Survey.Drafts.{is_draft_running}
use scholight.Survey.Drafts.Claim.{
  claim_survey_draft, claim_drafts, claim_draft_found, or_else, DraftCandidate, is_draft_leased,
  is_draft_queued, leased_drafts_of, run_draft,
}
use scholight.Survey.Drafts.Leases.{heartbeat_survey_draft, holds_draft, beat_draft}
use scholight.Survey.Ledger.Locks.{Locks, lock_survey_aggregate-Locks}
use scholight.Survey.History.States.{
  History, KeepsSurveys, same-KeepsSurveys, Quiet-History, draft_row, is_wild,
}

queued-active :
    (s : DraftStatus) → is_draft_queued s ≡ true → (is_ready s ≡ false) × (in_progress s ≡ true)
queued-active draft_queued h = (refl, refl)
queued-active draft_running h = cc
queued-active draft_ready h = cc
queued-active draft_failed h = cc
queued-active draft_cancelled h = cc

pub running-active :
    (s : DraftStatus) → is_draft_running s ≡ true → (is_ready s ≡ false) × (in_progress s ≡ true)
running-active draft_running h = (refl, refl)
running-active draft_queued h = cc
running-active draft_ready h = cc
running-active draft_failed h = cc
running-active draft_cancelled h = cc

-- A draft that is found queued with its survey's rows is set to run.
pub run_draft-History :
    (k i worker lease now : ℕ) (db after : Db) {x : Draft}
    → History db
    → find_row (λ d. d.id == i) (rows_where (λ d. d.survey_id == k) db.drafts) ≡ some x
    → is_draft_queued x.status ≡ true
    → after.drafts
      ≡ update_row
          (λ d. d.id == i && is_draft_queued d.status)
          (run_draft worker lease now)
          db.drafts
    → KeepsSurveys db after
    → History after
run_draft-History k i worker lease now db after {x} h found waits same keeps =
    let row = draft_row k i db.drafts (λ d. is_draft_queued d.status) h.numbered found waits in
    let was = queued-active x.status waits in
    Quiet-History db after (λ d. d.id == i && is_draft_queued d.status) (run_draft worker lease now)
      h row same keeps was.0
      (record { id = refl; survey = refl; unready = refl; active = λ e. was.1 }) refl

-- The tables after a claim, which may find no draft.
abbrev pub ClaimedHistory : Option (ℕ × Db) → Type 0
ClaimedHistory none = Unit
ClaimedHistory (some r) = History r.1

claim_draft_found-History :
    (worker lease per_user now : ℕ) (c : DraftCandidate) (found : Option Locked) (db : Db)
    → History db
    → Locks c.draft.survey_id none db found
    → ClaimedHistory (claim_draft_found worker lease per_user now c found db)
unfolding claim_draft_found
claim_draft_found-History worker lease per_user now c none db h lock = tt
claim_draft_found-History worker lease per_user now c (some l) db h lock =
    elim (Option-cases (find_row (λ d. d.id == c.draft.id) l.drafts)) [
      | inl gone ↦ rw (claim_draft_found, gone) tt
      | inr (d, at) ↦
          rw (claim_draft_found, at)
            (elim (Bool-cases (
              is_drafting l.survey.status
              && is_draft_queued d.status
              && ltb (leased_drafts_of c.user_id now db) per_user)) [
                | inr busy ↦ rw busy tt
                | inl free ↦ rw free (
                    let waits : is_draft_queued d.status ≡ true = ground arith in
                    let there : find_row (λ e. e.id == c.draft.id)
                          (rows_where (λ e. e.survey_id == c.draft.survey_id) db.drafts)
                        ≡ some d =
                      ap (find_row (λ e. e.id == c.draft.id)) (sym lock.draft_rows) ∙ at in
                    let same_id : (d.id == c.draft.id) ≡ true =
                      find_row-holds (λ e. e.id == c.draft.id) l.drafts at in
                    let key : d.id ≡ c.draft.id = ground arith in
                    let after : Db = record db {
                      drafts =
                          update_row (λ e. e.id == d.id && is_draft_queued e.status)
                            (run_draft worker lease now) db.drafts;
                    } in
                    let mine : find_row (λ e. e.id == d.id)
                          (rows_where (λ e. e.survey_id == c.draft.survey_id) db.drafts)
                        ≡ some d =
                      subst
                        (λ m.
                          find_row (λ e. e.id == m)
                            (rows_where (λ e. e.survey_id == c.draft.survey_id) db.drafts)
                          ≡ some d)
                        (sym key) there in
                    run_draft-History c.draft.survey_id d.id worker lease now db after h mine waits
                      refl (same-KeepsSurveys db after refl))
              ])
    ]

or_else-History :
    (o : Option (ℕ × Db)) (rest : Result Error (Option (ℕ × Db)))
    → ClaimedHistory o
    → Ensures ClaimedHistory rest
    → Ensures ClaimedHistory (or_else o rest)
or_else-History none rest h k = k
or_else-History (some r) rest h k = h

claim_drafts-History :
    (worker lease per_user now : ℕ) (cs : List DraftCandidate) (db : Db)
    → History db
    → Ensures ClaimedHistory (claim_drafts worker lease per_user now cs db)
unfolding claim_drafts
claim_drafts-History worker lease per_user now [] db h = tt
claim_drafts-History worker lease per_user now (c ∷ cs) db h =
    let rest = claim_drafts-History worker lease per_user now cs db h in
    Ensures-bind ClaimedHistory (lock_survey_aggregate c.draft.survey_id none db) _ (λ found at.
      let lock =
        Ensures-at (Locks c.draft.survey_id none db) _
          (lock_survey_aggregate-Locks c.draft.survey_id none db) at in
      or_else-History _ _ (claim_draft_found-History worker lease per_user now c found db h lock)
        rest)

pub claim_survey_draft-History :
    (worker lease global per_user now : ℕ) (db : Db)
    → History db
    → Ensures ClaimedHistory (claim_survey_draft worker lease global per_user now db)
unfolding claim_survey_draft
claim_survey_draft-History worker lease global per_user now db h =
    elim (Bool-cases (leb global (length (rows_where (is_draft_leased now) db.drafts)))) [
      | inl full ↦ rw full tt
      | inr room ↦ rw room (claim_drafts-History worker lease per_user now _ db h)
    ]

-- A lease of a running draft is renewed.
pub beat_draft-History :
    (p : Draft → Bool) (lease now : ℕ) (db after : Db) {x : Draft}
    → History db
    → find_row p db.drafts ≡ some x
    → is_draft_running x.status ≡ true
    → after.drafts ≡ update_row p (beat_draft lease now) db.drafts
    → KeepsSurveys db after
    → History after
beat_draft-History p lease now db after {x} h found runs same keeps =
    let was = running-active x.status runs in
    Quiet-History db after p (beat_draft lease now) h found same keeps was.0
      (record { id = refl; survey = refl; unready = was.0; active = λ e. was.1 })
      (let tame : is_wild (beat_draft lease now x) ≡ false = ground arith in tame)

pub heartbeat_survey_draft-History :
    (draft_id worker lease now : ℕ) (db : Db)
    → History db
    → History (heartbeat_survey_draft draft_id worker lease now db).1
unfolding heartbeat_survey_draft
heartbeat_survey_draft-History draft_id worker lease now db h =
    elim (Option-cases (find_row (holds_draft draft_id worker) db.drafts)) [
      | inl missing ↦ rw (heartbeat_survey_draft, missing) h
      | inr (d, found) ↦
          rw (heartbeat_survey_draft, found)
            (let mine = find_row-holds (holds_draft draft_id worker) db.drafts found in
              let runs : is_draft_running d.status ≡ true = ground arith in
              let after : Db = record db {
                drafts = update_row (holds_draft draft_id worker) (beat_draft lease now) db.drafts;
              } in
              beat_draft-History (holds_draft draft_id worker) lease now db after h found runs refl
                (same-KeepsSurveys db after refl))
    ]
