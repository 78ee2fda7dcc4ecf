-- ===== src/Survey/History/Recovering.antt =====
-- The recovery of expired drafts keeps the invariant of the drafts.
use scholight.Survey.History.Leasing.{running-active}
use scholight.Prelude.{
  ℕ, ◌≡◌, refl, sym, ◌∙◌, ap, true, ◌&&◌, Option, none, some, List, [], ◌∷◌, ◌==◌, arith,
  Bool-cases, Option-cases, inl, inr,
}
use scholight.Prelude.Result.{Ensures-bind, Ensures-at}
use scholight.Prelude.Rows.{find_row, rows_where, update_row}
use scholight.Survey.Tables.{Draft, Db, Locked, lock_survey_aggregate, due}
use scholight.Survey.Recover.{worker_lost_code}
use scholight.Survey.Drafts.{is_draft_running, fail_draft}
use scholight.Survey.Drafts.Leases.{
  recover_draft_found, recover_drafts, recover_expired_survey_drafts, expired_drafts,
}
use scholight.Survey.Ledger.Locks.{Locks, lock_survey_aggregate-Locks}
use scholight.Survey.History.States.{History, same-KeepsSurveys, Quiet-History, any_row}
use scholight.Survey.History.Drafting.{KeepsHistory}

recover_draft_found-History :
    (survey_id draft_id now : ℕ) (found : Option Locked) (db : Db)
    → History db
    → Locks survey_id none db found
    → History (recover_draft_found found draft_id now db).1
unfolding recover_draft_found
recover_draft_found-History survey_id draft_id now none db h lock = h
recover_draft_found-History survey_id draft_id now (some l) db h lock =
    elim (Option-cases (find_row (λ d. d.id == draft_id) l.drafts)) [
      | inl gone ↦ rw (recover_draft_found, gone) h
      | inr (d, at) ↦
          rw (recover_draft_found, at)
            (elim (Bool-cases (is_draft_running d.status && due d.lease_expires_at now)) [
              | inr alive ↦ rw alive h
              | inl expired ↦ rw expired (
                  let runs : is_draft_running d.status ≡ true = ground arith in
                  let there : find_row (λ e. e.id == draft_id)
                        (rows_where (λ e. e.survey_id == survey_id) db.drafts)
                      ≡ some d =
                    ap (find_row (λ e. e.id == draft_id)) (sym lock.draft_rows) ∙ at in
                  let row = any_row survey_id draft_id db.drafts h.numbered there in
                  let after : Db = record db {
                    drafts =
                        update_row (λ e. e.id == draft_id) (fail_draft worker_lost_code now)
                          db.drafts;
                  } in
                  Quiet-History db after (λ e. e.id == draft_id) (fail_draft worker_lost_code now) h
                    row refl (same-KeepsSurveys db after refl) (running-active d.status runs).0
                    (record { id = refl; survey = refl; unready = refl; active = λ e. cc }) refl)
            ])
    ]

recover_drafts-KeepsHistory :
    (ds : List Draft) (recovered now : ℕ) (db : Db)
    → History db
    → KeepsHistory (recover_drafts ds recovered now db)
unfolding recover_drafts
recover_drafts-KeepsHistory [] recovered now db h = h
recover_drafts-KeepsHistory (d ∷ ds) recovered now db h =
    Ensures-bind (λ p. History p.1) (lock_survey_aggregate d.survey_id none db) _
      (λ found at.
        let lock =
          Ensures-at (Locks d.survey_id none db) _ (lock_survey_aggregate-Locks d.survey_id none db)
            at in
        recover_drafts-KeepsHistory ds _ now _
          (recover_draft_found-History d.survey_id d.id now found db h lock))

pub recover_expired_survey_drafts-KeepsHistory :
    (limit now : ℕ) (db : Db)
    → History db
    → KeepsHistory (recover_expired_survey_drafts limit now db)
unfolding recover_expired_survey_drafts
recover_expired_survey_drafts-KeepsHistory limit now db h =
    recover_drafts-KeepsHistory (expired_drafts limit now db.drafts) 0 now db h
