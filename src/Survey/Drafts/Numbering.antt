-- ===== src/Survey/Drafts/Numbering.antt =====
-- A draft that becomes ready is the next revision of its survey.
use scholight.Prelude.{
  ℕ, ◌≡◌, ◌⊎◌, refl, sym, ◌∙◌, ap, some, ◌==◌, ==_iff, ==_refl, arith, Option-cases, inl, inr,
}
use mathlib.Core.Path.{subst}
use scholight.Prelude.Text.{Text, text_eq}
use scholight.Prelude.Result.{Ensures, Ensures-bind, Ensures-require, Ensures-after, Ensures-at}
use scholight.Prelude.Rows.{find_row, update_row, find_row-holds}
use scholight.Prelude.Keys.{find_row-update_row}
use scholight.Survey.Tables.{Draft, Db, survey_not_found}
use scholight.Survey.Drafts.{
  create_manual_draft, manual_locked, same_request, require_editable, add_draft,
  complete_survey_draft, complete_draft, lock_draft, max_revision, latest_revision, next_revision,
}
use scholight.Survey.Ledger.Locks.{Ensures-locked}
use scholight.Survey.Drafts.Revisions.{
  latest_of, Numbers, max_revision_next, latest_revision-update_row, Held, lock_draft-Held,
  running_unready, same_base-eq,
}

-- A draft that a worker completes is the next revision of its survey, one more than the latest and of
-- at most ten; it was written on the latest one; and it is stored, and is then the latest.
pub complete_survey_draft-Numbers :
    (draft_id worker : ℕ) (markdown : Text) (now : ℕ) (db : Db)
    → Ensures (Numbers db) (complete_survey_draft draft_id worker markdown now db)
unfolding complete_survey_draft
complete_survey_draft-Numbers draft_id worker markdown now db =
    let P : Draft × Db → Type 0 = Numbers db in
    Ensures-bind P (lock_draft draft_id worker db) _ (λ (mine, l) at.
      let held = Ensures-at (Held draft_id db) _ (lock_draft-Held draft_id worker db) at in
      let latest : latest_revision l.drafts ≡ latest_of mine.survey_id db.drafts =
        ap latest_revision held.drafts in
      let number = next_revision (latest_revision l.drafts) in
      let own : mine.id ≡ draft_id =
        (==_iff mine.id draft_id).0 (find_row-holds (λ d. d.id == draft_id) db.drafts held.row) in
      let lookup =
        find_row-update_row (λ d. d.id) draft_id draft_id (complete_draft number markdown now)
          db.drafts (λ d. refl) held.row in
      let there = rw (==_refl draft_id) at lookup in
      Ensures-require P _ _ _ (λ open_survey. Ensures-require P _ _ _ (λ based.
        Ensures-require P _ _ _ (λ room. record {
          number = ap (λ o. some (next_revision o)) latest;
          small = rw (sym latest) (ground arith);
          base = same_base-eq mine.based_on_revision (latest_revision l.drafts) based ∙ latest;
          latest =
              latest_revision-update_row (λ d. d.id == draft_id)
                (λ d. d.survey_id == mine.survey_id) (complete_draft number markdown now) number
                db.drafts held.row (==_refl mine.survey_id) (running_unready mine.status held.runs)
                (λ d. (refl, refl, refl))
              ∙ ap (max_revision (some number)) (sym latest)
              ∙ max_revision_next (latest_revision l.drafts);
          found =
              subst
                (λ k.
                  find_row (λ d. d.id == k)
                    (update_row (λ d. d.id == draft_id) (complete_draft number markdown now)
                      db.drafts)
                  ≡ some (complete_draft number markdown now mine))
                (sym own) there;
        }))))

-- A manual draft that is created is the next revision of its survey, one more than the latest and of at
-- most ten; it is based on the latest one; and it is stored, and is then the latest. Otherwise nothing is
-- written.
create_manual_draft-Numbers :
    (survey_id user draft_id client : ℕ) (hash markdown : Text) (now : ℕ) (db : Db)
    → Ensures
        (λ r. (r.1 ≡ db) ⊎ Numbers db r)
        (create_manual_draft survey_id user draft_id client hash markdown now db)
unfolding create_manual_draft manual_locked same_request add_draft
create_manual_draft-Numbers survey_id user draft_id client hash markdown now db =
    let P : Draft × Db → Type 0 = λ r. (r.1 ≡ db) ⊎ Numbers db r in
    Ensures-locked P survey_id (some user) db survey_not_found _ (λ l lock.
      elim (Option-cases (find_row (λ d. d.client_request_id == client) l.drafts)) [
        | inr (existing, old) ↦
            rw (manual_locked, old)
              (Ensures-require P (text_eq existing.request_hash hash) _ _ (λ h. inl refl))
        | inl new ↦
            rw (manual_locked, new)
              (let latest : latest_revision l.drafts ≡ latest_of l.survey.id db.drafts =
                  ap latest_revision lock.draft_rows
                  ∙ ap (λ k. latest_of k db.drafts) (sym lock.same_id) in
                Ensures-after P (require_editable l) _ (
                  Ensures-require P _ _ _ (λ room. Ensures-require P _ _ _ (λ free. inr (record {
                    number = ap (λ o. some (next_revision o)) latest;
                    small = rw (sym latest) (ground arith);
                    base = latest;
                    latest = rw (==_refl l.survey.id) (
                        ap (max_revision (some (next_revision (latest_revision l.drafts))))
                          (sym latest)
                        ∙ max_revision_next (latest_revision l.drafts));
                    found = rw (==_refl draft_id) refl;
                  })))))
      ])
