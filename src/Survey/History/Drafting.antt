-- ===== src/Survey/History/Drafting.antt =====
-- New drafts and the end of a draft keep the history.
use mathlib.Core.Path.{subst}
use scholight.Prelude.{
  ℕ, ◌≡◌, refl, sym, ◌∙◌, ap, Bool, true, false, not, Option, none, some, ◌∷◌, ◌==◌, leb, arith,
  any, leb→le, Option-cases, inl, inr,
}
use scholight.Prelude.Text.{Text, text_eq}
use scholight.Prelude.Result.{
  Result, ◌>>◌, require, Ensures, Ensures-bind, Ensures-require, Ensures-at,
}
use scholight.Prelude.Rows.{find_row, rows_where, update_row}
use scholight.Prelude.Keys.{row_count}
use scholight.Survey.Tables.{Draft, Db, Error, Locked, is_null, survey_not_found}
use scholight.Survey.Lifecycle.{in_progress, fresh_draft}
use scholight.Survey.Drafts.{
  create_manual_draft, manual_locked, manual_draft, request_generated_draft, request_locked,
  same_request, require_editable, add_draft, complete_survey_draft, complete_draft,
  fail_survey_draft, fail_draft, lock_draft, latest_revision, next_revision,
}
use scholight.Survey.Drafts.Revisions.{latest_of, lock_draft-Held, Held, running_unready}
use scholight.Survey.Ledger.Locks.{LockedOf, Ensures-locked}
use scholight.Survey.History.Numbers.{Numbered, is_active}
use scholight.Survey.History.Inserts.{queued-Numbered, written-Numbered}
use scholight.Survey.History.States.{
  History, same-KeepsSurveys, inserted-History, found-known, idle-count, Quiet-History,
  ready-History,
}

-- A transaction keeps the history.
abbrev pub KeepsHistory : {A : Type 0} → Result Error (A × Db) → Type 0
KeepsHistory r = Ensures (λ p. History p.1) r

both_required :
    {B : Type 0} (P : B → Type 0) (a b : Bool) (e f : Error) (k : Result Error B)
    → (a ≡ true → b ≡ true → Ensures P k)
    → Ensures P ((require a e >> require b f) >> k)
unfolding ◌>>◌ require
both_required P true true e f k h = h refl refl
both_required P true false e f k h = tt
both_required P false b e f k h = tt

same_request-KeepsHistory :
    (existing : Draft) (hash : Text) (db : Db)
    → History db
    → KeepsHistory (same_request existing hash db)
unfolding same_request
same_request-KeepsHistory existing hash db h =
    Ensures-require (λ p. History p.1) (text_eq existing.request_hash hash) _ _ (λ same. h)

module _ (survey_id : ℕ) (user : Option ℕ) (db : Db) (l : Locked) (h : History db)
    (lock : LockedOf survey_id user db l) where
  own_known : (k : ℕ) → find_row (λ s. s.id == k) db.surveys ≡ none → (l.survey.id == k) ≡ false
  own_known =
      let there : find_row (λ s. s.id == l.survey.id) db.surveys ≡ some l.survey =
        subst (λ m. find_row (λ s. s.id == m) db.surveys ≡ some l.survey) (sym lock.same_id)
          lock.found in
      found-known db l.survey.id there

  own_latest : latest_revision l.drafts ≡ latest_of l.survey.id db.drafts
  own_latest =
      ap latest_revision lock.draft_rows ∙ ap (λ k. latest_of k db.drafts) (sym lock.same_id)

  own_idle :
      not (any (λ d. in_progress d.status) l.drafts) ≡ true
      → row_count (is_active l.survey.id) db.drafts ≡ 0
  own_idle idle =
      let none_here : any (λ d. in_progress d.status)
            (rows_where (λ d. d.survey_id == survey_id) db.drafts)
          ≡ false =
        rw (sym lock.draft_rows) (ground arith) in
      rw lock.same_id (idle-count survey_id db.drafts none_here)

  -- A draft that is added under the lock.
  add_draft-KeepsHistory :
      (d : Draft)
      → d.survey_id ≡ l.survey.id
      → is_null d.lease_owner ≡ true
      → (find_row (λ e. e.id == d.id) db.drafts ≡ none → Numbered (d ∷ db.drafts))
      → KeepsHistory (add_draft d db)
  unfolding add_draft
  add_draft-KeepsHistory d own free numbered =
      Ensures-require (λ p. History p.1) (is_null (find_row (λ e. e.id == d.id) db.drafts)) _ _
        (λ fresh.
          inserted-History db (record db { drafts = d ∷ db.drafts }) d h refl (rw free refl)
            (λ k gone. rw own (own_known k gone))
            (same-KeepsSurveys db (record db { drafts = d ∷ db.drafts }) refl)
            (numbered (no_row _ fresh)))
    where
      no_row : (o : Option Draft) → is_null o ≡ true → o ≡ none
      no_row none e = refl
      no_row (some a) e = cc

pub request_generated_draft-KeepsHistory :
    (survey_id user draft_id client : ℕ) (hash : Text) (now : ℕ) (db : Db)
    → History db
    → KeepsHistory (request_generated_draft survey_id user draft_id client hash now db)
unfolding request_generated_draft request_locked require_editable
request_generated_draft-KeepsHistory survey_id user draft_id client hash now db h =
    let P : Draft × Db → Type 0 = λ p. History p.1 in
    Ensures-locked P survey_id (some user) db survey_not_found _ (λ l lock.
      elim (Option-cases (find_row (λ d. d.client_request_id == client) l.drafts)) [
        | inr (existing, old) ↦
            rw (request_locked, old) (same_request-KeepsHistory existing hash db h)
        | inl new ↦
            rw (request_locked, new)
              (both_required P _ _ _ _ _ (λ open_survey idle. Ensures-require P _ _ _ (λ room.
                let d =
                  fresh_draft draft_id l.survey.id client hash (latest_revision l.drafts) now in
                add_draft-KeepsHistory survey_id (some user) db l h lock d refl refl (λ fresh.
                  queued-Numbered d db.drafts h.numbered refl fresh
                    (own_idle survey_id (some user) db l h lock idle)))))
      ])

pub create_manual_draft-KeepsHistory :
    (survey_id user draft_id client : ℕ) (hash markdown : Text) (now : ℕ) (db : Db)
    → History db
    → KeepsHistory (create_manual_draft survey_id user draft_id client hash markdown now db)
unfolding create_manual_draft manual_locked require_editable
create_manual_draft-KeepsHistory survey_id user draft_id client hash markdown now db h =
    let P : Draft × Db → Type 0 = λ p. History p.1 in
    Ensures-locked P survey_id (some user) db survey_not_found _ (λ l lock.
      elim (Option-cases (find_row (λ d. d.client_request_id == client) l.drafts)) [
        | inr (existing, old) ↦
            rw (manual_locked, old) (same_request-KeepsHistory existing hash db h)
        | inl new ↦
            rw (manual_locked, new)
              (both_required P _ _ _ _ _ (λ open_survey idle.
                Ensures-require P (leb (next_revision (latest_revision l.drafts)) 10) _ _ (λ room.
                  let latest = own_latest survey_id (some user) db l h lock in
                  let d =
                    manual_draft draft_id l.survey.id client hash markdown
                      (latest_revision l.drafts) now in
                  add_draft-KeepsHistory survey_id (some user) db l h lock d refl refl (λ fresh.
                    written-Numbered d db.drafts h.numbered
                      (record {
                        ready = refl;
                        number = ap (λ o. some (next_revision o)) latest;
                        small = rw (sym latest) (leb→le _ _ room);
                      })
                      fresh))))
      ])

pub complete_survey_draft-KeepsHistory :
    (draft_id worker : ℕ) (markdown : Text) (now : ℕ) (db : Db)
    → History db
    → KeepsHistory (complete_survey_draft draft_id worker markdown now db)
unfolding complete_survey_draft
complete_survey_draft-KeepsHistory draft_id worker markdown now db h =
    let P : Draft × Db → Type 0 = λ p. History p.1 in
    Ensures-bind P (lock_draft draft_id worker db) _ (λ (mine, l) at.
      let held = Ensures-at (Held draft_id db) _ (lock_draft-Held draft_id worker db) at in
      let latest : latest_revision l.drafts ≡ latest_of mine.survey_id db.drafts =
        ap latest_revision held.drafts in
      Ensures-require P _ _ _ (λ open_survey. Ensures-require P _ _ _ (λ based.
        Ensures-require P (leb (next_revision (latest_revision l.drafts)) 10) _ _ (λ room.
          let f = complete_draft (next_revision (latest_revision l.drafts)) markdown now in
          let after : Db = record db { drafts = update_row (λ d. d.id == draft_id) f db.drafts } in
          ready-History db after (λ d. d.id == draft_id) f h held.row refl
            (same-KeepsSurveys db after refl) (running_unready mine.status held.runs)
            (λ d. (
              refl,
              refl,
              record {
                ready = refl;
                number = ap (λ o. some (next_revision o)) latest;
                small = rw (sym latest) (leb→le _ _ room);
              },
            ))
            refl))))

pub fail_survey_draft-KeepsHistory :
    (draft_id worker : ℕ) (code : Text) (now : ℕ) (db : Db)
    → History db
    → KeepsHistory (fail_survey_draft draft_id worker code now db)
unfolding fail_survey_draft
fail_survey_draft-KeepsHistory draft_id worker code now db h =
    let P : Draft × Db → Type 0 = λ p. History p.1 in
    Ensures-bind P (lock_draft draft_id worker db) _ (λ (mine, l) at.
      let held = Ensures-at (Held draft_id db) _ (lock_draft-Held draft_id worker db) at in
      let after : Db = record db {
        drafts = update_row (λ d. d.id == draft_id) (fail_draft (some code) now) db.drafts;
      } in
      Quiet-History db after (λ d. d.id == draft_id) (fail_draft (some code) now) h held.row refl
        (same-KeepsSurveys db after refl) (running_unready mine.status held.runs)
        (record { id = refl; survey = refl; unready = refl; active = λ e. cc }) refl)
