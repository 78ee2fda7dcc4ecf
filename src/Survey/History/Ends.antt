-- ===== src/Survey/History/Ends.antt =====
-- The request, the cancellation and the deletion of a survey keep the history.
use scholight.Prelude.{
  ℕ, ◌≡◌, refl, sym, ◌∙◌, ap, Bool, true, false, ◌&&◌, Option, none, some, ◌∷◌, ◌==◌, arith,
  Bool-cases, Option-cases, inl, inr,
}
use scholight.Prelude.Text.{Text, text_eq}
use scholight.Prelude.Result.{ok, err, Ensures, Ensures-if, Ensures-or_raise, Ensures-require}
use scholight.Prelude.Rows.{find_row, update_row, update_rows}
use scholight.Prelude.Keys.{row_count, find_row-update_row}
use scholight.Survey.Tables.{
  DraftStatus, draft_queued, draft_running, draft_ready, draft_failed, draft_cancelled, Survey, Job,
  Draft, Db, Error, is_null, of_usage,
}
use scholight.Survey.Lifecycle.{
  create_survey, create_with, fresh_survey, fresh_draft, with_usage, is_ready, in_progress,
  is_job_queued,
}
use scholight.Survey.Cancel.{cancel_drafts, drop_lease, without_job, delete_job}
use scholight.Survey.History.Numbers.{is_active, bit}
use scholight.Survey.History.Inserts.{queued-Numbered}
use scholight.Survey.History.Bulk.{all-Quiet-Numbered, update_rows-le, update_rows-same}
use scholight.Survey.History.States.{
  History, KeepsSurveys, written-History, inserted-History, is_wild, row_count-and,
}
use scholight.Survey.History.Drafting.{KeepsHistory}

is_null-none : {A : Type 0} (o : Option A) → is_null o ≡ true → o ≡ none
is_null-none none e = refl
is_null-none (some a) e = cc

usage_written-History :
    (user date : ℕ) (db : Db)
    → History db
    → History (record db { usages = with_usage user date db.usages })
usage_written-History user date db h = record {
  numbered = h.numbered;
  owned = h.owned;
  held = h.held;
}

create_with-KeepsHistory :
    (survey_id draft_id user client : ℕ) (hash : Text) (date limit now : ℕ) (db : Db)
    → History db
    → KeepsHistory (create_with survey_id draft_id user client hash date limit now db)
unfolding create_with
create_with-KeepsHistory survey_id draft_id user client hash date limit now db h =
    let P : Survey × Db → Type 0 = λ p. History p.1 in
    elim (Option-cases
      (find_row (λ s. s.user_id == user && s.client_request_id == client) db.surveys)) [
        | inr (existing, old) ↦
            rw (create_with, old)
              (Ensures-require P (text_eq existing.request_hash hash) _ _ (λ same. h))
        | inl new ↦
            rw (create_with, new)
              (Ensures-or_raise P (find_row (of_usage user date) db.usages) _ _ (λ usage at.
                Ensures-require P _ _ _ (λ room.
                  Ensures-require P (is_null (find_row (λ s. s.id == survey_id) db.surveys)) _ _
                    (λ free.
                      Ensures-require P (is_null (find_row (λ d. d.id == draft_id) db.drafts)) _ _
                        (λ free_draft.
                          requested survey_id draft_id user client hash date now db _ h refl refl
                            (is_null-none _ free) (is_null-none _ free_draft))))))
      ]
  where
    requested :
        (survey_id draft_id user client : ℕ) (hash : Text) (date now : ℕ) (db after : Db)
        → History db
        → after.drafts ≡ fresh_draft draft_id survey_id client hash none now ∷ db.drafts
        → after.surveys ≡ fresh_survey survey_id user client hash date now ∷ db.surveys
        → find_row (λ s. s.id == survey_id) db.surveys ≡ none
        → find_row (λ d. d.id == draft_id) db.drafts ≡ none
        → History after
    requested survey_id draft_id user client hash date now db after h drafts surveys free
          free_draft =
        let d = fresh_draft draft_id survey_id client hash none now in
        let s = fresh_survey survey_id user client hash date now in
        let gone : (k : ℕ)
            → find_row (λ t. t.id == k) (s ∷ db.surveys) ≡ none
            → ((survey_id == k) ≡ false) × (find_row (λ t. t.id == k) db.surveys ≡ none) =
          λ k e. elim (Bool-cases (survey_id == k)) [
            | inl one ↦ let there : some s ≡ none = simp one at e in cc
            | inr two ↦ (two, simp two at e)
          ] in
        let idle : row_count (is_active survey_id) db.drafts ≡ 0 =
          let most =
            row_count-and (λ e. e.survey_id == survey_id) (λ e. in_progress e.status) db.drafts in
          let no_drafts = h.owned survey_id free in omega (arith, most, no_drafts) in
        let at : (k : ℕ)
            → find_row (λ t. t.id == k) after.surveys ≡ none
            → find_row (λ t. t.id == k) (s ∷ db.surveys) ≡ none =
          λ k e. ap (find_row (λ t. t.id == k)) (sym surveys) ∙ e in
        inserted-History db after d h drafts refl (λ k e. (gone k (at k e)).0)
          (λ k e. (gone k (at k e)).1) (queued-Numbered d db.drafts h.numbered refl free_draft idle)

pub create_survey-KeepsHistory :
    (survey_id draft_id user client : ℕ) (hash : Text) (date limit now : ℕ) (db : Db)
    → History db
    → KeepsHistory (create_survey survey_id draft_id user client hash date limit now db)
unfolding create_survey
create_survey-KeepsHistory survey_id draft_id user client hash date limit now db h =
    create_with-KeepsHistory survey_id draft_id user client hash date limit now _
      (usage_written-History user date db h)

active-unready : (s : DraftStatus) → in_progress s ≡ true → is_ready s ≡ false
active-unready draft_queued h = refl
active-unready draft_running h = refl
active-unready draft_ready h = cc
active-unready draft_failed h = refl
active-unready draft_cancelled h = refl

-- The drafts in progress of a survey are cancelled.
pub cancelled-History :
    (m now : ℕ) (db after : Db)
    → History db
    → after.drafts ≡ cancel_drafts m now db.drafts
    → KeepsSurveys db after
    → History after
cancelled-History m now db after h same keeps =
    let p : Draft → Bool = λ d. d.survey_id == m && in_progress d.status in
    let f : Draft → Draft = drop_lease draft_cancelled now in
    written-History db after (update_rows p f db.drafts) same
      (all-Quiet-Numbered p f db.drafts h.numbered (λ d hit.
        let active : in_progress d.status ≡ true = ground arith in
        (
          active-unready d.status active,
          record { id = refl; survey = refl; unready = refl; active = λ e. cc },
        )))
      (λ k gone.
        let kept = update_rows-same (λ d. bit (d.survey_id == k)) p f db.drafts (λ d hit. refl) in
        let was = h.owned k (keeps k gone) in omega (arith, kept, was))
      (let less = update_rows-le (λ d. bit (is_wild d)) p f db.drafts (λ d hit. omega arith) in
        let was = h.held in omega (arith, less, was))

abbrev pub Untouched : Db → Db → Type 0
Untouched db c = (c.drafts ≡ db.drafts) × (c.surveys ≡ db.surveys)

pub without_job-Untouched :
    (job : Option Job) (e : Error) (db : Db) → Ensures (Untouched db) (without_job job e db)
unfolding without_job
without_job-Untouched none e db = (refl, refl)
without_job-Untouched (some job) e db =
    Ensures-if (Untouched db) (is_job_queued job.status) (ok (delete_job job.id db)) (err e)
      (λ h. (refl, refl)) (λ h. tt)

-- An update of a survey leaves it in the table.
pub updated-KeepsSurveys :
    (db after : Db) (m : ℕ) (f : Survey → Survey) {x : Survey}
    → ((s : Survey) → (f s).id ≡ s.id)
    → find_row (λ s. s.id == m) db.surveys ≡ some x
    → after.surveys ≡ update_row (λ s. s.id == m) f db.surveys
    → KeepsSurveys db after
updated-KeepsSurveys db after m f {x} same found written k gone =
    let at = find_row-update_row (λ s. s.id) m k f db.surveys same found in
    let missing : find_row (λ s. s.id == k) (update_row (λ s. s.id == m) f db.surveys) ≡ none =
      ap (find_row (λ s. s.id == k)) (sym written) ∙ gone in
    elim (Bool-cases (m == k)) [
      | inl one ↦ let there : none ≡ some (f x) = sym missing ∙ (rw one at at) in cc
      | inr two ↦
          let there : none ≡ find_row (λ s. s.id == k) db.surveys = sym missing ∙ (rw two at at) in
          sym there
    ]
