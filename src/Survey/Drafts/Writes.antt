-- ===== src/Survey/Drafts/Writes.antt =====
-- The transactions of drafts write the drafts only.
use scholight.Prelude.{
  ℕ, ◌≡◌, refl, ◌∙◌, ◌&&◌, Option, none, some, List, [], ◌∷◌, ◌==◌, ltb, leb, Option-cases,
  Bool-cases, inl, inr, length,
}
use scholight.Prelude.Text.{Text, text_eq}
use scholight.Prelude.Result.{
  Result, Ensures, Ensures-bind, Ensures-or_raise, Ensures-require, Ensures-after,
}
use scholight.Prelude.Rows.{find_row, rows_where}
use scholight.Survey.Tables.{Draft, Db, Error, Locked, lock_survey_aggregate, is_null, due}
use scholight.Survey.Lifecycle.{is_drafting}
use scholight.Survey.Drafts.{
  request_generated_draft, request_locked, create_manual_draft, manual_locked, same_request,
  require_editable, add_draft, complete_survey_draft, fail_survey_draft, lock_draft,
  is_draft_running,
}
use scholight.Survey.Drafts.Claim.{
  claim_survey_draft, claim_drafts, claim_draft_found, or_else, DraftCandidate, is_draft_leased,
  is_draft_queued, leased_drafts_of,
}
use scholight.Survey.Drafts.Leases.{
  heartbeat_survey_draft, holds_draft, recover_draft_found, recover_drafts,
  recover_expired_survey_drafts, expired_drafts,
}

-- The tables but for the drafts are the same.
pub record DraftsOnly (db after : Db) : Type 0 where
  pub overrides : after.overrides ≡ db.overrides
  pub usages : after.usages ≡ db.usages
  pub surveys : after.surveys ≡ db.surveys
  pub jobs : after.jobs ≡ db.jobs

same-DraftsOnly : (db : Db) → DraftsOnly db db
same-DraftsOnly db = record { overrides = refl; usages = refl; surveys = refl; jobs = refl }

drafts-DraftsOnly : (db : Db) (ds : List Draft) → DraftsOnly db (record db { drafts = ds })
drafts-DraftsOnly db ds = record { overrides = refl; usages = refl; surveys = refl; jobs = refl }

abbrev pub WritesDrafts : Db → {A : Type 0} → Result Error (A × Db) → Type 0
WritesDrafts db r = Ensures (λ p. DraftsOnly db p.1) r

same_request-WritesDrafts :
    (existing : Draft) (hash : Text) (db : Db) → WritesDrafts db (same_request existing hash db)
unfolding same_request
same_request-WritesDrafts existing hash db =
    Ensures-require (λ p. DraftsOnly db p.1) (text_eq existing.request_hash hash) _ _
      (λ h. same-DraftsOnly db)

add_draft-WritesDrafts : (d : Draft) (db : Db) → WritesDrafts db (add_draft d db)
unfolding add_draft
add_draft-WritesDrafts d db =
    Ensures-require (λ p. DraftsOnly db p.1) (is_null (find_row (λ e. e.id == d.id) db.drafts)) _ _
      (λ h. drafts-DraftsOnly db (d ∷ db.drafts))

pub request_generated_draft-WritesDrafts :
    (survey_id user draft_id client : ℕ) (hash : Text) (now : ℕ) (db : Db)
    → WritesDrafts db (request_generated_draft survey_id user draft_id client hash now db)
unfolding request_generated_draft request_locked
request_generated_draft-WritesDrafts survey_id user draft_id client hash now db =
    let P : Draft × Db → Type 0 = λ p. DraftsOnly db p.1 in
    Ensures-bind P (lock_survey_aggregate survey_id (some user) db) _ (λ found at.
      Ensures-or_raise P found _ _ (λ l is.
        elim (Option-cases (find_row (λ d. d.client_request_id == client) l.drafts)) [
          | inr (existing, old) ↦
              rw (request_locked, old) (same_request-WritesDrafts existing hash db)
          | inl new ↦
              rw (request_locked, new)
                (Ensures-after P (require_editable l) _
                  (Ensures-require P _ _ _ (λ room. add_draft-WritesDrafts _ db)))
        ]))

pub create_manual_draft-WritesDrafts :
    (survey_id user draft_id client : ℕ) (hash markdown : Text) (now : ℕ) (db : Db)
    → WritesDrafts db (create_manual_draft survey_id user draft_id client hash markdown now db)
unfolding create_manual_draft manual_locked
create_manual_draft-WritesDrafts survey_id user draft_id client hash markdown now db =
    let P : Draft × Db → Type 0 = λ p. DraftsOnly db p.1 in
    Ensures-bind P (lock_survey_aggregate survey_id (some user) db) _ (λ found at.
      Ensures-or_raise P found _ _ (λ l is.
        elim (Option-cases (find_row (λ d. d.client_request_id == client) l.drafts)) [
          | inr (existing, old) ↦
              rw (manual_locked, old) (same_request-WritesDrafts existing hash db)
          | inl new ↦
              rw (manual_locked, new)
                (Ensures-after P (require_editable l) _
                  (Ensures-require P _ _ _ (λ room. add_draft-WritesDrafts _ db)))
        ]))

pub complete_survey_draft-WritesDrafts :
    (draft_id worker : ℕ) (markdown : Text) (now : ℕ) (db : Db)
    → WritesDrafts db (complete_survey_draft draft_id worker markdown now db)
unfolding complete_survey_draft
complete_survey_draft-WritesDrafts draft_id worker markdown now db =
    let P : Draft × Db → Type 0 = λ p. DraftsOnly db p.1 in
    Ensures-bind P (lock_draft draft_id worker db) _ (λ (mine, l) at.
      Ensures-require P _ _ _
        (λ a. Ensures-require P _ _ _ (λ b. Ensures-require P _ _ _ (λ c. drafts-DraftsOnly db _))))

pub fail_survey_draft-WritesDrafts :
    (draft_id worker : ℕ) (code : Text) (now : ℕ) (db : Db)
    → WritesDrafts db (fail_survey_draft draft_id worker code now db)
unfolding fail_survey_draft
fail_survey_draft-WritesDrafts draft_id worker code now db =
    Ensures-bind (λ p. DraftsOnly db p.1) (lock_draft draft_id worker db) _
      (λ owner at. drafts-DraftsOnly db _)

-- The tables after a claim, which may find no draft.
abbrev pub Claimed : Db → Option (ℕ × Db) → Type 0
Claimed db none = Unit
Claimed db (some r) = DraftsOnly db r.1

claim_draft_found-Claimed :
    (worker lease per_user now : ℕ) (c : DraftCandidate) (found : Option Locked) (db : Db)
    → Claimed db (claim_draft_found worker lease per_user now c found db)
unfolding claim_draft_found
claim_draft_found-Claimed worker lease per_user now c none db = tt
claim_draft_found-Claimed worker lease per_user now c (some l) db =
    elim (Option-cases (find_row (λ d. d.id == c.draft.id) l.drafts)) [
      | inl gone ↦ rw (claim_draft_found, gone) tt
      | inr (d, at) ↦
          rw (claim_draft_found, at)
            (elim (Bool-cases (
              is_drafting l.survey.status
              && is_draft_queued d.status
              && ltb (leased_drafts_of c.user_id now db) per_user)) [
                | inl free ↦ rw free (drafts-DraftsOnly db _)
                | inr busy ↦ rw busy tt
              ])
    ]

or_else-Claimed :
    (db : Db) (o : Option (ℕ × Db)) (rest : Result Error (Option (ℕ × Db)))
    → Claimed db o
    → Ensures (Claimed db) rest
    → Ensures (Claimed db) (or_else o rest)
or_else-Claimed db none rest h k = k
or_else-Claimed db (some r) rest h k = h

claim_drafts-Claimed :
    (worker lease per_user now : ℕ) (cs : List DraftCandidate) (db : Db)
    → Ensures (Claimed db) (claim_drafts worker lease per_user now cs db)
unfolding claim_drafts
claim_drafts-Claimed worker lease per_user now [] db = tt
claim_drafts-Claimed worker lease per_user now (c ∷ cs) db =
    Ensures-bind (Claimed db) (lock_survey_aggregate c.draft.survey_id none db) _ (λ found at.
      or_else-Claimed db _ _ (claim_draft_found-Claimed worker lease per_user now c found db)
        (claim_drafts-Claimed worker lease per_user now cs db))

pub claim_survey_draft-Claimed :
    (worker lease global per_user now : ℕ) (db : Db)
    → Ensures (Claimed db) (claim_survey_draft worker lease global per_user now db)
unfolding claim_survey_draft
claim_survey_draft-Claimed worker lease global per_user now db =
    elim (Bool-cases (leb global (length (rows_where (is_draft_leased now) db.drafts)))) [
      | inl full ↦ rw full tt
      | inr room ↦ rw room (claim_drafts-Claimed worker lease per_user now _ db)
    ]

pub heartbeat_survey_draft-DraftsOnly :
    (draft_id worker lease now : ℕ) (db : Db)
    → DraftsOnly db (heartbeat_survey_draft draft_id worker lease now db).1
unfolding heartbeat_survey_draft
heartbeat_survey_draft-DraftsOnly draft_id worker lease now db =
    elim (Option-cases (find_row (holds_draft draft_id worker) db.drafts)) [
      | inl missing ↦ rw (heartbeat_survey_draft, missing) (same-DraftsOnly db)
      | inr (d, found) ↦ rw (heartbeat_survey_draft, found) (drafts-DraftsOnly db _)
    ]

DraftsOnly-trans : (a b c : Db) → DraftsOnly a b → DraftsOnly b c → DraftsOnly a c
DraftsOnly-trans a b c f g = record {
  overrides = g.overrides ∙ f.overrides;
  usages = g.usages ∙ f.usages;
  surveys = g.surveys ∙ f.surveys;
  jobs = g.jobs ∙ f.jobs;
}

recover_draft_found-DraftsOnly :
    (found : Option Locked) (draft_id now : ℕ) (db : Db)
    → DraftsOnly db (recover_draft_found found draft_id now db).1
unfolding recover_draft_found
recover_draft_found-DraftsOnly none draft_id now db = same-DraftsOnly db
recover_draft_found-DraftsOnly (some l) draft_id now db =
    elim (Option-cases (find_row (λ d. d.id == draft_id) l.drafts)) [
      | inl gone ↦ rw (recover_draft_found, gone) (same-DraftsOnly db)
      | inr (d, at) ↦
          rw (recover_draft_found, at)
            (elim (Bool-cases (is_draft_running d.status && due d.lease_expires_at now)) [
              | inl expired ↦ rw expired (drafts-DraftsOnly db _)
              | inr alive ↦ rw alive (same-DraftsOnly db)
            ])
    ]

recover_drafts-WritesDrafts :
    (ds : List Draft) (recovered now : ℕ) (first db : Db)
    → DraftsOnly first db
    → WritesDrafts first (recover_drafts ds recovered now db)
unfolding recover_drafts
recover_drafts-WritesDrafts [] recovered now first db h = h
recover_drafts-WritesDrafts (d ∷ ds) recovered now first db h =
    Ensures-bind (λ p. DraftsOnly first p.1) (lock_survey_aggregate d.survey_id none db) _
      (λ found at.
        recover_drafts-WritesDrafts ds _ now first _
          (DraftsOnly-trans first db _ h (recover_draft_found-DraftsOnly found d.id now db)))

pub recover_expired_survey_drafts-WritesDrafts :
    (limit now : ℕ) (db : Db) → WritesDrafts db (recover_expired_survey_drafts limit now db)
unfolding recover_expired_survey_drafts
recover_expired_survey_drafts-WritesDrafts limit now db =
    recover_drafts-WritesDrafts (expired_drafts limit now db.drafts) 0 now db db
      (same-DraftsOnly db)
