-- ===== src/Survey/Drafts/Claim.antt =====
-- The fair claim of a draft, `claim_survey_draft` of scholight/db/queries_survey_drafts.py.
use scholight.Prelude.{
  ℕ, suc, ◌+◌, Bool, true, false, not, ◌&&◌, ◌||◌, Option, none, some, List, [], ◌∷◌, ◌==◌, ltb,
  leb, if◌then◌else◌, take, length,
}
use scholight.Prelude.Result.{Result, ok, ◌>>=◌}
use scholight.Prelude.Rows.{find_row, rows_where, update_row, order_by}
use scholight.Survey.Tables.{
  DraftStatus, draft_running, draft_queued, Survey, Draft, Db, Error, coalesce, is_null, Locked,
  lock_survey_aggregate,
}
use scholight.Survey.Lifecycle.{is_drafting}
use scholight.Survey.Claim.{null_or_due, of_user}
use scholight.Survey.Drafts.{is_draft_running}

abbrev pub is_draft_queued : DraftStatus → Bool
is_draft_queued draft_queued = true
is_draft_queued s = false

-- `status = 'running' AND lease_owner IS NOT NULL AND lease_expires_at > now()`
abbrev pub is_draft_leased : ℕ → Draft → Bool
is_draft_leased now d =
    is_draft_running d.status
    && not (is_null d.lease_owner)
    && not (null_or_due d.lease_expires_at now)

abbrev pub survey_of_draft : Db → Draft → Option Survey
survey_of_draft db d = find_row (λ s. s.id == d.survey_id) db.surveys

abbrev pub leased_drafts_of : ℕ → ℕ → Db → ℕ
leased_drafts_of user now db =
    length
      (rows_where (λ d. is_draft_leased now d && of_user user (survey_of_draft db d)) db.drafts)

pub record DraftCandidate : Type 0 where
  pub draft : Draft
  pub user_id : ℕ

abbrev join_draft : Draft → Option Survey → List DraftCandidate → List DraftCandidate
join_draft d none rest = rest
join_draft d (some s) rest = record { draft = d; user_id = s.user_id } ∷ rest

abbrev draft_candidates : Db → List Draft → List DraftCandidate
draft_candidates db [] = []
draft_candidates db (d ∷ ds) =
    let rest = draft_candidates db ds in
    if is_draft_queued d.status then join_draft d (survey_of_draft db d) rest else rest

abbrev draft_before : Draft → Draft → Bool
draft_before a b = ltb a.queued_at b.queued_at || a.queued_at == b.queued_at && ltb a.id b.id

-- `row_number() OVER (PARTITION BY s.user_id ORDER BY d.queued_at, d.id)`
abbrev draft_turn : List DraftCandidate → DraftCandidate → ℕ
draft_turn cs c =
    suc (length (rows_where (λ d. d.user_id == c.user_id && draft_before d.draft c.draft) cs))

abbrev fair_draft_before : List DraftCandidate → DraftCandidate → DraftCandidate → Bool
fair_draft_before cs a b =
    ltb (draft_turn cs a) (draft_turn cs b)
    || draft_turn cs a == draft_turn cs b && draft_before a.draft b.draft

abbrev fair_drafts : ℕ → ℕ → Db → List DraftCandidate
fair_drafts per_user now db =
    let cs = draft_candidates db db.drafts in
    take 32 (
      order_by (fair_draft_before cs)
        (rows_where (λ c. ltb (leased_drafts_of c.user_id now db) per_user) cs))

abbrev pub run_draft : ℕ → ℕ → ℕ → Draft → Draft
run_draft worker lease now d = record d {
  status = draft_running;
  lease_owner = some worker;
  lease_expires_at = some (now + lease);
  heartbeat_at = some now;
  started_at = coalesce d.started_at now;
}

-- The claim of a candidate whose survey is locked; none where it is passed over.
unfoldable pub claim_draft_found :
    ℕ → ℕ → ℕ → ℕ → DraftCandidate → Option Locked → Db → Option (ℕ × Db)
claim_draft_found worker lease per_user now c none db = none
claim_draft_found worker lease per_user now c (some locked) db =
    elim (find_row (λ d. d.id == c.draft.id) locked.drafts) [
      | none ↦ none
      | some draft ↦
          if is_drafting locked.survey.status
            && is_draft_queued draft.status
            && ltb (leased_drafts_of c.user_id now db) per_user
          then some (
            draft.id,
            record db {
              drafts =
                  update_row (λ d. d.id == draft.id && is_draft_queued d.status)
                    (run_draft worker lease now) db.drafts;
            },
          )
          else none
    ]

abbrev pub or_else :
    Option (ℕ × Db) → Result Error (Option (ℕ × Db)) → Result Error (Option (ℕ × Db))
or_else none rest = rest
or_else (some claimed) rest = ok (some claimed)

unfoldable pub claim_drafts :
    ℕ → ℕ → ℕ → ℕ → List DraftCandidate → Db → Result Error (Option (ℕ × Db))
unfolding claim_draft_found lock_survey_aggregate
claim_drafts worker lease per_user now [] db = ok none
claim_drafts worker lease per_user now (c ∷ cs) db =
    let rest = claim_drafts worker lease per_user now cs db in
    lock_survey_aggregate c.draft.survey_id none db >>= λ found.
    or_else (claim_draft_found worker lease per_user now c found db) rest

-- `claim_survey_draft`: the id of the claimed draft and the tables, or none.
unfoldable pub claim_survey_draft : ℕ → ℕ → ℕ → ℕ → ℕ → Db → Result Error (Option (ℕ × Db))
unfolding claim_drafts
claim_survey_draft worker lease global per_user now db =
    if leb global (length (rows_where (is_draft_leased now) db.drafts))
    then ok none
    else claim_drafts worker lease per_user now (fair_drafts per_user now db) db
