-- ===== src/Survey/Drafts.antt =====
-- The drafts of a survey, scholight/db/queries_survey_drafts.py: requests, manual drafts, and the work
-- of a worker on a draft.
pub mod Claim
pub mod Leases
pub mod Writes
pub mod Revisions
pub mod Numbering
use scholight.Prelude.{
  ℕ, zero, suc, ◌+◌, Bool, true, false, not, ◌&&◌, ◌||◌, Option, none, some, List, [], ◌∷◌, ◌==◌,
  ltb, leb, if◌then◌else◌, any, max, take,
}
use scholight.Prelude.Text.{Text, codes, text_eq}
use scholight.Prelude.Result.{Result, ok, err, ◌>>=◌, ◌>>◌, require, or_raise}
use scholight.Prelude.Rows.{find_row, rows_where, update_row, order_by}
use scholight.Survey.Tables.{
  draft_ready, draft_failed, DraftStatus, draft_running, draft_queued, draft_cancelled, Draft, Db,
  Error, survey_not_found, idempotency_conflict, already_started, draft_in_progress, draft_limit,
  lease_lost, db_error, Tx, is_key, due, is_null, Locked, lock_survey_aggregate,
}
use scholight.Survey.Lifecycle.{is_drafting, in_progress, is_ready, fresh_draft}

abbrev pub is_draft_running : DraftStatus → Bool
is_draft_running draft_running = true
is_draft_running s = false

abbrev pub max_revision : Option ℕ → Option ℕ → Option ℕ
max_revision none latest = latest
max_revision (some n) none = some n
max_revision (some n) (some m) = some (max n m)

-- `max(revisions, default=None)` of the ready drafts
abbrev pub latest_revision : List Draft → Option ℕ
latest_revision [] = none
latest_revision (d ∷ ds) =
    let rest = latest_revision ds in
    if is_ready d.status then max_revision d.revision rest else rest

-- `1 if latest is None else latest + 1`
abbrev pub next_revision : Option ℕ → ℕ
next_revision none = 1
next_revision (some n) = n + 1

-- `latest is None or latest < 10`
abbrev has_room : Option ℕ → Bool
has_room none = true
has_room (some n) = ltb n 10

-- The checks that a new draft has to pass.
unfoldable pub require_editable : Locked → Result Error (Unit {0})
require_editable locked = do
  require (is_drafting locked.survey.status) already_started
  require (not (any (λ d. in_progress d.status) locked.drafts)) draft_in_progress

-- The draft of a request that was sent before.
unfoldable pub same_request : Draft → Text → Db → Tx Draft
same_request existing hash db = do
  require (text_eq existing.request_hash hash) idempotency_conflict
  ok (existing, db)

unfoldable pub add_draft : Draft → Db → Tx Draft
add_draft d db = do
  require (is_null (find_row (λ e. e.id == d.id) db.drafts)) db_error
  ok (d, record db { drafts = d ∷ db.drafts })

unfoldable pub request_locked : Locked → ℕ → ℕ → Text → ℕ → Db → Tx Draft
unfolding require_editable same_request add_draft
request_locked locked draft_id client hash now db =
    elim (find_row (λ d. d.client_request_id == client) locked.drafts) [
      | some existing ↦ same_request existing hash db
      | none ↦ do
        require_editable locked
        require (has_room (latest_revision locked.drafts)) draft_limit
        add_draft
            (fresh_draft draft_id locked.survey.id client hash (latest_revision locked.drafts) now)
            db
    ]

-- `request_generated_draft`
unfoldable pub request_generated_draft : ℕ → ℕ → ℕ → ℕ → Text → ℕ → Db → Tx Draft
unfolding request_locked lock_survey_aggregate
request_generated_draft survey_id user draft_id client hash now db = do
  found ← lock_survey_aggregate survey_id (some user) db
  locked ← or_raise found survey_not_found
  request_locked locked draft_id client hash now db

abbrev pub manual_draft : ℕ → ℕ → ℕ → Text → Text → Option ℕ → ℕ → Draft
manual_draft draft_id survey_id client hash markdown latest now =
    record (fresh_draft draft_id survey_id client hash latest now) {
      revision = some (next_revision latest);
      manual = true;
      markdown = some markdown;
      status = draft_ready;
      finished_at = some now;
    }

unfoldable pub manual_locked : Locked → ℕ → ℕ → Text → Text → ℕ → Db → Tx Draft
unfolding require_editable same_request add_draft
manual_locked locked draft_id client hash markdown now db =
    elim (find_row (λ d. d.client_request_id == client) locked.drafts) [
      | some existing ↦ same_request existing hash db
      | none ↦ do
        require_editable locked
        require (leb (next_revision (latest_revision locked.drafts)) 10) draft_limit
        add_draft
            (manual_draft draft_id locked.survey.id client hash markdown
              (latest_revision locked.drafts) now)
            db
    ]

-- `create_manual_draft`
unfoldable pub create_manual_draft : ℕ → ℕ → ℕ → ℕ → Text → Text → ℕ → Db → Tx Draft
unfolding manual_locked lock_survey_aggregate
create_manual_draft survey_id user draft_id client hash markdown now db = do
  found ← lock_survey_aggregate survey_id (some user) db
  locked ← or_raise found survey_not_found
  manual_locked locked draft_id client hash markdown now db

-- The draft that a worker holds, with its survey locked.
unfoldable pub lock_draft : ℕ → ℕ → Db → Result Error (Draft × Locked)
lock_draft draft_id worker db = do
  draft ← or_raise (find_row (λ d. d.id == draft_id) db.drafts) lease_lost
  found ← lock_survey_aggregate draft.survey_id none db
  locked ← or_raise found lease_lost
  mine ← or_raise (find_row (λ d. d.id == draft_id) locked.drafts) lease_lost
  require (is_draft_running mine.status && is_key mine.lease_owner worker) lease_lost
  ok (mine, locked)

abbrev pub same_base : Option ℕ → Option ℕ → Bool
same_base none none = true
same_base (some m) (some n) = m == n
same_base _ _ = false

abbrev pub complete_draft : ℕ → Text → ℕ → Draft → Draft
complete_draft revision markdown now d = record d {
  status = draft_ready;
  revision = some revision;
  markdown = some markdown;
  lease_owner = none;
  lease_expires_at = none;
  heartbeat_at = some now;
  finished_at = some now;
}

-- `complete_survey_draft`
unfoldable pub complete_survey_draft : ℕ → ℕ → Text → ℕ → Db → Tx Draft
unfolding lock_draft
complete_survey_draft draft_id worker markdown now db = do
  (mine, locked) ← lock_draft draft_id worker db
  require (is_drafting locked.survey.status) lease_lost
  require (same_base mine.based_on_revision (latest_revision locked.drafts)) lease_lost
  require (leb (next_revision (latest_revision locked.drafts)) 10) draft_limit
  ok (
    complete_draft (next_revision (latest_revision locked.drafts)) markdown now mine,
    record db {
      drafts =
          update_row (λ d. d.id == draft_id)
            (complete_draft (next_revision (latest_revision locked.drafts)) markdown now) db.drafts;
    },
  )

abbrev pub fail_draft : Option Text → ℕ → Draft → Draft
fail_draft code now d = record d {
  status = draft_failed;
  error_code = code;
  lease_owner = none;
  lease_expires_at = none;
  heartbeat_at = some now;
  finished_at = some now;
}

-- `fail_survey_draft`
unfoldable pub fail_survey_draft : ℕ → ℕ → Text → ℕ → Db → Tx Draft
unfolding lock_draft
fail_survey_draft draft_id worker code now db = do
  (mine, locked) ← lock_draft draft_id worker db
  ok (
    fail_draft (some code) now mine,
    record db {
      drafts = update_row (λ d. d.id == draft_id) (fail_draft (some code) now) db.drafts;
    },
  )
