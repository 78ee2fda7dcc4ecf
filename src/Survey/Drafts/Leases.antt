-- ===== src/Survey/Drafts/Leases.antt =====
-- Leases and recovery of drafts, scholight/db/queries_survey_drafts.py.
use scholight.Prelude.{
  ℕ, ◌+◌, Bool, true, false, ◌&&◌, Option, none, some, List, [], ◌∷◌, ◌==◌, ltb, if◌then◌else◌,
  take,
}
use scholight.Prelude.Result.{ok, ◌>>=◌}
use scholight.Prelude.Rows.{find_row, rows_where, update_row, order_by}
use scholight.Survey.Tables.{Draft, Db, Tx, is_key, due, Locked, lock_survey_aggregate}
use scholight.Survey.Leases.{HeartbeatState, owned, lost}
use scholight.Survey.Recover.{worker_lost_code}
use scholight.Survey.Drafts.{is_draft_running, fail_draft}

abbrev pub holds_draft : ℕ → ℕ → Draft → Bool
holds_draft draft_id worker d =
    d.id == draft_id && is_key d.lease_owner worker && is_draft_running d.status

abbrev pub beat_draft : ℕ → ℕ → Draft → Draft
beat_draft lease now d = record d { heartbeat_at = some now; lease_expires_at = some (now + lease) }

-- `heartbeat_survey_draft`
unfoldable pub heartbeat_survey_draft : ℕ → ℕ → ℕ → ℕ → Db → HeartbeatState × Db
heartbeat_survey_draft draft_id worker lease now db =
    elim (find_row (holds_draft draft_id worker) db.drafts) [
      | none ↦ (lost, db)
      | some d ↦ (
        owned,
        record db {
          drafts = update_row (holds_draft draft_id worker) (beat_draft lease now) db.drafts;
        },
      )
    ]

abbrev draft_lease_order : Draft → Draft → Bool
draft_lease_order a b = elim a.lease_expires_at [
  | none ↦ false
  | some s ↦ elim b.lease_expires_at [ none ↦ true | some t ↦ ltb s t ]
]

abbrev pub expired_drafts : ℕ → ℕ → List Draft → List Draft
expired_drafts limit now ds = take limit (
    order_by draft_lease_order
      (rows_where (λ d. is_draft_running d.status && due d.lease_expires_at now) ds))

unfoldable pub recover_draft_found : Option Locked → ℕ → ℕ → Db → Bool × Db
recover_draft_found none draft_id now db = (false, db)
recover_draft_found (some locked) draft_id now db =
    elim (find_row (λ d. d.id == draft_id) locked.drafts) [
      | none ↦ (false, db)
      | some draft ↦
          if is_draft_running draft.status && due draft.lease_expires_at now
          then (
            true,
            record db {
              drafts =
                  update_row (λ d. d.id == draft_id) (fail_draft worker_lost_code now) db.drafts;
            },
          )
          else (false, db)
    ]

unfoldable pub recover_drafts : List Draft → ℕ → ℕ → Db → Tx ℕ
unfolding recover_draft_found lock_survey_aggregate
recover_drafts [] recovered now db = ok (recovered, db)
recover_drafts (d ∷ ds) recovered now db = do
  found ← lock_survey_aggregate d.survey_id none db
  let (done, after) = recover_draft_found found d.id now db
  recover_drafts ds (if done then recovered + 1 else recovered) now after

-- `recover_expired_survey_drafts`, one transaction for all of them.
unfoldable pub recover_expired_survey_drafts : ℕ → ℕ → Db → Tx ℕ
unfolding recover_drafts
recover_expired_survey_drafts limit now db =
    recover_drafts (expired_drafts limit now db.drafts) 0 now db
