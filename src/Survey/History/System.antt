-- ===== src/Survey/History/System.antt =====
-- Every transaction that writes drafts, as a step of the tables.
use scholight.Prelude.{ℕ, ◌≡◌, ◌≤◌, refl, Option, none, some, if◌then◌else◌, arith}
use scholight.Prelude.Int.{ℤ}
use scholight.Prelude.Text.{Text}
use scholight.Prelude.Result.{Result, ok, err, Ensures, committed}
use scholight.Prelude.Keys.{row_count}
use scholight.Survey.Tables.{Db, Error}
use scholight.Survey.Lifecycle.{create_survey}
use scholight.Survey.Cancel.{cancel_survey, delete_survey}
use scholight.Survey.Drafts.{
  request_generated_draft, create_manual_draft, complete_survey_draft, fail_survey_draft,
}
use scholight.Survey.Drafts.Claim.{claim_survey_draft}
use scholight.Survey.Drafts.Leases.{heartbeat_survey_draft, recover_expired_survey_drafts}
use scholight.Survey.Drafts.Revisions.{latest_of}
use scholight.Survey.Attempts.Claims.{claim_exact_survey_draft}
use scholight.Survey.Attempts.Checkpoints.{heartbeat_compute_attempt}
use scholight.Survey.Attempts.Stops.{
  StopEvent, record_compute_attempt_succeeded, record_compute_attempt_stopped,
}
use scholight.Survey.Ledger.System.{empty_tables}
use scholight.Survey.Ledger.WorkCalls.{claimed_draft}
use scholight.Survey.History.Numbers.{is_active, has_number, up_to, Small}
use scholight.Survey.History.States.{History, KeepsSurveys, elsewhere-History}
use scholight.Survey.History.Drafting.{
  KeepsHistory, request_generated_draft-KeepsHistory, create_manual_draft-KeepsHistory,
  complete_survey_draft-KeepsHistory, fail_survey_draft-KeepsHistory,
}
use scholight.Survey.History.Leasing.{
  ClaimedHistory, claim_survey_draft-History, heartbeat_survey_draft-History,
}
use scholight.Survey.History.Recovering.{recover_expired_survey_drafts-KeepsHistory}
use scholight.Survey.History.Ends.{create_survey-KeepsHistory}
use scholight.Survey.History.Cancelled.{cancel_survey-KeepsHistory, delete_survey-KeepsHistory}
use scholight.Survey.History.Exact.{
  record_compute_attempt_succeeded-KeepsHistory, record_compute_attempt_stopped-KeepsHistory,
  heartbeat_compute_attempt-History,
}
use scholight.Survey.History.ExactClaims.{claim_exact_survey_draft-KeepsHistory}

-- A transaction; one that raises leaves the tables as they were. `elsewhere` is any transaction
-- that leaves the drafts alone and deletes no survey, as the others do.
pub data Step : Db → Db → Type 0 where
  create :
      (survey_id draft_id user client : ℕ) (hash : Text) (date limit now : ℕ) (db : Db)
      → Step db (committed db (create_survey survey_id draft_id user client hash date limit now db))
  request :
      (survey_id user draft_id client : ℕ) (hash : Text) (now : ℕ) (db : Db)
      → Step db (committed db (request_generated_draft survey_id user draft_id client hash now db))
  manual :
      (survey_id user draft_id client : ℕ) (hash markdown : Text) (now : ℕ) (db : Db)
      → Step db
          (committed db (create_manual_draft survey_id user draft_id client hash markdown now db))
  claim :
      (worker lease global per_user now : ℕ) (db : Db)
      → Step db (claimed_draft db (claim_survey_draft worker lease global per_user now db))
  heartbeat :
      (draft_id worker lease now : ℕ) (db : Db)
      → Step db (heartbeat_survey_draft draft_id worker lease now db).1
  complete :
      (draft_id worker : ℕ) (markdown : Text) (now : ℕ) (db : Db)
      → Step db (committed db (complete_survey_draft draft_id worker markdown now db))
  fail :
      (draft_id worker : ℕ) (code : Text) (now : ℕ) (db : Db)
      → Step db (committed db (fail_survey_draft draft_id worker code now db))
  recover :
      (limit now : ℕ) (db : Db)
      → Step db (committed db (recover_expired_survey_drafts limit now db))
  cancel :
      (survey_id user now : ℕ) (db : Db)
      → Step db (committed db (cancel_survey survey_id user now db))
  delete :
      (survey_id user now : ℕ) (db : Db)
      → Step db (committed db (delete_survey survey_id user now db))
  claim_exact :
      (draft_id attempt_id lease now : ℕ) (db : Db)
      → Step db (committed db (claim_exact_survey_draft draft_id attempt_id lease now db))
  beat_attempt :
      (attempt_id lease now : ℕ) (db : Db)
      → Step db (heartbeat_compute_attempt attempt_id lease now db).1
  exited :
      (attempt_id : ℕ) (version code : ℤ) (now : ℕ) (db : Db)
      → Step db (committed db (record_compute_attempt_succeeded attempt_id version code now db))
  stopped :
      (attempt_id : ℕ) (e : StopEvent) (now : ℕ) (db : Db)
      → Step db (committed db (record_compute_attempt_stopped attempt_id e now db))
  elsewhere : (db after : Db) → after.drafts ≡ db.drafts → KeepsSurveys db after → Step db after

pub data Reach (first : Db) : Db → Type 0 where
  here : Reach first first
  next : {db after : Db} → Reach first db → Step db after → Reach first after

committed-History :
    {A : Type 0} (db : Db) (r : Result Error (A × Db))
    → History db
    → KeepsHistory r
    → History (committed db r)
committed-History db (ok (a, after)) h kept = kept
committed-History db (err e) h kept = h

claimed_draft-History :
    (db : Db) (r : Result Error (Option (ℕ × Db)))
    → History db
    → Ensures ClaimedHistory r
    → History (claimed_draft db r)
claimed_draft-History db (ok (some (id, after))) h kept = kept
claimed_draft-History db (ok none) h kept = h
claimed_draft-History db (err e) h kept = h

Step-History : {db after : Db} → Step db after → History db → History after
Step-History (create survey_id draft_id user client hash date limit now db) h =
    committed-History db _ h
      (create_survey-KeepsHistory survey_id draft_id user client hash date limit now db h)
Step-History (request survey_id user draft_id client hash now db) h =
    committed-History db _ h
      (request_generated_draft-KeepsHistory survey_id user draft_id client hash now db h)
Step-History (manual survey_id user draft_id client hash markdown now db) h =
    committed-History db _ h
      (create_manual_draft-KeepsHistory survey_id user draft_id client hash markdown now db h)
Step-History (claim worker lease global per_user now db) h =
    claimed_draft-History db _ h (claim_survey_draft-History worker lease global per_user now db h)
Step-History (heartbeat draft_id worker lease now db) h =
    heartbeat_survey_draft-History draft_id worker lease now db h
Step-History (complete draft_id worker markdown now db) h =
    committed-History db _ h (complete_survey_draft-KeepsHistory draft_id worker markdown now db h)
Step-History (fail draft_id worker code now db) h =
    committed-History db _ h (fail_survey_draft-KeepsHistory draft_id worker code now db h)
Step-History (recover limit now db) h =
    committed-History db _ h (recover_expired_survey_drafts-KeepsHistory limit now db h)
Step-History (cancel survey_id user now db) h =
    committed-History db _ h (cancel_survey-KeepsHistory survey_id user now db h)
Step-History (delete survey_id user now db) h =
    committed-History db _ h (delete_survey-KeepsHistory survey_id user now db h)
Step-History (claim_exact draft_id attempt_id lease now db) h =
    committed-History db _ h
      (claim_exact_survey_draft-KeepsHistory draft_id attempt_id lease now db h)
Step-History (beat_attempt attempt_id lease now db) h =
    heartbeat_compute_attempt-History attempt_id lease now db h
Step-History (exited attempt_id version code now db) h =
    committed-History db _ h
      (record_compute_attempt_succeeded-KeepsHistory attempt_id version code now db h)
Step-History (stopped attempt_id e now db) h =
    committed-History db _ h (record_compute_attempt_stopped-KeepsHistory attempt_id e now db h)
Step-History (elsewhere db after same keeps) h = elsewhere-History db after h same keeps

Reach-History : {first db : Db} → History first → Reach first db → History db
Reach-History h here = h
Reach-History h (next r step) = Step-History step (Reach-History h r)

empty-History : (overrides : ℕ → Option ℕ) → History (empty_tables overrides)
empty-History overrides = record {
  numbered = record {
    keyed = λ i. omega arith;
    single = λ k. omega arith;
    numbers = λ k n. refl;
    small = λ k. tt;
  };
  owned = λ k gone. refl;
  held = refl;
}

-- From empty tables, whatever transactions commit and in whatever order: a survey has at most one
-- draft that is queued or runs, its ready drafts are numbered from 1 to its latest revision, each
-- number exactly once and no other, and the latest is at most 10.
pub drafts_numbered :
    (overrides : ℕ → Option ℕ) {db : Db}
    → Reach (empty_tables overrides) db
    → (k : ℕ)
    → (row_count (is_active k) db.drafts ≤ 1)
      × ((n : ℕ)
          → row_count (has_number k n) db.drafts
            ≡ (if up_to (latest_of k db.drafts) n then 1 else 0))
      × Small (latest_of k db.drafts)
drafts_numbered overrides r k =
    let h = Reach-History (empty-History overrides) r in
    (h.numbered.single k, λ n. h.numbered.numbers k n, h.numbered.small k)
