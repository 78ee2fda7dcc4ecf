-- ===== src/Survey/Ledger/Ending.antt =====
-- Requests, starts, cancellations and deletions keep the ledger of the daily quota.
use scholight.Prelude.{
  ℕ, ◌≡◌, refl, sym, ◌∙◌, ap, Bool, true, false, not, ◌&&◌, ◌||◌, Option, none, some, List, ◌∷◌,
  ◌==◌, All, arith, Option-cases, inl, inr,
}
use scholight.Prelude.Text.{Text, text_eq}
use scholight.Prelude.Result.{Result, Ensures, Ensures-or_raise, Ensures-require}
use scholight.Prelude.Rows.{find_row, update_row, All-update_row}
use scholight.Survey.Tables.{
  SurveyStatus, drafting, queued, running, archiving, succeeded, failed, cancelled, Usage, Survey,
  Db, Error, of_usage, Locked, is_null, survey_not_found,
}
use scholight.Survey.Lifecycle.{
  is_reserved, is_running, is_archiving, is_drafting, is_terminal, with_usage, create_survey,
  create_with, release_reservation, fresh_survey,
}
use scholight.Survey.Start.{fresh_job, start_survey, start_locked, start_drafted, queue_survey}
use scholight.Survey.Ledger.{holds, counted-with_usage}
use scholight.Survey.Ledger.Balance.{
  Balance, released-Balance, reservations-release, reservations-keep, reserved-Balance,
}
use scholight.Survey.Ledger.Paired.{Paired, kept-Paired, same-NoMore}
use scholight.Survey.Ledger.Pairing.{created-Paired, new_job-Paired}
use scholight.Survey.Ledger.Locks.{LockedOf, Ensures-locked}

-- A survey holds its reservation until it is archived or ends, as a check of the schema says.
abbrev pub Agrees : Survey → Type 0
Agrees s = is_reserved s.quota_state ≡ not (is_terminal s.status || is_archiving s.status)

pub record Balanced (db : Db) : Type 0 where
  pub balance : Balance db.usages db.surveys
  pub agreed : All Agrees db.surveys
  pub paired : Paired db.jobs db.surveys

-- A transaction that does not raise leaves a balanced ledger.
abbrev pub KeepsLedger : {A : Type 0} → Result Error (A × Db) → Type 0
KeepsLedger r = Ensures (λ p. Balanced p.1) r

null_none : {A : Type 0} (o : Option A) → is_null o ≡ true → o ≡ none
null_none none h = refl
null_none (some a) h = cc

drafting_idle : (s : SurveyStatus) (b : Bool) → (is_drafting s && b) ≡ true → is_running s ≡ false
drafting_idle running b h = cc
drafting_idle drafting b h = refl
drafting_idle queued b h = refl
drafting_idle archiving b h = refl
drafting_idle succeeded b h = refl
drafting_idle failed b h = refl
drafting_idle cancelled b h = refl

create_with-KeepsLedger :
    (survey_id draft_id user client : ℕ) (hash : Text) (date limit now : ℕ) (db : Db)
    → Balanced db
    → KeepsLedger (create_with survey_id draft_id user client hash date limit now db)
unfolding create_with
create_with-KeepsLedger survey_id draft_id user client hash date limit now db b =
    let P : Survey × Db → Type 0 = λ p. Balanced p.1 in
    elim (Option-cases
      (find_row (λ s. s.user_id == user && s.client_request_id == client) db.surveys)) [
        | inr (existing, old) ↦
            rw (create_with, old)
              (Ensures-require P (text_eq existing.request_hash hash) _ _ (λ same. b))
        | inl new ↦
            rw (create_with, new)
              (Ensures-or_raise P (find_row (of_usage user date) db.usages) _ _ (λ usage found.
                Ensures-require P _ _ _ (λ room. Ensures-require P _ _ _ (λ free.
                  Ensures-require P _ _ _ (λ free_draft. record {
                    balance =
                        reserved-Balance db.usages db.surveys
                          (fresh_survey survey_id user client hash date now) b.balance refl found;
                    agreed = (refl, b.agreed);
                    paired =
                        created-Paired db.jobs db.surveys
                          (fresh_survey survey_id user client hash date now) b.paired
                          (null_none (find_row (λ s. s.id == survey_id) db.surveys) free);
                  })))))
      ]

pub create_survey-KeepsLedger :
    (survey_id draft_id user client : ℕ) (hash : Text) (date limit now : ℕ) (db : Db)
    → Balanced db
    → KeepsLedger (create_survey survey_id draft_id user client hash date limit now db)
unfolding create_survey
create_survey-KeepsLedger survey_id draft_id user client hash date limit now db b =
    create_with-KeepsLedger survey_id draft_id user client hash date limit now
      (record db { usages = with_usage user date db.usages })
      (record {
        balance = λ u d. counted-with_usage u d user date db.usages ∙ b.balance u d;
        agreed = b.agreed;
        paired = b.paired;
      })

-- An update of a survey that leaves its reservation as it is.
pub updated-Balanced :
    (us : List Usage) (p : Survey → Bool) (f : Survey → Survey) (ss : List Survey) {x : Survey}
    → Balance us ss
    → All Agrees ss
    → find_row p ss ≡ some x
    → ((u d : ℕ) (s : Survey) → holds u d (f s) ≡ holds u d s)
    → Agrees (f x)
    → Balance us (update_row p f ss) × All Agrees (update_row p f ss)
updated-Balanced us p f ss b a found keeps agrees = (
  λ u d. b u d ∙ sym (reservations-keep p f ss keeps u d),
  All-update_row Agrees p f ss a found agrees,
)

-- An update of a survey that gives up its reservation, with the release of the usage row.
pub ended-Balanced :
    (us vs : List Usage) (p : Survey → Bool) (f : Survey → Survey) (ss : List Survey) (x : Survey)
    (gained : ℕ)
    → Balance us ss
    → All Agrees ss
    → find_row p ss ≡ some x
    → is_reserved x.quota_state ≡ true
    → release_reservation x.user_id x.quota_date gained us ≡ some vs
    → ((u d : ℕ) → holds u d (f x) ≡ 0)
    → Agrees (f x)
    → Balance vs (update_row p f ss) × All Agrees (update_row p f ss)
ended-Balanced us vs p f ss x gained b a found reserved released none_held agrees = (
  released-Balance us vs ss (update_row p f ss) x gained b reserved released
      (reservations-release p f ss x found none_held),
  All-update_row Agrees p f ss a found agrees,
)

-- The survey that was locked, found by its own id.
pub found_again :
    (survey_id : ℕ) (user : Option ℕ) (db : Db) (l : Locked)
    → LockedOf survey_id user db l
    → find_row (λ s. s.id == l.survey.id) db.surveys ≡ some l.survey
found_again survey_id user db l lock =
    ap (λ k. find_row (λ s. s.id == k) db.surveys) lock.same_id ∙ lock.found

start_drafted-KeepsLedger :
    (survey_id user : ℕ) (l : Locked) (job_id client : ℕ) (hash : Text) (notify : Bool) (now : ℕ)
    (db : Db)
    → LockedOf survey_id (some user) db l
    → Balanced db
    → KeepsLedger (start_drafted l job_id client hash notify now db)
unfolding start_drafted
start_drafted-KeepsLedger survey_id user l job_id client hash notify now db lock b =
    let P : Survey × Db → Type 0 = λ p. Balanced p.1 in
    Ensures-require P _ _ _ (λ h. Ensures-require P _ _ _ (λ g.
      Ensures-or_raise P _ _ _ (λ draft ready. Ensures-require P _ _ _ (λ free.
        let (balance, agreed) =
          updated-Balanced db.usages (λ s. s.id == l.survey.id) (queue_survey notify now) db.surveys
            b.balance b.agreed (found_again survey_id (some user) db l lock) (λ u d s. refl)
            (ground arith) in
        record {
          balance = balance;
          agreed = agreed;
          paired =
              kept-Paired _ (fresh_job job_id l.survey.id draft.id client hash now ∷ db.jobs)
                l.survey.id (queue_survey notify now) db.surveys
                (new_job-Paired db.jobs db.surveys
                  (fresh_job job_id l.survey.id draft.id client hash now) b.paired refl
                  (null_none (find_row (λ j. j.id == job_id) db.jobs) free))
                (same-NoMore _) (λ s. refl) (found_again survey_id (some user) db l lock)
                (sym (drafting_idle l.survey.status (is_reserved l.survey.quota_state) h));
        }))))

start_locked-KeepsLedger :
    (survey_id user : ℕ) (l : Locked) (job_id client : ℕ) (hash : Text) (notify : Bool) (now : ℕ)
    (db : Db)
    → LockedOf survey_id (some user) db l
    → Balanced db
    → KeepsLedger (start_locked l job_id client hash notify now db)
unfolding start_locked
start_locked-KeepsLedger survey_id user l job_id client hash notify now db lock b =
    let P : Survey × Db → Type 0 = λ p. Balanced p.1 in
    elim (Option-cases l.job) [
      | inl no_job ↦
          rw (start_locked, no_job)
            (start_drafted-KeepsLedger survey_id user l job_id client hash notify now db lock b)
      | inr (existing, has_job) ↦
          rw (start_locked, has_job)
            (Ensures-require P _ _ _ (λ h. Ensures-require P _ _ _ (λ g. b)))
    ]

pub start_survey-KeepsLedger :
    (survey_id user job_id client : ℕ) (hash : Text) (notify : Bool) (now : ℕ) (db : Db)
    → Balanced db
    → KeepsLedger (start_survey survey_id user job_id client hash notify now db)
unfolding start_survey
start_survey-KeepsLedger survey_id user job_id client hash notify now db b =
    Ensures-locked (λ p. Balanced p.1) survey_id (some user) db survey_not_found _
      (λ l lock. start_locked-KeepsLedger survey_id user l job_id client hash notify now db lock b)
