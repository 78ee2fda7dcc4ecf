-- ===== src/Survey/Ledger/Frugality.antt =====
-- No transaction but a request spends more of the daily limit.
use scholight.Prelude.{
  ℕ, ◌≡◌, refl, sym, ◌∙◌, ap, Bool, true, false, ◌||◌, Option, none, some, if◌then◌else◌, arith,
  Bool-cases, Option-cases, inl, inr,
}
use scholight.Prelude.Text.{Text}
use scholight.Prelude.Result.{
  Result, ok, err, ◌>>=◌, Ensures, Ensures-if, Ensures-bind, Ensures-or_raise, Ensures-require,
  Ensures-at,
}
use scholight.Survey.Tables.{
  Survey, Job, Db, Error, Locked, lock_survey_aggregate, not_cancellable, delete_in_progress,
}
use scholight.Survey.Lifecycle.{
  is_reserved, is_queued, is_running, is_archiving, is_drafting, is_terminal, is_job_queued,
  release_reservation,
}
use scholight.Survey.Start.{start_survey, start_locked, start_drafted}
use scholight.Survey.Cancel.{
  cancel_survey, cancel_locked, cancel_queued, cancel_running, without_job, delete_job,
  delete_survey, delete_locked, give_back,
}
use scholight.Survey.Ledger.Limit.{Frugal, spent, released-spent}

-- A transaction that does not raise spends no more.
abbrev pub KeepsLimit : Db → {A : Type 0} → Result Error (A × Db) → Type 0
KeepsLimit db r = Ensures (λ p. Frugal db p.1) r

pub unspent :
    (db after : Db) → after.overrides ≡ db.overrides → after.usages ≡ db.usages → Frugal db after
unspent db after same kept = record {
  limits = same;
  spending = λ u d. let equal = ap (spent u d) kept in omega (arith, equal);
}

pub same-Frugal : (db : Db) → Frugal db db
same-Frugal db = unspent db db refl refl

pub Frugal-trans : (a b c : Db) → Frugal a b → Frugal b c → Frugal a c
Frugal-trans a b c f g = record {
  limits = g.limits ∙ f.limits;
  spending = λ u d. omega (arith, f.spending u d, g.spending u d);
}

pub start_survey-Frugal :
    (survey_id user job_id client : ℕ) (hash : Text) (notify : Bool) (now : ℕ) (db : Db)
    → KeepsLimit db (start_survey survey_id user job_id client hash notify now db)
unfolding start_survey start_locked start_drafted
start_survey-Frugal survey_id user job_id client hash notify now db =
    let P : Survey × Db → Type 0 = λ p. Frugal db p.1 in
    Ensures-bind P (lock_survey_aggregate survey_id (some user) db) _ (λ found at.
      Ensures-or_raise P found _ _ (λ l is. elim (Option-cases l.job) [
        | inl no_job ↦
            rw (start_locked, no_job)
              (Ensures-require P _ _ _ (λ h. Ensures-require P _ _ _ (λ g.
                Ensures-or_raise P _ _ _
                  (λ draft ready. Ensures-require P _ _ _ (λ free. unspent db _ refl refl)))))
        | inr (existing, has_job) ↦
            rw (start_locked, has_job)
              (Ensures-require P _ _ _ (λ h. Ensures-require P _ _ _ (λ g. same-Frugal db)))
      ]))

without_job-unspent :
    (job : Option Job) (e : Error) (db : Db)
    → Ensures (λ c. (c.overrides ≡ db.overrides) × (c.usages ≡ db.usages)) (without_job job e db)
unfolding without_job
without_job-unspent none e db = (refl, refl)
without_job-unspent (some job) e db =
    Ensures-if (λ c. (c.overrides ≡ db.overrides) × (c.usages ≡ db.usages))
      (is_job_queued job.status) (ok (delete_job job.id db)) (err e) (λ h. (refl, refl)) (λ h. tt)

cleared-unspent :
    (b : Bool) (job : Option Job) (e : Error) (db : Db)
    → Ensures
        (λ c. (c.overrides ≡ db.overrides) × (c.usages ≡ db.usages))
        (if b then without_job job e db else ok db)
cleared-unspent true job e db = without_job-unspent job e db
cleared-unspent false job e db = (refl, refl)

cancel_locked-Frugal :
    (l : Locked) (user now : ℕ) (db : Db) → KeepsLimit db (cancel_locked l user now db)
unfolding cancel_locked cancel_queued cancel_running
cancel_locked-Frugal l user now db =
    let P : Survey × Db → Type 0 = λ p. Frugal db p.1 in
    let unspent_by : Db → Type 0 = λ c. (c.overrides ≡ db.overrides) × (c.usages ≡ db.usages) in
    Ensures-if P (is_terminal l.survey.status) (ok (l.survey, db)) _ (λ ended. same-Frugal db)
      (λ a.
        Ensures-if P (is_running l.survey.status) (cancel_running l now db) _
          (λ run.
            Ensures-or_raise P _ _ _
              (λ job at. Ensures-require P _ _ _ (λ h. unspent db _ refl refl)))
          (λ b.
            Ensures-if P (is_archiving l.survey.status) (err not_cancellable)
              (cancel_queued l user now db) (λ h. tt)
              (λ c. Ensures-require P _ _ _ (λ h.
                Ensures-bind P
                  (if is_queued l.survey.status
                    then without_job l.job not_cancellable db
                    else ok db)
                  _
                  (λ cleared at.
                    let (same, kept) =
                      Ensures-at unspent_by _
                        (cleared-unspent (is_queued l.survey.status) l.job not_cancellable db) at in
                    Ensures-or_raise P _ _ _ (λ vs released. record {
                      limits = same;
                      spending =
                          released-spent user l.survey.quota_date 0 db.usages vs (omega arith)
                            released;
                    }))))))

pub cancel_survey-Frugal :
    (survey_id user now : ℕ) (db : Db) → KeepsLimit db (cancel_survey survey_id user now db)
unfolding cancel_survey
cancel_survey-Frugal survey_id user now db =
    let P : Survey × Db → Type 0 = λ p. Frugal db p.1 in
    Ensures-bind P (lock_survey_aggregate survey_id (some user) db) _
      (λ found at. Ensures-or_raise P found _ _ (λ l is. cancel_locked-Frugal l user now db))

give_back-Frugal :
    (l : Locked) (user now : ℕ) (db : Db) → Ensures (Frugal db) (give_back l user now db)
unfolding give_back ◌>>=◌
give_back-Frugal l user now db =
    Ensures-bind (Frugal db) (without_job l.job delete_in_progress db) _ (λ c at.
      let (same, kept) =
        Ensures-at (λ c. (c.overrides ≡ db.overrides) × (c.usages ≡ db.usages)) _
          (without_job-unspent l.job delete_in_progress db) at in
      elim (Bool-cases (is_reserved l.survey.quota_state)) [
        | inl reserved ↦ rw reserved (
            Ensures-or_raise (Frugal db) _ _ _ (λ vs released. record {
              limits = same;
              spending =
                  released-spent user l.survey.quota_date 0 db.usages vs (omega arith)
                    (ap (release_reservation user l.survey.quota_date 0) (sym kept) ∙ released);
            }))
        | inr settled ↦ rw settled (unspent db _ same kept)
      ])

pub delete_survey-Frugal :
    (survey_id user now : ℕ) (db : Db) → KeepsLimit db (delete_survey survey_id user now db)
unfolding delete_survey delete_locked
delete_survey-Frugal survey_id user now db =
    let P : Unit {0} × Db → Type 0 = λ p. Frugal db p.1 in
    Ensures-bind P (lock_survey_aggregate survey_id (some user) db) _ (λ found at.
      Ensures-or_raise P found _ _ (λ l is. Ensures-require P _ _ _ (λ idle.
        let begun = is_drafting l.survey.status || is_queued l.survey.status in
        Ensures-bind P (if begun then give_back l user now db else ok db) _ (λ c cleared.
          let given =
            Ensures-at (Frugal db) _
              (Ensures-if (Frugal db) begun (give_back l user now db) (ok db)
                (λ h. give_back-Frugal l user now db) (λ h. same-Frugal db))
              cleared in
          record { limits = given.limits; spending = given.spending }))))
