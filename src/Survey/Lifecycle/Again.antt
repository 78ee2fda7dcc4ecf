-- ===== src/Survey/Lifecycle/Again.antt =====
-- A request that is sent again finds the survey of the first.
use scholight.Prelude.{
  ℕ, ◌≡◌, refl, ap, true, ◌&&◌, some, List, [], ◌∷◌, ◌==◌, ==_refl, if◌then◌else◌, Bool-cases,
  Option-cases, inl, inr,
}
use scholight.Prelude.Text.{Text, text_eq}
use scholight.Prelude.TextEquality.{text_eq_refl}
use scholight.Prelude.Result.{
  ok, err, ◌>>◌, require, Ensures, Ensures-at, Ensures-require, Ensures-or_raise,
}
use scholight.Prelude.Rows.{find_row, update_row}
use scholight.Survey.Tables.{Usage, Survey, Db, idempotency_conflict, of_usage}
use scholight.Survey.Lifecycle.{with_usage, reserve_one, create_with, create_survey}

-- The survey of a request, as a transaction leaves it.
record Kept (user client : ℕ) (hash : Text) (date : ℕ) (r : Survey × Db) : Type 0 where
  found : find_row (λ s. s.user_id == user && s.client_request_id == client) r.1.surveys ≡ some r.0
  same_hash : text_eq r.0.request_hash hash ≡ true
  counted : with_usage user date r.1.usages ≡ r.1.usages

with_usage-found :
    (user date : ℕ) (us : List Usage) {r : Usage}
    → find_row (of_usage user date) us ≡ some r
    → with_usage user date us ≡ us
with_usage-found user date us found = rw (with_usage, found) refl

-- The row is there for the rest of the transaction.
usage-with_usage :
    (user date : ℕ) (us : List Usage)
    → (r : Usage) × (find_row (of_usage user date) (with_usage user date us) ≡ some r)
usage-with_usage user date us = elim (Option-cases (find_row (of_usage user date) us)) [
  | inr (r, found) ↦ (r, rw (with_usage, found) found)
  | inl missing ↦ (
    record { user_id = user; usage_date = date; reserved_count = 0; succeeded_count = 0 },
    rw (with_usage, missing, ==_refl user, ==_refl date) refl,
  )
]

usage-update :
    (user date : ℕ) (us : List Usage) {r : Usage}
    → find_row (of_usage user date) us ≡ some r
    → find_row (of_usage user date) (update_row (of_usage user date) reserve_one us)
      ≡ some (reserve_one r)
usage-update user date [] h = cc
usage-update user date (y ∷ us) {r} h = elim (Bool-cases (of_usage user date y)) [
  | inl hit ↦
      let e : some y ≡ some r = simp hit at h in let same : y ≡ r = cc in rw (hit, hit, same) refl
  | inr miss ↦ rw (miss, miss) (usage-update user date us (simp miss at h))
]

create_with-Kept :
    (survey_id draft_id user client : ℕ) (hash : Text) (date limit now : ℕ) (db : Db) {r : Usage}
    → find_row (of_usage user date) db.usages ≡ some r
    → Ensures
        (Kept user client hash date)
        (create_with survey_id draft_id user client hash date limit now db)
unfolding create_with
create_with-Kept survey_id draft_id user client hash date limit now db {r} row =
    let P : Survey × Db → Type 0 = Kept user client hash date in
    elim (Option-cases
      (find_row (λ s. s.user_id == user && s.client_request_id == client) db.surveys)) [
        | inr (existing, old) ↦
            rw (create_with, old)
              (Ensures-require P (text_eq existing.request_hash hash) _ _ (λ same. record {
                found = old;
                same_hash = same;
                counted = with_usage-found user date db.usages row;
              }))
        | inl new ↦
            rw (create_with, new)
              (Ensures-or_raise P (find_row (of_usage user date) db.usages) _ _ (λ usage at.
                Ensures-require P _ _ _ (λ room. Ensures-require P _ _ _ (λ free.
                  Ensures-require P _ _ _ (λ free_draft. record {
                    found = rw (==_refl user, ==_refl client) refl;
                    same_hash = text_eq_refl hash;
                    counted = with_usage-found user date _ (usage-update user date db.usages row);
                  })))))
      ]

-- A request that went through is remembered: with the same user, client id and date, whatever else
-- is drawn, a later request gets the same survey and writes nothing if its hash is the same, and is
-- refused with a conflict if it is another; and the hash of the first request is the same.
pub create_survey-create_survey :
    (survey_id draft_id user client : ℕ) (hash : Text) (date limit now : ℕ) (db : Db) (s : Survey)
    (after : Db)
    → create_survey survey_id draft_id user client hash date limit now db ≡ ok (s, after)
    → (text_eq s.request_hash hash ≡ true)
      × ((other_id other_draft : ℕ) (other_hash : Text) (other_limit later : ℕ)
          → create_survey other_id other_draft user client other_hash date other_limit later after
            ≡ (if text_eq s.request_hash other_hash
                then ok (s, after)
                else err idempotency_conflict))
unfolding create_survey create_with ◌>>◌ require
create_survey-create_survey survey_id draft_id user client hash date limit now db s after went =
    let (r, row) = usage-with_usage user date db.usages in
    let kept =
      Ensures-at (Kept user client hash date) _
        (create_with-Kept survey_id draft_id user client hash date limit now
          (record db { usages = with_usage user date db.usages }) row)
        went in
    (
      kept.same_hash,
      λ other_id other_draft other_hash other_limit later.
          let written : Db = record after { usages = with_usage user date after.usages } in
          let same : written ≡ after = ap (λ us. record after { usages = us }) kept.counted in
          rw (create_with, kept.found)
            (elim (Bool-cases (text_eq s.request_hash other_hash)) [
              | inl equal ↦ rw equal (ap (λ d. ok (s, d)) same)
              | inr differ ↦ rw differ refl
            ]),
    )
