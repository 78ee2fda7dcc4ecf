-- ===== src/Survey/Ledger/Limit.antt =====
-- What a user has spent of the daily limit: reservations and successes.
use scholight.Prelude.{
  ℕ, ◌+◌, ◌-◌, ◌≡◌, ◌≤◌, ◌<◌, refl, ◌∙◌, ap, Bool, true, false, ◌&&◌, Option, none, some, List,
  ◌==◌, ==_iff, if◌then◌else◌, arith, Bool-cases, Option-cases, inl, inr,
}
use scholight.Prelude.Text.{Text, text_eq}
use scholight.Prelude.Result.{Ensures, Ensures-require, Ensures-or_raise}
use scholight.Prelude.Rows.{find_row, update_row}
use scholight.Survey.Tables.{Usage, Survey, Db, of_usage}
use scholight.Survey.Lifecycle.{
  with_usage, reserve_one, settle_one, release_reservation, effective_limit, create_with,
  create_survey,
}
use scholight.Survey.Ledger.{found-update}
use scholight.Survey.Ledger.Balance.{released_row, same_key}

abbrev pub spent_by : Option Usage → ℕ
spent_by none = 0
spent_by (some r) = r.reserved_count + r.succeeded_count

-- The reservations and successes of a user on a date.
abbrev pub spent : ℕ → ℕ → List Usage → ℕ
spent user date us = spent_by (find_row (of_usage user date) us)

spent-if :
    (b : Bool) (r : Usage) (o : Option Usage)
    → spent_by (if b then some r else o)
      ≡ (if b then r.reserved_count + r.succeeded_count else spent_by o)
spent-if true r o = refl
spent-if false r o = refl

spent-update :
    (f : Usage → Usage) (keeps : (u d : ℕ) (r : Usage) → of_usage u d (f r) ≡ of_usage u d r)
    (u d user date : ℕ) (us : List Usage) {r : Usage}
    → find_row (of_usage user date) us ≡ some r
    → spent u d (update_row (of_usage user date) f us) ≡ (
        if user == u && date == d
        then (f r).reserved_count + (f r).succeeded_count
        else spent u d us)
spent-update f keeps u d user date us {r} h =
    ap spent_by (found-update f keeps u d user date us h)
    ∙ spent-if (user == u && date == d) (f r) (find_row (of_usage u d) us)

-- Nobody has spent more, and no limit was changed.
pub record Frugal (db after : Db) : Type 0 where
  pub limits : after.overrides ≡ db.overrides
  pub spending : (u d : ℕ) → spent u d after.usages ≤ spent u d db.usages

pub released-spent :
    (user date gained : ℕ) (us vs : List Usage)
    → gained ≤ 1
    → release_reservation user date gained us ≡ some vs
    → (u d : ℕ) → spent u d vs ≤ spent u d us
released-spent user date gained us vs most h u d =
    let (r, found, more, written) = released_row user date gained us h in
    let after = spent-update (settle_one gained) (λ a b c. refl) u d user date us found in
    let kept : spent u d vs ≡ spent u d (update_row (of_usage user date) (settle_one gained) us) =
      ap (spent u d) written in
    elim (Bool-cases (user == u && date == d)) [
      | inl same ↦
          let before : spent u d us ≡ r.reserved_count + r.succeeded_count =
            ap spent_by (same_key u d user date us same ∙ found) in
          let less : spent u d vs ≡ r.reserved_count - 1 + (r.succeeded_count + gained) =
            kept ∙ (simp same at after) in
          omega (arith, before, less, more, most)
      | inr other ↦
          let less : spent u d vs ≡ spent u d us = kept ∙ (simp other at after) in
          omega (arith, less)
    ]

-- No user has spent more on a date than its limit.
pub record WithinLimit (overrides : ℕ → Option ℕ) (limit : ℕ) (db : Db) : Type 0 where
  pub limits : db.overrides ≡ overrides
  pub spending : (u d : ℕ) → spent u d db.usages ≤ effective_limit (overrides u) limit

spent-with_usage :
    (u d user date : ℕ) (us : List Usage) → spent u d (with_usage user date us) ≡ spent u d us
spent-with_usage u d user date us = elim (Option-cases (find_row (of_usage user date) us)) [
  | inr (r, found) ↦ rw (with_usage, found) refl
  | inl missing ↦
      rw (with_usage, missing)
        (elim (Bool-cases (user == u && date == d)) [
          | inl same ↦
              let gone : find_row (of_usage u d) us ≡ none =
                same_key u d user date us same ∙ missing in
              rw (same, gone) refl
          | inr other ↦ rw other refl
        ])
]

effective_limit_mono : (o : Option ℕ) {m n : ℕ} → m ≤ n → effective_limit o m ≤ effective_limit o n
effective_limit_mono none h = h
effective_limit_mono (some k) h = omega arith

create_with-WithinLimit :
    (survey_id draft_id user client : ℕ) (hash : Text) (date limit now most : ℕ)
    (overrides : ℕ → Option ℕ) (db : Db)
    → limit ≤ most
    → WithinLimit overrides most db
    → Ensures
        (λ p. WithinLimit overrides most p.1)
        (create_with survey_id draft_id user client hash date limit now db)
unfolding create_with
create_with-WithinLimit survey_id draft_id user client hash date limit now most overrides db small
      within =
    let P : Survey × Db → Type 0 = λ p. WithinLimit overrides most p.1 in
    elim (Option-cases
      (find_row (λ s. s.user_id == user && s.client_request_id == client) db.surveys)) [
        | inr (existing, old) ↦
            rw (create_with, old)
              (Ensures-require P (text_eq existing.request_hash hash) _ _ (λ same. within))
        | inl new ↦
            rw (create_with, new)
              (Ensures-or_raise P (find_row (of_usage user date) db.usages) _ _ (λ usage found.
                Ensures-require P _ _ _ (λ room. Ensures-require P _ _ _ (λ free.
                  Ensures-require P _ _ _ (λ free_draft. record {
                    limits = within.limits;
                    spending = λ u d.
                        let after =
                          spent-update reserve_one (λ a b c. refl) u d user date db.usages found in
                        elim (Bool-cases (user == u && date == d)) [
                          | inl same ↦
                              let e : user ≡ u = (==_iff user u).0 (ground arith) in
                              let more = simp same at after in
                              let own : effective_limit (db.overrides user) limit
                                  ≡ effective_limit (overrides u) limit =
                                rw (e, within.limits) refl in
                              let below : usage.reserved_count + usage.succeeded_count
                                  < effective_limit (db.overrides user) limit =
                                ground arith in
                              let grows = effective_limit_mono (overrides u) small in
                              omega (arith, more, own, below, grows)
                          | inr other ↦
                              let kept = simp other at after in
                              omega (arith, kept, within.spending u d)
                        ];
                  })))))
      ]

pub create_survey-WithinLimit :
    (survey_id draft_id user client : ℕ) (hash : Text) (date limit now most : ℕ)
    (overrides : ℕ → Option ℕ) (db : Db)
    → limit ≤ most
    → WithinLimit overrides most db
    → Ensures
        (λ p. WithinLimit overrides most p.1)
        (create_survey survey_id draft_id user client hash date limit now db)
unfolding create_survey
create_survey-WithinLimit survey_id draft_id user client hash date limit now most overrides db small
      within =
    create_with-WithinLimit survey_id draft_id user client hash date limit now most overrides
      (record db { usages = with_usage user date db.usages }) small
      (record {
        limits = within.limits;
        spending =
            λ u d. omega (arith, spent-with_usage u d user date db.usages, within.spending u d);
      })
