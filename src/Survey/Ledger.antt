-- ===== src/Survey/Ledger.antt =====
-- The ledger of the daily quota: a usage row counts the surveys that hold a reservation.
pub mod Balance
pub mod Locks
pub mod Paired
pub mod Pairing
pub mod Ending
pub mod Cancelling
pub mod Deleting
pub mod Archiving
pub mod Recovering
pub mod Claiming
pub mod Leasing
pub mod Tasks
pub mod TaskClaims
pub mod TaskStarts
pub mod WorkCalls
pub mod Limit
pub mod Frugality
pub mod FrugalArchive
pub mod System
pub mod Daily
mod Tests
use scholight.Prelude.{
  ℕ, zero, suc, ◌+◌, ◌-◌, ◌≡◌, ◌≤◌, ◌<◌, refl, sym, ◌∙◌, ap, Bool, true, false, not, ◌&&◌, ◌||◌,
  Option, none, some, List, [], ◌∷◌, ◌++◌, ◌==◌, ==_iff, ==_refl, ltb, leb, if◌then◌else◌, total,
  arith, Bool-cases, Option-cases, inl, inr,
}
use scholight.Prelude.Rows.{
  find_row, update_row, delete_row, find_row-holds, total-update_row, total-delete_row,
}
use scholight.Survey.Tables.{
  Usage, Survey, QuotaState, quota_reserved, quota_consumed, quota_released, Db, of_usage,
}
use scholight.Survey.Lifecycle.{
  is_reserved, with_usage, reserve_one, settle_one, release_reservation,
}

-- The reservations that a user holds on a date.
abbrev pub holds : ℕ → ℕ → Survey → ℕ
holds user date s =
    if s.user_id == user && s.quota_date == date && is_reserved s.quota_state then 1 else 0

abbrev pub reservations : ℕ → ℕ → List Survey → ℕ
reservations user date = total (holds user date)

abbrev pub counted : Option Usage → ℕ
counted none = 0
counted (some r) = r.reserved_count

-- What the usage row of a user and a date counts.
abbrev pub counted_in : ℕ → ℕ → List Usage → ℕ
counted_in user date us = counted (find_row (of_usage user date) us)

pub counted-with_usage :
    (u d user date : ℕ) (us : List Usage)
    → counted_in u d (with_usage user date us) ≡ counted_in u d us
counted-with_usage u d user date us = elim (Option-cases (find_row (of_usage user date) us)) [
  | inr (r, found) ↦ rw (with_usage, found) refl
  | inl missing ↦
      rw (with_usage, missing)
        (elim (Bool-cases (user == u && date == d)) [
          | inl same ↦
              let eu : user ≡ u = (==_iff user u).0 (ground arith) in
              let ed : date ≡ d = (==_iff date d).0 (ground arith) in
              let gone : find_row (of_usage u d) us ≡ none = rw (sym eu, sym ed) missing in
              rw (same, gone) refl
          | inr other ↦ rw other refl
        ])
]

of_usage-key :
    (u d user date : ℕ) (r : Usage)
    → of_usage user date r ≡ true
    → of_usage u d r ≡ (user == u && date == d)
of_usage-key u d user date r h = ground arith

counted-if :
    (b : Bool) (r : Usage) (o : Option Usage)
    → counted (if b then some r else o) ≡ (if b then r.reserved_count else counted o)
counted-if true r o = refl
counted-if false r o = refl

module _ (f : Usage → Usage)
    (keeps : (u d : ℕ) (r : Usage) → of_usage u d (f r) ≡ of_usage u d r) where
  -- The effect of an update of one usage row on every lookup.
  pub found-update :
      (u d user date : ℕ) (us : List Usage) {r : Usage}
      → find_row (of_usage user date) us ≡ some r
      → find_row (of_usage u d) (update_row (of_usage user date) f us)
        ≡ (if user == u && date == d then some (f r) else find_row (of_usage u d) us)
  found-update u d user date [] h = cc
  found-update u d user date (y ∷ us) {r} h = elim (Bool-cases (of_usage user date y)) [
    | inl hit ↦
        let e : some y ≡ some r = ground arith in
        let g : y ≡ r = cc in
        let key = of_usage-key u d user date y hit in
        rw (hit, keeps, key, g)
          (elim (Bool-cases (user == u && date == d)) [
            | inl same ↦ rw same refl
            | inr other ↦ rw other refl
          ])
    | inr miss ↦
        let rest = found-update u d user date us (simp miss at h) in
        rw (miss, rest)
          (elim (Bool-cases (user == u && date == d)) [
            | inl same ↦
                let no_hit : of_usage u d y ≡ false = ground arith in rw (same, no_hit) refl
            | inr other ↦ rw other refl
          ])
  ]

  pub counted-update :
      (u d user date : ℕ) (us : List Usage) {r : Usage}
      → find_row (of_usage user date) us ≡ some r
      → counted_in u d (update_row (of_usage user date) f us)
        ≡ (if user == u && date == d then (f r).reserved_count else counted_in u d us)
  counted-update u d user date us {r} h =
      ap counted (found-update u d user date us h)
      ∙ counted-if (user == u && date == d) (f r) (find_row (of_usage u d) us)
