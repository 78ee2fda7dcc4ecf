-- ===== src/Survey/Ledger/Balance.antt =====
-- What a usage row and the surveys of its user and date say of each other.
use scholight.Prelude.{
  ℕ, ◌+◌, ◌-◌, ◌≡◌, ◌<◌, refl, sym, ◌∙◌, ap, Bool, true, false, ◌&&◌, none, some, List, [], ◌∷◌,
  ◌==◌, ==_iff, ltb, if◌then◌else◌, arith, Bool-cases, Option-cases, inl, inr,
}
use scholight.Prelude.Rows.{find_row, update_row, total-update_row}
use scholight.Survey.Tables.{Usage, Survey, of_usage}
use scholight.Survey.Lifecycle.{is_reserved, reserve_one, settle_one, release_reservation}
use scholight.Survey.Ledger.{holds, reservations, counted, counted_in, counted-update}

-- What one usage row and the surveys of its user and date say, apart from the tables they stand in.
abbrev pub Balance : List Usage → List Survey → Type 0
Balance us ss = (user date : ℕ) → counted_in user date us ≡ reservations user date ss

holds-reserved :
    (u d : ℕ) (s : Survey)
    → is_reserved s.quota_state ≡ true
    → holds u d s ≡ (if s.user_id == u && s.quota_date == d then 1 else 0)
holds-reserved u d s h = ground arith

pub holds-settled : (u d : ℕ) (s : Survey) → is_reserved s.quota_state ≡ false → holds u d s ≡ 0
holds-settled u d s h = ground arith

-- What a release has found and written.
pub released_row :
    (user date gained : ℕ) (us : List Usage) {vs : List Usage}
    → release_reservation user date gained us ≡ some vs
    → (r : Usage) × (find_row (of_usage user date) us ≡ some r)
      × (0 < r.reserved_count)
      × (vs ≡ update_row (of_usage user date) (settle_one gained) us)
unfolding release_reservation
released_row user date gained us {vs} h = elim (Option-cases (find_row (of_usage user date) us)) [
  | inl missing ↦
      let e : none ≡ some vs = simp (release_reservation, missing) at h in absurd (ground arith)
  | inr (r, found) ↦
      let all : List Usage = update_row (of_usage user date) (settle_one gained) us in
      let e : (if ltb 0 r.reserved_count then some all else none) ≡ some vs =
        simp (release_reservation, found) at h in
      elim (Bool-cases (ltb 0 r.reserved_count)) [
        | inl more ↦
            let f : some all ≡ some vs = simp more at e in
            (r, found, ground arith, let g : all ≡ vs = cc in sym g)
        | inr zero_left ↦ absurd (let f : none ≡ some vs = simp zero_left at e in ground arith)
      ]
]

pub same_key :
    (u d user date : ℕ) (us : List Usage)
    → (user == u && date == d) ≡ true
    → find_row (of_usage u d) us ≡ find_row (of_usage user date) us
same_key u d user date us same =
    let eu : user ≡ u = (==_iff user u).0 (ground arith) in
    let ed : date ≡ d = (==_iff date d).0 (ground arith) in rw (eu, ed) refl

released-counted :
    (u d user date gained : ℕ) (us : List Usage) {vs : List Usage}
    → release_reservation user date gained us ≡ some vs
    → counted_in u d vs + (if user == u && date == d then 1 else 0) ≡ counted_in u d us
released-counted u d user date gained us {vs} h =
    let (r, found, more, written) = released_row user date gained us h in
    let after = counted-update (settle_one gained) (λ a b c. refl) u d user date us found in
    let kept : counted_in u d vs
        ≡ counted_in u d (update_row (of_usage user date) (settle_one gained) us) =
      ap (counted_in u d) written in
    elim (Bool-cases (user == u && date == d)) [
      | inl same ↦
          let now_one : counted_in u d us ≡ r.reserved_count =
            ap counted (same_key u d user date us same ∙ found) in
          let less : counted_in u d vs ≡ r.reserved_count - 1 = kept ∙ (simp same at after) in
          rw same (omega (arith, now_one, less, more))
      | inr other ↦
          let less : counted_in u d vs ≡ counted_in u d us = kept ∙ (simp other at after) in
          rw other (omega (arith, less))
    ]

-- A survey that gives up its reservation, or goes away with it, as the usage row counts one less.
pub released-Balance :
    (us vs : List Usage) (ss ts : List Survey) (x : Survey) (gained : ℕ)
    → Balance us ss
    → is_reserved x.quota_state ≡ true
    → release_reservation x.user_id x.quota_date gained us ≡ some vs
    → ((u d : ℕ) → reservations u d ts + holds u d x ≡ reservations u d ss)
    → Balance vs ts
released-Balance us vs ss ts x gained b reserved moved rest u d =
    let count = released-counted u d x.user_id x.quota_date gained us moved in
    let held = holds-reserved u d x reserved in omega (arith, count, held, rest u d, b u d)

-- An update of a survey that holds no reservation afterwards.
pub reservations-release :
    (p : Survey → Bool) (f : Survey → Survey) (ss : List Survey) (x : Survey)
    → find_row p ss ≡ some x
    → ((u d : ℕ) → holds u d (f x) ≡ 0)
    → (u d : ℕ) → reservations u d (update_row p f ss) + holds u d x ≡ reservations u d ss
reservations-release p f ss x found none_held u d =
    omega (arith, total-update_row (holds u d) p f ss found, none_held u d)

-- An update that leaves the reservation as it is.
pub reservations-keep :
    (p : Survey → Bool) (f : Survey → Survey) (ss : List Survey)
    → ((u d : ℕ) (s : Survey) → holds u d (f s) ≡ holds u d s)
    → (u d : ℕ) → reservations u d (update_row p f ss) ≡ reservations u d ss
reservations-keep p f [] keeps u d = refl
reservations-keep p f (s ∷ ss) keeps u d = elim (Bool-cases (p s)) [
  | inl hit ↦ rw hit (omega (arith, keeps u d s))
  | inr miss ↦ rw miss (omega (arith, reservations-keep p f ss keeps u d))
]

reserved-counted :
    (u d user date : ℕ) (us : List Usage) {r : Usage}
    → find_row (of_usage user date) us ≡ some r
    → counted_in u d (update_row (of_usage user date) reserve_one us)
      ≡ counted_in u d us + (if user == u && date == d then 1 else 0)
reserved-counted u d user date us {r} found =
    let after = counted-update reserve_one (λ a b c. refl) u d user date us found in
    elim (Bool-cases (user == u && date == d)) [
      | inl same ↦
          let now_one : counted_in u d us ≡ r.reserved_count =
            ap counted (same_key u d user date us same ∙ found) in
          let more = simp same at after in rw same (omega (arith, now_one, more))
      | inr other ↦ let kept = simp other at after in rw other (omega (arith, kept))
    ]

-- A new survey, with the usage row that counts its reservation.
pub reserved-Balance :
    (us : List Usage) (ss : List Survey) (s : Survey) {r : Usage}
    → Balance us ss
    → is_reserved s.quota_state ≡ true
    → find_row (of_usage s.user_id s.quota_date) us ≡ some r
    → Balance (update_row (of_usage s.user_id s.quota_date) reserve_one us) (s ∷ ss)
reserved-Balance us ss s b reserved found u d = omega (
  arith,
  reserved-counted u d s.user_id s.quota_date us found,
  holds-reserved u d s reserved,
  b u d,
)
