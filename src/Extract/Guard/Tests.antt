-- ===== src/Extract/Guard/Tests.antt =====
-- A guard with the marks 640 and 512.
use scholight.Prelude.{
  true, ℕ, ◌≡◌, ◌<◌, ◌⊎◌, ◌&&◌, ◌||◌, refl, false, some, [], ◌∷◌, ltb, arith, if◌then◌else◌,
}
use scholight.Extract.Guard.{
  requested, request_reclaim, capacity_recovered, take_notes, rested, absent, running, returned,
  raised, Guard, new, admit, tick,
}
use scholight.Extract.Guard.Hysteresis.{
  at_rest, left_of, under_way, tick-closes, tick-opens, tick-noted,
}

abbrev fresh : Guard
fresh = new 640 512

-- Over the high mark, with a reclaim that is not done at once.
abbrev paused_guard : Guard
paused_guard = tick (some 700) 10 10 false running [] fresh

still_paused : admit (tick (some 600) 11 11 false running [] paused_guard) ≡ false
unfolding admit tick new
still_paused = refl

-- A pressure noted while the tick sleeps stays noted.
noted_meanwhile : (tick (some 700) 10 10 false running (requested ∷ []) fresh).pressure ≡ true
unfolding tick take_notes request_reclaim new
noted_meanwhile = refl

-- The reclaim runs still, or has failed: a low working set does not open admission.
still_running : admit (tick (some 500) 12 12 false running [] paused_guard) ≡ false
unfolding admit tick new
still_running = refl

failed_reclaim :
    admit (tick (some 500) 12 12 false running [] (record paused_guard { recovery = raised }))
    ≡ false
unfolding admit tick new
failed_reclaim = refl

-- The reclaim has returned since.
abbrev reclaimed : Guard
reclaimed = record paused_guard { recovery = returned }

tick-closes_example : admit (tick (some 700) 10 10 false running [] fresh) ≡ false
unfolding new
tick-closes_example =
    tick-closes (some 700) 10 10 false running [] fresh (omega arith) (λ w e. ground arith)

tick-opens_example :
    (w : ℕ) × (some 500 ≡ some w)
    × (w < reclaimed.low)
    × ((under_way w 12 false running reclaimed ≡ absent)
        ⊎ (under_way w 12 false running reclaimed ≡ returned))
    × ((tick (some 500) 12 12 false running [] reclaimed).recovery ≡ absent)
unfolding admit tick new
tick-opens_example = tick-opens (some 500) 12 12 false running [] reclaimed refl refl

tick-noted_example :
    let begins = rested 50 fresh.last_reclaim && true in
    let noted = tick (some 100) 50 51 true running [] (request_reclaim fresh) in
    let calm = tick (some 100) 50 51 true running [] (capacity_recovered fresh) in
    (noted.last_reclaim ≡ (if begins then some 51 else fresh.last_reclaim))
    × (noted.recovery ≡ (if begins then left_of 100 fresh.low running else absent))
    × (admit noted ≡ (
        if begins then at_rest running && ltb 100 fresh.low else ltb 100 fresh.low || admit fresh))
    × (calm.last_reclaim ≡ fresh.last_reclaim)
    × (calm.recovery ≡ absent)
    × (admit calm ≡ (ltb 100 fresh.low || admit fresh))
unfolding new
tick-noted_example = tick-noted 100 50 51 true running [] fresh (omega arith) refl
