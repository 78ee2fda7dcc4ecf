-- ===== src/Extract/Guard/Hysteresis.antt =====
-- When a tick pauses admission, and when it resumes it.
use scholight.Prelude.{
  ap, if◌then◌else◌, ◌&&◌, ◌||◌, ℕ, ◌≡◌, ◌≤◌, ◌<◌, ◌⊎◌, inl, inr, refl, Bool, true, false, not,
  Option, none, some, List, [], ◌∷◌, ltb, arith, Bool-cases,
}
use scholight.Extract.Guard.{
  request_reclaim, capacity_recovered, Note, requested, recovered, take_notes, rested, is_absent,
  high_water, idle_pressure, Recovery, absent, running, returned, raised, Guard, admit,
  begin_reclaim, settle, tick,
}

-- A task that is not there, or has returned.
abbrev pub at_rest : Recovery → Bool
at_rest absent = true
at_rest running = false
at_rest returned = true
at_rest raised = false

-- What a tick at the working set `w` leaves of a task: one that raised is started again, and one
-- that returned is forgotten below the low mark.
abbrev pub left_of : ℕ → ℕ → Recovery → Recovery
left_of w low absent = absent
left_of w low running = running
left_of w low returned = if ltb w low then absent else returned
left_of w low raised = running

-- The task after the first part of a tick.
abbrev pub under_way : ℕ → ℕ → Bool → Recovery → Guard → Recovery
under_way w checked can soon g =
    if high_water w g || idle_pressure checked can g then soon else g.recovery

record Kept (g h : Guard) : Type 0 where
  paused : h.paused ≡ g.paused
  low : h.low ≡ g.low
  last_reclaim : h.last_reclaim ≡ g.last_reclaim
  recovery : h.recovery ≡ g.recovery

take_notes-Kept : (notes : List Note) (g : Guard) → Kept g (take_notes notes g)
unfolding take_notes request_reclaim capacity_recovered
take_notes-Kept [] g = record { paused = refl; low = refl; last_reclaim = refl; recovery = refl }
take_notes-Kept (requested ∷ notes) g =
    let k = take_notes-Kept notes (request_reclaim g) in
    record { paused = k.paused; low = k.low; last_reclaim = k.last_reclaim; recovery = k.recovery }
take_notes-Kept (recovered ∷ notes) g =
    let k = take_notes-Kept notes (capacity_recovered g) in
    record { paused = k.paused; low = k.low; last_reclaim = k.last_reclaim; recovery = k.recovery }

-- What the first part of a tick does, by whether it begins a reclaim.
begin_reclaim-parts :
    (w checked now : ℕ) (can : Bool) (soon : Recovery) (notes : List Note) (g : Guard)
    → let begins = high_water w g || idle_pressure checked can g in
      let h = begin_reclaim w checked now can soon notes g in
      (h.paused ≡ (begins || g.paused))
      × (h.low ≡ g.low)
      × (h.last_reclaim ≡ (if begins then some now else g.last_reclaim))
      × (h.recovery ≡ under_way w checked can soon g)
unfolding begin_reclaim
begin_reclaim-parts w checked now can soon notes g =
    elim (Bool-cases (high_water w g || idle_pressure checked can g)) [
      | inl begins ↦
          let k = take_notes-Kept notes (record g {
            paused = true;
            pressure = false;
            last_reclaim = some now;
            recovery = soon;
          }) in
          rw begins (k.paused, k.low, k.last_reclaim, k.recovery)
      | inr quiet ↦ rw quiet (refl, refl, refl, refl)
    ]

-- What the second part leaves, by the state of the task.
settle-parts :
    (w : ℕ) (g : Guard) (r : Recovery)
    → let h = settle w (record g { recovery = r }) in
      (h.recovery ≡ left_of w g.low r)
      × (admit h ≡ ((at_rest r && ltb w g.low) || admit g))
      × (h.last_reclaim ≡ g.last_reclaim)
unfolding settle admit
settle-parts w g absent = (ground arith, ground arith, ground arith)
settle-parts w g running = (ground arith, ground arith, ground arith)
settle-parts w g returned = (ground arith, ground arith, ground arith)
settle-parts w g raised = (ground arith, ground arith, ground arith)

-- Both parts of a tick together.
tick-parts :
    (w checked now : ℕ) (can : Bool) (soon : Recovery) (notes : List Note) (g : Guard)
    → let begins = high_water w g || idle_pressure checked can g in
      let r = under_way w checked can soon g in
      let h = tick (some w) checked now can soon notes g in
      (h.recovery ≡ left_of w g.low r)
      × (admit h ≡ ((at_rest r && ltb w g.low) || (not begins && admit g)))
      × (h.last_reclaim ≡ (if begins then some now else g.last_reclaim))
unfolding tick admit
tick-parts w checked now can soon notes g =
    let h : Guard = begin_reclaim w checked now can soon notes g in
    let (shut, low, last, task) = begin_reclaim-parts w checked now can soon notes g in
    let (left, opens, same) = settle-parts w h h.recovery in
    (rw (left, low, task) refl, rw (opens, low, task, shut) (ground arith), rw (same, last) refl)

-- Where the low mark is not above the high one, a tick whose sample fails, or shows a working set at
-- or over the high mark, leaves admission closed.
pub tick-closes :
    (sample : Option ℕ) (checked now : ℕ) (can_reclaim : Bool) (soon : Recovery) (notes : List Note)
    (g : Guard)
    → g.low ≤ g.high
    → ((w : ℕ) → sample ≡ some w → g.high ≤ w)
    → admit (tick sample checked now can_reclaim soon notes g) ≡ false
unfolding tick admit
tick-closes none checked now can soon notes g marks over = refl
tick-closes (some w) checked now can soon notes g marks over =
    let (left, opens, last) = tick-parts w checked now can soon notes g in
    ground (arith, opens, over w refl)

at_rest-cases : (r : Recovery) → at_rest r ≡ true → (r ≡ absent) ⊎ (r ≡ returned)
at_rest-cases absent h = inl refl
at_rest-cases running h = absurd (ground arith)
at_rest-cases returned h = inr refl
at_rest-cases raised h = absurd (ground arith)

-- A tick opens admission that was closed only on a working set below the low mark, and when the
-- reclaim that it finds or begins, if there is one, has returned without an error: none is running
-- and none has failed. It then leaves no reclaim behind.
pub tick-opens :
    (sample : Option ℕ) (checked now : ℕ) (can_reclaim : Bool) (soon : Recovery) (notes : List Note)
    (g : Guard)
    → admit g ≡ false
    → admit (tick sample checked now can_reclaim soon notes g) ≡ true
    → (w : ℕ) × (sample ≡ some w)
      × (w < g.low)
      × ((under_way w checked can_reclaim soon g ≡ absent)
          ⊎ (under_way w checked can_reclaim soon g ≡ returned))
      × ((tick sample checked now can_reclaim soon notes g).recovery ≡ absent)
unfolding tick admit
tick-opens none checked now can soon notes g shut open_after = absurd (ground arith)
tick-opens (some w) checked now can soon notes g shut open_after =
    let (left, opens, last) = tick-parts w checked now can soon notes g in
    let r : Recovery = under_way w checked can soon g in
    let rests : (at_rest r && ltb w g.low) ≡ true = ground (arith, opens) in
    let below : w < g.low = ground (arith, rests) in
    let quiet = at_rest-cases r (ground (arith, rests)) in
    (
      w,
      refl,
      below,
      quiet,
      elim quiet [ inl e ↦ rw (left, e) refl | inr e ↦ rw (left, e) (ground (arith, below)) ],
    )

-- Below the high mark and with no reclaim under way: a tick begins a reclaim for a noted pressure
-- exactly when 30 seconds have passed since the last and the caller allows it. It then notes the
-- time and keeps the task, started again if it has already failed and forgotten if it has returned
-- below the low mark, and it admits only in this last case. When it begins none, and always when
-- the pressure has been taken back, there is no task after it, the time stays, and admission is as
-- before or, below the low mark, open.
pub tick-noted :
    (w checked now : ℕ) (can_reclaim : Bool) (soon : Recovery) (notes : List Note) (g : Guard)
    → w < g.high
    → g.recovery ≡ absent
    → let begins = rested checked g.last_reclaim && can_reclaim in
      let noted = tick (some w) checked now can_reclaim soon notes (request_reclaim g) in
      let calm = tick (some w) checked now can_reclaim soon notes (capacity_recovered g) in
      (noted.last_reclaim ≡ (if begins then some now else g.last_reclaim))
      × (noted.recovery ≡ (if begins then left_of w g.low soon else absent))
      × (admit noted ≡ (if begins then at_rest soon && ltb w g.low else ltb w g.low || admit g))
      × (calm.last_reclaim ≡ g.last_reclaim)
      × (calm.recovery ≡ absent)
      × (admit calm ≡ (ltb w g.low || admit g))
unfolding request_reclaim capacity_recovered admit
tick-noted w checked now can soon notes g below idle =
    let none_there : is_absent g.recovery ≡ true = ap is_absent idle in
    let a : Guard = request_reclaim g in
    let b : Guard = capacity_recovered g in
    let begins : Bool = rested checked g.last_reclaim && can in
    let noted : (high_water w a || idle_pressure checked can a) ≡ begins =
      ground (arith, none_there) in
    let calm : (high_water w b || idle_pressure checked can b) ≡ false =
      ground (arith, none_there) in
    let (left, opens, last) = tick-parts w checked now can soon notes a in
    let (left', opens', last') = tick-parts w checked now can soon notes b in
    let (task, admits) = parted begins in
    (
      rw (last, noted) refl,
      rw (left, noted) task,
      rw (opens, noted) admits,
      rw (last', calm) refl,
      rw (left', calm, idle) refl,
      rw (opens', calm, idle) refl,
    )
  where
    parted :
        (b : Bool)
        → (left_of w g.low (if b then soon else g.recovery)
            ≡ (if b then left_of w g.low soon else absent))
          × (((at_rest (if b then soon else g.recovery) && ltb w g.low) || (not b && admit g))
              ≡ (if b then at_rest soon && ltb w g.low else ltb w g.low || admit g))
    parted true = (refl, ground arith)
    parted false = (rw idle refl, rw idle (ground arith))
