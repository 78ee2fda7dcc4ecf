-- ===== src/Survey/Progress/Bounds.antt =====
-- Every progress can be presented, and the two tables of progress.py agree.
use scholight.Prelude.{
  ℕ, ◌≡◌, ◌≤◌, refl, sym, ◌∙◌, ap, Bool, true, false, Option, none, some, List, [], ◌∷◌, ◌&&◌, leb,
  if◌then◌else◌, arith, all, Bool-cases, Option-cases, inl, inr,
}
use scholight.Prelude.Text.{Text, codes, text_eq}
use scholight.Survey.Progress.{
  Stage, drafting, waiting_for_execution, planning, saving_results, completed, failed, cancelled,
  presentation, known, find_name, name_of, known_or, shown, present_progress, total_progress_steps,
}

-- A presentation within the bounds.
abbrev pub InBounds : Option (Stage × ℕ × ℕ) → Type 0
InBounds r =
    (stage : Stage) × (percent : ℕ) × (step : ℕ) × (r ≡ some (stage, percent, step))
    × (percent ≤ 100)
    × (step ≤ total_progress_steps)

abbrev fits : Stage → Bool
unfolding presentation
fits s = elim (presentation s) [
  | none ↦ false
  | some (percent, step) ↦ leb percent 100 && leb step total_progress_steps
]

shown-InBounds : (stage prior : Stage) → fits prior ≡ true → InBounds (shown stage prior)
unfolding fits
shown-InBounds stage prior ok = go (presentation prior) ok
  where
    go :
        (r : Option (ℕ × ℕ))
        → (elim r as (λ x. Bool) [
          | none ↦ false
          | some (percent, step) ↦ leb percent 100 && leb step total_progress_steps
        ])
          ≡ true
        → InBounds (elim r as (λ x. Option (Stage × ℕ × ℕ)) [
          | none ↦ none
          | some (percent, step) ↦ some (stage, percent, step)
        ])
    go none h = cc
    go (some (percent, step)) h = (stage, percent, step, refl, ground arith, ground arith)

find_name-all :
    (p : Stage → Bool) (t : Text) (ss : List Stage) {s : Stage}
    → all p ss ≡ true
    → find_name t ss ≡ some s
    → p s ≡ true
find_name-all p t [] h e = absurd (ground arith)
find_name-all p t (x ∷ ss) {s} h e = elim (Bool-cases (text_eq t (name_of x))) [
  | inl same ↦
      let f : some x ≡ some s = ground arith in let g : x ≡ s = cc in ap p (sym g) ∙ ground arith
  | inr other ↦ find_name-all p t ss (ground arith) (simp other at e)
]

known-fits : all fits known ≡ true
unfolding presentation fits
known-fits = refl

known_or-fits : (o : Option Text) (s : Stage) → fits s ≡ true → fits (known_or o s) ≡ true
known_or-fits none s h = h
known_or-fits (some t) s h = elim (Option-cases (find_name t known)) [
  | inl missing ↦ rw (known_or, missing) h
  | inr (x, found) ↦ rw (known_or, found) (find_name-all fits t known known-fits found)
]

if-InBounds :
    (b : Bool) (r q : Option (Stage × ℕ × ℕ))
    → InBounds r
    → InBounds q
    → InBounds (if b then r else q)
if-InBounds true r q h k = h
if-InBounds false r q h k = k

idle-fits : (b : Bool) → fits (if b then planning else waiting_for_execution) ≡ true
unfolding fits presentation
idle-fits true = refl
idle-fits false = refl

-- Whatever the status and the execution stage say, there is a presentation, of a percentage of at
-- most 100 and one of the eight steps or 0.
pub present_progress-InBounds :
    (status : Text) (execution_stage : Option Text)
    → InBounds (present_progress status execution_stage)
unfolding present_progress fits presentation
present_progress-InBounds status execution_stage =
    if-InBounds _ _ _ (shown-InBounds drafting drafting refl) (
      if-InBounds _ _ _ (shown-InBounds waiting_for_execution waiting_for_execution refl) (
        if-InBounds _ _ _ (shown-InBounds saving_results saving_results refl) (
          if-InBounds _ _ _ (shown-InBounds completed completed refl) (
            if-InBounds _ _ _
              (shown-InBounds cancelled _ (known_or-fits execution_stage drafting refl))
              (if-InBounds _ _ _
                (shown-InBounds failed _ (known_or-fits execution_stage planning refl))
                (shown-InBounds _ _ (
                  known_or-fits execution_stage _
                    (idle-fits (text_eq status (codes "running"))))))))))
