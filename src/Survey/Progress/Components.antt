-- ===== src/Survey/Progress/Components.antt =====
-- The internal components of a survey and the stages that they belong to.
use scholight.Prelude.{
  ℕ, ◌≡◌, ◌<◌, refl, sym, ◌∙◌, ap, Bool, true, false, Option, some, List, [], ◌∷◌, ◌&&◌, map, leb,
  if◌then◌else◌, arith, all, Bool-cases, inl, inr,
}
use scholight.Prelude.Text.{Text, codes, text_eq}
use scholight.Survey.Progress.{
  Stage, waiting, drafting, waiting_for_draft, waiting_for_execution, planning, discovering,
  reviewing_evidence, structuring_report, writing_report, finalizing, cancelling, saving_results,
  completed, failed, cancelled, presentation, name_of, present_progress, component_stages,
  find_component, stage_for_component, underscore, mark_capitals, mark_words,
}

underscore_kept :
    (c : ℕ)
    → (underscore (underscore c) ≡ underscore c)
      × ((leb b'A' (underscore c) && leb (underscore c) b'Z') ≡ (leb b'A' c && leb c b'Z'))
underscore_kept c = (ground arith, ground arith)

mark-underscore :
    (big also : Bool) (x y : ℕ) (s t : Text)
    → big ≡ also
    → underscore x ≡ underscore y
    → map underscore s ≡ map underscore t
    → map underscore (if big then b'_' ∷ x ∷ s else x ∷ s)
      ≡ map underscore (if also then b'_' ∷ y ∷ t else y ∷ t)
mark-underscore true true x y s t e f g = λ i. b'_' ∷ f i ∷ g i
mark-underscore false false x y s t e f g = λ i. f i ∷ g i
mark-underscore true false x y s t e f g = cc
mark-underscore false true x y s t e f g = cc

mark_capitals-underscore :
    (s : Text)
    → map underscore (mark_capitals (map underscore s)) ≡ map underscore (mark_capitals s)
mark_capitals-underscore [] = refl
mark_capitals-underscore (c ∷ s) =
    let (again, capital) = underscore_kept c in
    mark-underscore _ _ (underscore c) c _ _ capital again (mark_capitals-underscore s)

-- Dashes and underscores in a component's name mean the same.
pub stage_for_component-underscore :
    (casefold : Text → Text) (name : Text)
    → stage_for_component casefold (map underscore name) ≡ stage_for_component casefold name
unfolding stage_for_component
stage_for_component-underscore casefold [] = refl
stage_for_component-underscore casefold (c ∷ s) =
    let (again, capital) = underscore_kept c in
    let e : map underscore (mark_words (map underscore (c ∷ s)))
        ≡ map underscore (mark_words (c ∷ s)) =
      λ i. again i ∷ mark_capitals-underscore s i in
    ap (λ t. find_component (casefold t) component_stages) e

-- The stages that a component can be in.
abbrev pub is_phase : Stage → Bool
is_phase planning = true
is_phase discovering = true
is_phase reviewing_evidence = true
is_phase structuring_report = true
is_phase writing_report = true
is_phase finalizing = true
is_phase s = false

find_component-all :
    (p : Stage → Bool) (t : Text) (rs : List (Text × Stage)) {s : Stage}
    → all (λ r. p r.1) rs ≡ true
    → find_component t rs ≡ some s
    → p s ≡ true
find_component-all p t [] h e = absurd (ground arith)
find_component-all p t (r ∷ rs) {s} h e = elim (Bool-cases (text_eq t r.0)) [
  | inl same ↦
      let f : some r.1 ≡ some s = ground arith in
      let g : r.1 ≡ s = cc in ap p (sym g) ∙ ground arith
  | inr other ↦ find_component-all p t rs (ground arith) (simp other at e)
]

-- How a running survey shows a stage: as itself, with the step of its place among the six.
abbrev pub ShownAs : Stage → Option (Stage × ℕ × ℕ) → Type 0
ShownAs s r =
    (percent : ℕ) × (step : ℕ) × (r ≡ some (s, percent, step))
    × (0 < percent)
    × (percent < 98)
    × (0 < step)
    × (step < 7)

phase-ShownAs :
    (s : Stage)
    → is_phase s ≡ true
    → ShownAs s (present_progress (codes "running") (some (name_of s)))
unfolding present_progress presentation
phase-ShownAs planning h = (8, 1, refl, omega arith, omega arith, omega arith, omega arith)
phase-ShownAs discovering h = (25, 2, refl, omega arith, omega arith, omega arith, omega arith)
phase-ShownAs reviewing_evidence h =
    (55, 3, refl, omega arith, omega arith, omega arith, omega arith)
phase-ShownAs structuring_report h =
    (75, 4, refl, omega arith, omega arith, omega arith, omega arith)
phase-ShownAs writing_report h = (88, 5, refl, omega arith, omega arith, omega arith, omega arith)
phase-ShownAs finalizing h = (96, 6, refl, omega arith, omega arith, omega arith, omega arith)
phase-ShownAs waiting h = cc
phase-ShownAs drafting h = cc
phase-ShownAs waiting_for_draft h = cc
phase-ShownAs waiting_for_execution h = cc
phase-ShownAs cancelling h = cc
phase-ShownAs saving_results h = cc
phase-ShownAs completed h = cc
phase-ShownAs failed h = cc
phase-ShownAs cancelled h = cc

-- The stage that a component's name is mapped to is one that a running survey presents as itself,
-- behind the start and before the saving of the results.
pub stage_for_component-ShownAs :
    (casefold : Text → Text) (name : Text) {s : Stage}
    → stage_for_component casefold name ≡ some s
    → ShownAs s (present_progress (codes "running") (some (name_of s)))
unfolding stage_for_component
stage_for_component-ShownAs casefold name {s} h = phase-ShownAs s (
    find_component-all is_phase (casefold (map underscore (mark_words name))) component_stages refl
      h)
