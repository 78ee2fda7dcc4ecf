-- ===== src/Survey/Progress.antt =====
-- scholight/survey/progress.py: what clients see of a survey's progress. The case folding of the
-- Unicode tables is a parameter.
pub mod Bounds
pub mod Components
mod Tests
use scholight.Prelude.{
  ℕ, ◌&&◌, Bool, true, false, Option, none, some, List, [], ◌∷◌, leb, ◌==◌, if◌then◌else◌, map,
}
use scholight.Prelude.Text.{Text, codes, text_eq}

-- `PublicProgressStage`, with `waiting`, which only `ExecutionProgressStage` has.
pub data Stage : Type 0 where
  waiting : Stage
  drafting : Stage
  waiting_for_draft : Stage
  waiting_for_execution : Stage
  planning : Stage
  discovering : Stage
  reviewing_evidence : Stage
  structuring_report : Stage
  writing_report : Stage
  finalizing : Stage
  cancelling : Stage
  saving_results : Stage
  completed : Stage
  failed : Stage
  cancelled : Stage

-- `TOTAL_PROGRESS_STEPS`
abbrev pub total_progress_steps : ℕ
total_progress_steps = 8

abbrev pub name_of : Stage → Text
name_of waiting = codes "waiting"
name_of drafting = codes "drafting"
name_of waiting_for_draft = codes "waiting_for_draft"
name_of waiting_for_execution = codes "waiting_for_execution"
name_of planning = codes "planning"
name_of discovering = codes "discovering"
name_of reviewing_evidence = codes "reviewing_evidence"
name_of structuring_report = codes "structuring_report"
name_of writing_report = codes "writing_report"
name_of finalizing = codes "finalizing"
name_of cancelling = codes "cancelling"
name_of saving_results = codes "saving_results"
name_of completed = codes "completed"
name_of failed = codes "failed"
name_of cancelled = codes "cancelled"

-- `_STAGE_PRESENTATION`, which has no entry for `waiting`: percent and step.
unfoldable pub presentation : Stage → Option (ℕ × ℕ)
presentation waiting = none
presentation drafting = some (0, 0)
presentation waiting_for_draft = some (0, 0)
presentation waiting_for_execution = some (0, 0)
presentation planning = some (8, 1)
presentation discovering = some (25, 2)
presentation reviewing_evidence = some (55, 3)
presentation structuring_report = some (75, 4)
presentation writing_report = some (88, 5)
presentation finalizing = some (96, 6)
presentation cancelling = some (0, 0)
presentation saving_results = some (98, 7)
presentation completed = some (100, 8)
presentation failed = some (0, 0)
presentation cancelled = some (0, 0)

abbrev pub known : List Stage
known =
    drafting ∷ waiting_for_draft ∷ waiting_for_execution ∷ planning ∷ discovering
    ∷ reviewing_evidence ∷ structuring_report ∷ writing_report ∷ finalizing ∷ cancelling
    ∷ saving_results ∷ completed ∷ failed ∷ cancelled ∷ []

-- A key of a table of names.
abbrev pub find_name : Text → List Stage → Option Stage
find_name t [] = none
find_name t (s ∷ ss) = if text_eq t (name_of s) then some s else find_name t ss

-- `_COMPONENT_STAGES`
abbrev pub component_stages : List (Text × Stage)
component_stages =
    (codes "anchor", planning)
    ∷ (codes "query_plan", planning)
    ∷ (codes "discovery", discovering)
    ∷ (codes "method_scout", discovering)
    ∷ (codes "benchmark_scout", discovering)
    ∷ (codes "survey_scout", discovering)
    ∷ (codes "frontier_scout", discovering)
    ∷ (codes "discovery_merger", discovering)
    ∷ (codes "expansion", reviewing_evidence)
    ∷ (codes "citation_seed_selector", reviewing_evidence)
    ∷ (codes "reference_expander", reviewing_evidence)
    ∷ (codes "semantic_expander", reviewing_evidence)
    ∷ (codes "cross_domain_expander", reviewing_evidence)
    ∷ (codes "expansion_merger", reviewing_evidence)
    ∷ (codes "rank_pool", reviewing_evidence)
    ∷ (codes "card_plan", reviewing_evidence)
    ∷ (codes "paper_card", reviewing_evidence)
    ∷ (codes "research_map", reviewing_evidence)
    ∷ (codes "judge_panel", reviewing_evidence)
    ∷ (codes "coverage_judge", reviewing_evidence)
    ∷ (codes "scope_judge", reviewing_evidence)
    ∷ (codes "benchmark_judge", reviewing_evidence)
    ∷ (codes "gap_judge", reviewing_evidence)
    ∷ (codes "judge_synthesizer", reviewing_evidence)
    ∷ (codes "image_planner", structuring_report)
    ∷ (codes "survey_outline", structuring_report)
    ∷ (codes "section_expander", writing_report)
    ∷ (codes "survey_finalizer", finalizing)
    ∷ []

abbrev pub find_component : Text → List (Text × Stage) → Option Stage
find_component t [] = none
find_component t (r ∷ rs) = if text_eq t r.0 then some r.1 else find_component t rs

-- `re.sub(r"(?<!^)(?=[A-Z])", "_", name)`, behind the first character.
abbrev pub mark_capitals : Text → Text
mark_capitals [] = []
mark_capitals (c ∷ s) =
    if leb b'A' c && leb c b'Z' then b'_' ∷ c ∷ mark_capitals s else c ∷ mark_capitals s

abbrev pub mark_words : Text → Text
mark_words [] = []
mark_words (c ∷ s) = c ∷ mark_capitals s

abbrev pub underscore : ℕ → ℕ
underscore c = if c == b'-' then b'_' else c

-- `stage_for_component`
unfoldable pub stage_for_component : (Text → Text) → Text → Option Stage
stage_for_component casefold name =
    find_component (casefold (map underscore (mark_words name))) component_stages

-- `execution_stage if execution_stage in _STAGE_PRESENTATION else fallback`
abbrev pub known_or : Option Text → Stage → Stage
known_or none fallback = fallback
known_or (some t) fallback = elim (find_name t known) [ none ↦ fallback | some s ↦ s ]

-- `_STAGE_PRESENTATION[stage]`; `none` is the `KeyError`.
abbrev pub shown : Stage → Stage → Option (Stage × ℕ × ℕ)
shown stage prior = elim (presentation prior) [
  | none ↦ none
  | some (percent, step) ↦ some (stage, percent, step)
]

-- `present_progress`
unfoldable pub present_progress : Text → Option Text → Option (Stage × ℕ × ℕ)
unfolding presentation
present_progress status execution_stage =
    if text_eq status (codes "drafting")
    then shown drafting drafting
    else if text_eq status (codes "queued")
    then shown waiting_for_execution waiting_for_execution
    else if text_eq status (codes "archiving")
    then shown saving_results saving_results
    else if text_eq status (codes "succeeded")
    then shown completed completed
    else if text_eq status (codes "cancelled")
    then shown cancelled (known_or execution_stage drafting)
    else if text_eq status (codes "failed")
    then shown failed (known_or execution_stage planning)
    else (let idle = if text_eq status (codes "running") then planning else waiting_for_execution in
        let stage = known_or execution_stage idle in shown stage stage)
