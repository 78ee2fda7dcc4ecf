-- ===== src/Survey/Progress/Tests.antt =====
-- Progress of some surveys, with the case folding of ASCII.
use scholight.Prelude.{◌≡◌, refl, some, map}
use scholight.Prelude.Text.{codes, lower}
use scholight.Survey.Progress.{
  planning, reviewing_evidence, failed, present_progress, presentation, stage_for_component,
  underscore, name_of,
}
use scholight.Survey.Progress.Bounds.{InBounds, present_progress-InBounds}
use scholight.Survey.Progress.Components.{
  ShownAs, stage_for_component-underscore, stage_for_component-ShownAs,
}

camel_case : stage_for_component lower (codes "PaperCard") ≡ some reviewing_evidence
unfolding stage_for_component
camel_case = refl

-- An execution stage that is not presented is shown as planning.
waiting_run : present_progress (codes "running") (some (codes "waiting")) ≡ some (planning, 8, 1)
unfolding present_progress presentation
waiting_run = refl

failed_in_review :
    present_progress (codes "failed") (some (codes "reviewing_evidence")) ≡ some (failed, 55, 3)
unfolding present_progress presentation
failed_in_review = refl

present_progress-InBounds_example :
    InBounds (present_progress (codes "failed") (some (codes "waiting")))
present_progress-InBounds_example =
    present_progress-InBounds (codes "failed") (some (codes "waiting"))

stage_for_component-underscore_example :
    stage_for_component lower (map underscore (codes "paper-card"))
    ≡ stage_for_component lower (codes "paper-card")
stage_for_component-underscore_example = stage_for_component-underscore lower (codes "paper-card")

stage_for_component-ShownAs_example :
    ShownAs reviewing_evidence
      (present_progress (codes "running") (some (name_of reviewing_evidence)))
unfolding stage_for_component
stage_for_component-ShownAs_example = stage_for_component-ShownAs lower (codes "PaperCard") refl
