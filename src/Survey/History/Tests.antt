-- ===== src/Survey/History/Tests.antt =====
-- A survey whose first draft a task writes, and which then gets a second one by hand.
use scholight.Prelude.{ℕ, ◌≡◌, ◌≤◌, refl, Option, none, some, if◌then◌else◌}
use scholight.Prelude.Text.{Text, codes}
use scholight.Prelude.Result.{◌>>=◌, ◌>>◌, require, or_raise, committed, Ensures}
use scholight.Prelude.Keys.{row_count}
use scholight.Survey.Tables.{Db, lock_survey_aggregate}
use scholight.Survey.Lifecycle.{create_survey, create_with}
use scholight.Survey.Drafts.{
  complete_survey_draft, create_manual_draft, manual_locked, require_editable, add_draft,
  same_request, lock_draft,
}
use scholight.Survey.Drafts.Claim.{claim_survey_draft, claim_drafts, claim_draft_found}
use scholight.Survey.Drafts.Revisions.{latest_of, Numbers}
use scholight.Survey.Drafts.Numbering.{complete_survey_draft-Numbers}
use scholight.Survey.Ledger.System.{empty_tables}
use scholight.Survey.History.Numbers.{is_active, has_number, up_to, Small}
use scholight.Survey.Ledger.WorkCalls.{claimed_draft}
use scholight.Survey.History.System.{here, next, create, claim, complete, manual, drafts_numbered}

abbrev hash : Text
hash = codes "ab12"

abbrev no_overrides : ℕ → Option ℕ
no_overrides user = none

abbrev requested : Db
requested =
    committed (empty_tables no_overrides)
      (create_survey 1 10 7 5 hash 20 2 100 (empty_tables no_overrides))

abbrev claimed : Db
claimed = claimed_draft requested (claim_survey_draft 50 60 4 2 110 requested)

abbrev completed : Db
completed = committed claimed (complete_survey_draft 10 50 (codes "# Draft") 120 claimed)

abbrev rewritten : Db
rewritten = committed completed (create_manual_draft 1 7 11 6 hash (codes "# Mine") 130 completed)

rewritten-latest : latest_of 1 rewritten.drafts ≡ some 2
unfolding ◌>>=◌ ◌>>◌ require or_raise create_survey create_with claim_survey_draft claim_drafts
    claim_draft_found complete_survey_draft lock_draft create_manual_draft manual_locked
    require_editable add_draft same_request lock_survey_aggregate
rewritten-latest = refl

drafts_numbered_example :
    (row_count (is_active 1) rewritten.drafts ≤ 1)
    × ((n : ℕ)
        → row_count (has_number 1 n) rewritten.drafts
          ≡ (if up_to (latest_of 1 rewritten.drafts) n then 1 else 0))
    × Small (latest_of 1 rewritten.drafts)
drafts_numbered_example =
    drafts_numbered no_overrides
      (next
        (next
          (next (next here (create 1 10 7 5 hash 20 2 100 (empty_tables no_overrides)))
            (claim 50 60 4 2 110 requested))
          (complete 10 50 (codes "# Draft") 120 claimed))
        (manual 1 7 11 6 hash (codes "# Mine") 130 completed))
      1

complete_survey_draft-Numbers_example :
    Ensures (Numbers claimed) (complete_survey_draft 10 50 (codes "# Draft") 120 claimed)
complete_survey_draft-Numbers_example =
    complete_survey_draft-Numbers 10 50 (codes "# Draft") 120 claimed
