-- ===== src/Survey/Attempts/Details.antt =====
-- What is stored of a failure, `_sanitized_failure_details` of scholight/db/queries_survey_attempts.py.
use scholight.Prelude.{ℕ, Option, none, some, List, [], ◌∷◌, take, if◌then◌else◌}
use scholight.Prelude.Text.{Text, codes, text_eq}
use scholight.Survey.Tables.{Value, null, scalar, string, nested, Attempt, Db}
use scholight.Survey.Attempts.Launch.{update_returning}
use scholight.Survey.Attempts.Checkpoints.{runs_as}

-- `_FAILURE_DETAIL_KEYS`; a JSON object has no order.
abbrev failure_detail_keys : List Text
failure_detail_keys =
    codes "container_reason"
    ∷ codes "provider_status"
    ∷ codes "provider_code"
    ∷ codes "provider_type"
    ∷ codes "provider_request_id"
    ∷ codes "provider_request_class"
    ∷ codes "request_bytes"
    ∷ codes "estimated_tokens"
    ∷ codes "message_count"
    ∷ codes "tool_count"
    ∷ codes "tool_call_count"
    ∷ codes "tool_result_count"
    ∷ codes "thinking_enabled"
    ∷ codes "reasoning_content_present"
    ∷ codes "reasoning_content_length"
    ∷ codes "unmatched_tool_calls"
    ∷ codes "duplicate_tool_calls"
    ∷ codes "checkpoint_error"
    ∷ []

abbrev pub Details : Type 0
Details = List (Text × Value)

-- `details.get(key)`
abbrev value_at : Text → Details → Option Value
value_at key [] = none
value_at key ((k, v) ∷ details) = if text_eq k key then some v else value_at key details

abbrev keep : Text → Option Value → Details → Details
keep key none rest = rest
keep key (some null) rest = (key, null) ∷ rest
keep key (some (scalar n)) rest = (key, scalar n) ∷ rest
keep key (some (string s)) rest = (key, string (take 512 s)) ∷ rest
keep key (some nested) rest = rest

unfoldable sanitized_from : List Text → Details → Details
sanitized_from [] details = []
sanitized_from (key ∷ keys) details = keep key (value_at key details) (sanitized_from keys details)

-- `_sanitized_failure_details`
unfoldable pub sanitized_failure_details : Details → Details
unfolding sanitized_from
sanitized_failure_details details = sanitized_from failure_detail_keys details

abbrev diagnose : Text → Details → ℕ → Attempt → Attempt
diagnose failure_class details now a = record a {
  failure_class = some (take 64 failure_class);
  failure_details = sanitized_failure_details details;
  heartbeat_at = some now;
}

-- `record_compute_attempt_diagnostics`
unfoldable pub record_compute_attempt_diagnostics :
    ℕ → Text → Details → ℕ → Db → Option Attempt × Db
unfolding update_returning
record_compute_attempt_diagnostics attempt_id failure_class details now db =
    update_returning (runs_as attempt_id) (diagnose failure_class details now) db
