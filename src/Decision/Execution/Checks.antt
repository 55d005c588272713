-- ===== src/Decision/Execution/Checks.antt =====
-- moduagent/decision/planning.py: `ExecutionState.__post_init__`, and
-- moduagent/tools/arguments.py: `is_tool_argument_fingerprint`. `strip` is Python's `str.strip` and
-- `ref_of` is `step_result_ref`, a SHA-256 over canonical JSON. A mapping has the right type.
use moduagent.Base.{
  ℕ, String, Bool, true, false, not, ◌&&◌, ◌||◌, Option, none, some, is_some, List, [], ◌∷◌, map,
  Result, ok, guard, ◌>>◌, ◌>>=◌, all, contains, is_unique, is_empty, length, ◌==◌, codes,
  strip_prefix, is_lower_hex, Dict, lookup, insert, keys, all_entries, str_eq, opt_eq,
}
use moduagent.Decision.Planning.Steps.{PlanStep, Error, value_error}
use moduagent.Decision.Planning.Results.{StepResult}
use moduagent.Decision.Planning.Moves.{is_completed}
use moduagent.Decision.Execution.State.{
  ExecutionState, ActiveCall, RunPhase, done, find_step, current_id,
}

abbrev pub is_digest : Option (List ℕ) → Bool
is_digest none = false
is_digest (some digest) = length digest == 64 && all is_lower_hex digest

-- `is_tool_argument_fingerprint`
unfoldable pub is_tool_argument_fingerprint : String → Bool
is_tool_argument_fingerprint value = is_digest (strip_prefix (codes "sha256:") (codes value))

abbrev pub is_absent_or_fingerprint : Option String → Bool
is_absent_or_fingerprint none = true
is_absent_or_fingerprint (some value) = is_tool_argument_fingerprint value

abbrev pub has_fingerprints : Option (Dict String) → Bool
has_fingerprints none = true
has_fingerprints (some failure) =
    is_absent_or_fingerprint (lookup "arguments_fingerprint" failure)
    && is_absent_or_fingerprint (lookup "invocation_fingerprint" failure)

abbrev pub default_id : Option String → Option String → Option String
default_id none step_id = step_id
default_id (some step_id) other = some step_id

-- A pending result is the current step's.
abbrev pub is_pending_for : Option StepResult → Option String → Bool
is_pending_for none step_id = true
is_pending_for (some r) none = true
is_pending_for (some r) (some step_id) = str_eq r.step_id step_id

abbrev pub is_in_plan : List PlanStep → Option String → Bool
is_in_plan steps none = true
is_in_plan steps (some step_id) = is_some (find_step step_id steps)

abbrev pub is_done : RunPhase → Bool
is_done done = true
is_done _ = false

-- The checks of the final flags.
abbrev pub is_final_consistent : ExecutionState → Bool
is_final_consistent st =
    (not st.final_persisted || is_some st.final_response)
    && ((not st.final_emitted || is_some st.final_response)
        && (not (is_done st.phase) || st.final_emitted))

module _ (ref_of : StepResult → String) where
  abbrev pub is_committed_as : StepResult → Option PlanStep → Bool
  is_committed_as r none = false
  is_committed_as r (some s) = is_completed s.status && opt_eq s.result_ref (some (ref_of r))

  -- A committed result is stored under its step's id, and the step refers to it.
  abbrev pub is_committed : List PlanStep → String → StepResult → Bool
  is_committed steps step_id r =
      str_eq step_id r.step_id && is_committed_as r (find_step step_id steps)

module _ (strip : String → String) where
  -- The loop over `active_tool_calls`.
  unfoldable pub normalized_calls :
      Dict ActiveCall → Dict ActiveCall → Result Error (Dict ActiveCall)
  normalized_calls calls [] = ok calls
  normalized_calls calls ((call_id, raw) ∷ rest) = do
    guard (not (is_empty (strip call_id)) && not (is_empty (strip raw.tool_name))) value_error
    guard (is_tool_argument_fingerprint (strip raw.arguments_fingerprint)) value_error
    normalized_calls
        (insert (strip call_id)
          (record {
            tool_name = strip raw.tool_name;
            arguments_fingerprint = strip raw.arguments_fingerprint;
          })
          calls)
        rest

module _ (strip : String → String) (ref_of : StepResult → String) where
  -- `ExecutionState.__post_init__`
  unfoldable pub post_init : ExecutionState → Result Error ExecutionState
  post_init st = do
    guard (has_fingerprints st.pending_tool_failure) value_error
    calls ← normalized_calls strip [] st.active_tool_calls
    let seen = map strip st.seen_tool_call_ids
    guard (all (λ call_id. not (is_empty call_id)) seen) value_error
    guard (is_unique seen) value_error
    guard (all (λ call_id. contains call_id seen) (keys calls)) value_error
    let step_id = default_id st.current_step_id (current_id st.plan)
    guard (all_entries (is_committed ref_of st.plan.steps) st.committed_results) value_error
    guard (is_pending_for st.pending_step_result step_id) value_error
    guard (is_in_plan st.plan.steps step_id) value_error
    guard (is_final_consistent st) value_error
    ok (record st {
      active_tool_calls = calls;
      seen_tool_call_ids = seen;
      current_step_id = step_id;
    })
