-- ===== src/Decision/Execution/Handling.antt =====
-- moduagent/decision/planning.py: what the policy writes keeps a state settled.
use moduagent.Base.{
  ℕ, ◌≡◌, refl, String, Bool, true, false, Option, none, some, List, [], Result, ok, raise, lookup,
  lookup-insert, Dict, insert,
}
use moduagent.Decision.Planning.Steps.{Error}
use moduagent.Decision.Planning.Results.{StepResult}
use moduagent.Decision.Execution.State.{ExecutionState, ActiveCall}
use moduagent.Decision.Execution.Checks.{is_tool_argument_fingerprint, has_fingerprints}
use moduagent.Decision.Execution.Operations.{fail_current_step}
use moduagent.Decision.Execution.Calls.{ToolCall, tool_call_records, activate}
use moduagent.Decision.Execution.CallFacts.{records_from-Records}
use moduagent.Decision.Execution.Policy.{
  pending_of, fail_with, drop_result, noted, terminal_failure, after_replan, fallback_replan,
}
use moduagent.Decision.Execution.Preservation.{no_calls}
use moduagent.Decision.Execution.ReplanSoundness.{
  with_notes, without_result, fail_current_step-Settled, replan-Settled,
}
use moduagent.Decision.Execution.Deciding.{Kept}
use moduagent.Decision.Execution.PolicySoundness.{
  IsSettled, set-Settled, commit-Settled, activate-Settled, retry_invalid-Settled,
  retry_validation-Settled,
}

-- The note of a fallback leaves the fingerprints of the failure.
noted-fingerprints :
    (o : Option (Dict String)) (reason : String)
    → has_fingerprints o ≡ true
    → has_fingerprints (some (insert "fallback_reason" reason (pending_of o))) ≡ true
unfolding lookup insert
noted-fingerprints none reason h = refl
noted-fingerprints (some pending) reason h =
    let first = lookup-insert "fallback_reason" "arguments_fingerprint" reason pending in
    let second = lookup-insert "fallback_reason" "invocation_fingerprint" reason pending in
    rw (first, second) h

module _ (strip digest : String → String) (strip_again : (s : String) → strip (strip s) ≡ strip s)
    (ref_of : StepResult → String) where
  abbrev Good : ExecutionState → Type 0
  Good = IsSettled strip digest strip_again ref_of

  noted-Settled : (st : ExecutionState) (reason : String) → Good st → Good (noted st reason)
  unfolding noted
  noted-Settled st reason t = record {
    sound = record {
      plan = t.sound.plan;
      id = t.sound.id;
      committed = t.sound.committed;
      pending = t.sound.pending;
      final = t.sound.final;
      fingerprints = noted-fingerprints st.pending_tool_failure reason t.sound.fingerprints;
      calls = no_calls strip st.active_tool_calls st.seen_tool_call_ids t.sound.calls;
    };
    normal = t.normal;
  }

  terminal-Settled :
      (pending : Dict String) (reason : String) (st : ExecutionState)
      → Good st
      → Good (terminal_failure pending reason st)
  unfolding terminal_failure
  terminal-Settled pending reason st t = without_result strip digest strip_again ref_of _ (
      with_notes strip digest strip_again ref_of st st.validation_error
        (some (insert "terminal_reason" reason pending)) false t)

  pub fail_with-Settled : (text : String) (st : ExecutionState) → Good st → Good (fail_with text st)
  unfolding fail_with
  fail_with-Settled text st t =
      with_notes strip digest strip_again ref_of (fail_current_step st) (some text)
        (fail_current_step st).failure (fail_current_step st).awaiting_step_result
        (fail_current_step-Settled strip digest strip_again ref_of st t)

  pub drop_result-Settled :
      (text : String) (st : ExecutionState) → Good st → Good (drop_result text st)
  unfolding drop_result
  drop_result-Settled text st t = fail_current_step-Settled strip digest strip_again ref_of _ (
      without_result strip digest strip_again ref_of _ (
        with_notes strip digest strip_again ref_of st (some text) st.failure st.awaiting_step_result
          t))

  after_replan-Settled :
      (o : ExecutionState × Result Error Bool) → Good o.0 → Good (after_replan o).0
  unfolding after_replan
  after_replan-Settled (st, raise e) t = t
  after_replan-Settled (st, ok b) t = t

  fallback_replan-Settled :
      (pending : Dict String) (o : ExecutionState × Result Error Bool)
      → Good o.0
      → Good (fallback_replan pending o).0
  unfolding fallback_replan
  fallback_replan-Settled pending (st, raise e) t = t
  fallback_replan-Settled pending (st, ok false) t = t
  fallback_replan-Settled pending (st, ok true) t =
      terminal-Settled pending "maximum replans exceeded" st t

module _ (strip digest : String → String) (fingerprint : String → Option String)
    (ref_of : StepResult → String) (max_step_attempts max_replans : ℕ)
    (strip_again : (s : String) → strip (strip s) ≡ strip s)
    (is_canonical : (a f : String)
      → fingerprint a ≡ some f
      → (is_tool_argument_fingerprint f ≡ true) × (strip f ≡ f)) where
  activating :
      (st : ExecutionState) (calls : List ToolCall) (records : Dict ActiveCall)
      → tool_call_records strip fingerprint st calls ≡ ok records
      → IsSettled strip digest strip_again ref_of st
      → IsSettled strip digest strip_again ref_of (activate st records).0
  unfolding tool_call_records
  activating st calls records h t =
      activate-Settled strip digest strip_again ref_of st records
        (records_from-Records strip fingerprint strip_again is_canonical st.seen_tool_call_ids []
          calls records (record { normal = refl; unique = refl; new = refl }) h)
        t

  pub IsSettled-kept :
      Kept strip digest fingerprint ref_of max_step_attempts max_replans
        (IsSettled strip digest strip_again ref_of)
  IsSettled-kept = record {
    failing = fail_current_step-Settled strip digest strip_again ref_of;
    failing_with = fail_with-Settled strip digest strip_again ref_of;
    dropping = drop_result-Settled strip digest strip_again ref_of;
    noting = noted-Settled strip digest strip_again ref_of;
    ending = terminal-Settled strip digest strip_again ref_of;
    awaiting = λ st text t. with_notes strip digest strip_again ref_of st text st.failure true t;
    setting = set-Settled strip digest strip_again ref_of;
    committing = commit-Settled strip digest strip_again ref_of;
    retrying = retry_invalid-Settled strip digest strip_again ref_of max_step_attempts;
    revalidating = retry_validation-Settled strip digest strip_again ref_of max_step_attempts;
    replanning = λ st feedback revision t.
        replan-Settled strip digest strip_again ref_of max_replans st feedback revision t;
    activating = activating;
  }
