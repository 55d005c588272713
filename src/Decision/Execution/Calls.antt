-- ===== src/Decision/Execution/Calls.antt =====
-- moduagent/decision/planning.py: `_tool_call_records`, and the branches of `decide` and of the retries
-- that change the state. `strip` is Python's `str.strip`; `fingerprint` is `fingerprint_tool_arguments`,
-- none where it raises. The arguments of a call are their JSON text.
use moduagent.Base.{
  ℕ, ◌+◌, String, Bool, true, not, ◌&&◌, Option, none, some, List, [], ◌∷◌, ◌++◌, Result, ok, raise,
  guard, ◌>>◌, ◌>>=◌, contains, is_empty, length, leb, codes, Dict, insert, keys, if◌then◌else◌,
}
use moduagent.Decision.Planning.Steps.{PlanStep}
use moduagent.Decision.Planning.Plan.{Plan, current}
use moduagent.Decision.Planning.Moves.{with_current}
use moduagent.Decision.Execution.State.{ExecutionState, ActiveCall, act, current_step}
use moduagent.Decision.Execution.Operations.{
  Outcome, mark_tool_round_complete, fail_current_step, update_step,
}

pub record ToolCall : Type 0 where
  pub id : String
  pub name : String
  pub arguments : String

pub data CallError : Type 0 where
  empty_identity too_long repeated_id not_canonical : CallError

-- Within the protocol's limit.
abbrev pub is_short : String → Bool
is_short s = leb (length (codes s)) 256

abbrev pub canonical : Option String → Result CallError String
canonical none = raise not_canonical
canonical (some f) = ok f

module _ (strip : String → String) (fingerprint : String → Option String) where
  -- The loop of `_tool_call_records`.
  unfoldable pub records_from :
      List String → Dict ActiveCall → List ToolCall → Result CallError (Dict ActiveCall)
  records_from seen records [] = ok records
  records_from seen records (c ∷ cs) = do
    guard (not (is_empty (strip c.id)) && not (is_empty (strip c.name))) empty_identity
    guard (is_short (strip c.id) && is_short (strip c.name)) too_long
    guard (not (contains (strip c.id) seen) && not (contains (strip c.id) (keys records)))
        repeated_id
    f ← canonical (fingerprint c.arguments)
    records_from seen
        (insert (strip c.id) (record { tool_name = strip c.name; arguments_fingerprint = f })
          records)
        cs

  -- `_tool_call_records`
  unfoldable pub tool_call_records :
      ExecutionState → List ToolCall → Result CallError (Dict ActiveCall)
  tool_call_records st calls = records_from st.seen_tool_call_ids [] calls

-- What `decide` writes for the calls it lets through.
unfoldable pub activate : ExecutionState → Dict ActiveCall → Outcome
activate st records = mark_tool_round_complete (record st {
  active_tool_calls = records;
  seen_tool_call_ids = st.seen_tool_call_ids ++ keys records;
})

abbrev pub with_attempt : PlanStep → PlanStep
with_attempt s = record s { attempt_count = s.attempt_count + 1 }

abbrev pub count_at : Plan → Option PlanStep → Plan
count_at p none = p
count_at p (some s) = with_current p (with_attempt s)

abbrev pub count_attempt : Plan → Option String → Plan
count_attempt p none = count_at p (current p)
count_attempt p (some step_id) = record p { steps = update_step step_id with_attempt p.steps }

unfoldable pub retry_of : ℕ → String → Bool → ExecutionState → Option PlanStep → ExecutionState
retry_of max_step_attempts reason awaiting st none = fail_current_step st
retry_of max_step_attempts reason awaiting st (some s) =
    let counted = record st {
      plan = count_attempt st.plan st.current_step_id;
      validation_error = some reason;
      pending_step_result = none;
    } in
    if leb max_step_attempts (s.attempt_count + 1)
    then fail_current_step counted
    else record counted { phase = act; awaiting_step_result = awaiting }

-- `_retry_invalid_result`
unfoldable pub retry_invalid_result : ℕ → String → ExecutionState → ExecutionState
retry_invalid_result max_step_attempts reason st =
    retry_of max_step_attempts reason st.awaiting_step_result st (current_step st)

-- `_retry_validation`
unfoldable pub retry_validation : ℕ → String → ExecutionState → ExecutionState
retry_validation max_step_attempts reason st =
    retry_of max_step_attempts reason true st (current_step st)
