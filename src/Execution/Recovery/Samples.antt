-- ===== src/Execution/Recovery/Samples.antt =====
-- Tests of the recovery controller, and its theorems at a concrete plan step.
use moduagent.Base.{
  str_eq, false, ℕ, ◌≡◌, ◌≢◌, refl, String, Bool, true, none, some, List, [], ◌∷◌, ok, is_empty,
  lookup, insert,
}
use moduagent.Execution.Recovery.State.{
  ToolCall, ToolRecoveryState, repair_failed_call, new_state, record_requested_calls, add_calls,
}
use moduagent.Execution.Recovery.Decision.{
  InternalToolFailure, repair_call, ToolBatchOutcome, ToolRecoveryControllerConfig, to_replan,
  ToolRecoveryDecision, ToolRepairConstraint, decide, decide_outcome, decide_failed, decide_single,
  try_repair, repair, repairs,
}
use moduagent.Execution.Recovery.Verdicts.{Ruling, decide-Ruling}
use moduagent.Execution.Recovery.Bounds.{Request, records, decides, step, run}
use moduagent.Execution.Recovery.Repairs.{ordered, repair_count}
use moduagent.Execution.Recovery.Once.{repaired_once}

abbrev config : ToolRecoveryControllerConfig
config = record {
  fallback = to_replan;
  allow_same_step_repair = true;
  require_repair_safe = true;
  includes_safe_message = false;
}

-- The view of a failure is its call's id.
abbrev view : Bool → InternalToolFailure → String
view includes_message f = f.call_id

abbrev two : String → ℕ
two step_id = 2

abbrev requests : String → String → Request
requests id fingerprint =
    records (record { id = id; name = "search"; arguments_fingerprint = fingerprint } ∷ [])

abbrev failure : String → String → InternalToolFailure
failure id fingerprint = record {
  call_id = id;
  tool_name = "search";
  recovery_directive = some repair_call;
  changed_argument_repair_safe = true;
  requested_arguments_fingerprint = some fingerprint;
  effective_arguments_fingerprint = some fingerprint;
}

abbrev failed : String → String → ToolBatchOutcome
failed id fingerprint = record { success_count = 0; failures = failure id fingerprint ∷ [] }

abbrev start : ToolRecoveryState String
start = run view is_empty config two new_state (requests "call-1" "f1" ∷ [])

abbrev constraint : String → List String → String → ToolRepairConstraint
constraint id seen fingerprint = record {
  failed_call_id = id;
  expected_tool_name = "search";
  seen_call_ids = id ∷ seen;
  previous_requested_fingerprint = fingerprint;
  previous_effective_fingerprint = fingerprint;
}

abbrev decision : ℕ → String → List String → String → ToolRecoveryDecision String
decision n id seen fingerprint = record {
  kind = repairs;
  reason = repair_failed_call;
  failure = some id;
  repair_constraint = some (constraint id seen fingerprint);
  repair_attempt = n;
}

abbrev after_repair : ToolRecoveryState String
after_repair = record {
  active_calls = [];
  seen_call_ids = "call-1" ∷ [];
  pending_failure = some (record { failure = "call-1"; step_id = "s"; repair_safe = true });
  repair_count_by_step = ("s", 1) ∷ [];
  total_repairs = 1;
  terminal_failure = none;
}

first_repair :
    decide view is_empty config "s" 2 (failed "call-1" "f1") start
    ≡ ok (decision 1 "call-1" ("call-1" ∷ []) "f1", after_repair)
unfolding decide decide_outcome decide_failed decide_single try_repair repair run
    record_requested_calls add_calls lookup insert
first_repair = refl

abbrev after_second : ToolRecoveryState String
after_second = record {
  active_calls = [];
  seen_call_ids = "call-1" ∷ "call-2" ∷ [];
  pending_failure = some (record { failure = "call-2"; step_id = "s"; repair_safe = true });
  repair_count_by_step = ("s", 2) ∷ [];
  total_repairs = 2;
  terminal_failure = none;
}

second_repair :
    decide view is_empty config "s" 2
      (failed "call-2" "f2")
      (run view is_empty config two after_repair (requests "call-2" "f2" ∷ []))
    ≡ ok (decision 2 "call-2" ("call-1" ∷ "call-2" ∷ []) "f2", after_second)
unfolding decide decide_outcome decide_failed decide_single try_repair repair run
    record_requested_calls add_calls lookup insert
second_repair = refl

decide-Ruling_example :
    Ruling config "s" 2
      (failed "call-1" "f1")
      start
      (decision 1 "call-1" ("call-1" ∷ []) "f1")
      after_repair
decide-Ruling_example =
    decide-Ruling view is_empty config "s" 2 (failed "call-1" "f1") start after_repair
      (decision 1 "call-1" ("call-1" ∷ []) "f1") first_repair

abbrev history : List Request
history =
    requests "call-1" "f1"
    ∷ decides "s" (failed "call-1" "f1")
    ∷ requests "call-2" "f2"
    ∷ decides "s" (failed "call-2" "f2")
    ∷ []

abbrev last_state : ToolRecoveryState String
last_state = run view is_empty config two new_state history

abbrev repairs_of_step : ℕ
repairs_of_step = repair_count view is_empty config two (λ j. str_eq j "s") new_state history

-- Both of the step's repairs are ordered.
both_ordered : repairs_of_step ≡ 2
unfolding repair_count ordered step decide decide_outcome decide_failed decide_single try_repair
    repair record_requested_calls add_calls lookup insert
both_ordered = refl

repaired_once_example :
    (constraint "call-2" ("call-1" ∷ "call-2" ∷ []) "f2").failed_call_id
    ≢ (constraint "call-1" ("call-1" ∷ []) "f1").failed_call_id
repaired_once_example =
    repaired_once view is_empty config two (requests "call-1" "f1" ∷ [])
      (requests "call-2" "f2" ∷ []) "s" "s" (failed "call-1" "f1") (failed "call-2" "f2")
      (decision 1 "call-1" ("call-1" ∷ []) "f1")
      (decision 2 "call-2" ("call-1" ∷ "call-2" ∷ []) "f2") after_repair after_second
      (constraint "call-1" ("call-1" ∷ []) "f1")
      (constraint "call-2" ("call-1" ∷ "call-2" ∷ []) "f2") first_repair refl second_repair refl

-- After one repair of the step's two, the second call is requested and fails.
abbrev one_round : List Request
one_round = requests "call-1" "f1" ∷ decides "s" (failed "call-1" "f1") ∷ []

abbrev second_call : ToolCall
second_call = record { id = "call-2"; name = "search"; arguments_fingerprint = "f2" }
