-- ===== src/Lib.antt =====
-- moduagent: a verification library of moduagent/, a Python runtime for Agents.
--
-- Delegation (moduagent/delegation): a parent run hands work to child Agents within an execution
-- group. Budget models budget.py, the ledger that every run of a group shares: Budget/State has
-- `ExecutionGroupBudgetState` and its `__post_init__`, Budget/Changes and Budget/Closing the
-- callbacks that the ledger's methods pass to `_mutate`, Budget/Store the in-memory store with its
-- compare-and-swap and `_mutate` itself, Budget/Ensure `ensure_group`. Budget/Calls puts the
-- mutating methods in one data type, Call, so that a history is a list of calls; Budget/Booking reads
-- the entries of a call back, one key at a time.
--
-- References models the text of an Agent reference of definitions/models.py, and Lineage models
-- `RunLineage` of models.py and the checks of guards.py that stand before a delegation:
-- Lineage/Record has the lineage with `__post_init__`, `root` and `child`, Lineage/Codec its
-- dictionaries, Lineage/Guards `CycleGuard`, Lineage/Authorization the two authorizers and
-- `authorize_or_reject`.
--
-- Receipts models receipts.py, one record for each delegation that says how far it got:
-- Receipts/Record has `DelegationReceipt` and its `__post_init__`, Receipts/Transition one round of
-- `ReceiptManager.transition`, Receipts/Fields the fields that it replaces, Receipts/Store the in-memory store, the loop of `transition` and
-- `receipt_action`.
--
-- Runtime (moduagent/runtime): ModelGuard models model_guard.py, the circuit breaker that bounds a
-- run's model calls; ModelGuard/Breaker has the state and the methods of `NoProgressCircuitBreaker`
-- and ModelGuard/Restore its checkpoint. The fingerprint of a value and HMAC are parameters.
--
-- Execution (moduagent/execution): Recovery models planning/recovery.py, which decides after a failed
-- Tool batch: Recovery/State has `ToolRecoveryState` and `record_requested_calls`, Recovery/Decision
-- `decide`. The failure projector, a constructor argument of the controller, is a parameter.
--
-- Decision (moduagent/decision): Planning models the plan of planning.py: Planning/Steps has `PlanStep`
-- and its `__post_init__`, Planning/Plan `Plan` with its checks, Planning/Graph the search for a cycle
-- in the dependencies, Planning/Moves the transitions of a plan, Planning/Results `StepResult` and the
-- baseline `StepValidator`. Planning/Runs puts the transitions in one data type, Move. Execution models
-- `ExecutionState`: Execution/State its fields, Execution/Checks its `__post_init__`,
-- Execution/Operations its methods; of `PlanAndExecutePolicy` Execution/Calls has the records of Tool
-- calls and the retries, Execution/Replan the replan, and Execution/Policy `decide`, `validate_pending`
-- and the fallback after a Tool failure. Execution/History puts the calls of a run in one data type,
-- Operation. What the plan generator, the step validator and the model answer are arguments;
-- `str.strip`, SHA-256 and the fingerprint of Tool arguments are parameters.
--
-- Conventions. A Python exception is `raise e` of Base/Exceptions, with a data type of errors for
-- each component; messages are left out and stable codes kept. A frozen dataclass is a record, and
-- `replace` is a record update followed by the model of `__post_init__`. A dict with text keys is an
-- association list in insertion order. Type checks by `isinstance` are the typing of the model. A
-- datetime is a number of microseconds since the epoch in UTC and a timeout a number of
-- microseconds; what the clock reads is an argument. Usage amounts are natural numbers of some fixed
-- unit, so rounding and overflow of Python floats are not modelled. Where the code awaits, other
-- clients may change the store: what they do is an argument of the model.
--
-- `_mutate` and `transition` run for the number of attempts that the ledger or the manager
-- was made with, which is the fuel of their models; when it is used up the code itself raises. The
-- search of a plan's dependencies has fuel for one visit more than there are steps; Python's own limit
-- of recursion, some thousand calls, is not modelled.
--
-- Not modelled: the polling loop of `reserve_delegation` around its callback, whose signal to wait is
-- an error of the model; of the plan policy the model's requests, `observe` with the scheduling of a
-- Tool repair, and the metadata of decisions; the coordinator of delegations, the plan engine, the
-- memory policies and the runtime's event loop, which are orchestration over these parts; I/O, model
-- clients, prompts, telemetry sinks and the examples.
mod Base
pub mod Delegation
pub mod Runtime
pub mod Execution
pub mod Decision
