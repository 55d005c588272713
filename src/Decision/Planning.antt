-- ===== src/Decision/Planning.antt =====
-- moduagent/decision/planning.py: the plan of a strict Plan-and-Execute run. Steps has `PlanStep`, Plan
-- `Plan` with its checks, Graph the search for a cycle, Moves the transitions of a plan and Runs
-- sequences of them, Results `StepResult` and the baseline validator. The other children have proofs:
-- Normal of a step that is made again, Search and Order of the checks of a plan and Acceptance of what
-- they come to, Evolution and Progress of the transitions and Outcome of their sequences.
pub mod Steps
pub mod Normal
pub mod Reread
pub mod Graph
pub mod Search
pub mod Results
pub mod Plan
pub mod Order
pub mod Acceptance
pub mod Moves
pub mod Evolution
pub mod Progress
pub mod Runs
pub mod Outcome
mod Samples
