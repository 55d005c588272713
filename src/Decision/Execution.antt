-- ===== src/Decision/Execution.antt =====
-- moduagent/decision/planning.py: the state of a strict Plan-and-Execute run. State has its fields,
-- Checks its `__post_init__`, Operations its methods, Calls the records of Tool calls and the retries,
-- Replan the replan, Policy `decide` and `validate_pending`, History the calls of a run as data. The
-- other children have proofs: Steps and Updates of changes to the plan's steps, CallFacts of the records
-- of calls, Soundness and Start of states and plans that pass their checks, Preservation and
-- CallSoundness of the methods, Normality and Merging of the steps and of a replan's plan,
-- ReplanSoundness, PolicySoundness and Handling of the policy's writes, Deciding of what each write
-- keeps, Sameness of what it leaves, and Restore, Outputs, Permanence,
-- Replans and Revisions of histories; Versions and Since are of the version of the plan.
pub mod State
pub mod Checks
pub mod Operations
pub mod Calls
pub mod Replan
pub mod Policy
pub mod CallFacts
pub mod Steps
pub mod Updates
pub mod Soundness
pub mod Normality
pub mod Start
pub mod Preservation
pub mod CallSoundness
pub mod History
pub mod Merging
pub mod ReplanSoundness
pub mod PolicySoundness
pub mod Deciding
pub mod Handling
pub mod Restore
pub mod Sameness
pub mod Outputs
pub mod Permanence
pub mod Versions
pub mod Replans
pub mod Since
pub mod Revisions
mod Samples
mod SkippedSteps
