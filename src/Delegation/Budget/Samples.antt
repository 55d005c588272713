-- ===== src/Delegation/Budget/Samples.antt =====
-- Tests of the ledger of moduagent/delegation/budget.py, and its theorems at concrete inputs.
use moduagent.Base.{
  ◌≡◌, refl, String, true, false, some, ok, raise, arith, List, [], ◌∷◌, lookup, insert,
}
use moduagent.Delegation.Models.{AgentRef, ExecutionGroupLimits, BudgetLease, str, is_identifier}
use moduagent.Delegation.Budget.State.{
  ExecutionGroupBudgetState, StoredBudgetLease, completed, UsageValue, amount, normalize_usage,
  post_init, stored_lease, active_delegations, retry_reservation,
}
use moduagent.Delegation.Budget.Changes.{
  unchanged, replaced, reserve_delegation, reserve_model_turn, assert_live, adopt_active_lease,
  open_lease, budget_lease, validate_count,
}
use moduagent.Delegation.Budget.Closing.{complete, lease_record, add_usage}
use moduagent.Delegation.Budget.Calls.{
  reserves_delegation, reserves_model_turn, completes, releases, cancels, perform, step, run,
  granted, closed,
}
use moduagent.Delegation.Budget.Validity.{IsValid}
use moduagent.Delegation.Budget.Outcomes.{new_lease, IsLive}
use moduagent.Delegation.Budget.Booking.{Booked, perform-Booked}
use moduagent.Delegation.Budget.Invariant.{new_group, Inv}
use moduagent.Delegation.Budget.Lifecycle.{
  run-closed, completes_once, cancels_for_good, IsDead, Refuses,
}
use moduagent.Delegation.Budget.Validation.{reserve_model_turn_lem, reserve_delegation_lem}
use moduagent.Delegation.Budget.Retry.{reserve_delegation_again}
use moduagent.Delegation.Budget.Store.{Store, create, compare_and_swap, Others, mutate}
use moduagent.Delegation.Budget.Steps.{here}
use moduagent.Delegation.Budget.Atomicity.{Outcome, perform-Advances, mutate-Outcome}
use moduagent.Delegation.Budget.Serial.{
  Reach, empty, creates, commits, Serial, Reach-Serial, Reach-Inv,
}
use moduagent.Delegation.Budget.Ensure.{ensure_group, ensure_group-Agreed, Agreed}

abbrev limits : ExecutionGroupLimits
limits = record {
  max_depth = 2;
  max_delegations = 8;
  max_parallel_delegations = 1;
  max_delegations_per_agent = 3;
  max_total_model_turns = 5;
  max_total_tool_calls = 4;
  timeout = 120;
}

abbrev group : ExecutionGroupBudgetState
group = record {
  execution_group_id = "g";
  limits = limits;
  absolute_deadline = 100;
  revision = 1;
  delegation_count = 0;
  model_turns = 0;
  tool_calls = 0;
  per_agent_delegations = [];
  leases = [];
  usage = [];
  cancelled = false;
}

abbrev callee : AgentRef
callee = record { agent_id = "a"; version = "1.0.0" }

abbrev lease : BudgetLease
lease = record {
  lease_id = "lease:1";
  execution_group_id = "g";
  callee = callee;
  absolute_deadline = 100;
}

group-IsValid : IsValid group
group-IsValid = ground arith

-- The group with one active lease.
abbrev leased : ExecutionGroupBudgetState
leased = record group {
  revision = 2;
  delegation_count = 1;
  per_agent_delegations = ("a@1.0.0", 1) ∷ [];
  leases = ("lease:1", new_lease "lease:1" callee) ∷ [];
}

reserved :
    perform (reserves_delegation 10 "lease:1" callee) group ≡ ok (replaced leased (granted lease))
unfolding perform reserve_delegation assert_live adopt_active_lease open_lease budget_lease
    is_identifier post_init stored_lease str lookup insert
reserved = refl

-- The parallel limit of one is reached, so a second lease has to wait.
second_waits : reserve_delegation 10 "lease:2" callee leased ≡ raise retry_reservation
unfolding reserve_delegation assert_live adopt_active_lease open_lease budget_lease is_identifier
    post_init stored_lease str lookup insert active_delegations
second_waits = refl

leased-IsValid : IsValid leased
leased-IsValid = ground arith

group-IsLive : IsLive 10 group
group-IsLive = record { running = refl; early = omega arith }

reserve_model_turn_lem_example :
    reserve_model_turn 10 3 group
    ≡ ok (replaced (record group { revision = 2; model_turns = 3 }) tt)
reserve_model_turn_lem_example = reserve_model_turn_lem 10 3 group group-IsValid

reserve_delegation_lem_example :
    reserve_delegation 10 "lease:1" callee group ≡ ok (replaced leased lease)
unfolding str lookup insert
reserve_delegation_lem_example =
    reserve_delegation_lem "lease:1" callee group 10 group-IsValid group-IsLive lease_named
      group_named refl
  where
    lease_named : is_identifier "lease:1" ≡ true
    lease_named = unfold is_identifier in refl

    group_named : is_identifier "g" ≡ true
    group_named = unfold is_identifier in refl

abbrev spent : StoredBudgetLease
spent = record { lease_id = "lease:1"; callee_key = "a@1.0.0"; status = completed }

-- The group after its lease was completed with a usage of seven tokens.
abbrev finished : ExecutionGroupBudgetState
finished = record leased {
  revision = 3;
  leases = ("lease:1", spent) ∷ [];
  usage = ("tokens", 7) ∷ [];
}

abbrev tokens : List (String × UsageValue)
tokens = ("tokens", amount 7) ∷ []

completed_once : perform (completes tokens lease) leased ≡ ok (replaced finished (closed true))
unfolding perform complete lease_record add_usage normalize_usage post_init str lookup insert
completed_once = refl

perform-Booked_example : Booked (completes tokens lease) leased finished × IsValid finished
perform-Booked_example =
    perform-Booked (completes tokens lease) leased finished (closed true) completed_once

run-closed_example :
    lookup "lease:1" (run finished (releases lease ∷ completes tokens lease ∷ cancels ∷ [])).leases
    ≡ some spent
unfolding lookup
run-closed_example = run-closed "lease:1" spent finished _ refl (λ e. cc)

completes_once_example :
    perform (completes tokens lease) (run finished (reserves_model_turn 20 2 ∷ []))
    ≡ ok (unchanged (closed false))
unfolding normalize_usage insert
completes_once_example =
    completes_once tokens tokens (("tokens", 7) ∷ []) lease leased finished (closed true)
      (reserves_model_turn 20 2 ∷ []) completed_once refl

cancels_for_good_example :
    IsDead (run (step leased cancels) (reserves_model_turn 20 2 ∷ []))
    × Refuses (run (step leased cancels) (reserves_model_turn 20 2 ∷ []))
cancels_for_good_example = cancels_for_good leased (reserves_model_turn 20 2 ∷ []) leased-IsValid

reserve_delegation_again_example :
    reserve_delegation 20 "lease:1" callee (run leased (reserves_model_turn 15 2 ∷ []))
    ≡ ok (unchanged lease)
unfolding run perform reserve_model_turn assert_live post_init validate_count lookup str
reserve_delegation_again_example =
    reserve_delegation_again 10 20 "lease:1" callee lease group leased
      (reserves_model_turn 15 2 ∷ []) reserved_directly refl
      (record { running = refl; early = omega arith })
  where
    reserved_directly : reserve_delegation 10 "lease:1" callee group ≡ ok (replaced leased lease)
    reserved_directly = reserve_delegation_lem_example

-- Nobody else writes.
abbrev alone : Others
alone = record { before_swap = λ _ st. st; while_asleep = λ _ st. st }

abbrev stored : Store
stored = ("g", group) ∷ []

mutate-Outcome_example :
    Outcome alone "g"
      (perform (reserves_model_turn 10 2))
      64
      stored
      (mutate alone "g" (perform (reserves_model_turn 10 2)) 64 stored)
mutate-Outcome_example =
    mutate-Outcome alone "g" (perform (reserves_model_turn 10 2)) 64 stored
      (record { before_swap = λ _ st. here; while_asleep = λ _ st. here })
      (perform-Advances (reserves_model_turn 10 2)) refl

started : Reach [] stored
unfolding create lookup insert new_group
started = creates "g" limits 100 empty refl refl

committed : Reach (("g", reserves_delegation 10 "lease:1" callee) ∷ []) (("g", leased) ∷ [])
unfolding compare_and_swap lookup insert
committed =
    commits "g" (reserves_delegation 10 "lease:1" callee) group leased (granted lease) here refl
      reserved started refl

Reach-Serial_example : Serial "g" (("g", reserves_delegation 10 "lease:1" callee) ∷ []) leased
unfolding lookup
Reach-Serial_example = Reach-Serial "g" leased committed refl

Reach-Inv_example : Inv leased
unfolding lookup
Reach-Inv_example = Reach-Inv "g" leased committed refl

ensure_group-Agreed_example : Agreed "g" limits (some 100) group (("g", group) ∷ [])
unfolding ensure_group lookup
ensure_group-Agreed_example =
    ensure_group-Agreed (λ st. st) (λ st. st) 10 "g" limits (some 100) group stored stored refl
