-- ===== src/Delegation/Lineage/Samples.antt =====
-- Tests of the lineage and the authorizers, and their theorems at concrete delegations.
use moduagent.Base.{
  ◌≡◌, refl, String, true, none, some, List, [], ◌∷◌, ok, raise, Dict, is_alnum, matches_identifier,
}
use moduagent.Delegation.Models.{
  AgentRef, str, ExecutionGroupLimits, is_identifier, is_identifier_char,
}
use moduagent.Delegation.References.Version.{
  is_agent_id, is_agent_id_char, is_version, is_release, is_numeral, is_label, is_label_char,
  has_leading_zero, split_on, partition,
}
use moduagent.Delegation.References.Parsing.{is_agent_ref, parse, rpartition}
use moduagent.Delegation.Lineage.Record.{
  RunLineage, root, child, child_record, post_init, ids_valid, path_valid, parent_fields_valid,
  last, prior,
}
use moduagent.Delegation.Lineage.Guards.{validate, delegation_cycle_detected}
use moduagent.Delegation.Lineage.Chains.{guarded_child}
use moduagent.Delegation.Lineage.Codec.{to_dict, from_dict, from_dict-to_dict}
use moduagent.Delegation.Lineage.Reach.{Delegated, starts, delegates, Within, Delegated-Within}
use moduagent.Delegation.Lineage.Authorization.{Grants, AgentDescriptor, ParentDelegationContext}

abbrev planner : AgentRef
planner = record { agent_id = "planner"; version = "1.0.0" }

abbrev writer : AgentRef
writer = record { agent_id = "writer"; version = "2.1.0" }

abbrev two_levels : ExecutionGroupLimits
two_levels = record {
  max_depth = 2;
  max_delegations = 8;
  max_parallel_delegations = 3;
  max_delegations_per_agent = 3;
  max_total_model_turns = 30;
  max_total_tool_calls = 24;
  timeout = 120000000;
}

abbrev root_lineage : RunLineage
root_lineage = record {
  root_run_id = "run-1";
  parent_run_id = none;
  delegation_id = none;
  parent_tool_call_id = none;
  caller_agent_id = none;
  agent_id = "planner";
  agent_version = "1.0.0";
  agent_path = "planner@1.0.0" ∷ [];
  depth = 0;
}

root_lineage-made : root "run-1" planner ≡ ok root_lineage
unfolding root str post_init ids_valid path_valid parent_fields_valid last prior is_agent_ref parse
    rpartition is_agent_id is_agent_id_char is_version is_release is_numeral is_label is_label_char
    has_leading_zero split_on partition is_alnum matches_identifier is_identifier is_identifier_char
root_lineage-made = refl

root_lineage-valid : post_init root_lineage ≡ ok root_lineage
unfolding root str
root_lineage-valid = root_lineage-made

writer-valid : is_agent_ref writer ≡ true
unfolding is_agent_ref is_agent_id is_agent_id_char is_version is_release is_numeral is_label
    is_label_char has_leading_zero split_on partition is_alnum matches_identifier
writer-valid = refl

cycle_refused : validate root_lineage planner two_levels ≡ raise delegation_cycle_detected
unfolding validate str
cycle_refused = refl

writer-free : validate root_lineage writer two_levels ≡ ok tt
unfolding validate str
writer-free = refl

identifiers :
    (is_identifier "run-1" ≡ true)
    × (is_identifier "delegation-1" ≡ true)
    × (is_identifier "call-1" ≡ true)
unfolding is_identifier is_identifier_char matches_identifier is_alnum
identifiers = (refl, refl, refl)

guarded_child_example :
    child root_lineage writer "run-1" "delegation-1" "call-1"
    ≡ ok (child_record root_lineage writer "run-1" "delegation-1" "call-1")
guarded_child_example =
    guarded_child root_lineage writer two_levels "run-1" "delegation-1" "call-1" root_lineage-valid
      writer-valid identifiers.0 identifiers.1 identifiers.2 writer-free

writer-Delegated :
    Delegated two_levels "run-1" planner
      (child_record root_lineage writer "run-1" "delegation-1" "call-1")
writer-Delegated =
    delegates writer "run-1" "delegation-1" "call-1" (starts root_lineage-made) writer-free
      guarded_child_example

Delegated-Within_example :
    Within two_levels "run-1" planner
      (child_record root_lineage writer "run-1" "delegation-1" "call-1")
Delegated-Within_example =
    Delegated-Within two_levels "run-1" planner
      (child_record root_lineage writer "run-1" "delegation-1" "call-1") writer-Delegated

abbrev one_tenant : Grants
one_tenant = record { allowed_tenants = some ("acme" ∷ []); allowed_principals = none }

abbrev open_writer : AgentDescriptor
open_writer = record { callable_by = "*" ∷ []; data_classification = "internal" }

abbrev acme : ParentDelegationContext
acme = record { tenant = "acme"; principal = "ada" }

abbrev edges : List (AgentRef × AgentRef)
edges = (planner, writer) ∷ []

abbrev ids : Dict (List String)
ids = ("planner", "writer" ∷ []) ∷ []

from_dict-to_dict_example : from_dict (to_dict root_lineage) ≡ ok root_lineage
from_dict-to_dict_example = from_dict-to_dict root_lineage root_lineage-valid
