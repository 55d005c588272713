-- ===== src/Delegation/Lineage/Record.antt =====
-- moduagent/delegation/models.py: `RunLineage`, with `__post_init__`, `root` and `child`. Every check
-- raises a ValueError.
use moduagent.Base.{
  ℕ, ◌+◌, String, Bool, true, false, not, ◌&&◌, Option, none, some, is_some, List, [], ◌∷◌, ◌++◌,
  ◌==◌, Result, ok, raise, guard, ◌>>◌, length, all, is_unique, opt_eq, if◌then◌else◌,
}
use moduagent.Delegation.Models.{AgentRef, str, is_identifier}
use moduagent.Delegation.References.Parsing.{is_agent_ref, parse, Error, value_error}

pub record RunLineage : Type 0 where
  pub root_run_id : String
  pub parent_run_id : Option String
  pub delegation_id : Option String
  pub parent_tool_call_id : Option String
  pub caller_agent_id : Option String
  pub agent_id : String
  pub agent_version : String
  pub agent_path : List String
  pub depth : ℕ

-- `agent_ref`
abbrev pub agent_ref : RunLineage → AgentRef
agent_ref l = record { agent_id = l.agent_id; version = l.agent_version }

abbrev pub is_optional_identifier : Option String → Bool
is_optional_identifier none = true
is_optional_identifier (some value) = is_identifier value

-- `AgentRef.parse` goes through.
abbrev pub parses : String → Bool
parses entry = elim (parse entry) [ raise e ↦ false | ok a ↦ true ]

-- `path[-1]`
unfoldable pub last : List String → Option String
last [] = none
last (x ∷ []) = some x
last (x ∷ y ∷ ys) = last (y ∷ ys)

-- `path[-2]`
unfoldable pub prior : List String → Option String
prior [] = none
prior (x ∷ []) = none
prior (x ∷ y ∷ []) = some x
prior (x ∷ y ∷ z ∷ zs) = prior (y ∷ z ∷ zs)

-- The id of a parsed entry of the path.
abbrev pub parsed_id : Option String → Option String
parsed_id none = none
parsed_id (some entry) = elim (parse entry) [ raise e ↦ none | ok a ↦ some a.agent_id ]

abbrev pub has_parent : RunLineage → Bool
has_parent l =
    is_some l.parent_run_id
    && (is_some l.delegation_id && (is_some l.parent_tool_call_id && is_some l.caller_agent_id))

abbrev pub has_no_parent : RunLineage → Bool
has_no_parent l =
    not (is_some l.parent_run_id)
    && (not (is_some l.delegation_id)
        && (not (is_some l.parent_tool_call_id) && not (is_some l.caller_agent_id)))

-- The fields of the parent, by the depth.
unfoldable pub parent_fields_valid : RunLineage → Bool
parent_fields_valid l =
    if l.depth == 0
    then has_no_parent l
    else has_parent l && opt_eq (parsed_id (prior l.agent_path)) l.caller_agent_id

unfoldable pub ids_valid : RunLineage → Bool
ids_valid l =
    is_identifier l.root_run_id
    && (is_optional_identifier l.parent_run_id
        && (is_optional_identifier l.delegation_id
            && (is_optional_identifier l.parent_tool_call_id
                && (is_optional_identifier l.caller_agent_id && is_identifier l.agent_id))))

unfoldable pub path_valid : RunLineage → Bool
path_valid l =
    all parses l.agent_path
    && (is_unique l.agent_path
        && (length l.agent_path == l.depth + 1
            && opt_eq (last l.agent_path) (some (str (agent_ref l)))))

-- `__post_init__`
unfoldable pub post_init : RunLineage → Result Error RunLineage
post_init l = do
  guard (ids_valid l) value_error
  guard (is_agent_ref (agent_ref l)) value_error
  guard (path_valid l) value_error
  guard (parent_fields_valid l) value_error
  ok l

-- `RunLineage.root`
unfoldable pub root : String → AgentRef → Result Error RunLineage
root run_id agent = post_init (record {
  root_run_id = run_id;
  parent_run_id = none;
  delegation_id = none;
  parent_tool_call_id = none;
  caller_agent_id = none;
  agent_id = agent.agent_id;
  agent_version = agent.version;
  agent_path = str agent ∷ [];
  depth = 0;
})

abbrev pub child_record :
    RunLineage → AgentRef → (parent_run_id delegation_id call_id : String) → RunLineage
child_record l child parent_run_id delegation_id call_id = record {
  root_run_id = l.root_run_id;
  parent_run_id = some parent_run_id;
  delegation_id = some delegation_id;
  parent_tool_call_id = some call_id;
  caller_agent_id = some l.agent_id;
  agent_id = child.agent_id;
  agent_version = child.version;
  agent_path = l.agent_path ++ (str child ∷ []);
  depth = l.depth + 1;
}

-- `child`
unfoldable pub child :
    RunLineage → AgentRef → (parent_run_id delegation_id call_id : String) → Result Error RunLineage
child l callee parent_run_id delegation_id call_id =
    post_init (child_record l callee parent_run_id delegation_id call_id)
