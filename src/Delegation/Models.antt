-- ===== src/Delegation/Models.antt =====
-- moduagent/delegation/models.py: identifiers, execution-group limits and budget leases, and
-- `AgentRef` of moduagent/definitions/models.py. Type checks (`isinstance`) are the typing of the
-- model. A datetime is a number of microseconds since the epoch, in UTC.
use moduagent.Base.{ℕ, String, Bool, ◌==◌, ◌||◌, ◌&&◌, leb, codes, matches_identifier}
use Prim.Native.String.{◌++◌}

-- `[A-Za-z0-9_.:@/-]`
unfoldable pub is_identifier_char : ℕ → Bool
is_identifier_char c =
    ((leb b'A' c && leb c b'Z') || (leb b'a' c && leb c b'z') || (leb b'0' c && leb c b'9'))
    || (c == b'_' || c == b'.' || c == b':' || c == b'@' || c == b'/' || c == b'-')

-- `_IDENTIFIER.fullmatch(value) is not None`
unfoldable pub is_identifier : String → Bool
unfolding is_identifier_char matches_identifier
is_identifier s = matches_identifier is_identifier_char 255 (codes s)

pub record AgentRef : Type 0 where
  pub agent_id : String
  pub version : String

-- `str(ref)`
unfoldable pub str : AgentRef → String
str a = a.agent_id ++ ("@" ++ a.version)

pub record ExecutionGroupLimits : Type 0 where
  pub max_depth : ℕ
  pub max_delegations : ℕ
  pub max_parallel_delegations : ℕ
  pub max_delegations_per_agent : ℕ
  pub max_total_model_turns : ℕ
  pub max_total_tool_calls : ℕ
  pub timeout : ℕ

pub record BudgetLease : Type 0 where
  pub lease_id : String
  pub execution_group_id : String
  pub callee : AgentRef
  pub absolute_deadline : ℕ

-- `[A-Za-z0-9_.:-]`
is_classification_char : ℕ → Bool
is_classification_char c =
    ((leb b'A' c && leb c b'Z') || (leb b'a' c && leb c b'z') || (leb b'0' c && leb c b'9'))
    || (c == b'_' || c == b'.' || c == b':' || c == b'-')

-- `_CLASSIFICATION.fullmatch(value) is not None`
unfoldable pub is_classification : String → Bool
unfolding is_classification_char matches_identifier
is_classification s = matches_identifier is_classification_char 127 (codes s)
