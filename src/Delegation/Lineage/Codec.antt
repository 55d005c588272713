-- ===== src/Delegation/Lineage/Codec.antt =====
-- moduagent/delegation/models.py: `RunLineage.to_dict` and `RunLineage.from_dict`. Of JSON values stand
-- texts, integers that are not negative, null and arrays; the rest is `other`. A TypeError and a
-- ValueError are one error here.
use moduagent.Base.{
  ℕ, ◌≡◌, refl, String, Option, none, some, List, [], ◌∷◌, Result, ok, raise, ◌>>=◌, Dict, lookup,
}
use moduagent.Delegation.References.Parsing.{Error, value_error}
use moduagent.Delegation.Lineage.Record.{RunLineage, post_init}

pub data Scalar : Type 0 where
  null other : Scalar
  text : String → Scalar
  integer : ℕ → Scalar

pub data Value : Type 0 where
  scalar : Scalar → Value
  array : List Scalar → Value

abbrev pub text_or_null : Option String → Value
text_or_null none = scalar null
text_or_null (some s) = scalar (text s)

abbrev pub texts : List String → List Scalar
texts [] = []
texts (s ∷ ss) = text s ∷ texts ss

-- `to_dict`
unfoldable pub to_dict : RunLineage → Dict Value
to_dict l =
    ("root_run_id", scalar (text l.root_run_id))
    ∷ ("parent_run_id", text_or_null l.parent_run_id)
    ∷ ("delegation_id", text_or_null l.delegation_id)
    ∷ ("parent_tool_call_id", text_or_null l.parent_tool_call_id)
    ∷ ("caller_agent_id", text_or_null l.caller_agent_id)
    ∷ ("agent_id", scalar (text l.agent_id))
    ∷ ("agent_version", scalar (text l.agent_version))
    ∷ ("agent_path", array (texts l.agent_path))
    ∷ ("depth", scalar (integer l.depth))
    ∷ []

unfoldable pub read_texts : List Scalar → Result Error (List String)
read_texts [] = ok []
read_texts (text s ∷ rest) = read_texts rest >>= λ ss. ok (s ∷ ss)
read_texts (_ ∷ rest) = raise value_error

unfoldable pub read_path : Option Value → Result Error (List String)
unfolding read_texts
read_path (some (array items)) = read_texts items
read_path _ = raise value_error

-- `optional_text`
unfoldable pub optional_text : Option Value → Result Error (Option String)
optional_text none = ok none
optional_text (some (scalar null)) = ok none
optional_text (some (scalar (text s))) = ok (some s)
optional_text (some _) = raise value_error

-- `_required_text`
unfoldable pub required_text : Option Value → Result Error String
required_text (some (scalar (text s))) = ok s
required_text _ = raise value_error

-- `_required_int`
unfoldable pub required_int : Option Value → Result Error ℕ
required_int (some (scalar (integer n))) = ok n
required_int _ = raise value_error

-- `from_dict`
unfoldable pub from_dict : Dict Value → Result Error RunLineage
unfolding read_path optional_text required_text required_int
from_dict value = do
  path ← read_path (lookup "agent_path" value)
  root_run_id ← required_text (lookup "root_run_id" value)
  parent_run_id ← optional_text (lookup "parent_run_id" value)
  delegation_id ← optional_text (lookup "delegation_id" value)
  parent_tool_call_id ← optional_text (lookup "parent_tool_call_id" value)
  caller_agent_id ← optional_text (lookup "caller_agent_id" value)
  agent_id ← required_text (lookup "agent_id" value)
  agent_version ← required_text (lookup "agent_version" value)
  depth ← required_int (lookup "depth" value)
  post_init (record {
    root_run_id = root_run_id;
    parent_run_id = parent_run_id;
    delegation_id = delegation_id;
    parent_tool_call_id = parent_tool_call_id;
    caller_agent_id = caller_agent_id;
    agent_id = agent_id;
    agent_version = agent_version;
    agent_path = path;
    depth = depth;
  })

read_texts-texts : (ss : List String) → read_texts (texts ss) ≡ ok ss
unfolding read_texts
read_texts-texts [] = refl
read_texts-texts (s ∷ ss) = rw (read_texts-texts ss) refl

optional_text-text_or_null : (o : Option String) → optional_text (some (text_or_null o)) ≡ ok o
unfolding optional_text
optional_text-text_or_null none = refl
optional_text-text_or_null (some s) = refl

-- The dictionary of a lineage that passes its checks is read back as the same lineage.
pub from_dict-to_dict : (l : RunLineage) → post_init l ≡ ok l → from_dict (to_dict l) ≡ ok l
unfolding from_dict to_dict lookup read_path required_text required_int
from_dict-to_dict l h =
    rw
      (
        read_texts-texts l.agent_path,
        optional_text-text_or_null l.parent_run_id,
        optional_text-text_or_null l.delegation_id,
        optional_text-text_or_null l.parent_tool_call_id,
        optional_text-text_or_null l.caller_agent_id,
      )
      h
