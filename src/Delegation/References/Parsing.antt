-- ===== src/Delegation/References/Parsing.antt =====
-- moduagent/definitions/models.py: `AgentRef.__post_init__` and `AgentRef.parse`.
use Prim.Native.Char.{Char, code}
use Prim.Native.String.{◌++◌}
use Prim.Native.String.append
use Prim.Native.String.compare
use moduagent.Base.{
  ◌≡◌, refl, String, Bool, true, not, ◌&&◌, Option, none, some, ◌==◌, if◌then◌else◌, codes,
  is_empty, Result, ok, raise, guard, passes, ◌>>◌, arith, matches_identifier,
}
use moduagent.Delegation.Models.{AgentRef, str}
use moduagent.Delegation.References.Version.{
  is_agent_id, is_release, split_on, partition, is_numeral, is_version, has_no_at,
  version-has_no_at,
}

pub data Error : Type 0 where
  value_error : Error

-- `AgentRef.__post_init__` passes
unfoldable pub is_agent_ref : AgentRef → Bool
is_agent_ref a = is_agent_id a.agent_id && is_version a.version

-- One more character in front of what a search from the right has found.
extend : Char → String → Option (String × String) → Option (String × String)
extend c s (some (before, after)) = some (String.◌∷◌ c before, after)
extend c s none = if code c == b'@' then some ("", s) else none

-- `value.rpartition("@")`, none where it finds no separator.
unfoldable pub rpartition : String → Option (String × String)
unfolding extend
rpartition String.[] = none
rpartition (String.◌∷◌ c s) = extend c s (rpartition s)

parse_parts : Option (String × String) → Result Error AgentRef
parse_parts none = raise value_error
parse_parts (some (agent_id, version)) = do
  guard (not (is_empty agent_id) && not (is_empty version)) value_error
  guard (is_agent_id agent_id && is_version version) value_error
  ok (record { agent_id = agent_id; version = version })

-- `AgentRef.parse`
unfoldable pub parse : String → Result Error AgentRef
unfolding parse_parts
parse value = parse_parts (rpartition value)

rpartition-no_at : (s : String) → has_no_at (codes s) ≡ true → rpartition s ≡ none
unfolding rpartition
rpartition-no_at String.[] h = refl
rpartition-no_at (String.◌∷◌ c s) h = rw (rpartition-no_at s (ground arith)) (ground arith)

rpartition-at : (s : String) → has_no_at (codes s) ≡ true → rpartition ("@" ++ s) ≡ some ("", s)
unfolding rpartition
rpartition-at s h = rw (append.cons "@" "" s) (rw (append.nil s) (rw (rpartition-no_at s h) refl))

rpartition-append :
    (s t : String) → has_no_at (codes t) ≡ true → rpartition (s ++ ("@" ++ t)) ≡ some (s, t)
unfolding rpartition
rpartition-append String.[] t h = rw (append.nil ("@" ++ t)) (rpartition-at t h)
rpartition-append (String.◌∷◌ c s) t h =
    rw (append.cons c s ("@" ++ t)) (rw (rpartition-append s t h) refl)

cons-nonempty : (c : Char) (s : String) → not (is_empty (String.◌∷◌ c s)) ≡ true
cons-nonempty c s = rw (compare.cons-nil c s) refl

agent_id-nonempty : (s : String) → is_agent_id s ≡ true → not (is_empty s) ≡ true
unfolding is_agent_id matches_identifier
agent_id-nonempty String.[] h = cc
agent_id-nonempty (String.◌∷◌ c s) h = cons-nonempty c s

version-nonempty : (s : String) → is_version s ≡ true → not (is_empty s) ≡ true
unfolding is_version is_release split_on partition is_numeral
version-nonempty String.[] h = cc
version-nonempty (String.◌∷◌ c s) h = cons-nonempty c s

-- Parsing the text of an Agent reference whose id and version are valid gives the reference back.
pub parse-str : (a : AgentRef) → is_agent_ref a ≡ true → parse (str a) ≡ ok a
unfolding parse str is_agent_ref
parse-str a h =
    rw (rpartition-append a.agent_id a.version (version-has_no_at a.version (ground arith))) (
      passes (not (is_empty a.agent_id) && not (is_empty a.version)) value_error
        (ground (arith, agent_id-nonempty a.agent_id, version-nonempty a.version))
        (passes (is_agent_id a.agent_id && is_version a.version) value_error h refl))
