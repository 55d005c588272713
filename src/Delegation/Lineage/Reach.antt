-- ===== src/Delegation/Lineage/Reach.antt =====
-- moduagent/delegation: every lineage that guarded delegations reach from a root run.
use moduagent.Base.{
  ◌+◌, ◌≤◌, ◌≡◌, refl, sym, subst, String, true, Option, none, some, List, [], ◌∷◌, ◌++◌, ok,
  length, is_unique, arith,
}
use moduagent.Delegation.Models.{AgentRef, str, ExecutionGroupLimits}
use moduagent.Delegation.Lineage.Record.{
  RunLineage, agent_ref, root, child, child_record, last, path_valid, post_init,
}
use moduagent.Delegation.Lineage.Guards.{validate}
use moduagent.Delegation.Lineage.Chains.{post_init-IsValid, valid_last}

pub data Delegated (limits : ExecutionGroupLimits) (run_id : String) (agent : AgentRef)
    : RunLineage → Type 0 where
  starts : {l : RunLineage} → root run_id agent ≡ ok l → Delegated limits run_id agent l
  delegates :
      {l k : RunLineage} (callee : AgentRef) (parent_run_id delegation_id call_id : String)
      → Delegated limits run_id agent l
      → validate l callee limits ≡ ok tt
      → child l callee parent_run_id delegation_id call_id ≡ ok k
      → Delegated limits run_id agent k

abbrev pub first : List String → Option String
first [] = none
first (x ∷ xs) = some x

pub record Within (limits : ExecutionGroupLimits) (run_id : String) (agent : AgentRef)
    (l : RunLineage) : Type 0 where
  pub within_depth : l.depth ≤ limits.max_depth
  pub no_repeats : is_unique l.agent_path ≡ true
  pub path_length : length l.agent_path ≡ l.depth + 1
  pub same_root : l.root_run_id ≡ run_id
  pub starts_at : first l.agent_path ≡ some (str agent)
  pub ends_at : last l.agent_path ≡ some (str (agent_ref l))

first-append : (xs ys : List String) (x : String) → first xs ≡ some x → first (xs ++ ys) ≡ some x
first-append [] ys x h = cc
first-append (z ∷ xs) ys x h = h

path_facts :
    (l : RunLineage)
    → path_valid l ≡ true
    → (is_unique l.agent_path ≡ true) × (length l.agent_path ≡ l.depth + 1)
unfolding path_valid
path_facts l h = ground arith

module _ (limits : ExecutionGroupLimits) (run_id : String) (agent : AgentRef) where
  record-Within :
      (r l : RunLineage)
      → post_init r ≡ ok l
      → r.depth ≤ limits.max_depth
      → r.root_run_id ≡ run_id
      → first r.agent_path ≡ some (str agent)
      → Within limits run_id agent l
  record-Within r l e deep same begins =
      let ((_, _, path, _), is_r) = post_init-IsValid r l e in
      let (unique, long) = path_facts r path in
      subst (Within limits run_id agent) (sym is_r) (record {
        within_depth = deep;
        no_repeats = unique;
        path_length = long;
        same_root = same;
        starts_at = begins;
        ends_at = valid_last r path;
      })

  child-Within :
      (l k : RunLineage) (callee : AgentRef) (p d c : String)
      → Within limits run_id agent l
      → validate l callee limits ≡ ok tt
      → child l callee p d c ≡ ok k
      → Within limits run_id agent k
  unfolding child validate
  child-Within l k callee p d c w g e =
      record-Within (child_record l callee p d c) k e (ground arith) w.same_root
        (first-append l.agent_path (str callee ∷ []) (str agent) w.starts_at)

-- Every lineage that guarded delegations reach from a root run keeps the root's run id, has a path
-- from the root's Agent to its own without repeated entries, and is at most as deep as the limits
-- allow.
pub Delegated-Within :
    (limits : ExecutionGroupLimits) (run_id : String) (agent : AgentRef) (l : RunLineage)
    → Delegated limits run_id agent l
    → Within limits run_id agent l
unfolding root
Delegated-Within limits run_id agent l (starts e) =
    record-Within limits run_id agent _ l e (omega arith) refl refl
Delegated-Within limits run_id agent k (delegates callee p d c reached g e) =
    child-Within limits run_id agent _ k callee p d c
      (Delegated-Within limits run_id agent _ reached) g e
