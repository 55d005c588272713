-- ===== src/Delegation/Lineage/Chains.antt =====
-- moduagent/delegation: the lineages that guarded delegations reach from a root run.
use moduagent.Base.{
  ℕ, ◌≡◌, refl, String, Bool, true, false, Option, none, some, List, [], ◌∷◌, ◌++◌, ok,
  length-append, all, contains, is_unique, opt_eq, str_eq, eq_iff, eq_refl, is_alnum,
  matches_identifier, codes, arith,
}
use moduagent.Delegation.Models.{
  AgentRef, str, ExecutionGroupLimits, is_identifier, is_identifier_char,
}
use moduagent.Delegation.References.Version.{is_agent_id, is_agent_id_char}
use moduagent.Delegation.References.Parsing.{is_agent_ref, parse-str}
use moduagent.Delegation.Lineage.Record.{
  RunLineage, agent_ref, post_init, child, child_record, last, prior, parses, parsed_id, ids_valid,
  path_valid, parent_fields_valid,
}
use moduagent.Delegation.Lineage.Guards.{validate}

last-append : (xs : List String) (x : String) → last (xs ++ (x ∷ [])) ≡ some x
unfolding last
last-append [] x = refl
last-append (y ∷ []) x = refl
last-append (y ∷ z ∷ zs) x = last-append (z ∷ zs) x

prior-append :
    (xs : List String) (x y : String) → last xs ≡ some y → prior (xs ++ (x ∷ [])) ≡ some y
unfolding last prior
prior-append [] x y h = cc
prior-append (a ∷ []) x y h = h
prior-append (a ∷ b ∷ []) x y h = h
prior-append (a ∷ b ∷ c ∷ cs) x y h = prior-append (b ∷ c ∷ cs) x y h

all-append :
    (p : String → Bool) (xs : List String) (x : String)
    → all p xs ≡ true
    → p x ≡ true
    → all p (xs ++ (x ∷ [])) ≡ true
all-append p [] x h k = ground arith
all-append p (y ∷ ys) x h k = ground (arith, all-append p ys x)

str_eq_comm : (a b : String) → str_eq a b ≡ str_eq b a
str_eq_comm a b = ground (arith, eq_iff a b, eq_iff b a)

contains-append :
    (y : String) (xs : List String) (x : String)
    → contains y xs ≡ false
    → str_eq y x ≡ false
    → contains y (xs ++ (x ∷ [])) ≡ false
contains-append y [] x h k = ground arith
contains-append y (z ∷ zs) x h k = ground (arith, contains-append y zs x)

unique-append :
    (xs : List String) (x : String)
    → is_unique xs ≡ true
    → contains x xs ≡ false
    → is_unique (xs ++ (x ∷ [])) ≡ true
unique-append [] x h k = ground arith
unique-append (y ∷ ys) x h k =
    ground (arith, unique-append ys x, contains-append y ys x, str_eq_comm x y)

follows_mono : (cs : List ℕ) → all is_agent_id_char cs ≡ true → all is_identifier_char cs ≡ true
unfolding is_agent_id_char is_identifier_char is_alnum
follows_mono [] h = refl
follows_mono (c ∷ cs) h = ground (arith, follows_mono cs)

agent_id-identifier : (s : String) → is_agent_id s ≡ true → is_identifier s ≡ true
unfolding is_agent_id is_identifier matches_identifier
agent_id-identifier String.[] h = cc
agent_id-identifier (String.◌∷◌ c s) h = ground (arith, follows_mono (codes s))

-- What the checks of a lineage establish.
abbrev pub IsValid : RunLineage → Type 0
IsValid l =
    (ids_valid l ≡ true)
    × (is_agent_ref (agent_ref l) ≡ true)
    × (path_valid l ≡ true)
    × (parent_fields_valid l ≡ true)

pub post_init-IsValid : (l k : RunLineage) → post_init l ≡ ok k → IsValid l × (k ≡ l)
unfolding post_init
post_init-IsValid l k h = ground arith

IsValid-post_init : (l : RunLineage) → IsValid l → post_init l ≡ ok l
unfolding post_init
IsValid-post_init l v = ground arith

parses-str : (a : AgentRef) → is_agent_ref a ≡ true → parses (str a) ≡ true
parses-str a h = rw (parse-str a h, parses) refl

parsed_id-str : (a : AgentRef) → is_agent_ref a ≡ true → parsed_id (some (str a)) ≡ some a.agent_id
parsed_id-str a h = rw (parse-str a h, parsed_id) refl

opt_eq-some : (o : Option String) (x : String) → opt_eq o (some x) ≡ true → o ≡ some x
opt_eq-some none x h = cc
opt_eq-some (some y) x h = ground (arith, eq_iff y x)

pub valid_last :
    (l : RunLineage) → path_valid l ≡ true → last l.agent_path ≡ some (str (agent_ref l))
unfolding path_valid
valid_last l h = opt_eq-some (last l.agent_path) (str (agent_ref l)) (ground arith)

opt_eq_refl : (o : Option String) → opt_eq o o ≡ true
opt_eq_refl none = refl
opt_eq_refl (some s) = eq_refl s

module _ (l : RunLineage) (callee : AgentRef) (parent_run_id delegation_id call_id : String) where
  abbrev made : RunLineage
  made = child_record l callee parent_run_id delegation_id call_id

  child-ids_valid :
      ids_valid l ≡ true
      → is_agent_ref callee ≡ true
      → is_identifier parent_run_id ≡ true
      → is_identifier delegation_id ≡ true
      → is_identifier call_id ≡ true
      → ids_valid made ≡ true
  unfolding ids_valid is_agent_ref
  child-ids_valid v a p q r = ground (arith, agent_id-identifier callee.agent_id)

  child-path_valid :
      path_valid l ≡ true
      → is_agent_ref callee ≡ true
      → contains (str callee) l.agent_path ≡ false
      → path_valid made ≡ true
  unfolding path_valid
  child-path_valid v a n = rw (last-append l.agent_path (str callee)) (
      rw (length-append l.agent_path (str callee ∷ [])) (
        ground (
          arith,
          all-append parses l.agent_path (str callee),
          parses-str callee,
          unique-append l.agent_path (str callee),
          eq_refl (str callee),
        )))

  child-parent_fields_valid :
      is_agent_ref (agent_ref l) ≡ true → path_valid l ≡ true → parent_fields_valid made ≡ true
  unfolding parent_fields_valid
  child-parent_fields_valid a v =
      rw (prior-append l.agent_path (str callee) (str (agent_ref l)) (valid_last l v))
        (rw (parsed_id-str (agent_ref l) a) (ground (arith, eq_refl l.agent_id)))

-- Where the cycle guard lets a delegation of a valid lineage to a valid Agent through, and the run,
-- delegation and call ids are identifiers, the child's lineage passes its own checks.
pub guarded_child :
    (l : RunLineage) (callee : AgentRef) (limits : ExecutionGroupLimits)
    (parent_run_id delegation_id call_id : String)
    → post_init l ≡ ok l
    → is_agent_ref callee ≡ true
    → is_identifier parent_run_id ≡ true
    → is_identifier delegation_id ≡ true
    → is_identifier call_id ≡ true
    → validate l callee limits ≡ ok tt
    → child l callee parent_run_id delegation_id call_id
      ≡ ok (child_record l callee parent_run_id delegation_id call_id)
unfolding child validate
guarded_child l callee limits run d c v a p q r g =
    let (ids, self, path, _) = (post_init-IsValid l l v).0 in
    IsValid-post_init (child_record l callee run d c) (
      child-ids_valid l callee run d c ids a p q r,
      a,
      child-path_valid l callee run d c path a (ground arith),
      child-parent_fields_valid l callee run d c self path,
    )
