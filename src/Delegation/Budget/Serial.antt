-- ===== src/Delegation/Budget/Serial.antt =====
-- moduagent/delegation/budget.py: many clients on one store. Each loads a state, computes the next
-- one from it, and swaps it in later; what the others did in between is arbitrary.
use moduagent.Base.{
  ℕ, ◌≡◌, refl, sym, subst, ap, ◌∙◌, String, true, false, Option, none, some, ok, arith, List, [],
  ◌∷◌, ◌++◌, lookup, insert, lookup-insert, str_eq, eq_iff, eq_refl, inl, inr, Bool-cases,
  if◌then◌else◌, is_empty,
}
use moduagent.Delegation.Models.{ExecutionGroupLimits}
use moduagent.Delegation.Budget.State.{ExecutionGroupBudgetState}
use moduagent.Delegation.Budget.Changes.{replaced}
use moduagent.Delegation.Budget.Calls.{Call, Reply, perform, step, run}
use moduagent.Delegation.Budget.Invariant.{new_group, Inv, run-Inv}
use moduagent.Delegation.Budget.Store.{Store, create, compare_and_swap}
use moduagent.Delegation.Budget.Steps.{Writes, Newer, Writes-Newer, swap-insert}

-- The calls that were committed, newest first, each with its group.
abbrev pub Log : Type 0
Log = List (String × Call)

-- The committed calls of one group, oldest first.
abbrev pub calls_of : String → Log → List Call
calls_of id [] = []
calls_of id ((j, c) ∷ log) = if str_eq j id then calls_of id log ++ (c ∷ []) else calls_of id log

-- The stores that clients can reach, with the log of what they committed. A commit is computed from
-- a state that was loaded from any earlier store.
pub data Reach : Log → Store → Type 0 where
  empty : Reach [] []
  creates :
      {log : Log} {st st' : Store} (id : String) (limits : ExecutionGroupLimits) (deadline : ℕ)
      → Reach log st
      → is_empty id ≡ false
      → create (new_group id limits deadline) st ≡ (true, st')
      → Reach log st'
  commits :
      {log : Log} {early st st' : Store} (id : String) (c : Call) (s t : ExecutionGroupBudgetState)
      (reply : Reply)
      → Writes early st
      → lookup id early ≡ some s
      → perform c s ≡ ok (replaced t reply)
      → Reach log st
      → compare_and_swap id s.revision t st ≡ ok (true, st')
      → Reach ((id, c) ∷ log) st'

-- The state is what the log's calls of the group make of a new group, one after another.
pub record Serial (id : String) (log : Log) (s : ExecutionGroupBudgetState) : Type 0 where
  pub limits : ExecutionGroupLimits
  pub deadline : ℕ
  pub named : is_empty id ≡ false
  pub ran : s ≡ run (new_group id limits deadline) (calls_of id log)

-- What a group's entry says, stored or not.
abbrev Entry : String → Log → Option ExecutionGroupBudgetState → Type 0
Entry id log none = calls_of id log ≡ []
Entry id log (some s) = Serial id log s

Entry-log :
    (id : String) (log log' : Log) (o : Option ExecutionGroupBudgetState)
    → calls_of id log' ≡ calls_of id log
    → Entry id log o
    → Entry id log' o
Entry-log id log log' none e h = e ∙ h
Entry-log id log log' (some s) e h = record {
  limits = h.limits;
  deadline = h.deadline;
  named = h.named;
  ran = rw e h.ran;
}

Entry-none :
    (id : String) (log : Log) (o : Option ExecutionGroupBudgetState)
    → o ≡ none
    → Entry id log o
    → calls_of id log ≡ []
Entry-none id log none e h = h
Entry-none id log (some s) e h = cc

Entry-some :
    (id : String) (log : Log) (o : Option ExecutionGroupBudgetState) (s : ExecutionGroupBudgetState)
    → o ≡ some s
    → Entry id log o
    → Serial id log s
Entry-some id log o s e h = subst (Entry id log) e h

run-append :
    (s : ExecutionGroupBudgetState) (cs : List Call) (c : Call)
    → run s (cs ++ (c ∷ [])) ≡ step (run s cs) c
unfolding run
run-append s [] c = refl
run-append s (d ∷ cs) c = run-append (step s d) cs c

step-replaced :
    (s t : ExecutionGroupBudgetState) (c : Call) (reply : Reply)
    → perform c s ≡ ok (replaced t reply)
    → step s c ≡ t
unfolding step
step-replaced s t c reply e = rw (e, step) refl

create-insert :
    (s : ExecutionGroupBudgetState) (st st' : Store)
    → create s st ≡ (true, st')
    → (lookup s.execution_group_id st ≡ none) × (st' ≡ insert s.execution_group_id s st)
unfolding create
create-insert s st st' e = ground arith

Entry-insert :
    (id k : String) (s : ExecutionGroupBudgetState) (log log' : Log) (st st' : Store)
    → st' ≡ insert id s st
    → Serial id log' s
    → (str_eq id k ≡ false → calls_of k log' ≡ calls_of k log)
    → Entry k log (lookup k st)
    → Entry k log' (lookup k st')
Entry-insert id k s log log' st st' e new other old = elim (Bool-cases (str_eq id k)) [
  | inl p ↦
      rw (e, lookup-insert id k s st, p) (subst (λ j. Serial j log' s) ((eq_iff id k).0 p) new)
  | inr p ↦ rw (e, lookup-insert id k s st, p) (Entry-log k log log' (lookup k st) (other p) old)
]

new_group-Serial :
    (id : String) (limits : ExecutionGroupLimits) (deadline : ℕ) (log : Log)
    → is_empty id ≡ false
    → calls_of id log ≡ []
    → Serial id log (new_group id limits deadline)
unfolding run
new_group-Serial id limits deadline log named e = record {
  limits = limits;
  deadline = deadline;
  named = named;
  ran = rw e refl;
}

step-Serial :
    (id : String) (c : Call) (s t : ExecutionGroupBudgetState) (reply : Reply) (log : Log)
    → perform c s ≡ ok (replaced t reply)
    → Serial id log s
    → Serial id ((id, c) ∷ log) t
step-Serial id c s t reply log p r = record {
  limits = r.limits;
  deadline = r.deadline;
  named = r.named;
  ran = rw (eq_refl id) (
      sym (
        run-append _ (calls_of id log) c
        ∙ ap (λ x. step x c) (sym r.ran)
        ∙ step-replaced s t c reply p));
}

-- A state of the revision that was loaded is the state that was loaded.
still_current :
    (id : String) (s current : ExecutionGroupBudgetState) (st : Store)
    → Newer id s st
    → lookup id st ≡ some current
    → current.revision ≡ s.revision
    → current ≡ s
still_current id s current st n held same = elim n.later [
  | inl e ↦ ground (arith, n.stored)
  | inr later ↦ ground (arith, n.stored)
]

Reach-Entry : {log : Log} {st : Store} → Reach log st → (k : String) → Entry k log (lookup k st)
unfolding lookup new_group
Reach-Entry empty k = refl
Reach-Entry {log} {st} (creates {st = old} id limits deadline r named e) k =
    let (absent, written) = create-insert (new_group id limits deadline) old st e in
    Entry-insert id k (new_group id limits deadline) log log old st written
      (new_group-Serial id limits deadline log named
        (Entry-none id log (lookup id old) absent (Reach-Entry r id)))
      (λ _. refl) (Reach-Entry r k)
Reach-Entry {st = new} (commits {log} {early = early} {st = old} id c s t reply w l p r e) k =
    let (current, held, same, _, _, written) = swap-insert id s.revision t old new e in
    let unmoved : current ≡ s = still_current id s current old (Writes-Newer id s l w) held same in
    let before : Serial id log s =
      Entry-some id log (lookup id old) s (held ∙ ap some unmoved) (Reach-Entry r id) in
    Entry-insert id k t log ((id, c) ∷ log) old new written
      (step-Serial id c s t reply log p before) (λ ne. rw ne refl) (Reach-Entry r k)

-- Serializability: in every store that concurrent clients can reach, a group's state is the result
-- of running the group's committed calls one after another, in the order of their commits, from a
-- new group.
pub Reach-Serial :
    {log : Log} {st : Store} (id : String) (s : ExecutionGroupBudgetState)
    → Reach log st
    → lookup id st ≡ some s
    → Serial id log s
Reach-Serial {log} {st} id s r e = Entry-some id log (lookup id st) s e (Reach-Entry r id)

-- So no interleaving of clients exceeds a quota of a group.
pub Reach-Inv :
    {log : Log} {st : Store} (id : String) (s : ExecutionGroupBudgetState)
    → Reach log st
    → lookup id st ≡ some s
    → Inv s
Reach-Inv {log} id s r e =
    let serial = Reach-Serial id s r e in
    subst Inv (sym serial.ran)
      (run-Inv id serial.limits serial.deadline (calls_of id log) serial.named)
