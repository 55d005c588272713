-- ===== src/Execution/Recovery/Once.antt =====
-- moduagent/execution/planning/recovery.py: a Tool call is repaired at most once.
use moduagent.Base.{
  keys, lookup-keys, contains-append_left, contains-append_right, ℕ, ◌≡◌, ◌≢◌, refl, sym, ◌∙◌,
  String, Bool, true, Option, none, some, is_some, List, [], ◌∷◌, ok, Dict, lookup, insert,
  contains, lookup-insert, Result-cases, inl, inr, arith, eq_iff,
}
use moduagent.Execution.Recovery.State.{
  ToolCall, ActiveCall, ToolRecoveryState, new_state, add_calls, record_requested_calls,
  active_call,
}
use moduagent.Execution.Recovery.Decision.{
  InternalToolFailure, ToolBatchOutcome, ToolRecoveryControllerConfig, ToolRecoveryDecision,
  ToolRepairConstraint, decide, matches,
}
use moduagent.Execution.Recovery.Verdicts.{Ruling, stops, repairs_call, decide-Ruling}
use moduagent.Execution.Recovery.Bounds.{Request, records, decides, step, run}

-- An id that is used up: known, and not active.
pub record IsSpent {V : Type 0} (id : String) (s : ToolRecoveryState V) : Type 0 where
  pub is_seen : contains id s.seen_call_ids ≡ true
  pub is_idle : lookup id s.active_calls ≡ none

-- Every active call is known.
abbrev AreSeen : {V : Type 0} → ToolRecoveryState V → Type 0
AreSeen s =
    (id : String) → is_some (lookup id s.active_calls) ≡ true → contains id s.seen_call_ids ≡ true

add_calls-absent :
    (id : String) (known : List String) (calls : List ToolCall) (start found : Dict ActiveCall)
    → contains id known ≡ true
    → lookup id start ≡ none
    → add_calls known calls start ≡ ok found
    → lookup id found ≡ none
unfolding add_calls
add_calls-absent id known [] start found h k e = ground arith
add_calls-absent id known (call ∷ calls) start found h k e = ground (
  arith,
  eq_iff call.id id,
  lookup-insert call.id id (active_call call) start,
  add_calls-absent id known calls (insert call.id (active_call call) start) found,
)

new_state-AreSeen : (V : Type 0) → AreSeen {V = V} new_state
unfolding lookup
new_state-AreSeen V id h = cc

matches-some :
    (primary : InternalToolFailure) (o : Option ActiveCall)
    → matches primary o ≡ true
    → is_some o ≡ true
matches-some primary none h = cc
matches-some primary (some call) h = refl

lookup_absurd :
    (k id : String) (d : Dict ActiveCall)
    → k ≡ id
    → is_some (lookup k d) ≡ true
    → lookup id d ≡ none
    → ⊥
lookup_absurd k id d same there idle = cc

named :
    {V : Type 0} (d : ToolRecoveryDecision V) (c : ToolRepairConstraint) (id : String)
    (made : ToolRepairConstraint)
    → d.repair_constraint ≡ some made
    → d.repair_constraint ≡ some c
    → made.failed_call_id ≡ id
    → c.failed_call_id ≡ id
named d c id made e h k = ground arith

module _ {V : Type 0} (project : Bool → InternalToolFailure → V) (is_blank : String → Bool)
    (config : ToolRecoveryControllerConfig) (limit : String → ℕ) where
  ruled-IsSpent :
      (id step_id : String) (outcome : ToolBatchOutcome) (s t : ToolRecoveryState V)
      (d : ToolRecoveryDecision V)
      → Ruling config step_id (limit step_id) outcome s d t
      → IsSpent id s
      → IsSpent id t
  unfolding lookup
  ruled-IsSpent id step_id outcome s t d (stops y) x = record {
    is_seen = rw y.same_seen x.is_seen;
    is_idle = rw y.cleared refl;
  }
  ruled-IsSpent id step_id outcome s t d (repairs_call _ _ _ _ _ _ _ idle seen _ _) x = record {
    is_seen = rw seen x.is_seen;
    is_idle = rw idle refl;
  }

  ruled-AreSeen :
      (step_id : String) (outcome : ToolBatchOutcome) (s t : ToolRecoveryState V)
      (d : ToolRecoveryDecision V)
      → Ruling config step_id (limit step_id) outcome s d t
      → AreSeen t
  unfolding lookup
  ruled-AreSeen step_id outcome s t d (stops y) = rw y.cleared (λ id h. cc)
  ruled-AreSeen step_id outcome s t d (repairs_call _ _ _ _ _ _ _ idle _ _ _) = rw idle (λ id h. cc)

  step-IsSpent :
      (id : String) (s : ToolRecoveryState V) (r : Request)
      → IsSpent id s
      → IsSpent id (step project is_blank config limit s r)
  unfolding step record_requested_calls lookup
  step-IsSpent id s (records calls) x = elim (Result-cases (add_calls s.seen_call_ids calls [])) [
    | inl (found, e) ↦ rw e (record {
      is_seen = contains-append_left id s.seen_call_ids (keys found) x.is_seen;
      is_idle = add_calls-absent id s.seen_call_ids calls [] found x.is_seen refl e;
    })
    | inr (y, e) ↦ rw e x
  ]
  step-IsSpent id s (decides step_id outcome) x =
      elim (Result-cases (decide project is_blank config step_id (limit step_id) outcome s)) [
        | inl ((d, t), e) ↦ rw e (
            ruled-IsSpent id step_id outcome s t d
              (decide-Ruling project is_blank config step_id (limit step_id) outcome s t d e) x)
        | inr (y, e) ↦ rw e x
      ]

  run-IsSpent :
      (id : String) (s : ToolRecoveryState V) (rs : List Request)
      → IsSpent id s
      → IsSpent id (run project is_blank config limit s rs)
  unfolding run
  run-IsSpent id s [] x = x
  run-IsSpent id s (r ∷ rs) x =
      run-IsSpent id (step project is_blank config limit s r) rs (step-IsSpent id s r x)

  step-AreSeen :
      (s : ToolRecoveryState V) (r : Request)
      → AreSeen s
      → AreSeen (step project is_blank config limit s r)
  unfolding step record_requested_calls
  step-AreSeen s (records calls) x = elim (Result-cases (add_calls s.seen_call_ids calls [])) [
    | inl (found, e) ↦
        rw e
          (λ id h. contains-append_right id s.seen_call_ids (keys found) (lookup-keys id found h))
    | inr (y, e) ↦ rw e x
  ]
  step-AreSeen s (decides step_id outcome) x =
      elim (Result-cases (decide project is_blank config step_id (limit step_id) outcome s)) [
        | inl ((d, t), e) ↦ rw e (
            ruled-AreSeen step_id outcome s t d
              (decide-Ruling project is_blank config step_id (limit step_id) outcome s t d e))
        | inr (y, e) ↦ rw e x
      ]

  run-AreSeen :
      (s : ToolRecoveryState V) (rs : List Request)
      → AreSeen s
      → AreSeen (run project is_blank config limit s rs)
  unfolding run
  run-AreSeen s [] x = x
  run-AreSeen s (r ∷ rs) x =
      run-AreSeen (step project is_blank config limit s r) rs (step-AreSeen s r x)

  repaired-IsSpent :
      (step_id : String) (outcome : ToolBatchOutcome) (s t : ToolRecoveryState V)
      (d : ToolRecoveryDecision V) (c : ToolRepairConstraint)
      → Ruling config step_id (limit step_id) outcome s d t
      → d.repair_constraint ≡ some c
      → AreSeen s
      → IsSpent c.failed_call_id t
  unfolding lookup
  repaired-IsSpent step_id outcome s t d c (stops y) h x = ground arith
  repaired-IsSpent step_id outcome s t d c (repairs_call primary q e able _ _ made idle seen _ _) h
        x =
      let same = named d c primary.call_id _ made h refl in
      record {
        is_seen =
            rw (same, seen)
              (x primary.call_id
                (matches-some primary (lookup primary.call_id s.active_calls) able.verified));
        is_idle = rw (same, idle) refl;
      }

  spent-unrepaired :
      (step_id : String) (outcome : ToolBatchOutcome) (s t : ToolRecoveryState V)
      (d : ToolRecoveryDecision V) (c : ToolRepairConstraint) (id : String)
      → Ruling config step_id (limit step_id) outcome s d t
      → d.repair_constraint ≡ some c
      → IsSpent id s
      → c.failed_call_id ≢ id
  spent-unrepaired step_id outcome s t d c id (stops y) h x = λ k. ground arith
  spent-unrepaired step_id outcome s t d c id (repairs_call primary q e able _ _ made idle seen _ _)
        h x =
      λ k.
        let there = matches-some primary (lookup primary.call_id s.active_calls) able.verified in
        let same = sym (named d c primary.call_id _ made h refl) ∙ k in
        lookup_absurd primary.call_id id s.active_calls same there x.is_idle

  -- A call for which a decision has ordered a repair is not repaired again, whatever is recorded and
  -- decided in between: a later decision's constraint names another call.
  pub repaired_once :
      (before between : List Request) (step_id later_step : String)
      (outcome later : ToolBatchOutcome) (d d' : ToolRecoveryDecision V)
      (t t' : ToolRecoveryState V) (c c' : ToolRepairConstraint)
      → decide project is_blank config step_id
          (limit step_id)
          outcome
          (run project is_blank config limit new_state before)
        ≡ ok (d, t)
      → d.repair_constraint ≡ some c
      → decide project is_blank config later_step
          (limit later_step)
          later
          (run project is_blank config limit t between)
        ≡ ok (d', t')
      → d'.repair_constraint ≡ some c'
      → c'.failed_call_id ≢ c.failed_call_id
  repaired_once before between step_id later_step outcome later d d' t t' c c' e h e' h' =
      let start = run project is_blank config limit new_state before in
      let spent =
        repaired-IsSpent step_id outcome start t d c
          (decide-Ruling project is_blank config step_id (limit step_id) outcome start t d e) h
          (run-AreSeen new_state before (new_state-AreSeen V)) in
      spent-unrepaired later_step later (run project is_blank config limit t between) t' d' c'
        c.failed_call_id
        (decide-Ruling project is_blank config later_step (limit later_step) later
          (run project is_blank config limit t between) t' d' e')
        h' (run-IsSpent c.failed_call_id t between spent)
