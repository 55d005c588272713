-- ===== src/Execution/Recovery/Bounds.antt =====
-- moduagent/execution/planning/recovery.py: sequences of recorded calls and decisions, and the
-- counts of repairs over them.
use moduagent.Base.{
  ℕ, ◌+◌, ◌≤◌, ◌≡◌, refl, String, Bool, true, Option, none, some, List, [], ◌∷◌, Result, ok, raise,
  lookup, leb, sum_by, sum_by-insert, all_entries, all_entries-insert, all_entries-lookup, weight,
  Result-cases, Option-cases, inl, inr, arith, leb→le, get_or,
}
use moduagent.Execution.Recovery.State.{
  ToolCall, ToolRecoveryState, Error, new_state, add_calls, record_requested_calls,
}
use moduagent.Execution.Recovery.Decision.{
  InternalToolFailure, ToolBatchOutcome, ToolRecoveryControllerConfig, Verdict,
  ToolRecoveryDecision, count_of, decide,
}
use moduagent.Execution.Recovery.Verdicts.{Ruling, stops, repairs_call, decide-Ruling}

-- What the plan engine asks of the controller: to record calls, or to decide on an outcome for a step.
pub data Request : Type 0 where
  records : List ToolCall → Request
  decides : String → ToolBatchOutcome → Request

abbrev after :
    {V : Type 0} → ToolRecoveryState V → Result Error (ToolRecoveryState V) → ToolRecoveryState V
after s (raise e) = s
after s (ok t) = t

abbrev decided : {V : Type 0} → ToolRecoveryState V → Result Error (Verdict V) → ToolRecoveryState V
decided s (raise e) = s
decided s (ok (d, t)) = t

weight_count : (o : Option ℕ) → weight (λ n. n) o ≡ get_or 0 o
weight_count none = refl
weight_count (some n) = refl

module _ {V : Type 0} (project : Bool → InternalToolFailure → V) (is_blank : String → Bool)
    (config : ToolRecoveryControllerConfig) (limit : String → ℕ) where
  -- A request that raises leaves the state.
  unfoldable pub step : ToolRecoveryState V → Request → ToolRecoveryState V
  step s (records calls) = after s (record_requested_calls calls s)
  step s (decides step_id outcome) =
      decided s (decide project is_blank config step_id (limit step_id) outcome s)

  unfoldable pub run : ToolRecoveryState V → List Request → ToolRecoveryState V
  unfolding step
  run s [] = s
  run s (r ∷ rs) = run (step s r) rs

  abbrev pub within_limit : String → ℕ → Bool
  within_limit step_id n = leb n (limit step_id)

  pub record Inv (s : ToolRecoveryState V) : Type 0 where
    pub within : all_entries within_limit s.repair_count_by_step ≡ true
    pub counted : s.total_repairs ≡ sum_by (λ n. n) s.repair_count_by_step

  ruled-Inv :
      (step_id : String) (outcome : ToolBatchOutcome) (s t : ToolRecoveryState V)
      (d : ToolRecoveryDecision V)
      → Ruling config step_id (limit step_id) outcome s d t
      → Inv s
      → Inv t
  ruled-Inv step_id outcome s t d (stops x) i = record {
    within = rw x.same_counts i.within;
    counted = rw (x.same_counts, x.same_total) i.counted;
  }
  ruled-Inv step_id outcome s t d (repairs_call primary q e able _ _ _ _ _ counts total) i =
      let n = count_of step_id s.repair_count_by_step in
      record {
        within = rw counts (
            all_entries-insert within_limit step_id (n + 1) s.repair_count_by_step i.within
              (ground (arith, able.within_budget)));
        counted =
            rw (counts, total)
              (omega (
                arith,
                sum_by-insert (λ n. n) step_id (n + 1) s.repair_count_by_step,
                weight_count (lookup step_id s.repair_count_by_step),
                i.counted,
              ));
      }

  decided-Inv :
      (step_id : String) (outcome : ToolBatchOutcome) (s : ToolRecoveryState V)
      → Inv s
      → Inv (decided s (decide project is_blank config step_id (limit step_id) outcome s))
  decided-Inv step_id outcome s i =
      elim (Result-cases (decide project is_blank config step_id (limit step_id) outcome s)) [
        | inl ((d, t), e) ↦ rw e (
            ruled-Inv step_id outcome s t d
              (decide-Ruling project is_blank config step_id (limit step_id) outcome s t d e) i)
        | inr (x, e) ↦ rw e i
      ]

  step-Inv : (s : ToolRecoveryState V) (r : Request) → Inv s → Inv (step s r)
  unfolding step record_requested_calls
  step-Inv s (records calls) i = elim (Result-cases (add_calls s.seen_call_ids calls [])) [
    | inl (found, e) ↦ rw e (record { within = i.within; counted = i.counted })
    | inr (x, e) ↦ rw e i
  ]
  step-Inv s (decides step_id outcome) i = decided-Inv step_id outcome s i

  run-keeps : (s : ToolRecoveryState V) (rs : List Request) → Inv s → Inv (run s rs)
  unfolding run
  run-keeps s [] i = i
  run-keeps s (r ∷ rs) i = run-keeps (step s r) rs (step-Inv s r i)

  within_count :
      (s : ToolRecoveryState V) (step_id : String)
      → Inv s
      → count_of step_id s.repair_count_by_step ≤ limit step_id
  within_count s step_id i = elim (Option-cases (lookup step_id s.repair_count_by_step)) [
    | inl e ↦ rw e (omega arith)
    | inr (n, e) ↦ rw e (
        leb→le n (limit step_id)
          (all_entries-lookup within_limit step_id n s.repair_count_by_step i.within e))
  ]

  -- From a new state on, no step's count passes its limit, and the total is the sum of the counts.
  pub counts_bounded :
      (rs : List Request) (step_id : String)
      → (count_of step_id (run new_state rs).repair_count_by_step ≤ limit step_id)
        × ((run new_state rs).total_repairs
            ≡ sum_by (λ n. n) (run new_state rs).repair_count_by_step)
  counts_bounded rs step_id =
      let i = run-keeps new_state rs (record { within = refl; counted = refl }) in
      (within_count (run new_state rs) step_id i, i.counted)
