-- ===== src/Decision/Execution/Preservation/Basics.antt =====
-- moduagent/decision/planning.py: the parts of a sound state that a change leaves sound, and the methods
-- that need no more.
use moduagent.Base.{
  ◌≡◌, refl, String, Bool, true, false, not, ◌&&◌, ◌||◌, Option, none, some, is_some, List, [], ◌∷◌,
  arith, Dict, all_entries,
}
use moduagent.Decision.Planning.Steps.{PlanStep}
use moduagent.Decision.Planning.Results.{StepResult}
use moduagent.Decision.Planning.Plan.{Plan, current}
use moduagent.Decision.Planning.Progress.{start_current-version, start_current-facts}
use moduagent.Decision.Planning.Moves.{start_current}
use moduagent.Decision.Execution.State.{
  ExecutionState, ActiveCall, RunPhase, plans, step_prepare, act, step_validate, verify, finalize,
  done, fails,
}
use moduagent.Decision.Execution.Checks.{is_committed, is_done}
use moduagent.Decision.Execution.Operations.{
  prepare_current_step, prepared_phase, mark_tool_round_complete, mark_in,
}
use moduagent.Decision.Execution.Steps.{Retains, Follows-Retains}
use moduagent.Decision.Execution.Updates.{Rewrites}
use moduagent.Decision.Execution.Soundness.{
  same-PlanSound, current_id-IdSound, same-IdSound, CallsSound, Sound,
}

pub carried :
    (ref_of : StepResult → String) (xs ys : List PlanStep) (d : Dict StepResult)
    → Retains ref_of xs ys
    → all_entries (is_committed ref_of xs) d ≡ true
    → all_entries (is_committed ref_of ys) d ≡ true
carried ref_of xs ys [] t h = refl
carried ref_of xs ys ((k, r) ∷ d) t h =
    let here = t.carries k r (ground arith) in
    let rest = carried ref_of xs ys d t (ground arith) in ground (arith, here, rest)

pub no_calls :
    (strip : String → String) (active : Dict ActiveCall) (seen : List String)
    → CallsSound strip active seen
    → CallsSound strip [] seen
no_calls strip active seen c = record {
  normal = refl;
  unique = refl;
  stripped = c.stripped;
  nonempty = c.nonempty;
  seen_unique = c.seen_unique;
  listed = refl;
}

-- A phase other than the last needs no flag.
abbrev pub final_flags : Bool → Option String → Bool → Bool → Bool
final_flags persisted response emitted at_end =
    (not persisted || is_some response)
    && ((not emitted || is_some response) && (not at_end || emitted))

not_done :
    (persisted : Bool) (response : Option String) (emitted at_end : Bool)
    → final_flags persisted response emitted at_end ≡ true
    → final_flags persisted response emitted false ≡ true
not_done persisted response emitted at_end h = ground arith

prepared-not_done : (o : Option PlanStep) → is_done (prepared_phase o) ≡ false
prepared-not_done none = refl
prepared-not_done (some s) = refl

module _ (strip : String → String) (ref_of : StepResult → String) (st : ExecutionState)
    (s : Sound strip ref_of st) where
  pub open_final : final_flags st.final_persisted st.final_response st.final_emitted false ≡ true
  open_final =
      not_done st.final_persisted st.final_response st.final_emitted (is_done st.phase) s.final

  pub prepare_current_step-Sound :
      (has_tools : Bool) → Sound strip ref_of (prepare_current_step st has_tools)
  unfolding prepare_current_step
  prepare_current_step-Sound has_tools =
      let (inv, keeps) = start_current-facts st.plan s.plan.inv.behind in
      let q = start_current st.plan in
      record {
        plan =
            same-PlanSound st.plan q (start_current-version st.plan) keeps.follows.same_graph inv
              s.plan;
        id = current_id-IdSound q;
        committed =
            carried ref_of st.plan.steps q.steps st.committed_results
              (Follows-Retains ref_of st.plan.steps q.steps keeps.follows) s.committed;
        pending = refl;
        final = rw (prepared-not_done (current q)) open_final;
        fingerprints = refl;
        calls = no_calls strip st.active_tool_calls st.seen_tool_call_ids s.calls;
      }

  mark_in-Sound : (phase : RunPhase) → Sound strip ref_of (mark_in phase st).0
  unfolding mark_in
  mark_in-Sound act = record {
    plan = s.plan;
    id = s.id;
    committed = s.committed;
    pending = s.pending;
    final = s.final;
    fingerprints = s.fingerprints;
    calls = s.calls;
  }
  mark_in-Sound plans = s
  mark_in-Sound step_prepare = s
  mark_in-Sound step_validate = s
  mark_in-Sound verify = s
  mark_in-Sound finalize = s
  mark_in-Sound done = s
  mark_in-Sound fails = s

  pub mark_tool_round_complete-Sound : Sound strip ref_of (mark_tool_round_complete st).0
  unfolding mark_tool_round_complete
  mark_tool_round_complete-Sound = mark_in-Sound st.phase

  -- A change of one step.
  pub rewritten-Sound :
      (q : Plan) → Rewrites ref_of st.plan q → Sound strip ref_of (record st { plan = q })
  rewritten-Sound q w = record {
    plan = same-PlanSound st.plan q w.same_version w.retains.same_graph w.inv s.plan;
    id = same-IdSound st.plan q st.current_step_id w.same_index w.retains.same_graph s.id;
    committed = carried ref_of st.plan.steps q.steps st.committed_results w.retains s.committed;
    pending = s.pending;
    final = s.final;
    fingerprints = s.fingerprints;
    calls = s.calls;
  }
