-- ===== src/Decision/Execution/Start.antt =====
-- moduagent/decision/planning.py: a plan that its checks accept is sound.
use moduagent.Base.{◌≡◌, sym, subst, ◌∙◌, true, ok, arith}
use moduagent.Decision.Planning.Plan.{Plan, ids, move_to_next_open_step}
use moduagent.Decision.Planning.Plan as PlanCode
use moduagent.Decision.Planning.Evolution.{closed_before}
use moduagent.Decision.Planning.Progress.{move-Inv}
use moduagent.Decision.Planning.Acceptance.{is_accepted, post_init_lem}
use moduagent.Decision.Planning.Outcome.{accepted_cases}
use moduagent.Decision.Execution.Soundness.{PlanSound}

pub accepted-PlanSound :
    (p q : Plan)
    → closed_before p.current_index p.steps ≡ true
    → PlanCode.post_init p ≡ ok q
    → PlanSound q
unfolding move_to_next_open_step
accepted-PlanSound p q c h =
    let (shape, moved) =
      accepted_cases (is_accepted p) (move_to_next_open_step p) q (sym (post_init_lem p) ∙ h) in
    subst PlanSound (sym moved) (record {
      inv = move-Inv p c;
      version = ground arith;
      unique = ground arith;
      ordered = ground arith;
    })
