-- ===== src/Runtime/ModelGuard/Samples.antt =====
-- Tests of the model guard, and its theorems at concrete guards.
use moduagent.Base.{
  true, is_lower_hex, ◌≡◌, ◌↔◌, ◌≤◌, refl, String, none, some, ok, List, [], ◌∷◌, arith,
}
use moduagent.Runtime.ModelGuard.Breaker.{
  Guard, no_progress, init, before_model_attempt, observe_model_response, mark_progress,
}
use moduagent.Runtime.ModelGuard.Invariant.{Inv, Call, attempts, observes, progresses, run, run-Inv}
use moduagent.Runtime.ModelGuard.Streak.{streak, history, trips_on_streak}
use moduagent.Runtime.ModelGuard.Restore.{
  to_state, from_state, from_state-to_state, is_sha256_digest,
}

-- Stands for HMAC.
abbrev join : String → String → String → String
join salt state response = state

abbrev digest : String
digest = "0123456789abcdef0123456789abcdef0123456789abcdef0123456789abcdef"

abbrev new_guard : Guard
new_guard = record {
  max_model_turns = 32;
  threshold = 2;
  salt = digest;
  model_turns = 0;
  no_progress_model_turns = 0;
  pending_state_digest = none;
  last_observation_digest = none;
  trip_reason = none;
}

abbrev turn : String → List Call → List Call
turn state cs = attempts (ok state) ∷ observes (ok "r") ∷ cs

abbrev stuck_run : List Call
stuck_run = turn "a" (turn "b" (turn "b" []))

stuck_guard : (run join new_guard stuck_run).trip_reason ≡ some no_progress
unfolding run before_model_attempt observe_model_response
stuck_guard = refl

live_guard :
    (run join new_guard (turn "a" (turn "b" (progresses ∷ turn "b" [])))).trip_reason ≡ none
unfolding run before_model_attempt observe_model_response mark_progress
live_guard = refl

run-Inv_example : Inv (run join new_guard stuck_run)
unfolding init
run-Inv_example = run-Inv join 32 2 digest new_guard stuck_run refl

trips_on_streak_example :
    ((run join new_guard stuck_run).trip_reason ≡ some no_progress)
    ↔ (2 ≤ streak (history join new_guard stuck_run []))
unfolding init
trips_on_streak_example = trips_on_streak join 32 2 digest new_guard stuck_run refl

abbrev busy_guard : Guard
busy_guard = record new_guard {
  model_turns = 3;
  no_progress_model_turns = 1;
  pending_state_digest = some digest;
  last_observation_digest = some digest;
}

busy_guard-Inv : Inv busy_guard
busy_guard-Inv = ground arith

digest-valid : is_sha256_digest digest ≡ true
unfolding is_sha256_digest is_lower_hex
digest-valid = refl

from_state-to_state_example :
    from_state 32 2 digest (to_state busy_guard)
    ≡ ok (record busy_guard { pending_state_digest = none })
from_state-to_state_example =
    from_state-to_state busy_guard digest busy_guard-Inv digest-valid digest-valid
