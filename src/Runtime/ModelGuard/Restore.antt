-- ===== src/Runtime/ModelGuard/Restore.antt =====
-- moduagent/runtime/model_guard.py: the checkpoint of a guard, written and read back.
use moduagent.Base.{
  ℕ, ◌≡◌, refl, String, Bool, true, ◌&&◌, Option, none, some, is_some, Result, ok, raise, guard,
  passes, ◌>>◌, ◌>>=◌, leb, str_eq, if◌then◌else◌, ◌==◌, codes, is_lower_hex, length, all, bool_eq,
  not, not, arith,
}
use moduagent.Runtime.ModelGuard.Breaker.{
  Guard, Error, TripReason, model_turn_budget, no_progress, init, value_error,
}
use moduagent.Runtime.ModelGuard.Invariant.{Inv}

-- The mapping that a checkpoint holds.
pub record Saved : Type 0 where
  pub version : ℕ
  pub model_turns : ℕ
  pub no_progress_model_turns : ℕ
  pub salt : String
  pub last_observation_digest : Option String
  pub trip_reason : Option String

-- `_is_sha256_digest`
unfoldable pub is_sha256_digest : String → Bool
is_sha256_digest s = length (codes s) == 64 && all is_lower_hex (codes s)

unfoldable pub trip_name : Option TripReason → Option String
trip_name none = none
trip_name (some model_turn_budget) = some "model_turn_budget"
trip_name (some no_progress) = some "no_progress"

-- `to_state`
unfoldable pub to_state : Guard → Saved
to_state g = record {
  version = 2;
  model_turns = g.model_turns;
  no_progress_model_turns = g.no_progress_model_turns;
  salt = g.salt;
  last_observation_digest = g.last_observation_digest;
  trip_reason = trip_name g.trip_reason;
}

unfoldable pub read_reason : Option String → Result Error (Option TripReason)
read_reason none = ok none
read_reason (some name) =
    if str_eq name "model_turn_budget"
    then ok (some model_turn_budget)
    else if str_eq name "no_progress"
    then ok (some no_progress)
    else raise value_error

abbrev pub is_digest_valid : Option String → Bool
is_digest_valid none = true
is_digest_valid (some digest) = is_sha256_digest digest

-- The counts that a recorded trip requires.
abbrev pub reason_fits : Guard → Option TripReason → Bool
reason_fits g none = true
reason_fits g (some model_turn_budget) = leb g.max_model_turns g.model_turns
reason_fits g (some no_progress) = leb g.threshold g.no_progress_model_turns

abbrev pub restored : Guard → Saved → Guard
restored breaker state = record breaker {
  model_turns = state.model_turns;
  no_progress_model_turns = state.no_progress_model_turns;
  last_observation_digest = state.last_observation_digest;
  pending_state_digest = none;
  salt = state.salt;
}

check_reason : Guard → Option TripReason → Result Error Guard
check_reason g reason = do
  guard (reason_fits g reason) value_error
  ok (record g { trip_reason = reason })

restore_into : Saved → Guard → Result Error Guard
unfolding check_reason
restore_into state breaker = do
  guard (leb state.model_turns breaker.max_model_turns) value_error
  guard (leb state.no_progress_model_turns breaker.threshold) value_error
  guard (leb state.no_progress_model_turns state.model_turns) value_error
  guard (is_sha256_digest state.salt) value_error
  guard (is_digest_valid state.last_observation_digest) value_error
  guard (bool_eq (state.no_progress_model_turns == 0) (not (is_some state.last_observation_digest)))
      value_error
  read_reason state.trip_reason >>= check_reason (restored breaker state)

-- `from_state`; the fresh breaker's own salt is overwritten.
unfoldable pub from_state : (max_model_turns threshold : ℕ) → String → Saved → Result Error Guard
unfolding restore_into
from_state max_model_turns threshold salt state = do
  guard (state.version == 2) value_error
  init max_model_turns threshold salt >>= restore_into state

fresh : Guard → String → Guard
fresh g salt = record g {
  salt = salt;
  model_turns = 0;
  no_progress_model_turns = 0;
  pending_state_digest = none;
  last_observation_digest = none;
  trip_reason = none;
}

init-fresh :
    (g : Guard) (salt : String)
    → Inv g
    → init g.max_model_turns g.threshold salt ≡ ok (fresh g salt)
unfolding init fresh
init-fresh g salt i = passes (leb 1 g.max_model_turns) value_error (ground arith) (
    passes (leb 1 g.threshold) value_error (ground arith)
      (passes (leb 2 g.threshold) value_error (ground arith) refl))

read_reason-trip_name : (r : Option TripReason) → read_reason (trip_name r) ≡ ok r
unfolding read_reason trip_name
read_reason-trip_name none = refl
read_reason-trip_name (some model_turn_budget) = refl
read_reason-trip_name (some no_progress) = refl

-- A guard that keeps the bounds of its counters, with a salt and an observation that are SHA-256
-- digests, is restored from its own checkpoint under the same limits, except for the open attempt,
-- which is dropped.
pub from_state-to_state :
    (g : Guard) (salt : String)
    → Inv g
    → is_sha256_digest g.salt ≡ true
    → is_digest_valid g.last_observation_digest ≡ true
    → from_state g.max_model_turns g.threshold salt (to_state g)
      ≡ ok (record g { pending_state_digest = none })
unfolding from_state to_state fresh restore_into check_reason
from_state-to_state g salt i p q = rw (init-fresh g salt i) (
    passes (leb g.model_turns g.max_model_turns) value_error (ground arith) (
      passes (leb g.no_progress_model_turns g.threshold) value_error (ground arith) (
        passes (leb g.no_progress_model_turns g.model_turns) value_error (ground arith) (
          passes (is_sha256_digest g.salt) value_error p (
            passes (is_digest_valid g.last_observation_digest) value_error q (
              passes
                (bool_eq (g.no_progress_model_turns == 0) (not (is_some g.last_observation_digest)))
                value_error (ground arith)
                (rw (read_reason-trip_name g.trip_reason)
                  (passes (reason_fits g g.trip_reason) value_error (ground arith) refl))))))))
