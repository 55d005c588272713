-- ===== src/Runtime/ModelGuard/Breaker.antt =====
-- moduagent/runtime/model_guard.py: the state and the methods of `NoProgressCircuitBreaker`.
-- SHA-256 over canonical JSON and HMAC are arguments: `fingerprint` may refuse a value with a
-- TypeError, `hmac` is keyed with the run's salt. The salt is kept as its hex text.
use moduagent.Base.{
  ℕ, ◌+◌, ◌-◌, String, Option, none, some, is_some, Result, ok, raise, guard, ◌>>◌, leb, opt_eq,
  if◌then◌else◌,
}

pub data TripReason : Type 0 where
  model_turn_budget no_progress : TripReason

pub record Guard : Type 0 where
  pub max_model_turns : ℕ
  pub threshold : ℕ
  pub salt : String
  pub model_turns : ℕ
  pub no_progress_model_turns : ℕ
  pub pending_state_digest : Option String
  pub last_observation_digest : Option String
  pub trip_reason : Option TripReason

pub data Error : Type 0 where
  turn_budget_exceeded made_no_progress runtime_error type_error value_error : Error

-- `__init__`; `salt` is what `secrets.token_bytes` gives.
unfoldable pub init : (max_model_turns threshold : ℕ) → String → Result Error Guard
init max_model_turns threshold salt = do
  guard (leb 1 max_model_turns) value_error
  guard (leb 1 threshold) value_error
  guard (leb 2 threshold) value_error
  ok (record {
    max_model_turns = max_model_turns;
    threshold = threshold;
    salt = salt;
    model_turns = 0;
    no_progress_model_turns = 0;
    pending_state_digest = none;
    last_observation_digest = none;
    trip_reason = none;
  })

-- `reset`
unfoldable pub reset : String → Guard → Guard
reset salt g = record g {
  salt = salt;
  model_turns = 0;
  no_progress_model_turns = 0;
  pending_state_digest = none;
  last_observation_digest = none;
  trip_reason = none;
}

-- `_raise_if_tripped`
unfoldable pub raise_if_tripped : Option TripReason → Result Error (Unit {0})
raise_if_tripped none = ok tt
raise_if_tripped (some model_turn_budget) = raise turn_budget_exceeded
raise_if_tripped (some no_progress) = raise made_no_progress

-- A method's result with the state after it.
abbrev pub Method : Type 0
Method = Guard × Result Error (Unit {0})

reserve_turn : Guard → Result Error String → Method
reserve_turn g (raise e) = (g, raise e)
reserve_turn g (ok digest) =
    (record g { model_turns = g.model_turns + 1; pending_state_digest = some digest }, ok tt)

start_attempt : Guard → Result Error String → Result Error (Unit {0}) → Method
unfolding reserve_turn
start_attempt g fingerprint (raise e) = (g, raise e)
start_attempt g fingerprint (ok _) =
    if is_some g.pending_state_digest
    then (g, raise runtime_error)
    else if leb g.max_model_turns g.model_turns
    then (record g { trip_reason = some model_turn_budget }, raise turn_budget_exceeded)
    else reserve_turn g fingerprint

-- `before_model_attempt`, with the fingerprint of the semantic state.
unfoldable pub before_model_attempt : Result Error String → Guard → Method
unfolding start_attempt raise_if_tripped
before_model_attempt fingerprint g = start_attempt g fingerprint (raise_if_tripped g.trip_reason)

-- The two counters after an observation.
abbrev pub counted : String → Guard → Guard
counted observation g =
    if opt_eq (some observation) g.last_observation_digest
    then record g {
      pending_state_digest = none;
      no_progress_model_turns = g.no_progress_model_turns + 1;
    }
    else record g {
      pending_state_digest = none;
      last_observation_digest = some observation;
      no_progress_model_turns = 1;
    }

abbrev pub trip_if_stuck : Guard → Method
trip_if_stuck g =
    if leb g.threshold g.no_progress_model_turns
    then (record g { trip_reason = some no_progress }, raise made_no_progress)
    else (g, ok tt)

observe_digest : (String → String → String → String) → Guard → String → Result Error String → Method
observe_digest hmac g state (raise e) = (g, raise e)
observe_digest hmac g state (ok response) = trip_if_stuck (counted (hmac g.salt state response) g)

observe_pending :
    (String → String → String → String) → Guard → Result Error String → Option String → Method
unfolding observe_digest
observe_pending hmac g fingerprint none = (g, raise runtime_error)
observe_pending hmac g fingerprint (some state) = observe_digest hmac g state fingerprint

observe_if_live :
    (String → String → String → String)
    → Guard
    → Result Error String
    → Result Error (Unit {0})
    → Method
unfolding observe_pending
observe_if_live hmac g fingerprint (raise e) = (g, raise e)
observe_if_live hmac g fingerprint (ok _) =
    observe_pending hmac g fingerprint g.pending_state_digest

-- `observe_model_response`, with the fingerprint of the response.
unfoldable pub observe_model_response :
    (String → String → String → String) → Result Error String → Guard → Method
unfolding observe_if_live raise_if_tripped
observe_model_response hmac fingerprint g =
    observe_if_live hmac g fingerprint (raise_if_tripped g.trip_reason)

-- `abandon_model_attempt`
unfoldable pub abandon_model_attempt : Guard → Guard
abandon_model_attempt g = record g { pending_state_digest = none }

abbrev pub clear_no_progress : Option TripReason → Option TripReason
clear_no_progress (some no_progress) = none
clear_no_progress r = r

-- `mark_progress`
unfoldable pub mark_progress : Guard → Guard
mark_progress g = record g {
  last_observation_digest = none;
  no_progress_model_turns = 0;
  trip_reason = clear_no_progress g.trip_reason;
}

-- `ModelGuardSnapshot.remaining_model_turns`; `-` stops at 0 as `max(0, …)` does.
unfoldable pub remaining_model_turns : Guard → ℕ
remaining_model_turns g = g.max_model_turns - g.model_turns
