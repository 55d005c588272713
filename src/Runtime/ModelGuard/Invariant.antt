-- ===== src/Runtime/ModelGuard/Invariant.antt =====
-- moduagent/runtime/model_guard.py: the counters stay within their bounds under every method.
use moduagent.Base.{
  ℕ, ◌+◌, ◌≤◌, ◌<◌, ◌≡◌, sym, subst, String, Option, none, some, is_some, Result, ok, raise, arith,
  List, [], ◌∷◌, leb, inl, inr, Option-cases,
}
use moduagent.Runtime.ModelGuard.Breaker.{
  Guard, Error, TripReason, model_turn_budget, no_progress, init, reset, before_model_attempt,
  observe_model_response, abandon_model_attempt, mark_progress, counted, trip_if_stuck,
}

abbrev pub open_attempts : Option String → ℕ
open_attempts none = 0
open_attempts (some digest) = 1

abbrev pub TripFits : Guard → Option TripReason → Type 0
TripFits g none = g.no_progress_model_turns < g.threshold
TripFits g (some model_turn_budget) =
    (g.max_model_turns ≤ g.model_turns) × (g.no_progress_model_turns < g.threshold)
TripFits g (some no_progress) = g.threshold ≤ g.no_progress_model_turns

pub record Inv (g : Guard) : Type 0 where
  pub turns_bounded : g.model_turns ≤ g.max_model_turns
  pub streak_bounded : g.no_progress_model_turns ≤ g.threshold
  pub streak_counted :
      g.no_progress_model_turns + open_attempts g.pending_state_digest ≤ g.model_turns
  pub digest_kept : is_some g.last_observation_digest ≡ leb 1 g.no_progress_model_turns
  pub trip_fits : TripFits g g.trip_reason
  pub budget_pos : 1 ≤ g.max_model_turns
  pub threshold_pos : 2 ≤ g.threshold

-- The calls of a guard's methods.
pub data Call : Type 0 where
  attempts observes : Result Error String → Call
  abandons progresses : Call
  resets : String → Call

module _ (hmac : String → String → String → String) where
  unfoldable pub step : Guard → Call → Guard
  step g (attempts f) = (before_model_attempt f g).0
  step g (observes f) = (observe_model_response hmac f g).0
  step g abandons = abandon_model_attempt g
  step g progresses = mark_progress g
  step g (resets salt) = reset salt g

  unfoldable pub run : Guard → List Call → Guard
  unfolding step
  run g [] = g
  run g (c ∷ cs) = run (step g c) cs

  attempts-Inv : (f : Result Error String) (g : Guard) → Inv g → Inv (before_model_attempt f g).0
  unfolding before_model_attempt
  attempts-Inv f g i = ground arith

  counted-Inv :
      (o state : String) (g : Guard)
      → Inv g
      → g.pending_state_digest ≡ some state
      → g.trip_reason ≡ none
      → Inv (trip_if_stuck (counted o g)).0
  counted-Inv o state g i p q = ground arith

  -- What an observation does in a live guard with an open attempt.
  pub observed :
      (response state : String) (g : Guard)
      → g.trip_reason ≡ none
      → g.pending_state_digest ≡ some state
      → (observe_model_response hmac (ok response) g).0
        ≡ (trip_if_stuck (counted (hmac g.salt state response) g)).0
  unfolding observe_model_response
  observed response state g p q = ground arith

  observes-Inv :
      (f : Result Error String) (g : Guard) → Inv g → Inv (observe_model_response hmac f g).0
  unfolding observe_model_response
  observes-Inv (raise e) g i = ground arith
  observes-Inv (ok response) g i = elim (Option-cases g.trip_reason) [
    | inr (r, p) ↦ ground arith
    | inl p ↦ elim (Option-cases g.pending_state_digest) [
      | inl q ↦ ground arith
      | inr (s, q) ↦
          subst Inv (sym (observed response s g p q))
            (counted-Inv (hmac g.salt s response) s g i q p)
    ]
  ]

  step-Inv : (g : Guard) (c : Call) → Inv g → Inv (step g c)
  unfolding step abandon_model_attempt mark_progress reset
  step-Inv g (attempts f) i = attempts-Inv f g i
  step-Inv g (observes f) i = observes-Inv f g i
  step-Inv g abandons i = ground arith
  step-Inv g progresses i = ground arith
  step-Inv g (resets salt) i = ground arith

  run-keeps : (g : Guard) (cs : List Call) → Inv g → Inv (run g cs)
  unfolding run
  run-keeps g [] i = i
  run-keeps g (c ∷ cs) i = run-keeps (step g c) cs (step-Inv g c i)

  -- From a new guard, any sequence of calls keeps the number of model turns within the budget, the
  -- count of equal observations within the threshold and within the completed turns, and records a
  -- trip only where its count was reached.
  pub run-Inv :
      (turns threshold : ℕ) (salt : String) (g : Guard) (cs : List Call)
      → init turns threshold salt ≡ ok g
      → Inv (run g cs)
  unfolding init
  run-Inv turns threshold salt g cs e = run-keeps g cs (ground arith)
