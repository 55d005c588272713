-- ===== src/Runtime/ModelGuard/Streak.antt =====
-- moduagent/runtime/model_guard.py: the no-progress trip against a history of observations.
use moduagent.Base.{
  ℕ, ◌+◌, ◌≤◌, ◌≡◌, ◌↔◌, refl, subst, ◌∙◌, String, Option, none, some, ok, raise, arith, List, [],
  ◌∷◌, str_eq, inl, inr, Option-cases, if◌then◌else◌, eq_iff,
}
use moduagent.Runtime.ModelGuard.Breaker.{
  Guard, TripReason, no_progress, init, reset, before_model_attempt, observe_model_response,
  abandon_model_attempt, mark_progress, counted, trip_if_stuck,
}
use moduagent.Runtime.ModelGuard.Invariant.{
  Call, attempts, observes, abandons, progresses, resets, step, run, Inv, run-Inv,
}

-- How many observations at the front of a history, newest first, are equal.
pub streak : List String → ℕ
streak [] = 0
streak (o ∷ []) = 1
streak (o ∷ p ∷ h) = if str_eq o p then streak (p ∷ h) + 1 else 1

newest : List String → Option String
newest [] = none
newest (o ∷ h) = some o

module _ (hmac : String → String → String → String) where
  completed : Option TripReason → Option String → String → String → List String → List String
  completed none (some state) salt response h = hmac salt state response ∷ h
  completed _ _ salt response h = h

  -- The observations since the last progress or reset: a response counts if the guard is live and an
  -- attempt is open.
  observed_by : Guard → Call → List String → List String
  unfolding completed
  observed_by g (attempts f) h = h
  observed_by g (observes (ok response)) h =
      completed g.trip_reason g.pending_state_digest g.salt response h
  observed_by g (observes (raise e)) h = h
  observed_by g abandons h = h
  observed_by g progresses h = []
  observed_by g (resets salt) h = []

  pub history : Guard → List Call → List String → List String
  history g [] h = h
  history g (c ∷ cs) h = history (step hmac g c) cs (observed_by g c h)

  record Tracks (h : List String) (g : Guard) : Type 0 where
    counts : g.no_progress_model_turns ≡ streak h
    keeps : g.last_observation_digest ≡ newest h

  counted-Tracks :
      (o : String) (h : List String) (g : Guard)
      → Tracks h g
      → Tracks (o ∷ h) (trip_if_stuck (counted o g)).0
  unfolding streak newest
  counted-Tracks o [] g t = ground arith
  counted-Tracks o (p ∷ h) g t = ground (arith, eq_iff o p)

  Step : (response : String) (h : List String) (g : Guard) → Type 0
  Step response h g =
      Tracks (completed g.trip_reason g.pending_state_digest g.salt response h)
        (observe_model_response hmac (ok response) g).0

  observes-Tracks :
      (response : String) (h : List String) (g : Guard) → Tracks h g → Step response h g
  unfolding Step completed observe_model_response
  observes-Tracks response h g t = elim (Option-cases g.trip_reason) [
    | inr (r, p) ↦ rw p (ground arith)
    | inl p ↦ elim (Option-cases g.pending_state_digest) [
      | inl q ↦ rw p (rw q (ground arith))
      | inr (s, q) ↦ rw p (
          rw q (
            counted-Tracks (hmac g.salt s response) h
              (record g { pending_state_digest = some s; trip_reason = none }) (ground arith)))
    ]
  ]

  step-Tracks :
      (c : Call) (h : List String) (g : Guard)
      → Tracks h g
      → Tracks (observed_by g c h) (step hmac g c)
  unfolding observed_by completed step Step before_model_attempt observe_model_response
      abandon_model_attempt mark_progress reset streak newest
  step-Tracks (attempts f) h g t = ground arith
  step-Tracks (observes (ok response)) h g t = observes-Tracks response h g t
  step-Tracks (observes (raise e)) h g t = ground arith
  step-Tracks abandons h g t = ground arith
  step-Tracks progresses h g t = ground arith
  step-Tracks (resets salt) h g t = ground arith

  run-Tracks :
      (cs : List Call) (h : List String) (g : Guard)
      → Tracks h g
      → Tracks (history g cs h) (run hmac g cs)
  unfolding history run
  run-Tracks [] h g t = t
  run-Tracks (c ∷ cs) h g t =
      run-Tracks cs (observed_by g c h) (step hmac g c) (step-Tracks c h g t)

  step-threshold : (g : Guard) (c : Call) → (step hmac g c).threshold ≡ g.threshold
  unfolding step before_model_attempt observe_model_response abandon_model_attempt mark_progress
      reset
  step-threshold g (attempts f) = ground arith
  step-threshold g (observes (raise e)) = ground arith
  step-threshold g (observes (ok response)) = ground arith
  step-threshold g abandons = refl
  step-threshold g progresses = refl
  step-threshold g (resets salt) = refl

  run-threshold : (g : Guard) (cs : List Call) → (run hmac g cs).threshold ≡ g.threshold
  unfolding run
  run-threshold g [] = refl
  run-threshold g (c ∷ cs) = run-threshold (step hmac g c) cs ∙ step-threshold g c

  tripped :
      (g : Guard) (n : ℕ)
      → Inv g
      → g.no_progress_model_turns ≡ n
      → (g.trip_reason ≡ some no_progress) ↔ (g.threshold ≤ n)
  tripped g n i e = ground arith

  -- A guard that was made with a threshold and called in any way has recorded the no-progress trip
  -- exactly when the newest observations that are equal to each other, among those made since the
  -- last progress or reset, number the threshold or more.
  pub trips_on_streak :
      (turns threshold : ℕ) (salt : String) (g : Guard) (cs : List Call)
      → init turns threshold salt ≡ ok g
      → ((run hmac g cs).trip_reason ≡ some no_progress) ↔ (threshold ≤ streak (history g cs []))
  unfolding init streak newest
  trips_on_streak turns threshold salt g cs e =
      subst (λ k. ((run hmac g cs).trip_reason ≡ some no_progress) ↔ (k ≤ streak (history g cs [])))
        (run-threshold g cs ∙ made)
        (tripped (run hmac g cs) (streak (history g cs []))
          (run-Inv hmac turns threshold salt g cs e) (run-Tracks cs [] g (ground arith)).counts)
    where
      made : g.threshold ≡ threshold
      made = ground arith
