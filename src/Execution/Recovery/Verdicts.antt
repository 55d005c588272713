-- ===== src/Execution/Recovery/Verdicts.antt =====
-- moduagent/execution/planning/recovery.py: what a decision implies, on every branch of `decide`.
use moduagent.Base.{
  ℕ, ◌+◌, ◌<◌, ◌≡◌, ◌≢◌, refl, subst, zero, suc, String, Bool, true, false, not, ◌&&◌, Option, none,
  some, List, [], ◌∷◌, ok, leb, ltb, lookup, insert, if◌then◌else◌, Bool-cases, inl, inr, arith,
}
use moduagent.Execution.Recovery.State.{ToolRecoveryState, PendingFailure, Reason}
use moduagent.Execution.Recovery.Decision.{
  InternalToolFailure, ToolBatchOutcome, ToolRecoveryAction, repair_call, retry_call, replan, fail,
  ToolRecoveryControllerConfig, Fallback, to_replan, to_fail, repairs, ToolRecoveryDecision,
  Verdict, count_of, matches, replan_step, terminal, fall_back, repair, try_repair, decide_single,
  decide_batch, decide, any_failure, is_fail, is_replan, decide_failed, decide_outcome,
}

-- No repair: the calls are no longer active, and the counts stay.
pub record Stops {V : Type 0} (s : ToolRecoveryState V) (d : ToolRecoveryDecision V)
    (t : ToolRecoveryState V) : Type 0 where
  pub no_repair : d.kind ≢ repairs
  pub no_constraint : d.repair_constraint ≡ none
  pub cleared : t.active_calls ≡ []
  pub same_seen : t.seen_call_ids ≡ s.seen_call_ids
  pub same_counts : t.repair_count_by_step ≡ s.repair_count_by_step
  pub same_total : t.total_repairs ≡ s.total_repairs

module _ {V : Type 0} (config : ToolRecoveryControllerConfig) (step_id : String)
    (max_repair_attempts : ℕ) where
  -- The conditions of a repair.
  pub record IsRepairable (outcome : ToolBatchOutcome) (s : ToolRecoveryState V)
      (primary : InternalToolFailure) (requested effective : String) : Type 0 where
    pub only_failure : outcome.failures ≡ primary ∷ []
    pub no_success : outcome.success_count ≡ 0
    pub directed : primary.recovery_directive ≡ some repair_call
    pub enabled : config.allow_same_step_repair ≡ true
    pub safe : config.require_repair_safe && not primary.changed_argument_repair_safe ≡ false
    pub within_budget : count_of step_id s.repair_count_by_step < max_repair_attempts
    pub verified : matches primary (lookup primary.call_id s.active_calls) ≡ true
    pub requested_known : primary.requested_arguments_fingerprint ≡ some requested
    pub effective_known : primary.effective_arguments_fingerprint ≡ some effective

  pub data Ruling (outcome : ToolBatchOutcome) (s : ToolRecoveryState V)
      (d : ToolRecoveryDecision V) (t : ToolRecoveryState V) : Type 0 where
    stops : Stops s d t → Ruling outcome s d t
    repairs_call :
        (primary : InternalToolFailure) (requested effective : String)
        → IsRepairable outcome s primary requested effective
        → d.kind ≡ repairs
        → d.repair_attempt ≡ count_of step_id s.repair_count_by_step + 1
        → d.repair_constraint
          ≡ some (record {
            failed_call_id = primary.call_id;
            expected_tool_name = primary.tool_name;
            seen_call_ids = primary.call_id ∷ s.seen_call_ids;
            previous_requested_fingerprint = requested;
            previous_effective_fingerprint = effective;
          })
        → t.active_calls ≡ []
        → t.seen_call_ids ≡ s.seen_call_ids
        → t.repair_count_by_step
          ≡ insert step_id (count_of step_id s.repair_count_by_step + 1) s.repair_count_by_step
        → t.total_repairs ≡ s.total_repairs + 1
        → Ruling outcome s d t

-- A property of both branches, each under its test.
on_branch :
    {A : Type 0} (P : A → Type 0) (b : Bool) (x y : A)
    → (b ≡ true → P x)
    → (b ≡ false → P y)
    → P (if b then x else y)
on_branch P true x y f g = f refl
on_branch P false x y f g = g refl

module _ {V : Type 0} where
  abbrev waiting : ToolRecoveryState V → Option (PendingFailure V) → ToolRecoveryState V
  waiting s p = record s { pending_failure = p }

  terminal-Stops :
      (s : ToolRecoveryState V) (p : Option (PendingFailure V)) (view : V) (reason : Reason)
      → Stops s (terminal (waiting s p) view reason).0 (terminal (waiting s p) view reason).1
  unfolding terminal
  terminal-Stops s p view reason = ground arith

  replan_step-Stops :
      (s : ToolRecoveryState V) (p : Option (PendingFailure V)) (view : V) (reason : Reason)
      → Stops s (replan_step (waiting s p) view reason).0 (replan_step (waiting s p) view reason).1
  unfolding replan_step
  replan_step-Stops s p view reason = ground arith

  fall_back-Stops :
      (f : Fallback) (s : ToolRecoveryState V) (p : Option (PendingFailure V)) (view : V)
      (reason : Reason)
      → Stops s (fall_back f (waiting s p) view reason).0 (fall_back f (waiting s p) view reason).1
  unfolding fall_back
  fall_back-Stops to_fail s p view reason = terminal-Stops s p view reason
  fall_back-Stops to_replan s p view reason = replan_step-Stops s p view reason

module _ {V : Type 0} (config : ToolRecoveryControllerConfig) (step_id : String)
    (max_repair_attempts : ℕ) where
  abbrev Rules : ToolBatchOutcome → ToolRecoveryState V → Verdict V → Type 0
  Rules outcome s v = Ruling config step_id max_repair_attempts outcome s v.0 v.1

  fall_back-Rules :
      (outcome : ToolBatchOutcome) (s : ToolRecoveryState V) (p : Option (PendingFailure V))
      (view : V) (reason : Reason)
      → Rules outcome s (fall_back config.fallback (waiting s p) view reason)
  fall_back-Rules outcome s p view reason = stops (fall_back-Stops config.fallback s p view reason)

  repair-Rules :
      (s : ToolRecoveryState V) (p : Option (PendingFailure V)) (view : V)
      (primary : InternalToolFailure) (requested effective : Option String)
      → primary.requested_arguments_fingerprint ≡ requested
      → primary.effective_arguments_fingerprint ≡ effective
      → primary.recovery_directive ≡ some repair_call
      → config.allow_same_step_repair ≡ true
      → config.require_repair_safe && not primary.changed_argument_repair_safe ≡ false
      → count_of step_id s.repair_count_by_step < max_repair_attempts
      → matches primary (lookup primary.call_id s.active_calls) ≡ true
      → Rules
          (record { success_count = 0; failures = primary ∷ [] })
          s
          (repair config step_id max_repair_attempts (waiting s p) view primary requested effective)
  unfolding repair
  repair-Rules s p view primary none effective q e r a b c d = fall_back-Rules _ s p view _
  repair-Rules s p view primary (some requested) none q e r a b c d = fall_back-Rules _ s p view _
  repair-Rules s p view primary (some requested) (some effective) q e r a b c d =
      repairs_call primary requested effective
        (record {
          only_failure = refl;
          no_success = refl;
          directed = r;
          enabled = a;
          safe = b;
          within_budget = c;
          verified = d;
          requested_known = q;
          effective_known = e;
        })
        refl refl refl refl refl refl refl

  try_repair-Rules :
      (s : ToolRecoveryState V) (p : Option (PendingFailure V)) (view : V)
      (primary : InternalToolFailure)
      → primary.recovery_directive ≡ some repair_call
      → Rules
          (record { success_count = 0; failures = primary ∷ [] })
          s
          (try_repair config step_id max_repair_attempts (waiting s p) view primary)
  unfolding try_repair
  try_repair-Rules s p view primary r =
      on_branch (Rules _ s) (not config.allow_same_step_repair) _ _
        (λ a. fall_back-Rules _ s p view _)
        (λ a.
          on_branch (Rules _ s)
            (config.require_repair_safe && not primary.changed_argument_repair_safe) _ _
            (λ b. fall_back-Rules _ s p view _)
            (λ b.
              on_branch (Rules _ s)
                (leb max_repair_attempts (count_of step_id s.repair_count_by_step)) _ _
                (λ c. fall_back-Rules _ s p view _)
                (λ c.
                  on_branch (Rules _ s)
                    (not (matches primary (lookup primary.call_id s.active_calls))) _ _
                    (λ d. fall_back-Rules _ s p view _)
                    (λ d.
                      repair-Rules s p view primary primary.requested_arguments_fingerprint
                        primary.effective_arguments_fingerprint refl refl r (ground arith) b
                        (ground arith) (ground arith)))))

  decide_single-Rules :
      (s : ToolRecoveryState V) (p : Option (PendingFailure V)) (view : V)
      (primary : InternalToolFailure) (directive : Option ToolRecoveryAction)
      → primary.recovery_directive ≡ directive
      → Rules
          (record { success_count = 0; failures = primary ∷ [] })
          s
          (decide_single config step_id max_repair_attempts (waiting s p) view primary directive)
  unfolding decide_single
  decide_single-Rules s p view primary (some fail) r = stops (terminal-Stops s p view _)
  decide_single-Rules s p view primary (some replan) r = stops (replan_step-Stops s p view _)
  decide_single-Rules s p view primary (some retry_call) r = fall_back-Rules _ s p view _
  decide_single-Rules s p view primary none r = fall_back-Rules _ s p view _
  decide_single-Rules s p view primary (some repair_call) r = try_repair-Rules s p view primary r

  decide_batch-Rules :
      (outcome : ToolBatchOutcome) (s : ToolRecoveryState V) (p : Option (PendingFailure V))
      (view : V) (failures : List InternalToolFailure)
      → Rules outcome s
          (decide_batch config step_id max_repair_attempts (waiting s p) view failures)
  unfolding decide_batch
  decide_batch-Rules outcome s p view failures =
      on_branch (Rules outcome s) (any_failure is_fail failures) _ _
        (λ a. stops (terminal-Stops s p view _))
        (λ a.
          on_branch (Rules outcome s) (any_failure is_replan failures) _ _
            (λ b. stops (replan_step-Stops s p view _)) (λ b. fall_back-Rules outcome s p view _))

  decide_failed-Rules :
      (s : ToolRecoveryState V) (p : Option (PendingFailure V)) (view : V)
      (primary : InternalToolFailure) (rest : List InternalToolFailure)
      → Rules
          (record { success_count = 0; failures = primary ∷ rest })
          s
          (decide_failed config step_id max_repair_attempts (waiting s p) view primary rest)
  unfolding decide_failed
  decide_failed-Rules s p view primary [] =
      decide_single-Rules s p view primary primary.recovery_directive refl
  decide_failed-Rules s p view primary (second ∷ rest) =
      decide_batch-Rules _ s p view (primary ∷ second ∷ rest)

module _ {V : Type 0} (project : Bool → InternalToolFailure → V) (is_blank : String → Bool)
    (config : ToolRecoveryControllerConfig) (step_id : String) (max_repair_attempts : ℕ) where
  decide_outcome-Rules :
      (s : ToolRecoveryState V) (n : ℕ) (failures : List InternalToolFailure)
      → Rules config step_id max_repair_attempts
          (record { success_count = n; failures = failures })
          s
          (decide_outcome project is_blank config step_id max_repair_attempts s n failures)
  unfolding decide_outcome
  decide_outcome-Rules s n [] = stops (ground arith)
  decide_outcome-Rules s zero (primary ∷ rest) =
      decide_failed-Rules config step_id max_repair_attempts s _ _ primary rest
  decide_outcome-Rules s (suc n) (primary ∷ rest) =
      on_branch (Rules config step_id max_repair_attempts _ s) (ltb 0 (suc n)) _ _
        (λ a. stops (terminal-Stops s _ _ _)) (λ a. ground arith)

  -- Each decision is one of two. Either it repairs: then the batch was one call that failed, its
  -- directive and the configuration allow a repair, the step's count is below the limit, the failure
  -- names an active call with its tool and arguments, and the decision carries the constraint of that
  -- call and counts one repair of the step and in total. Or it carries no constraint and leaves the
  -- counts. After either no call is active.
  pub decide-Ruling :
      (outcome : ToolBatchOutcome) (s t : ToolRecoveryState V) (d : ToolRecoveryDecision V)
      → decide project is_blank config step_id max_repair_attempts outcome s ≡ ok (d, t)
      → Ruling config step_id max_repair_attempts outcome s d t
  unfolding decide
  decide-Ruling outcome s t d e = elim (Bool-cases (is_blank step_id)) [
    | inr a ↦
        subst (Rules config step_id max_repair_attempts outcome s) (ground arith)
          (decide_outcome-Rules s outcome.success_count outcome.failures)
    | inl a ↦ ground arith
  ]
