-- ===== src/Execution/Recovery/Repairs.antt =====
-- moduagent/execution/planning/recovery.py: the repairs that a controller orders over a sequence of
-- recorded calls and decisions, counted one by one.
use moduagent.Base.{
  ℕ, ◌+◌, ◌≡◌, ◌≢◌, refl, String, Bool, true, List, [], ◌∷◌, Result, ok, raise, lookup-insert,
  eq_iff, str_eq, Result-cases, inl, inr, arith, if◌then◌else◌,
}
use moduagent.Execution.Recovery.State.{ToolRecoveryState, Error, add_calls, record_requested_calls}
use moduagent.Execution.Recovery.Decision.{
  InternalToolFailure, ToolRecoveryControllerConfig, Verdict, Kind, continues, repairs, replans,
  fails, count_of, decide,
}
use moduagent.Execution.Recovery.Verdicts.{stops, repairs_call, decide-Ruling}
use moduagent.Execution.Recovery.Bounds.{Request, records, decides, step, run}

-- Is a decision of this kind a repair?
abbrev one_repair : Kind → ℕ
one_repair continues = 0
one_repair repairs = 1
one_repair replans = 0
one_repair fails = 0

abbrev ordered_by : {V : Type 0} → Result Error (Verdict V) → ℕ
ordered_by (raise e) = 0
ordered_by (ok (d, t)) = one_repair d.kind

no_repair-zero : (k : Kind) → k ≢ repairs → one_repair k ≡ 0
no_repair-zero continues h = refl
no_repair-zero repairs h = absurd (h refl)
no_repair-zero replans h = refl
no_repair-zero fails h = refl

module _ {V : Type 0} (project : Bool → InternalToolFailure → V) (is_blank : String → Bool)
    (config : ToolRecoveryControllerConfig) (limit : String → ℕ) where
  -- The repairs that one request orders for the steps that `among` picks.
  unfoldable pub ordered : (String → Bool) → ToolRecoveryState V → Request → ℕ
  ordered among s (records calls) = 0
  ordered among s (decides step_id outcome) =
      if among step_id
      then ordered_by (decide project is_blank config step_id (limit step_id) outcome s)
      else 0

  -- The repairs that a sequence of requests orders for those steps.
  unfoldable pub repair_count : (String → Bool) → ToolRecoveryState V → List Request → ℕ
  repair_count among s [] = 0
  repair_count among s (r ∷ rs) =
      let rest = repair_count among (step project is_blank config limit s r) rs in
      ordered among s r + rest

  abbrev pub Counted : String → ToolRecoveryState V → ToolRecoveryState V → ℕ → ℕ → Type 0
  Counted k s t one all =
      (count_of k t.repair_count_by_step ≡ count_of k s.repair_count_by_step + one)
      × (t.total_repairs ≡ s.total_repairs + all)

  step-Counted :
      (k : String) (s : ToolRecoveryState V) (r : Request)
      → Counted k s
          (step project is_blank config limit s r)
          (ordered (λ j. str_eq j k) s r)
          (ordered (λ j. true) s r)
  unfolding step ordered record_requested_calls
  step-Counted k s (records calls) = elim (Result-cases (add_calls s.seen_call_ids calls [])) [
    | inl (found, e) ↦ rw e (omega arith, omega arith)
    | inr (x, e) ↦ rw e (omega arith, omega arith)
  ]
  step-Counted k s (decides step_id outcome) =
      elim (Result-cases (decide project is_blank config step_id (limit step_id) outcome s)) [
        | inr (x, e) ↦ ground arith
        | inl ((d, t), e) ↦
            elim (decide-Ruling project is_blank config step_id (limit step_id) outcome s t d e) [
              | stops x ↦
                  ground (arith, no_repair-zero d.kind x.no_repair, x.same_counts, x.same_total)
              | repairs_call primary q f able kind _ _ _ _ counts total ↦
                  let n = count_of step_id s.repair_count_by_step in
                  ground (
                    arith,
                    eq_iff step_id k,
                    lookup-insert step_id k (n + 1) s.repair_count_by_step,
                  )
            ]
      ]

  pub run-Counted :
      (k : String) (s : ToolRecoveryState V) (rs : List Request)
      → Counted k s
          (run project is_blank config limit s rs)
          (repair_count (λ j. str_eq j k) s rs)
          (repair_count (λ j. true) s rs)
  unfolding run repair_count
  run-Counted k s [] = (omega arith, omega arith)
  run-Counted k s (r ∷ rs) =
      let (one, all) = step-Counted k s r in
      let (one', all') = run-Counted k (step project is_blank config limit s r) rs in
      (omega (arith, one, one'), omega (arith, all, all'))
