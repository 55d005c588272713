-- ===== src/Decision/Execution/Merging.antt =====
-- moduagent/decision/planning.py: the plan that a replan makes keeps the committed steps.
use moduagent.Base.{
  ℕ, suc, max, ◌≡◌, refl, subst, String, Bool, true, Option, none, some, List, [], ◌∷◌, ◌++◌, map,
  ok, >>=-ok-inv, get_elem?, contains, length, Dict, keys, all_entries, arith, Bool-cases, inl, inr,
  str_eq, eq_iff, eq_refl,
}
use moduagent.Decision.Planning.Steps.{PlanStep, PlanStepStatus, Error}
use moduagent.Decision.Planning.Steps as StepCode
use moduagent.Decision.Planning.Normal.{post_init_again}
use moduagent.Decision.Planning.Reread.{NormalStep, post_init-NormalStep, NormalStep-post_init}
use moduagent.Decision.Planning.Results.{StepResult}
use moduagent.Decision.Planning.Plan.{is_closed}
use moduagent.Decision.Planning.Evolution.{closed_before}
use moduagent.Decision.Execution.State.{find_step}
use moduagent.Decision.Execution.Replan.{is_stored, stored_steps, with_attempts_of, reread}
use moduagent.Decision.Execution.Normality.{AllNormal, other_fields}

module _ (strip digest : String → String)
    (strip_again : (s : String) → strip (strip s) ≡ strip s) where
  pub reread_normal :
      (ss : List PlanStep) → AllNormal strip digest ss → reread strip digest ss ≡ ok ss
  unfolding reread AllNormal
  reread_normal [] n = refl
  reread_normal (s ∷ ss) (n, ns) =
      rw (NormalStep-post_init strip digest s n, reread_normal ss ns) refl

  pub reread-AllNormal :
      (ss ts : List PlanStep) → reread strip digest ss ≡ ok ts → AllNormal strip digest ts
  unfolding reread AllNormal
  reread-AllNormal [] [] h = tt
  reread-AllNormal [] (t ∷ ts) h = cc
  reread-AllNormal (s ∷ ss) ts h =
      let (u, eu, h1) = >>=-ok-inv (StepCode.post_init strip digest s) _ h in
      let (us, eus, h2) = >>=-ok-inv (reread strip digest ss) _ h1 in
      let same : (u ∷ us) ≡ ts = ground (arith, h2) in
      subst (AllNormal strip digest) same (
        post_init-NormalStep strip digest u (post_init_again strip digest strip_again s u eu),
        reread-AllNormal ss us eus,
      )

  pub stored-AllNormal :
      (results : Dict StepResult) (ss : List PlanStep)
      → AllNormal strip digest ss
      → AllNormal strip digest (stored_steps results ss)
  unfolding AllNormal
  stored-AllNormal results [] n = n
  stored-AllNormal results (s ∷ ss) (n, ns) = elim (Bool-cases (is_stored results s)) [
    | inl e ↦ rw e (n, stored-AllNormal results ss ns)
    | inr e ↦ rw e (stored-AllNormal results ss ns)
  ]

  pub attempts-AllNormal :
      (find : String → Option PlanStep) (ss : List PlanStep)
      → AllNormal strip digest ss
      → AllNormal strip digest (map (λ s. with_attempts_of (find s.step_id) s) ss)
  unfolding AllNormal
  attempts-AllNormal find [] n = n
  attempts-AllNormal find (s ∷ ss) (n, ns) = (one (find s.step_id), attempts-AllNormal find ss ns)
    where
      one : (o : Option PlanStep) → NormalStep strip digest (with_attempts_of o s)
      one none = n
      one (some previous) =
          other_fields strip digest s s.status (max s.attempt_count previous.attempt_count)
            s.result_ref n

  pub append-AllNormal :
      (xs ys : List PlanStep)
      → AllNormal strip digest xs
      → AllNormal strip digest ys
      → AllNormal strip digest (xs ++ ys)
  unfolding AllNormal
  append-AllNormal [] ys n m = m
  append-AllNormal (x ∷ xs) ys (n, ns) m = (n, append-AllNormal xs ys ns m)

pub entry_of :
    (p : String → StepResult → Bool) (k : String) (d : Dict StepResult)
    → all_entries p d ≡ true
    → contains k (keys d) ≡ true
    → (r : StepResult) × (p k r ≡ true)
entry_of p k [] h m = cc
entry_of p k ((j, r) ∷ d) h m = elim (Bool-cases (str_eq k j)) [
  | inl e ↦ (r, rw ((eq_iff k j).0 e) (ground arith))
  | inr e ↦ entry_of p k d (ground arith) (ground arith)
]

pub entries_by :
    (p q : String → StepResult → Bool) (d : Dict StepResult)
    → ((k : String) (r : StepResult) → contains k (keys d) ≡ true → p k r ≡ true → q k r ≡ true)
    → all_entries p d ≡ true
    → all_entries q d ≡ true
entries_by p q [] f h = refl
entries_by p q ((j, r) ∷ d) f h =
    let here = f j r (ground (arith, eq_refl j)) (ground arith) in
    let rest = entries_by p q d (λ k s m. f k s (ground arith)) (ground arith) in
    ground (arith, here, rest)

pub find_step-stored :
    (results : Dict StepResult) (k : String) (ss more : List PlanStep) (s : PlanStep)
    → contains k (keys results) ≡ true
    → find_step k ss ≡ some s
    → find_step k (stored_steps results ss ++ more) ≡ some s
find_step-stored results k [] more s m h = cc
find_step-stored results k (x ∷ xs) more s m h =
    ground (arith, find_step-stored results k xs more s m, eq_iff x.step_id k)

pub closed_before-stored :
    (results : Dict StepResult) (ss more : List PlanStep)
    → ((n : ℕ) (s : PlanStep)
        → get_elem? ss n ≡ some s
        → is_stored results s ≡ true
        → is_closed s.status ≡ true)
    → closed_before (length (stored_steps results ss)) (stored_steps results ss ++ more) ≡ true
closed_before-stored results [] more f = refl
closed_before-stored results (x ∷ xs) more f =
    let rest = closed_before-stored results xs more (λ n s g m. f (suc n) s g m) in
    elim (Bool-cases (is_stored results x)) [
      | inl e ↦ rw (e, f 0 x refl e, rest) refl
      | inr e ↦ rw e rest
    ]
