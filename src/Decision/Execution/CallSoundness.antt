-- ===== src/Decision/Execution/CallSoundness.antt =====
-- moduagent/decision/planning.py: the calls that `decide` lets through, and the retries, keep a sound
-- state sound.
use moduagent.Base.{
  ℕ, ◌+◌, ◌≡◌, refl, String, Bool, true, false, not, Option, none, some, List, [], ◌∷◌, ◌++◌, map,
  all, contains, contains-append_right, is_unique, is_empty, leb, eq_iff, eq_refl, arith, Dict,
  keys, all_entries, Bool-cases, inl, inr,
}
use moduagent.Decision.Planning.Steps.{PlanStep}
use moduagent.Decision.Planning.Results.{StepResult}
use moduagent.Decision.Execution.State.{ExecutionState, ActiveCall, current_step}
use moduagent.Decision.Execution.Calls.{
  activate, count_attempt, retry_of, retry_invalid_result, retry_validation,
}
use moduagent.Decision.Execution.CallFacts.{is_normal_call, Records}
use moduagent.Decision.Execution.Updates.{count_attempt-Rewrites}
use moduagent.Decision.Execution.Soundness.{CallsSound, Sound}
use moduagent.Decision.Execution.Preservation.{
  open_final, rewritten-Sound, fail_current_step-Sound, mark_tool_round_complete-Sound,
}

map-append_eq :
    (f : String → String) (xs ys : List String)
    → map f xs ≡ xs
    → map f ys ≡ ys
    → map f (xs ++ ys) ≡ xs ++ ys
map-append_eq f [] ys h k = k
map-append_eq f (x ∷ xs) ys h k =
    let rest : map f xs ≡ xs = ground arith in
    let first : f x ≡ x = ground arith in rw (first, map-append_eq f xs ys rest k) refl

all-append :
    (p : String → Bool) (xs ys : List String)
    → all p xs ≡ true
    → all p ys ≡ true
    → all p (xs ++ ys) ≡ true
all-append p [] ys h k = k
all-append p (x ∷ xs) ys h k = ground (arith, all-append p xs ys)

contains-append_neither :
    (z : String) (xs ys : List String)
    → contains z xs ≡ false
    → contains z ys ≡ false
    → contains z (xs ++ ys) ≡ false
contains-append_neither z [] ys h k = k
contains-append_neither z (x ∷ xs) ys h k = ground (arith, contains-append_neither z xs ys)

new_of :
    (z : String) (xs ys : List String)
    → contains z xs ≡ true
    → all (λ y. not (contains y xs)) ys ≡ true
    → contains z ys ≡ false
new_of z xs [] h a = refl
new_of z xs (y ∷ ys) h a = ground (arith, new_of z xs ys, eq_iff z y)

drop_new :
    (x : String) (xs ys : List String)
    → all (λ y. not (contains y (x ∷ xs))) ys ≡ true
    → all (λ y. not (contains y xs)) ys ≡ true
drop_new x xs [] a = refl
drop_new x xs (y ∷ ys) a = ground (arith, drop_new x xs ys)

is_unique-append :
    (xs ys : List String)
    → is_unique xs ≡ true
    → is_unique ys ≡ true
    → all (λ y. not (contains y xs)) ys ≡ true
    → is_unique (xs ++ ys) ≡ true
is_unique-append [] ys u v a = v
is_unique-append (x ∷ xs) ys u v a =
    let away = new_of x (x ∷ xs) ys (ground (arith, eq_refl x)) a in
    let apart = contains-append_neither x xs ys (ground arith) away in
    let rest = is_unique-append xs ys (ground arith) v (drop_new x xs ys a) in
    ground (arith, apart, rest)

keys-normal :
    (strip : String → String) (d : Dict ActiveCall)
    → all_entries (is_normal_call strip) d ≡ true
    → (map strip (keys d) ≡ keys d) × (all (λ k. not (is_empty k)) (keys d) ≡ true)
keys-normal strip [] h = (refl, refl)
keys-normal strip ((k, c) ∷ d) h =
    let (same, nonempty) = keys-normal strip d (ground arith) in
    let first : strip k ≡ k = (eq_iff (strip k) k).0 (ground arith) in
    (rw (first, same) refl, ground arith)

all_of :
    (p : String → Bool) (ys : List String)
    → ((y : String) → contains y ys ≡ true → p y ≡ true)
    → all p ys ≡ true
all_of p [] h = refl
all_of p (y ∷ ys) h =
    let first = h y (ground (arith, eq_refl y)) in
    let rest = all_of p ys (λ z k. h z (ground arith)) in ground (arith, first, rest)

activated :
    (strip : String → String) (active records : Dict ActiveCall) (seen : List String)
    → CallsSound strip active seen
    → Records strip seen records
    → CallsSound strip records (seen ++ keys records)
activated strip active records seen c r =
    let (same, nonempty) = keys-normal strip records r.normal in
    record {
      normal = r.normal;
      unique = r.unique;
      stripped = map-append_eq strip seen (keys records) c.stripped same;
      nonempty = all-append (λ k. not (is_empty k)) seen (keys records) c.nonempty nonempty;
      seen_unique = is_unique-append seen (keys records) c.seen_unique r.unique r.new;
      listed =
          all_of (λ y. contains y (seen ++ keys records)) (keys records)
            (λ y h. contains-append_right y seen (keys records) h);
    }

module _ (strip : String → String) (ref_of : StepResult → String) where
  pub activate-Sound :
      (st : ExecutionState) (records : Dict ActiveCall)
      → Sound strip ref_of st
      → Records strip st.seen_tool_call_ids records
      → Sound strip ref_of (activate st records).0
  unfolding activate
  activate-Sound st records s r = mark_tool_round_complete-Sound strip ref_of _ (record {
    plan = s.plan;
    id = s.id;
    committed = s.committed;
    pending = s.pending;
    final = s.final;
    fingerprints = s.fingerprints;
    calls = activated strip st.active_tool_calls records st.seen_tool_call_ids s.calls r;
  })

  retry_of-Sound :
      (max_step_attempts : ℕ) (reason : String) (awaiting : Bool) (st : ExecutionState)
      (o : Option PlanStep)
      → Sound strip ref_of st
      → Sound strip ref_of (retry_of max_step_attempts reason awaiting st o)
  unfolding retry_of
  retry_of-Sound max_step_attempts reason awaiting st none s =
      fail_current_step-Sound strip ref_of st s
  retry_of-Sound max_step_attempts reason awaiting st (some x) s =
      let t =
        rewritten-Sound strip ref_of st s (count_attempt st.plan st.current_step_id)
          (count_attempt-Rewrites ref_of st.plan s.plan.inv st.current_step_id) in
      elim (Bool-cases (leb max_step_attempts (x.attempt_count + 1))) [
        | inl e ↦ rw e (
            fail_current_step-Sound strip ref_of _ (record {
              plan = t.plan;
              id = t.id;
              committed = t.committed;
              pending = refl;
              final = t.final;
              fingerprints = t.fingerprints;
              calls = t.calls;
            }))
        | inr e ↦ rw e (record {
          plan = t.plan;
          id = t.id;
          committed = t.committed;
          pending = refl;
          final = open_final strip ref_of st s;
          fingerprints = t.fingerprints;
          calls = t.calls;
        })
      ]

  pub retry_invalid_result-Sound :
      (max_step_attempts : ℕ) (reason : String) (st : ExecutionState)
      → Sound strip ref_of st
      → Sound strip ref_of (retry_invalid_result max_step_attempts reason st)
  unfolding retry_invalid_result
  retry_invalid_result-Sound max_step_attempts reason st s =
      retry_of-Sound max_step_attempts reason st.awaiting_step_result st (current_step st) s

  pub retry_validation-Sound :
      (max_step_attempts : ℕ) (reason : String) (st : ExecutionState)
      → Sound strip ref_of st
      → Sound strip ref_of (retry_validation max_step_attempts reason st)
  unfolding retry_validation
  retry_validation-Sound max_step_attempts reason st s =
      retry_of-Sound max_step_attempts reason true st (current_step st) s
