-- ===== src/Delegation/Receipts/Life.antt =====
-- moduagent/delegation/receipts.py: the life of a receipt under any sequence of transitions.
use mathlib.Core.List.{Memᴰ}
use moduagent.Base.{
  [], ◌∷◌, sym, subst, str_eq, ◌+◌, ◌≡◌, ◌≢◌, refl, ap, ◌∙◌, String, Bool, true, false, Option,
  none, some, is_some, ok, raise, arith, List, ◌⊎◌, inl, inr, Bool-cases, opt_eq, bool_eq, eq_refl,
  ◌==◌, not, ◌&&◌,
}
use moduagent.Delegation.Models.{AgentRef}
use moduagent.Delegation.Receipts.Record.{
  Status, reserved, running, completed, failed, cancelled, manual_required, value_error,
  DelegationReceipt, post_init, fields_valid, result_valid, is_open, is_manual,
}
use moduagent.Delegation.Receipts.Fields.{Updated, changed-Updated, given-attempt, given-text}
use moduagent.Delegation.Receipts.Transition.{
  Changes, keep, write, changed, advance, transition_round, is_terminal, is_in, is_restart,
  status_eq, agent_eq, is_attempt, given, is_text, holds, already_made,
}

-- A receipt that its constructor accepts.
pub record IsValid (r : DelegationReceipt) : Type 0 where
  pub fields : fields_valid r ≡ true
  pub result : result_valid r ≡ true
  pub owned : is_open r.status ≡ true → is_some r.owner_token ≡ true
  pub not_retried : is_manual r.status ≡ true → r.retryable ≡ false

pub post_init-cases :
    (r : DelegationReceipt) → (post_init r ≡ raise value_error) ⊎ ((post_init r ≡ ok r) × IsValid r)
unfolding post_init
post_init-cases r = ground arith

-- The moves of a receipt: an open receipt may be given any status, a failed one that is resumable
-- may be reserved again under the next attempt, and no other receipt moves.
pub data Move (r t : DelegationReceipt) : Type 0 where
  proceed : (r.status ≡ reserved) ⊎ (r.status ≡ running) → Move r t
  restart :
      r.status ≡ failed
      → r.resumable ≡ true
      → t.status ≡ reserved
      → t.attempt ≡ r.attempt + 1
      → is_some t.owner_token ≡ true
      → is_some t.lease_id ≡ true
      → Move r t

status_eq-eq : (a b : Status) → status_eq a b ≡ true → a ≡ b
status_eq-eq a b e = ground arith

pub record Restarted (c : Changes) (status : Status) (r : DelegationReceipt) : Type 0 where
  pub was_failed : r.status ≡ failed
  pub was_resumable : r.resumable ≡ true
  pub to_reserved : status ≡ reserved
  pub next_attempt : is_attempt (r.attempt + 1) c.attempt ≡ true
  pub new_owner : is_text c.owner_token ≡ true
  pub new_lease : is_text c.lease_id ≡ true

advance-write :
    (c : Changes) (status : Status) (r t : DelegationReceipt)
    → advance c status r ≡ ok (write t)
    → (t ≡ changed c status r) × IsValid t × ((is_terminal r.status ≡ false) ⊎ Restarted c status r)
unfolding advance
advance-write c status r t e = elim (Bool-cases (is_restart status r)) [
  | inl p ↦ (
    ground (arith, post_init-cases (changed c status r)),
    ground (arith, post_init-cases (changed c status r)),
    inr (record {
      was_failed = ground (arith, status_eq-eq r.status failed);
      was_resumable = ground arith;
      to_reserved = ground (arith, status_eq-eq status reserved);
      next_attempt = ground arith;
      new_owner = ground arith;
      new_lease = ground arith;
    }),
  )
  | inr p ↦ (
    ground (arith, post_init-cases (changed c status r)),
    ground (arith, post_init-cases (changed c status r)),
    inl (ground arith),
  )
]

Restarted-Move :
    (c : Changes) (status : Status) (r t : DelegationReceipt)
    → t ≡ changed c status r
    → Restarted c status r
    → Move r t
Restarted-Move c status r t w q =
    restart q.was_failed q.was_resumable (ground arith)
      (ap (λ x. x.attempt) w ∙ given-attempt _ r.attempt c.attempt q.next_attempt)
      (rw w (given-text c.owner_token r.owner_token q.new_owner))
      (rw w (given-text c.lease_id r.lease_id q.new_lease))

open_cases :
    (status : Status) → is_terminal status ≡ false → (status ≡ reserved) ⊎ (status ≡ running)
open_cases reserved e = inl refl
open_cases running e = inr refl
open_cases completed e = cc
open_cases failed e = cc
open_cases cancelled e = cc
open_cases manual_required e = cc

is_in-Memᴰ :
    (status : Status) (states : List Status) → is_in status states ≡ true → Memᴰ status states
is_in-Memᴰ status [] e = cc
is_in-Memᴰ status (t ∷ ts) e = elim (Bool-cases (status_eq status t)) [
  | inl same ↦ Memᴰ.head (status_eq-eq status t same)
  | inr other ↦ Memᴰ.tail (is_in-Memᴰ status ts (ground arith))
]

-- A round of `transition` that writes had an expected status, makes one of the moves, keeps the
-- delegation's id, moves the revision by one, and writes a valid receipt. Each other field is the one that
-- was given, and stays as it was when none was given.
pub transition_round-Move :
    (expected : List Status) (c : Changes) (status : Status) (r t : DelegationReceipt)
    → transition_round expected c status r ≡ ok (write t)
    → Memᴰ r.status expected × (t.status ≡ status) × Move r t × Updated c r t × IsValid t
unfolding transition_round
transition_round-Move expected c status r t e = elim (Bool-cases (is_in r.status expected)) [
  | inr p ↦ ground arith
  | inl p ↦
      let (written, valid, why) = advance-write c status r t (ground arith) in
      (
        is_in-Memᴰ r.status expected p,
        ap (λ x. x.status) written,
        elim why [
          | inl free ↦ proceed (open_cases r.status free)
          | inr q ↦ Restarted-Move c status r t written q
        ],
        subst (Updated c r) (sym written) (changed-Updated c status r),
        valid,
      )
]

-- A settled receipt: terminal, and not a failure that may be resumed.
abbrev pub is_settled : DelegationReceipt → Bool
is_settled r = is_terminal r.status && not (status_eq r.status failed && r.resumable)

-- No transition writes over a settled receipt: one whose status is terminal and that is not a
-- failure that may be resumed.
pub settled_for_good :
    (expected : List Status) (c : Changes) (status : Status) (r t : DelegationReceipt)
    → is_settled r ≡ true
    → transition_round expected c status r ≢ ok (write t)
settled_for_good expected c status r t h e =
    elim (transition_round-Move expected c status r t e).2 [
      | proceed free ↦ ground arith
      | restart a b _ _ _ _ ↦ ground arith
    ]

opt_eq_refl : (o : Option String) → opt_eq o o ≡ true
opt_eq_refl none = refl
opt_eq_refl (some s) = eq_refl s

agent_eq_refl : (a : AgentRef) → agent_eq a a ≡ true
agent_eq_refl a = simp (eq_refl a.agent_id, eq_refl a.version)

bool_eq_refl : (b : Bool) → bool_eq b b ≡ true
bool_eq_refl true = refl
bool_eq_refl false = refl

holds-given {ℓ} :
    {A : Type ℓ} (eq : A → A → Bool) (o : Option A) (a : A)
    → ((x : A) → eq x x ≡ true)
    → holds eq o (given o a) ≡ true
holds-given eq none a h = refl
holds-given eq (some x) a h = h x

already_made-changed :
    (c : Changes) (status : Status) (r : DelegationReceipt)
    → already_made c (changed c status r) ≡ true
unfolding already_made
already_made-changed c status r = simp (
  holds-given str_eq c.execution_group_id r.execution_group_id eq_refl,
  holds-given str_eq c.root_run_id r.root_run_id eq_refl,
  holds-given str_eq c.parent_run_id r.parent_run_id eq_refl,
  holds-given str_eq c.parent_tool_call_id r.parent_tool_call_id eq_refl,
  holds-given agent_eq c.caller_agent_ref r.caller_agent_ref agent_eq_refl,
  holds-given agent_eq c.callee_agent_ref r.callee_agent_ref agent_eq_refl,
  holds-given str_eq c.child_run_id r.child_run_id eq_refl,
  holds-given str_eq c.request_digest r.request_digest eq_refl,
  holds-given str_eq c.context_digest r.context_digest eq_refl,
  holds-given ◌==◌ c.attempt r.attempt (λ n. ground arith),
  holds-given opt_eq c.owner_token r.owner_token opt_eq_refl,
  holds-given opt_eq c.finish_reason r.finish_reason opt_eq_refl,
  holds-given bool_eq c.retryable r.retryable bool_eq_refl,
  holds-given bool_eq c.resumable r.resumable bool_eq_refl,
  holds-given opt_eq c.result_digest r.result_digest opt_eq_refl,
  holds-given opt_eq c.result_payload r.result_payload opt_eq_refl,
  holds-given opt_eq c.result_ref r.result_ref opt_eq_refl,
  holds-given opt_eq c.error_code r.error_code opt_eq_refl,
  holds-given opt_eq c.lease_id r.lease_id opt_eq_refl,
)

status_eq_refl : (s : Status) → status_eq s s ≡ true
status_eq_refl s = ground arith

-- A transition is idempotent: when it has been written and its target is none of the expected
-- states, repeating it on the receipt that it wrote keeps that receipt.
pub transition_again :
    (expected : List Status) (c : Changes) (status : Status) (r t : DelegationReceipt)
    → transition_round expected c status r ≡ ok (write t)
    → is_in status expected ≡ false
    → transition_round expected c status t ≡ ok (keep t)
unfolding transition_round
transition_again expected c status r t e h =
    let (written, _, _) = advance-write c status r t (ground arith) in
    rw written (rw (h, status_eq_refl status, already_made-changed c status r) refl)
