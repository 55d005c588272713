-- ===== src/Delegation/Receipts/Atomicity.antt =====
-- moduagent/delegation/receipts.py: `claim` and the loop of `transition`, with other clients.
use moduagent.Base.{
  ℕ, zero, suc, ◌≡◌, ◌≢◌, refl, sym, ap, subst, ◌∙◌, String, Bool, true, false, none, some, ok,
  arith, List, ◌⊎◌, inl, inr, Bool-cases, Result-cases, Option-cases, lookup, insert, lookup-insert,
  eq_refl, is_some, not,
}
use moduagent.Delegation.Receipts.Record.{Status, DelegationReceipt}
use moduagent.Delegation.Receipts.Transition.{
  Changes, keep, write, advance, changed, transition_round, is_in,
}
use moduagent.Delegation.Receipts.Life.{post_init-cases}
use moduagent.Delegation.Receipts.Store.{
  Store, ReceiptClaim, claim, compare_and_swap, transition, receipt_action, start,
}

claim-absent :
    (r : DelegationReceipt) (k : ReceiptClaim) (st st' : Store)
    → claim r st ≡ ok (k, st')
    → lookup r.delegation_id st ≡ none
    → (k.created ≡ true) × (k.receipt ≡ r) × (st' ≡ insert r.delegation_id r st)
unfolding claim
claim-absent r k st st' e h = ground arith

claim-present :
    (r c : DelegationReceipt) (k : ReceiptClaim) (st st' : Store)
    → claim r st ≡ ok (k, st')
    → lookup r.delegation_id st ≡ some c
    → (k.created ≡ false) × (k.receipt ≡ c) × (st' ≡ st)
unfolding claim
claim-present r c k st st' e h = ground arith

claim-stores :
    (r : DelegationReceipt) (k : ReceiptClaim) (st st' : Store)
    → claim r st ≡ ok (k, st')
    → (lookup r.delegation_id st' ≡ some k.receipt)
      × (k.created ≡ not (is_some (lookup r.delegation_id st)))
claim-stores r k st st' e = elim (Option-cases (lookup r.delegation_id st)) [
  | inl h ↦
      let (made, own, written) = claim-absent r k st st' e h in
      (
        rw (written, lookup-insert r.delegation_id r.delegation_id r st, eq_refl r.delegation_id)
            (ap some (sym own)),
        rw h made,
      )
  | inr (c, h) ↦
      let (made, own, same) = claim-present r c k st st' e h in
      (rw same (h ∙ ap some (sym own)), rw h made)
]

receipt_action-ne-start :
    (r : DelegationReceipt) (resumes : Bool) → receipt_action r false resumes ≢ start
unfolding receipt_action
receipt_action-ne-start r resumes e = ground arith

-- A claim that goes through is told "created" exactly when the store had no receipt under its id;
-- and a later claim of the same id gets the receipt that is there, changes nothing, and is never
-- told to start the child run.
pub claim_once :
    (r r' : DelegationReceipt) (k k' : ReceiptClaim) (st st1 st2 : Store) (resumes : Bool)
    → claim r st ≡ ok (k, st1)
    → r'.delegation_id ≡ r.delegation_id
    → claim r' st1 ≡ ok (k', st2)
    → (k.created ≡ not (is_some (lookup r.delegation_id st)))
      × (receipt_action k'.receipt k'.created resumes ≢ start)
      × (k'.receipt ≡ k.receipt)
      × (st2 ≡ st1)
claim_once r r' k k' st st1 st2 resumes e same e' =
    let (held, made) = claim-stores r k st st1 e in
    let (later, there, kept) = claim-present r' k.receipt k' st1 st2 e' (rw same held) in
    (made, rw later (receipt_action-ne-start k'.receipt resumes), there, kept)

-- A store client that keeps to compare-and-swap: a receipt of the revision that was read is the one
-- that was read.
abbrev pub IsHonest : (Store → Store) → Type 0
IsHonest f =
    (id : String) (st : Store) (r c : DelegationReceipt)
    → lookup id st ≡ some r
    → lookup id (f st) ≡ some c
    → c.revision ≡ r.revision
    → c ≡ r

-- What a call of `transition` meets: with `n` attempts left it starts on the store `start`, and some
-- attempts later `m` are left, on the store `st`. An attempt is lost only because another client has
-- changed the receipt, and the store then holds what the others wrote, and nothing of this call's.
pub data Meanwhile (others asleep : ℕ → Store → Store) (id : String)
    : ℕ → Store → ℕ → Store → Type 0 where
  entered : {n : ℕ} {st : Store} → Meanwhile others asleep id n st n st
  lost :
      {n m : ℕ} {start st : Store} (r : DelegationReceipt)
      → lookup id start ≡ some r
      → lookup id (others n start) ≢ some r
      → Meanwhile others asleep id n (asleep n (others n start)) m st
      → Meanwhile others asleep id (suc n) start m st

-- How a call of `transition` with `n` attempts on the store `start` has ended, when it returns.
pub data Done (others asleep : ℕ → Store → Store) (id : String) (expected : List Status)
    (c : Changes) (status : Status) (n : ℕ) (start : Store)
    : DelegationReceipt → Store → Type 0 where
  found :
      (m : ℕ) (st : Store) (t : DelegationReceipt)
      → Meanwhile others asleep id n start (suc m) st
      → lookup id st ≡ some t
      → transition_round expected c status t ≡ ok (keep t)
      → Done others asleep id expected c status n start t st
  wrote :
      (m : ℕ) (st : Store) (r t : DelegationReceipt)
      → Meanwhile others asleep id n start (suc m) st
      → lookup id st ≡ some r
      → lookup id (others m st) ≡ some r
      → transition_round expected c status r ≡ ok (write t)
      → Done others asleep id expected c status n start t (insert id t (others m st))

-- A swap that answers false found another receipt, or none, and leaves the store.
swap-lost :
    (id : String) (r t : DelegationReceipt) (seen st' : Store)
    → compare_and_swap id r.revision t seen ≡ ok (false, st')
    → (lookup id seen ≢ some r) × (st' ≡ seen)
unfolding compare_and_swap
swap-lost id r t seen st' e = elim (Option-cases (lookup id seen)) [
  | inl p ↦ (λ q. ground arith, ground arith)
  | inr (c, p) ↦ (λ q. ground arith, ground arith)
]

swap-inv :
    (id : String) (r t : DelegationReceipt) (st seen : Store) (f : Store → Store)
    → IsHonest f
    → lookup id st ≡ some r
    → seen ≡ f st
    → (b : Bool) (st' : Store) → compare_and_swap id r.revision t seen ≡ ok (b, st')
    → (b ≡ false) ⊎ ((lookup id seen ≡ some r) × (st' ≡ insert id t seen))
unfolding compare_and_swap
swap-inv id r t st seen f h l s b st' e = elim (Option-cases (lookup id seen)) [
  | inl p ↦ ground arith
  | inr (c, p) ↦ ground (arith, h id st r c l (subst (λ x. lookup id x ≡ some c) s p))
]

advance-ne-keep :
    (c : Changes) (status : Status) (r t : DelegationReceipt) → advance c status r ≢ ok (keep t)
unfolding advance
advance-ne-keep c status r t e = ground (arith, post_init-cases (changed c status r))

keep-same :
    (expected : List Status) (c : Changes) (status : Status) (r t : DelegationReceipt)
    → transition_round expected c status r ≡ ok (keep t)
    → t ≡ r
unfolding transition_round
keep-same expected c status r t e = elim (Bool-cases (is_in r.status expected)) [
  | inl p ↦ absurd (advance-ne-keep c status r t (ground arith))
  | inr p ↦ ground arith
]

module _ (others asleep : ℕ → Store → Store) (id : String) (expected : List Status) (c : Changes)
    (status : Status) where
  Done-eq :
      {n : ℕ} {start st st' : Store} {u t : DelegationReceipt}
      → u ≡ t
      → st ≡ st'
      → Done others asleep id expected c status n start u st
      → Done others asleep id expected c status n start t st'
  Done-eq {n} {start} {st} {st'} e f d =
      subst (λ x. Done others asleep id expected c status n start x st') e
        (subst (Done others asleep id expected c status n start _) f d)

  Done-lost :
      {n : ℕ} {t : DelegationReceipt} {start st : Store} (r : DelegationReceipt)
      → lookup id start ≡ some r
      → lookup id (others n start) ≢ some r
      → Done others asleep id expected c status n (asleep n (others n start)) t st
      → Done others asleep id expected c status (suc n) start t st
  Done-lost r p q (found m st t w l k) = found m st t (lost r p q w) l k
  Done-lost r p q (wrote m st x t w l i k) = wrote m st x t (lost r p q w) l i k

-- If the other clients keep to compare-and-swap, a call of `transition` that returns either found
-- its transition already made, and the receipt that it returns is the stored one, or has written it
-- over the very receipt that was read and is still stored at that moment. The store is exactly what the
-- others made of it, apart from that one write, and an attempt is repeated only when another client has
-- changed the receipt in between.
pub transition-Done :
    (others asleep : ℕ → Store → Store) (id : String) (expected : List Status) (c : Changes)
    (status : Status) (n : ℕ) (st st' : Store) (t : DelegationReceipt)
    → ((m : ℕ) → IsHonest (others m))
    → transition others asleep id expected c status n st ≡ (ok t, st')
    → Done others asleep id expected c status n st t st'
unfolding transition
transition-Done others asleep id expected c status zero st st' t h e = cc
transition-Done others asleep id expected c status (suc n) st st' t h e =
    elim (Option-cases (lookup id st)) [
      | inl p ↦ ground arith
      | inr (r, p) ↦ elim (Result-cases (transition_round expected c status r)) [
        | inr (x, q) ↦ ground arith
        | inl (keep u, q) ↦
            let same : u ≡ r = keep-same expected c status r u q in
            Done-eq others asleep id expected c status (ground arith) (ground arith) (
              found n st u entered (p ∙ ap some (sym same))
                (subst (λ x. transition_round expected c status x ≡ ok (keep u)) (sym same) q))
        | inl (write u, q) ↦ elim (Result-cases (compare_and_swap id r.revision u (others n st))) [
          | inr (x, w) ↦ ground arith
          | inl ((false, st1), w) ↦
              let (moved, left) = swap-lost id r u (others n st) st1 w in
              Done-lost others asleep id expected c status r p moved (
                transition-Done others asleep id expected c status n (asleep n (others n st)) st' t
                  h (ground arith))
          | inl ((true, st1), w) ↦
              elim (swap-inv id r u st (others n st) (others n) (h n) p refl true st1 w) [
                | inl never ↦ cc
                | inr (held, written) ↦
                    Done-eq others asleep id expected c status (ground arith) (ground arith)
                      (wrote n st r u entered p held q)
              ]
        ]
      ]
    ]
