-- ===== src/Delegation/Budget/Usage.antt =====
-- moduagent/delegation/budget.py: the usage of a group, read one key at a time.
use moduagent.Base.{
  ℕ, ◌+◌, ◌≡◌, refl, String, false, ok, arith, [], ◌∷◌, not, is_empty, eq_iff, guard-ok, Dict,
  lookup, insert, get_or, lookup-insert, str_eq, if◌then◌else◌,
}
use moduagent.Delegation.Budget.State.{
  UsageValue, not_a_number, not_finite, negative, amount, usage_amount, normalize_entries,
  normalize_usage, value_error,
}
use moduagent.Delegation.Budget.Closing.{add_usage}

-- The amount under a key, nothing for a key that is missing.
abbrev pub charged : String → Dict ℕ → ℕ
charged k usage = get_or 0 (lookup k usage)

abbrev pub amount_of : UsageValue → ℕ
amount_of (amount n) = n
amount_of v = 0

-- The amount that a usage reports under a key: that of its last entry.
abbrev pub reported : String → Dict UsageValue → ℕ → ℕ
reported k [] n = n
reported k ((j, v) ∷ rest) n = reported k rest (if str_eq j k then amount_of v else n)

-- The sum of the entries under a key.
abbrev total : String → Dict ℕ → ℕ
total k [] = 0
total k ((j, n) ∷ rest) = (if str_eq j k then n else 0) + total k rest

total-insert_other :
    (k j : String) (n : ℕ) (d : Dict ℕ) → str_eq j k ≡ false → total k (insert j n d) ≡ total k d
unfolding insert
total-insert_other k j n [] h = ground arith
total-insert_other k j n ((i, m) ∷ d) h =
    ground (arith, eq_iff i j, eq_iff i k, total-insert_other k j n d h)

total-insert :
    (k j : String) (n : ℕ) (d : Dict ℕ)
    → total k d ≡ charged k d
    → total k (insert j n d) ≡ charged k (insert j n d)
unfolding insert lookup
total-insert k j n [] h = ground arith
total-insert k j n ((i, m) ∷ d) h =
    ground
      (arith, eq_iff i j, eq_iff i k, eq_iff j k, total-insert k j n d, total-insert_other k j n d)

charged-add_usage :
    (k : String) (a u : Dict ℕ) → charged k (add_usage a u) ≡ charged k a + total k u
unfolding add_usage
charged-add_usage k a [] = omega arith
charged-add_usage k a ((j, n) ∷ u) =
    let next = insert j (get_or 0 (lookup j a) + n) a in
    ground (
      arith,
      eq_iff j k,
      charged-add_usage k next u,
      lookup-insert j k (get_or 0 (lookup j a) + n) a,
    )

charged-normalized :
    (k : String) (usage : Dict UsageValue) (u v : Dict ℕ)
    → normalize_entries usage u ≡ ok v
    → total k u ≡ charged k u
    → (charged k v ≡ reported k usage (charged k u)) × (total k v ≡ charged k v)
unfolding normalize_entries usage_amount
charged-normalized k [] u v e h = ground arith
charged-normalized k ((j, not_a_number) ∷ rest) u v e h = ground arith
charged-normalized k ((j, not_finite) ∷ rest) u v e h = ground arith
charged-normalized k ((j, negative n) ∷ rest) u v e h = ground arith
charged-normalized k ((j, amount n) ∷ rest) u v e h =
    let (_, p) = guard-ok (not (is_empty j)) value_error _ e in
    let (same, one) = charged-normalized k rest (insert j n u) v p (total-insert k j n u h) in
    (ground (arith, lookup-insert j k n u), one)

-- The usage of a call, key by key: what the account had, and the amount reported.
pub charged-completed :
    (k : String) (usage : Dict UsageValue) (a u : Dict ℕ)
    → normalize_usage usage ≡ ok u
    → charged k (add_usage a u) ≡ charged k a + reported k usage 0
unfolding normalize_usage lookup
charged-completed k usage a u e =
    let (same, one) = charged-normalized k usage [] u e refl in
    omega (arith, charged-add_usage k a u, same, one)
