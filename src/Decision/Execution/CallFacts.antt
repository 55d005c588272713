-- ===== src/Decision/Execution/CallFacts.antt =====
-- moduagent/decision/planning.py: the calls that a state holds are in the form its checks leave.
use moduagent.Base.{
  ◌≡◌, refl, ap, subst, ◌∙◌, String, Bool, true, false, not, ◌&&◌, ◌||◌, Option, none, some, List,
  [], ◌∷◌, ◌++◌, Result, ok, raise, guard-ok, ◌>>=◌, contains, all, is_unique, is_empty, Dict,
  insert, keys, all_entries, str_eq, eq_iff, eq_refl, arith,
}
use moduagent.Decision.Execution.State.{ActiveCall}
use moduagent.Decision.Execution.Checks.{normalized_calls, is_tool_argument_fingerprint}
use moduagent.Decision.Execution.Calls.{
  ToolCall, CallError, canonical, records_from, is_short, empty_identity, too_long, repeated_id,
}

-- A write of a new key appends.
insert-new :
    {V : Type 0}
    → (k : String) (v : V) (d : Dict V) → contains k (keys d) ≡ false
    → insert k v d ≡ d ++ ((k, v) ∷ [])
unfolding insert
insert-new k v [] h = refl
insert-new k v ((j, w) ∷ d) h = ground (arith, insert-new k v d, eq_iff j k, eq_iff k j)

append-assoc_one : {V : Type 0} → (d e : List V) (x : V) → (d ++ (x ∷ [])) ++ e ≡ d ++ (x ∷ e)
append-assoc_one [] e x = refl
append-assoc_one (y ∷ d) e x = rw (append-assoc_one d e x) refl

keys-append_one :
    {V : Type 0}
    → (d : Dict V) (k : String) (v : V) → keys (d ++ ((k, v) ∷ [])) ≡ keys d ++ (k ∷ [])
keys-append_one [] k v = refl
keys-append_one ((j, w) ∷ d) k v = rw (keys-append_one d k v) refl

append-nil : {V : Type 0} → (d : List V) → d ++ [] ≡ d
append-nil [] = refl
append-nil (x ∷ d) = rw (append-nil d) refl

contains-append_one :
    (y x : String) (xs : List String) → contains y (xs ++ (x ∷ [])) ≡ (contains y xs || str_eq y x)
contains-append_one y x [] = ground arith
contains-append_one y x (z ∷ xs) = ground (arith, contains-append_one y x xs)

all_new-append :
    (x : String) (xs ys : List String)
    → all (λ y. not (contains y xs)) ys ≡ true
    → contains x ys ≡ false
    → all (λ y. not (contains y (xs ++ (x ∷ [])))) ys ≡ true
all_new-append x xs [] h n = refl
all_new-append x xs (y ∷ ys) h n =
    ground (arith, all_new-append x xs ys, contains-append_one y x xs, eq_iff x y, eq_iff y x)

module _ (strip : String → String) where
  abbrev pub is_normal_call : String → ActiveCall → Bool
  is_normal_call call_id c =
      (not (is_empty call_id) && not (is_empty c.tool_name))
      && (is_tool_argument_fingerprint c.arguments_fingerprint
          && (str_eq (strip call_id) call_id
              && (str_eq (strip c.tool_name) c.tool_name
                  && str_eq (strip c.arguments_fingerprint) c.arguments_fingerprint)))

  normalized_calls-append :
      (acc d : Dict ActiveCall)
      → all_entries is_normal_call d ≡ true
      → is_unique (keys d) ≡ true
      → all (λ k. not (contains k (keys acc))) (keys d) ≡ true
      → normalized_calls strip acc d ≡ ok (acc ++ d)
  unfolding normalized_calls
  normalized_calls-append acc [] n u f = rw (append-nil acc) refl
  normalized_calls-append acc ((k, c) ∷ d) n u f =
      let same_id : strip k ≡ k = (eq_iff (strip k) k).0 (ground arith) in
      let same_name : strip c.tool_name ≡ c.tool_name =
        (eq_iff (strip c.tool_name) c.tool_name).0 (ground arith) in
      let same : strip c.arguments_fingerprint ≡ c.arguments_fingerprint =
        (eq_iff (strip c.arguments_fingerprint) c.arguments_fingerprint).0 (ground arith) in
      let identity : (not (is_empty k) && not (is_empty c.tool_name)) ≡ true = ground arith in
      let valid : is_tool_argument_fingerprint c.arguments_fingerprint ≡ true = ground arith in
      let new : contains k (keys acc) ≡ false = ground arith in
      let rest = normalized_calls-append (acc ++ ((k, c) ∷ [])) d (ground arith) (ground arith) (
        rw (keys-append_one acc k c)
          (all_new-append k (keys acc) (keys d) (ground arith) (ground arith))) in
      rw (same_id, same_name, same, identity, valid, insert-new k c acc new)
        (rest ∙ ap ok (append-assoc_one acc d (k, c)))

  -- Calls in normal form are what the checks of a state leave.
  pub normalized_calls-normal :
      (d : Dict ActiveCall)
      → all_entries is_normal_call d ≡ true
      → is_unique (keys d) ≡ true
      → normalized_calls strip [] d ≡ ok d
  normalized_calls-normal d n u = normalized_calls-append [] d n u (none_new (keys d))
    where
      none_new : (ks : List String) → all (λ k. not (contains k [])) ks ≡ true
      none_new [] = refl
      none_new (k ∷ ks) = none_new ks

is_unique-append_one :
    (x : String) (xs : List String)
    → is_unique xs ≡ true
    → contains x xs ≡ false
    → is_unique (xs ++ (x ∷ [])) ≡ true
is_unique-append_one x [] u n = refl
is_unique-append_one x (y ∷ ys) u n =
    ground (arith, is_unique-append_one x ys, contains-append_one y x ys, eq_iff x y, eq_iff y x)

all-append_one :
    (p : String → Bool) (x : String) (xs : List String)
    → all p xs ≡ true
    → p x ≡ true
    → all p (xs ++ (x ∷ [])) ≡ true
all-append_one p x [] a h = ground arith
all-append_one p x (y ∷ ys) a h = ground (arith, all-append_one p x ys)

all_entries-append_one :
    {V : Type 0}
    → (p : String → V → Bool) (k : String) (v : V) (d : Dict V) → all_entries p d ≡ true
    → p k v ≡ true
    → all_entries p (d ++ ((k, v) ∷ [])) ≡ true
all_entries-append_one p k v [] a h = ground arith
all_entries-append_one p k v ((j, w) ∷ d) a h = ground (arith, all_entries-append_one p k v d)

canonical-ok :
    {A : Type 0}
    → (o : Option String) (k : String → Result CallError A) (a : A) → (canonical o >>= k) ≡ ok a
    → (f : String) × (o ≡ some f) × (k f ≡ ok a)
canonical-ok none k a h = cc
canonical-ok (some f) k a h = (f, refl, h)

ok_eq :
    (x y : Dict ActiveCall) → (r : Result CallError (Dict ActiveCall)) → r ≡ ok x → r ≡ ok y → x ≡ y
ok_eq x y (ok z) h k = cc
ok_eq x y (raise e) h k = cc

-- Records of calls with new ids.
pub record Records (strip : String → String) (seen : List String) (records : Dict ActiveCall)
    : Type 0 where
  pub normal : all_entries (is_normal_call strip) records ≡ true
  pub unique : is_unique (keys records) ≡ true
  pub new : all (λ k. not (contains k seen)) (keys records) ≡ true

module _ (strip : String → String) (fingerprint : String → Option String)
    (strip_again : (s : String) → strip (strip s) ≡ strip s)
    (is_canonical : (a f : String)
      → fingerprint a ≡ some f
      → (is_tool_argument_fingerprint f ≡ true) × (strip f ≡ f)) where
  pub records_from-Records :
      (seen : List String) (records : Dict ActiveCall) (cs : List ToolCall) (done : Dict ActiveCall)
      → Records strip seen records
      → records_from strip fingerprint seen records cs ≡ ok done
      → Records strip seen done
  unfolding records_from
  records_from-Records seen records [] done r h =
      subst (Records strip seen) (ok_eq records done _ refl h) r
  records_from-Records seen records (c ∷ cs) done r h =
      let (named, h1) =
        guard-ok (not (is_empty (strip c.id)) && not (is_empty (strip c.name))) empty_identity _
          h in
      let (short, h2) = guard-ok (is_short (strip c.id) && is_short (strip c.name)) too_long _ h1 in
      let (new, h3) =
        guard-ok (not (contains (strip c.id) seen) && not (contains (strip c.id) (keys records)))
          repeated_id _ h2 in
      let (f, given, h4) = canonical-ok (fingerprint c.arguments) _ done h3 in
      let (valid, same) = is_canonical c.arguments f given in
      let call : ActiveCall = record { tool_name = strip c.name; arguments_fingerprint = f } in
      let fresh : contains (strip c.id) (keys records) ≡ false = ground arith in
      let is_normal : is_normal_call strip (strip c.id) call ≡ true =
        rw (strip_again c.id, strip_again c.name, same)
          (ground (arith, eq_refl (strip c.id), eq_refl (strip c.name), eq_refl f)) in
      records_from-Records seen (insert (strip c.id) call records) cs done
        (rw (insert-new (strip c.id) call records fresh) (record {
          normal =
              all_entries-append_one (is_normal_call strip) (strip c.id) call records r.normal
                is_normal;
          unique =
              rw (keys-append_one records (strip c.id) call)
                (is_unique-append_one (strip c.id) (keys records) r.unique fresh);
          new = rw (keys-append_one records (strip c.id) call) (
              all-append_one (λ k. not (contains k seen)) (strip c.id) (keys records) r.new
                (ground arith));
        }))
        h4
