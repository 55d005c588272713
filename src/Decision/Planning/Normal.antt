-- ===== src/Decision/Planning/Normal.antt =====
-- moduagent/decision/planning.py: a plan step that was made once is made again unchanged.
use moduagent.Base.{
  ◌≡◌, refl, subst, ap, ◌∙◌, String, true, not, Option, none, some, List, [], ◌∷◌, ok, passes,
  guard-ok, all, is_unique, is_empty, map, arith, >>=-ok-inv, Bool-cases, inl, inr,
}
use moduagent.Decision.Planning.Steps.{
  PlanStep, value_error, or_else, or_default, text_of, string_list, stripped, objective_of,
  step_id_of, criteria_of, post_init,
}

or_else_left : (a b : String) → not (is_empty a) ≡ true → or_else a b ≡ a
or_else_left a b h = ground arith

or_else_nonempty : (a b : String) → not (is_empty b) ≡ true → not (is_empty (or_else a b)) ≡ true
or_else_nonempty a b h = elim (Bool-cases (is_empty a)) [ inl e ↦ rw e h | inr e ↦ rw e (ap not e) ]

or_else-strip :
    (strip : String → String) (a b : String)
    → strip a ≡ a
    → strip b ≡ b
    → strip (or_else a b) ≡ or_else a b
or_else-strip strip a b p q = elim (Bool-cases (is_empty a)) [ inl e ↦ rw e q | inr e ↦ rw e p ]

module _ (strip digest : String → String)
    (strip_again : (s : String) → strip (strip s) ≡ strip s) where
  map-strip_again : (ss : List String) → map strip (map strip ss) ≡ map strip ss
  map-strip_again [] = refl
  map-strip_again (s ∷ ss) = rw (strip_again s, map-strip_again ss) refl

  pub string_list_again :
      (ss ts : List String)
      → string_list strip ss ≡ ok ts
      → (string_list strip ts ≡ ok ts) × (ts ≡ map strip ss)
  unfolding string_list
  string_list_again ss ts h =
      let (a, e) = guard-ok (all (λ s. not (is_empty s)) (map strip ss)) value_error _ h in
      let (b, e') = guard-ok (is_unique (map strip ss)) value_error _ e in
      let same : ts ≡ map strip ss = ground (arith, e') in
      (rw (same, map-strip_again ss, a, b) refl, same)

  or_default-map :
      (cs : List String) (d e : String)
      → or_default (map strip (or_default cs d)) e ≡ map strip (or_default cs d)
  or_default-map [] d e = refl
  or_default-map (c ∷ cs) d e = refl

  stripped_again : (o : Option String) → stripped strip (stripped strip o) ≡ stripped strip o
  stripped_again none = refl
  stripped_again (some s) = rw (strip_again s) refl

  -- The fields of a step that was made.
  module _ (raw : PlanStep) (criteria dependencies tools : List String)
      (named : not (is_empty (objective_of strip raw)) ≡ true)
      (identified : not (is_empty (step_id_of strip digest raw)) ≡ true) where
    abbrev made : PlanStep
    made = record raw {
      description = or_else (strip raw.description) (objective_of strip raw);
      objective = some (objective_of strip raw);
      step_id = step_id_of strip digest raw;
      expected_output = stripped strip raw.expected_output;
      completion_criteria = criteria;
      dependencies = dependencies;
      allowed_tools = tools;
    }

    objective_of-made : objective_of strip made ≡ objective_of strip raw
    objective_of-made =
        ap strip (or_else_left (objective_of strip raw) _ named)
        ∙ strip_again (or_else (text_of raw.objective) (strip raw.description))

    step_id_of-made : step_id_of strip digest made ≡ step_id_of strip digest raw
    step_id_of-made =
        ap strip (or_else_left (step_id_of strip digest raw) _ identified) ∙ strip_again _

    description-made :
        or_else (strip made.description) (objective_of strip made)
        ≡ or_else (strip raw.description) (objective_of strip raw)
    description-made =
        let same =
          or_else-strip strip (strip raw.description) (objective_of strip raw)
            (strip_again raw.description) (strip_again _) in
        rw same (
          or_else_left _ _
            (or_else_nonempty (strip raw.description) (objective_of strip raw) named))

    remade :
        string_list strip criteria ≡ ok criteria
        → criteria_of strip digest made ≡ criteria
        → string_list strip dependencies ≡ ok dependencies
        → string_list strip tools ≡ ok tools
        → post_init strip digest made ≡ ok made
    unfolding post_init
    remade c c' d t =
        passes (not (is_empty (objective_of strip made))) value_error (rw objective_of-made named) (
          passes (not (is_empty (step_id_of strip digest made))) value_error
            (rw step_id_of-made identified)
            (rw
              (
                c',
                c,
                d,
                t,
                step_id_of-made,
                description-made,
                objective_of-made,
                stripped_again raw.expected_output,
              )
              refl))

  -- Making a step from a step that was made changes nothing, where stripping twice is stripping once.
  pub post_init_again :
      (raw s : PlanStep) → post_init strip digest raw ≡ ok s → post_init strip digest s ≡ ok s
  unfolding post_init
  post_init_again raw s h =
      let (named, h1) = guard-ok (not (is_empty (objective_of strip raw))) value_error _ h in
      let (identified, h2) =
        guard-ok (not (is_empty (step_id_of strip digest raw))) value_error _ h1 in
      let (c, ec, h3) = >>=-ok-inv (string_list strip (criteria_of strip digest raw)) _ h2 in
      let (d, ed, h4) = >>=-ok-inv (string_list strip raw.dependencies) _ h3 in
      let (t, et, h5) = >>=-ok-inv (string_list strip raw.allowed_tools) _ h4 in
      let same : made raw c d t named identified ≡ s = ground (arith, h5) in
      let (c_again, c_is) = string_list_again (criteria_of strip digest raw) c ec in
      subst (λ x. post_init strip digest x ≡ ok x) same
        (remade raw c d t named identified c_again
          (rw c_is (or_default-map raw.completion_criteria _ _))
          (string_list_again raw.dependencies d ed).0 (string_list_again raw.allowed_tools t et).0)
