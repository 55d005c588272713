-- ===== src/Decision/Planning/Reread.antt =====
-- moduagent/decision/planning.py: a step in the form that `PlanStep.__post_init__` leaves.
use moduagent.Base.{
  ◌≡◌, refl, ap, ◌∙◌, String, true, not, some, List, ok, guard-ok, is_empty, arith, >>=-ok-inv,
}
use moduagent.Decision.Planning.Steps.{
  PlanStep, value_error, or_else, string_list, stripped, objective_of, step_id_of, criteria_of,
  post_init,
}

module _ (strip digest : String → String) where
  abbrev remade : PlanStep → List String → List String → List String → PlanStep
  remade s criteria dependencies tools = record s {
    description = or_else (strip s.description) (objective_of strip s);
    objective = some (objective_of strip s);
    step_id = step_id_of strip digest s;
    expected_output = stripped strip s.expected_output;
    completion_criteria = criteria;
    dependencies = dependencies;
    allowed_tools = tools;
  }

  pub record NormalStep (s : PlanStep) : Type 0 where
    pub named : not (is_empty (objective_of strip s)) ≡ true
    pub identified : not (is_empty (step_id_of strip digest s)) ≡ true
    pub criteria : string_list strip (criteria_of strip digest s) ≡ ok s.completion_criteria
    pub depends : string_list strip s.dependencies ≡ ok s.dependencies
    pub tools : string_list strip s.allowed_tools ≡ ok s.allowed_tools
    pub describes : or_else (strip s.description) (objective_of strip s) ≡ s.description
    pub aims : some (objective_of strip s) ≡ s.objective
    pub same_id : step_id_of strip digest s ≡ s.step_id
    pub outputs : stripped strip s.expected_output ≡ s.expected_output

  pub NormalStep-post_init : (s : PlanStep) → NormalStep s → post_init strip digest s ≡ ok s
  unfolding post_init
  NormalStep-post_init s n =
      rw
        (
          n.named, n.identified, n.criteria, n.depends, n.tools, n.describes, n.aims, n.same_id,
          n.outputs,
        )
        refl

  pub post_init-NormalStep : (s : PlanStep) → post_init strip digest s ≡ ok s → NormalStep s
  unfolding post_init
  post_init-NormalStep s h =
      let (named, h1) = guard-ok (not (is_empty (objective_of strip s))) value_error _ h in
      let (identified, h2) =
        guard-ok (not (is_empty (step_id_of strip digest s))) value_error _ h1 in
      let (c, ec, h3) = >>=-ok-inv (string_list strip (criteria_of strip digest s)) _ h2 in
      let (d, ed, h4) = >>=-ok-inv (string_list strip s.dependencies) _ h3 in
      let (t, et, h5) = >>=-ok-inv (string_list strip s.allowed_tools) _ h4 in
      let same : remade s c d t ≡ s = ground (arith, h5) in
      record {
        named = named;
        identified = identified;
        criteria = ec ∙ ap ok (ap (λ x. x.completion_criteria) same);
        depends = ed ∙ ap ok (ap (λ x. x.dependencies) same);
        tools = et ∙ ap ok (ap (λ x. x.allowed_tools) same);
        describes = ap (λ x. x.description) same;
        aims = ap (λ x. x.objective) same;
        same_id = ap (λ x. x.step_id) same;
        outputs = ap (λ x. x.expected_output) same;
      }
