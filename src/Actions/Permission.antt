-- ===== src/Actions/Permission.antt =====
-- When the policy engine permits an action, and under which decision.
use ai_game.Base.{
  ◌≡◌, refl, ◌≢◌, ◌↔◌, true, false, none, some, Option, arith, text_eq, text_eq→≡, text_eq_refl,
  Bool-cases, Option-cases, inl, inr, ap, sym, ◌∙◌,
}
use ai_game.Constants.{PolicyDecision, forbidden}
use ai_game.Actions.Rules.{dict, is_forbidden_alias, contains_nested_danger}
use ai_game.Actions.Dangers.{Dangerous, contains_nested_danger_iff}
use ai_game.Actions.Policy.{
  PolicyContext, ActionDefinition, ActionInput, is_allowed_agent, is_in_scope, allows_status,
  default_result, evaluate_input, evaluate_registered, evaluate,
}

-- The validated input is in the scope of the run, both statuses are allowed, and the definition's own
-- policy is the decision.
abbrev pub Admits : PolicyContext → ActionDefinition → ActionInput → PolicyDecision → Type 0
Admits context definition input decision =
    (is_in_scope input context ≡ true)
    × (allows_status definition.allowed_campaign_statuses context.campaign_status ≡ true)
    × (allows_status definition.allowed_workflow_statuses context.workflow_status ≡ true)
    × (definition.default_policy ≡ decision)

-- The action is registered under its name, which is no forbidden one; the agent may propose it; its
-- arguments hold no danger and are valid.
abbrev pub Permits : PolicyContext → Option ActionDefinition → PolicyDecision → Type 0
Permits context found decision =
    (definition : ActionDefinition) × (input : ActionInput) × (found ≡ some definition)
    × (context.action_name ≡ definition.name)
    × (is_forbidden_alias context.action_name ≡ false)
    × (is_allowed_agent context.agent_name definition ≡ true)
    × ¬ Dangerous (dict context.arguments)
    × (definition.model_validate context.arguments ≡ some input)
    × Admits context definition input decision

default_decision :
    (definition : ActionDefinition)
    → (default_result definition).decision ≡ definition.default_policy
unfolding default_result
default_decision definition = ground arith

module _ (context : PolicyContext) (decision : PolicyDecision) (n : decision ≢ forbidden) where
  input-Admits :
      (definition : ActionDefinition) (input : ActionInput)
      → (evaluate_input context definition input).decision ≡ decision
      → Admits context definition input decision
  unfolding evaluate_input
  input-Admits definition input h = ground (arith, h, n, default_decision definition)

  admitted :
      (definition : ActionDefinition) (input : ActionInput)
      → Admits context definition input decision
      → (evaluate_input context definition input).decision ≡ decision
  unfolding evaluate_input
  admitted definition input (s, c, w, p) = ground (arith, s, c, w, p, default_decision definition)

  registered-Permits :
      (definition : ActionDefinition)
      → (evaluate_registered context definition).decision ≡ decision
      → is_forbidden_alias context.action_name ≡ false
      → context.action_name ≡ definition.name
      → Permits context (some definition) decision
  unfolding evaluate_registered
  registered-Permits definition h f e =
      elim (Option-cases (definition.model_validate context.arguments)) [
        | inl v ↦ ground (arith, h, n, v)
        | inr (input, v) ↦ (
          definition,
          input,
          refl,
          e,
          f,
          ground (arith, h, n),
          λ d. ground (arith, h, n, (contains_nested_danger_iff (dict context.arguments)).1 d),
          v,
          input-Admits definition input (ground (arith, h, n, v)),
        )
      ]

  permitted :
      (found : Option ActionDefinition)
      → (evaluate context found).decision ≡ decision
      → Permits context found decision
  unfolding evaluate
  permitted none h = ground (arith, h, n)
  permitted (some definition) h = elim (Bool-cases (is_forbidden_alias context.action_name)) [
    | inl f ↦ ground (arith, h, n, f)
    | inr f ↦ elim (Bool-cases (text_eq context.action_name definition.name)) [
      | inr e ↦ ground (arith, h, n, f, e)
      | inl e ↦
          registered-Permits definition (ground (arith, h, f, e)) f
            (text_eq→≡ context.action_name definition.name e)
    ]
  ]

  permits :
      (found : Option ActionDefinition)
      → Permits context found decision
      → (evaluate context found).decision ≡ decision
  unfolding evaluate evaluate_registered
  permits found (definition, input, r, name, alias, agent, harmless, v, a) =
      let named : text_eq context.action_name definition.name ≡ true =
        ap (text_eq context.action_name) (sym name) ∙ text_eq_refl context.action_name in
      let calm : contains_nested_danger (dict context.arguments) ≡ false =
        ground (arith, harmless, (contains_nested_danger_iff (dict context.arguments)).0) in
      ground (arith, r, named, alias, agent, calm, v, admitted definition input a)

  -- The engine decides SAFE or APPROVAL_REQUIRED exactly if the action is registered, its name is no
  -- forbidden one, the agent may propose it, no danger stands in its arguments, they are valid and in the
  -- scope of the run, the statuses of campaign and workflow are allowed, and that is the policy of the
  -- definition.
  pub evaluate_iff :
      (found : Option ActionDefinition)
      → ((evaluate context found).decision ≡ decision) ↔ Permits context found decision
  evaluate_iff found = (permitted found, permits found)
