-- ===== src/Services/Actions.antt =====
-- The actions that a contract is shown, and those it can take.
use orchestract.Common.{
  ℕ, ◌≡◌, subst, ◌↔◌, inl, inr, true, Option, List, arith, any, Text, text_eq, ok, Result-cases,
}
use orchestract.Workflow.Definition.{WorkflowTransition}
use orchestract.Workflow.Lifecycle.{Built-IsSound}
use orchestract.Workflow.Instance.{WorkflowInstance, available_actions, apply_transition}
use orchestract.Workflow.Instance.Moves.{apply_transition-available}
use orchestract.Services.{Store}
use orchestract.Services.Workflows.{get_definition}
use orchestract.Services.Contracts.{
  get_instance, definition_of, actions_of_contract, transition_contract,
}
use orchestract.Services.Consistency.{IsLawfulStore, IsLinked, IsConsistent}
use orchestract.Services.Moves.{get_instance-mem}

module _ {S : Type 0} (store : Store S) (laws : IsLawfulStore store) where
  definition_of-found :
      (s : S) (i : WorkflowInstance) (l : IsLinked store s i)
      → definition_of store i s ≡ ok l.definition
  unfolding definition_of get_definition
  definition_of-found s i l = ground (arith, l.link_stored, l.found)

  -- In a consistent state of tables that obey their laws, a contract with an instance can be moved
  -- by an action exactly if that action is among those that `available_actions` returns for it.
  pub transition_contract-available :
      (contract_id : ℕ) (a actor : Text) (comment : Option Text) (now : ℕ) (s : S)
      (i : WorkflowInstance)
      → IsConsistent store s
      → get_instance store contract_id s ≡ ok i
      → ((r : WorkflowInstance × S) × (transition_contract store contract_id a actor comment now s
            ≡ ok r))
        ↔ ((ts : List WorkflowTransition) × (actions_of_contract store contract_id s ≡ ok ts)
            × (any (λ t. text_eq t.action_name a) ts ≡ true))
  unfolding transition_contract actions_of_contract
  transition_contract-available contract_id a actor comment now s i v e =
      let m = get_instance-mem store laws contract_id s i e in
      let (k, ki, kg) = laws.instances.rows-get s i m in
      let l = v.linked i m in
      let d = l.definition in
      let f = definition_of-found s i l in
      let well_formed = (Built-IsSound (v.built l.link d l.found)).well_formed in
      let (only, full) = apply_transition-available d a actor comment now i well_formed in
      let shown : actions_of_contract store contract_id s ≡ ok (available_actions d i) =
        ground arith in
      (
        λ (r, h). elim (Result-cases (apply_transition d a actor comment now i)) [
          | inl (i', g) ↦ (available_actions d i, shown, only (i', g))
          | inr (x, g) ↦ absurd (ground arith)
        ],
        λ (ts, q, p).
            let same : ts ≡ available_actions d i = ground arith in
            let (i', g) = full (subst (λ x. any (λ t. text_eq t.action_name a) x ≡ true) same p) in
            ((i', store.workflow_instances.save k i' s), ground arith),
      )
