-- ===== src/Services/Contracts.antt =====
-- app/application/contract_service.py and permissions.py, with the queries of
-- app/infrastructure/db/repositories/contracts.py and workflow_instances.py.
use orchestract.Common.{
  ℕ, Bool, not, Option, none, some, List, [], ◌∷◌, ◌==◌, Text, text, Result, ok, err, ◌>>=◌, ◌>>◌,
  raise_if, or_raise, not_found, contract, workflow_instance, organization, integrity_error,
  permission_denied,
}
use orchestract.Session.{select_where}
use orchestract.Tenancy.Plans.{plan_limits, check_limit}
use orchestract.Workflow.Definition.{WorkflowTransition, WorkflowDefinition, get_step}
use orchestract.Workflow.Instance.{WorkflowInstance, apply_transition}
use orchestract.Workflow.Instance as Instance
use orchestract.Users.Permissions.{may_act}
use orchestract.Documents.{Contract, set_contract_summary}
use orchestract.Documents as Documents
use orchestract.Services.{Store, limit_message}
use orchestract.Services.Workflows.{get_definition}

abbrev pub belongs_to : ℕ → Contract → Bool
belongs_to organization_id c = c.organization_id == organization_id

abbrev pub runs_for : ℕ → WorkflowInstance → Bool
runs_for contract_id i = i.contract_id == contract_id

-- scalars().first()
abbrev pub first {ℓ} : {A : Type ℓ} → List A → Option A
first [] = none
first (a ∷ _) = some a

module _ {S : Type 0} (store : Store S) where
  -- ContractService.get
  unfoldable pub get_contract : ℕ → S → Result Contract
  get_contract contract_id s =
      or_raise (store.contracts.get contract_id s) (not_found contract contract_id)

  -- ContractService.create_contract
  unfoldable pub start_contract :
      ℕ → Text → Text → ℕ → Text → Option Text → ℕ → S → Result (Contract × S)
  unfolding get_definition
  start_contract organization_id title contract_type workflow_definition_id actor description now
        s =
      do
        o ←
            or_raise (store.organizations.get organization_id s)
              (not_found organization organization_id)
        let limits = plan_limits o.plan
        check_limit limits.max_contracts
            (select_where store.contracts (belongs_to organization_id) s)
            (limit_message limits limits.max_contracts (text "contracts"))
        definition ← get_definition store workflow_definition_id s
        c ← Documents.create_contract organization_id title contract_type description
        c' ← Documents.add_document (text "Main Document") now c
        (n, s') ← or_raise (store.contracts.add c' s) integrity_error
        i ← Instance.start n definition actor
        (_, s'') ← or_raise (store.workflow_instances.add i s') integrity_error
        ok (record c' { id = some n }, s'')

  unfoldable pub set_summary : ℕ → Text → ℕ → S → Result (Contract × S)
  set_summary contract_id summary now s = do
    c ← get_contract contract_id s
    let c' = set_contract_summary summary now c
    ok (c', store.contracts.save contract_id c' s)

  -- ContractService.add_document
  unfoldable pub add_document_to : ℕ → Text → ℕ → S → Result (Contract × S)
  add_document_to contract_id name now s = do
    c ← get_contract contract_id s
    c' ← Documents.add_document name now c
    ok (c', store.contracts.save contract_id c' s)

  unfoldable pub get_for_contract : ℕ → S → Option WorkflowInstance
  get_for_contract contract_id s =
      first (store.newest_first (select_where store.workflow_instances (runs_for contract_id) s))

  unfoldable pub get_instance : ℕ → S → Result WorkflowInstance
  unfolding get_for_contract
  get_instance contract_id s =
      or_raise (get_for_contract contract_id s) (not_found workflow_instance contract_id)

  -- The column is not null, so a stored instance has the id of a definition.
  unfoldable pub definition_of : WorkflowInstance → S → Result WorkflowDefinition
  unfolding get_definition
  definition_of i s = elim i.workflow_definition_id [
    | none ↦ err integrity_error
    | some n ↦ get_definition store n s
  ]

  -- ContractService.available_actions
  unfoldable pub actions_of_contract : ℕ → S → Result (List WorkflowTransition)
  actions_of_contract contract_id s = do
    i ← get_instance contract_id s
    definition ← definition_of i s
    ok (Instance.available_actions definition i)

  unfoldable pub transition_contract :
      ℕ → Text → Text → Option Text → ℕ → S → Result (WorkflowInstance × S)
  transition_contract contract_id action_name actor comment now s = do
    i ← get_instance contract_id s
    definition ← definition_of i s
    i' ← apply_transition definition action_name actor comment now i
    n ← or_raise i.id integrity_error
    ok (i', store.workflow_instances.save n i' s)

  unfoldable pub assert_can_edit_contract_step : ℕ → ℕ → S → Result (Unit {0})
  assert_can_edit_contract_step contract_id user_role_id s = do
    i ← get_instance contract_id s
    definition ← definition_of i s
    step ← get_step i.current_step_key definition
    raise_if (not (may_act user_role_id step.agent_id (store.roles.rows s))) permission_denied
