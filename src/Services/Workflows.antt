-- ===== src/Services/Workflows.antt =====
-- app/application/workflow_service.py, with the queries of
-- app/infrastructure/db/repositories/workflow_definitions.py.
use orchestract.Common.{
  ℕ, Bool, true, false, not, ◌&&◌, Option, none, some, List, ◌==◌, if◌then◌else◌, Text, text,
  text_eq, is_empty, strip, slugify, Result, ok, ◌>>=◌, ◌>>◌, raise_if, or_raise, fold_all, map,
  not_found, workflow_definition, organization, duplicate_workflow_name, integrity_error,
}
use orchestract.Session.{select_where, scalar_one_or_none}
use orchestract.Tenancy.Plans.{plan_limits, check_limit}
use orchestract.Workflow.Definition.{WorkflowStep, WorkflowTransition, WorkflowDefinition}
use orchestract.Workflow.Definition as Definition
use orchestract.Workflow.Validation as Validation
use orchestract.Services.{Store, limit_message}
use orchestract.Services.Names.{unique_copy_name}

abbrev pub is_of_organization : ℕ → WorkflowDefinition → Bool
is_of_organization organization_id d = d.organization_id == organization_id

abbrev pub has_slug : ℕ → Text → WorkflowDefinition → Bool
has_slug organization_id slug d = d.organization_id == organization_id && text_eq d.slug slug

-- clash is not None and clash.id != definition_id
abbrev pub is_other : ℕ → Option WorkflowDefinition → Bool
is_other n none = false
is_other n (some d) = elim d.id [ none ↦ true | some m ↦ not (m == n) ]

module _ {S : Type 0} (store : Store S) where
  -- WorkflowService.get
  unfoldable pub get_definition : ℕ → S → Result WorkflowDefinition
  get_definition definition_id s =
      or_raise (store.workflow_definitions.get definition_id s)
        (not_found workflow_definition definition_id)

  unfoldable pub get_by_slug : ℕ → Text → S → Result (Option WorkflowDefinition)
  get_by_slug organization_id slug s =
      scalar_one_or_none (select_where store.workflow_definitions (has_slug organization_id slug) s)

  unfoldable pub create_definition : ℕ → Text → Option Text → S → Result (WorkflowDefinition × S)
  create_definition organization_id name description s = do
    o ←
        or_raise (store.organizations.get organization_id s)
          (not_found organization organization_id)
    let limits = plan_limits o.plan
    check_limit limits.max_workflows
        (select_where store.workflow_definitions (is_of_organization organization_id) s)
        (limit_message limits limits.max_workflows (text "workflows"))
    d ← Definition.create organization_id name description
    (n, s') ← or_raise (store.workflow_definitions.add d s) integrity_error
    ok (record d { id = some n }, s')

  -- The guard of `update_details` against a name that another workflow has.
  unfoldable pub guard_slug : ℕ → WorkflowDefinition → Text → S → Result (Unit {0})
  guard_slug definition_id d trimmed s = if is_empty trimmed then ok tt else (do
    clash ← get_by_slug d.organization_id (slugify trimmed) s
    raise_if (is_other definition_id clash) (duplicate_workflow_name trimmed))

  unfoldable pub update_details : ℕ → Text → Option Text → S → Result (WorkflowDefinition × S)
  update_details definition_id name description s = do
    d ← get_definition definition_id s
    guard_slug definition_id d (strip name) s
    d' ← Definition.rename name d
    let d'' = Definition.set_description description d'
    ok (d'', store.workflow_definitions.save definition_id d'' s)

  -- WorkflowService.add_step
  unfoldable pub add_step_to : ℕ → WorkflowStep → S → Result (WorkflowDefinition × S)
  add_step_to definition_id step s = do
    d ← get_definition definition_id s
    d' ← Definition.add_step step d
    ok (d', store.workflow_definitions.save definition_id d' s)

  -- WorkflowService.add_transition
  unfoldable pub add_transition_to : ℕ → WorkflowTransition → S → Result (WorkflowDefinition × S)
  add_transition_to definition_id t s = do
    d ← get_definition definition_id s
    d' ← Definition.add_transition t d
    ok (d', store.workflow_definitions.save definition_id d' s)

  -- WorkflowService.activate
  unfoldable pub activate_definition : ℕ → S → Result (WorkflowDefinition × S)
  activate_definition definition_id s = do
    d ← get_definition definition_id s
    d' ← Validation.activate d
    ok (d', store.workflow_definitions.save definition_id d' s)

  unfoldable pub duplicate_definition : ℕ → S → Result (WorkflowDefinition × S)
  unfolding unique_copy_name
  duplicate_definition definition_id s = do
    source ← get_definition definition_id s
    let existing =
        select_where store.workflow_definitions (is_of_organization source.organization_id) s
    d ←
        Definition.create source.organization_id
          (unique_copy_name source.name (map (λ x. x.slug) existing)) source.description
    d' ← fold_all Definition.add_step source.steps d
    d'' ← fold_all Definition.add_transition source.transitions d'
    (n, s') ← or_raise (store.workflow_definitions.add d'' s) integrity_error
    ok (record d'' { id = some n }, s')

  unfoldable pub get_validation_issues : ℕ → S → Result (List Text)
  get_validation_issues definition_id s = do
    d ← get_definition definition_id s
    ok (Validation.find_validation_issues d)
