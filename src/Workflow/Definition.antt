-- ===== src/Workflow/Definition.antt =====
-- app/domain/workflow/models.py: the aggregate root WorkflowDefinition with its steps and
-- transitions. A method that mutates the object returns the new one; `id` is none until the row
-- is written. The columns created_at and workflow_definition_id are left out: no method reads them.
use orchestract.Common.{
  ℕ, Bool, true, false, ◌&&◌, Option, none, List, [], ◌∷◌, ◌++◌, Text, text, text_eq, is_empty,
  if◌then◌else◌, not, strip, slugify, any, filter, find, Result, ok, err, ◌>>◌, raise_if, or_raise,
  empty_workflow_name, workflow_definition_locked, unknown_step, duplicate_step_key,
  multiple_initial_steps, ambiguous_transition, workflow_validation,
}

pub data WorkflowStatus : Type 0 where
  draft active retired : WorkflowStatus

pub record WorkflowStep : Type 0 where
  pub key : Text
  pub name : Text
  pub description : Option Text
  pub agent_id : ℕ
  pub is_initial : Bool
  pub is_terminal : Bool

pub record WorkflowTransition : Type 0 where
  pub from_step_key : Text
  pub to_step_key : Text
  pub action_name : Text
  pub description : Option Text

pub record WorkflowDefinition : Type 0 where
  pub id : Option ℕ
  pub organization_id : ℕ
  pub name : Text
  pub slug : Text
  pub description : Option Text
  pub status : WorkflowStatus
  pub steps : List WorkflowStep
  pub transitions : List WorkflowTransition

abbrev pub is_draft : WorkflowStatus → Bool
is_draft draft = true
is_draft _ = false

abbrev pub is_active : WorkflowStatus → Bool
is_active active = true
is_active _ = false

-- WorkflowDefinition.create
unfoldable pub create : ℕ → Text → Option Text → Result WorkflowDefinition
create organization_id name description =
    let stripped = strip name in
    do
      raise_if (is_empty stripped) empty_workflow_name
      ok (record {
        id = none;
        organization_id = organization_id;
        name = stripped;
        slug = slugify stripped;
        description = description;
        status = draft;
        steps = [];
        transitions = [];
      })

unfoldable pub rename : Text → WorkflowDefinition → Result WorkflowDefinition
rename new_name d =
    let stripped = strip new_name in
    do
      raise_if (is_empty stripped) empty_workflow_name
      ok (record d { name = stripped; slug = slugify stripped })

unfoldable pub set_description : Option Text → WorkflowDefinition → WorkflowDefinition
set_description description d = record d { description = description }

-- _require_draft
unfoldable pub require_draft : WorkflowDefinition → Result (Unit {0})
require_draft d = if is_draft d.status then ok tt else err (workflow_definition_locked d.id)

abbrev pub has_key : Text → WorkflowStep → Bool
has_key key step = text_eq step.key key

unfoldable pub get_step : Text → WorkflowDefinition → Result WorkflowStep
get_step key d = or_raise (find (has_key key) d.steps) (unknown_step key)

unfoldable pub add_step : WorkflowStep → WorkflowDefinition → Result WorkflowDefinition
unfolding require_draft
add_step step d = do
  require_draft d
  raise_if (any (has_key step.key) d.steps) (duplicate_step_key step.key)
  raise_if (step.is_initial && any (λ s. s.is_initial) d.steps) multiple_initial_steps
  ok (record d { steps = d.steps ++ step ∷ [] })

-- t.from_step_key == from_key and t.action_name == action_name
abbrev pub is_edge : Text → Text → WorkflowTransition → Bool
is_edge from_key action_name t =
    text_eq t.from_step_key from_key && text_eq t.action_name action_name

unfoldable pub add_transition : WorkflowTransition → WorkflowDefinition → Result WorkflowDefinition
unfolding require_draft
add_transition t d = do
  require_draft d
  get_step t.from_step_key d
  get_step t.to_step_key d
  raise_if (any (is_edge t.from_step_key t.action_name) d.transitions)
      (ambiguous_transition t.from_step_key t.action_name)
  ok (record d { transitions = d.transitions ++ t ∷ [] })

unfoldable pub transitions_from : Text → WorkflowDefinition → List WorkflowTransition
transitions_from step_key d = filter (λ t. text_eq t.from_step_key step_key) d.transitions

unfoldable pub find_transition : Text → Text → WorkflowDefinition → Option WorkflowTransition
find_transition step_key action_name d =
    find (λ t. text_eq t.action_name action_name) (transitions_from step_key d)

unfoldable pub initial_step : WorkflowDefinition → Result WorkflowStep
initial_step d =
    or_raise (find (λ s. s.is_initial) d.steps)
      (workflow_validation (text "workflow has no initial step"))

unfoldable pub retire : WorkflowDefinition → Result WorkflowDefinition
retire d = do
  raise_if (not (is_active d.status)) (workflow_definition_locked d.id)
  ok (record d { status = retired })
