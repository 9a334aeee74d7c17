-- ===== src/Workflow/Instance.antt =====
-- app/domain/workflow_instances/models.py: a contract's run through a workflow. `now` is the value
-- of utcnow(). The columns that are written with the row (started_at, occurred_at) are left out.
pub mod Moves
pub mod Runs
pub mod Progress
use orchestract.Common.{
  ℕ, Bool, true, false, not, Option, none, some, List, [], ◌∷◌, ◌++◌, if◌then◌else◌, Text, text,
  Result, ok, ◌>>=◌, ◌>>◌, raise_if, or_raise, inactive_workflow, workflow_already_completed,
  invalid_transition,
}
use orchestract.Workflow.Definition.{
  WorkflowStep, WorkflowTransition, WorkflowDefinition, is_active, initial_step, transitions_from,
  find_transition, get_step,
}

pub data InstanceStatus : Type 0 where
  active completed : InstanceStatus

pub record WorkflowHistoryEntry : Type 0 where
  pub from_step_key : Option Text
  pub to_step_key : Text
  pub action_name : Option Text
  pub actor : Text
  pub comment : Option Text

pub record WorkflowInstance : Type 0 where
  pub id : Option ℕ
  pub contract_id : ℕ
  pub workflow_definition_id : Option ℕ
  pub current_step_key : Text
  pub status : InstanceStatus
  pub completed_at : Option ℕ
  pub history : List WorkflowHistoryEntry

abbrev pub is_running : InstanceStatus → Bool
is_running active = true
is_running completed = false

-- WorkflowInstance.start
unfoldable pub start : ℕ → WorkflowDefinition → Text → Result WorkflowInstance
start contract_id d actor = do
  raise_if (not (is_active d.status)) (inactive_workflow d.id)
  initial ← initial_step d
  ok (record {
    id = none;
    contract_id = contract_id;
    workflow_definition_id = d.id;
    current_step_key = initial.key;
    status = active;
    completed_at = none;
    history =
        record {
          from_step_key = none;
          to_step_key = initial.key;
          action_name = none;
          actor = actor;
          comment = some (text "workflow started");
        }
        ∷ [];
  })

unfoldable pub available_actions : WorkflowDefinition → WorkflowInstance → List WorkflowTransition
available_actions d i = if is_running i.status then transitions_from i.current_step_key d else []

-- The writes of `apply_transition`, once the target step is known.
unfoldable pub arrive :
    WorkflowStep → Text → Text → Option Text → ℕ → WorkflowInstance → WorkflowInstance
arrive target action_name actor comment now i =
    let entry : WorkflowHistoryEntry = record {
      from_step_key = some i.current_step_key;
      to_step_key = target.key;
      action_name = some action_name;
      actor = actor;
      comment = comment;
    } in
    let moved = record i { history = i.history ++ entry ∷ []; current_step_key = target.key } in
    if target.is_terminal
    then record moved { status = completed; completed_at = some now }
    else moved

unfoldable pub apply_transition :
    WorkflowDefinition → Text → Text → Option Text → ℕ → WorkflowInstance → Result WorkflowInstance
apply_transition d action_name actor comment now i = do
  raise_if (not (is_running i.status)) (workflow_already_completed i.id)
  transition ←
      or_raise (find_transition i.current_step_key action_name d)
        (invalid_transition i.current_step_key action_name)
  target ← get_step transition.to_step_key d
  ok (arrive target action_name actor comment now i)
