-- ===== src/Workflow/Presets/Materialize.antt =====
-- app/web/routes.py, _create_workflow_from_preset: the steps and transitions of a preset as the
-- arguments of add_step and add_transition. `agent_ids` is the dict of the agents of the preset.
use orchestract.Common.{ℕ, some, Text, Result, ◌>>=◌, fold_all}
use orchestract.Workflow.Definition.{
  WorkflowDefinition, WorkflowStep, WorkflowTransition, add_step, add_transition,
}
use orchestract.Workflow.Presets.{PresetStep, PresetTransition, WorkflowPreset}

abbrev pub preset_step : (Text → ℕ) → PresetStep → WorkflowStep
preset_step agent_ids s = record {
  key = s.key;
  name = s.name;
  description = some s.description;
  agent_id = agent_ids s.agent;
  is_initial = s.is_initial;
  is_terminal = s.is_terminal;
}

abbrev pub preset_transition : PresetTransition → WorkflowTransition
preset_transition t = record {
  from_step_key = t.from_key;
  to_step_key = t.to_key;
  action_name = t.action_name;
  description = t.description;
}

-- What the two loops make of one object.
unfoldable pub wire : (Text → ℕ) → WorkflowPreset → WorkflowDefinition → Result WorkflowDefinition
unfolding fold_all
wire agent_ids p d = do
  d' ← fold_all (λ (x : PresetStep). add_step (preset_step agent_ids x)) p.steps d
  fold_all (λ (t : PresetTransition). add_transition (preset_transition t)) p.transitions d'
