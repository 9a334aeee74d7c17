-- ===== src/Workflow/Presets/Correct.antt =====
-- The validation of the ready-made workflows.
use mathlib.Core.List.Memᴰ
use orchestract.Common.{
  ℕ, ◌≡◌, refl, subst, Option, none, some, List, [], Memᴰ, arith, any, filter, find, Text, text_eq,
  contains, sorted_set, Result, ok, err,
}
use orchestract.Workflow.Definition.{
  WorkflowDefinition, WorkflowStatus, draft, add_step, add_transition, get_step, transitions_from,
}
use orchestract.Workflow.Validation.{
  find_validation_issues, explore, reachable_from, offer_all, offer, unreachable_keys,
}
use orchestract.Workflow.Validation.Ready.{IsReady, find_validation_issues-IsReady}
use orchestract.Workflow.Presets.{
  WorkflowPreset, workflow_presets, standard_contract, simple_approval, procurement,
}
use orchestract.Workflow.Presets.Materialize.{wire}

abbrev issues_of : Result WorkflowDefinition → Option (WorkflowStatus × List Text)
issues_of (ok d) = some (d.status, find_validation_issues d)
issues_of (err e) = none

module _ (id : Option ℕ) (org : ℕ) (name slug : Text) (description : Option Text)
    (agent_ids : Text → ℕ) where
  abbrev blank : WorkflowDefinition
  blank = record {
    id = id;
    organization_id = org;
    name = name;
    slug = slug;
    description = description;
    status = draft;
    steps = [];
    transitions = [];
  }

  standard_contract_issues : issues_of (wire agent_ids standard_contract blank) ≡ some (draft, [])
  unfolding wire add_step add_transition get_step find_validation_issues any find text_eq
      reachable_from explore offer_all offer unreachable_keys transitions_from contains filter
      sorted_set
  standard_contract_issues = refl

  simple_approval_issues : issues_of (wire agent_ids simple_approval blank) ≡ some (draft, [])
  unfolding wire add_step add_transition get_step find_validation_issues any find text_eq
      reachable_from explore offer_all offer unreachable_keys transitions_from contains filter
      sorted_set
  simple_approval_issues = refl

  procurement_issues : issues_of (wire agent_ids procurement blank) ≡ some (draft, [])
  unfolding wire add_step add_transition get_step find_validation_issues any find text_eq
      reachable_from explore offer_all offer unreachable_keys transitions_from contains filter
      sorted_set
  procurement_issues = refl

  preset_issues :
      (p : WorkflowPreset)
      → Memᴰ p workflow_presets
      → issues_of (wire agent_ids p blank) ≡ some (draft, [])
  preset_issues p (Memᴰ.head e) = rw e standard_contract_issues
  preset_issues p (Memᴰ.tail (Memᴰ.head e)) = rw e simple_approval_issues
  preset_issues p (Memᴰ.tail (Memᴰ.tail (Memᴰ.head e))) = rw e procurement_issues
  preset_issues p (Memᴰ.tail (Memᴰ.tail (Memᴰ.tail m))) = absurd (Memᴰ.not-nil m)

ready_of_issues :
    (r : Result WorkflowDefinition)
    → issues_of r ≡ some (draft, [])
    → (d : WorkflowDefinition) × (r ≡ ok d) × (d.status ≡ draft) × IsReady d
ready_of_issues (ok d) h =
    (d, refl, ground arith, (find_validation_issues-IsReady d).0 (ground arith))
ready_of_issues (err e) h = absurd (ground arith)

-- Whatever ids the agents have, a blank draft becomes one that is ready for activation.
pub wire-IsReady :
    (p : WorkflowPreset) (d : WorkflowDefinition) (agent_ids : Text → ℕ)
    → Memᴰ p workflow_presets
    → d.status ≡ draft
    → d.steps ≡ []
    → d.transitions ≡ []
    → (d' : WorkflowDefinition) × (wire agent_ids p d ≡ ok d') × (d'.status ≡ draft) × IsReady d'
wire-IsReady p d agent_ids m e f g =
    let b = blank d.id d.organization_id d.name d.slug d.description agent_ids in
    let same : b ≡ d = ground (arith, e, f, g) in
    subst
      (λ x.
        (d' : WorkflowDefinition) × (wire agent_ids p x ≡ ok d') × (d'.status ≡ draft) × IsReady d')
      same
      (ready_of_issues (wire agent_ids p b)
        (preset_issues d.id d.organization_id d.name d.slug d.description agent_ids p m))
