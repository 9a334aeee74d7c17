-- ===== src/Workflow/Examples.antt =====
-- Runs of the workflow engine on small workflows.
use mathlib.Core.List.Memᴰ
use orchestract.Common.{
  ◌+◌, ◌≡◌, refl, ◌↔◌, true, false, none, some, List, [], ◌∷◌, ◌++◌, Memᴰ, length, any, filter,
  find, Text, text, text_eq, strip, slugify, contains, sorted_set, ok,
}
use orchestract.Workflow.Definition.{
  WorkflowStep, WorkflowTransition, WorkflowDefinition, draft, create, add_step, add_transition,
  initial_step, transitions_from, find_transition, get_step, has_key, is_edge,
}
use orchestract.Workflow.Definition as Definition
use orchestract.Workflow.Validation.{
  explore, offer_all, offer, reachable_from, unreachable_keys, start_at, find_validation_issues,
  validate_workflow_graph, activate,
}
use orchestract.Workflow.Validation.Reachability.{Reach, here, step}
use orchestract.Workflow.Validation.Rounds.{search_ends, reachable_from_correct}
use orchestract.Workflow.Validation.Ready.{IsReady, find_validation_issues-IsReady, activate-ok}
use orchestract.Workflow.Invariant.{has_step, add_transition-ok}
use orchestract.Workflow.Lifecycle.{
  Built, created, step_added, transition_added, activated, IsSound, Built-IsSound,
}
use orchestract.Workflow.Instance.{
  WorkflowInstance, active, completed, start, available_actions, arrive, apply_transition,
}
use orchestract.Workflow.Instance.Moves.{Moved, apply_transition-Moved, apply_transition-available}
use orchestract.Workflow.Instance.Runs.{Run, begun, moved, IsTracked, Run-IsTracked, Run-no_exit}
use orchestract.Workflow.Instance.Progress.{perform, can_complete}

abbrev drafting : WorkflowStep
drafting = record {
  key = text "drafting";
  name = text "Drafting";
  description = none;
  agent_id = 1;
  is_initial = true;
  is_terminal = false;
}

abbrev signed : WorkflowStep
signed = record {
  key = text "signed";
  name = text "Signed";
  description = none;
  agent_id = 2;
  is_initial = false;
  is_terminal = true;
}

abbrev sign : WorkflowTransition
sign = record {
  from_step_key = text "drafting";
  to_step_key = text "signed";
  action_name = text "sign";
  description = none;
}

abbrev in_draft : WorkflowDefinition
in_draft = record {
  id = none;
  organization_id = 1;
  name = text "Review";
  slug = text "review";
  description = none;
  status = draft;
  steps = drafting ∷ signed ∷ [];
  transitions = sign ∷ [];
}

abbrev blank : WorkflowDefinition
blank = record in_draft { steps = []; transitions = [] }

-- Two steps and nothing between them.
abbrev unwired : WorkflowDefinition
unwired = record in_draft { transitions = [] }

abbrev review : WorkflowDefinition
review = record in_draft { status = Definition.active }

review-Built : Built review
unfolding create add_step add_transition get_step activate find_validation_issues
    validate_workflow_graph any find text_eq reachable_from explore offer_all offer unreachable_keys
    transitions_from contains filter sorted_set strip slugify
review-Built =
    activated {d = in_draft}
      (transition_added {d' = in_draft} sign
        (step_added {d' = unwired} signed
          (step_added {d' = record blank { steps = drafting ∷ [] }} drafting
            (created 1 (text " Review") none {d = blank} refl) refl)
          refl)
        refl)
      refl

search_ends_example :
    (explore (length review.transitions + 1) review (start_at (text "drafting"))).frontier ≡ []
search_ends_example = search_ends review (text "drafting")

reachable_from_correct_example :
    (contains (text "signed") (reachable_from review (text "drafting")) ≡ true)
    ↔ Reach review (text "drafting") (text "signed")
reachable_from_correct_example = reachable_from_correct review (text "drafting") (text "signed")

find_validation_issues-IsReady_example : (find_validation_issues review ≡ []) ↔ IsReady review
find_validation_issues-IsReady_example = find_validation_issues-IsReady review

activate-ok_example : (activate in_draft ≡ ok review) ↔ (
    (in_draft.status ≡ draft)
    × IsReady in_draft
    × (review ≡ record in_draft { status = Definition.active }))
activate-ok_example = activate-ok in_draft review

Built-IsSound_example : IsSound review
Built-IsSound_example = Built-IsSound review-Built

-- An instance on the first step, and the same after the signature.
abbrev opened : WorkflowInstance
opened = record {
  id = none;
  contract_id = 7;
  workflow_definition_id = none;
  current_step_key = text "drafting";
  status = active;
  completed_at = none;
  history =
      record {
        from_step_key = none;
        to_step_key = text "drafting";
        action_name = none;
        actor = text "eva";
        comment = some (text "workflow started");
      }
      ∷ [];
}

abbrev closed : WorkflowInstance
closed = record opened {
  current_step_key = text "signed";
  status = completed;
  completed_at = some 5;
  history =
      opened.history
      ++ record {
        from_step_key = some (text "drafting");
        to_step_key = text "signed";
        action_name = some (text "sign");
        actor = text "eva";
        comment = none;
      }
        ∷ [];
}

sign_opened : apply_transition review (text "sign") (text "eva") none 5 opened ≡ ok closed
unfolding apply_transition find_transition transitions_from get_step find filter text_eq arrive
sign_opened = refl

opened-Run : Run review opened
unfolding start initial_step find
opened-Run = begun 7 (text "eva") refl

closed-Run : Run review closed
closed-Run = moved (text "sign") (text "eva") none 5 opened-Run sign_opened

review_initial : initial_step review ≡ ok drafting
unfolding initial_step find
review_initial = refl

apply_transition-available_example :
    ((i' : WorkflowInstance) × (apply_transition review (text "sign") (text "eva") none 5 opened
        ≡ ok i'))
    ↔ (any (λ t. text_eq t.action_name (text "sign")) (available_actions review opened) ≡ true)
apply_transition-available_example =
    apply_transition-available review (text "sign") (text "eva") none 5 opened
      (Built-IsSound review-Built).well_formed

apply_transition-Moved_example : Moved review (text "sign") (text "eva") none 5 opened closed
apply_transition-Moved_example =
    apply_transition-Moved review (text "sign") (text "eva") none 5 opened closed sign_opened

Run-IsTracked_example : IsTracked review closed
Run-IsTracked_example = Run-IsTracked closed-Run

review-Reach : (s : WorkflowStep) → Memᴰ s review.steps → Reach review (text "drafting") s.key
review-Reach s (Memᴰ.head e) = rw e here
review-Reach s (Memᴰ.tail (Memᴰ.head e)) = rw e (step here (sign, Memᴰ.head refl, refl, refl))
review-Reach s (Memᴰ.tail (Memᴰ.tail m)) = absurd (Memᴰ.not-nil m)

abbrev review-IsReady : IsReady review
unfolding filter
review-IsReady = record {
  start = drafting;
  only_start = refl;
  end = signed;
  end_mem = Memᴰ.tail (Memᴰ.head refl);
  end_is_terminal = refl;
  connected = review-Reach;
}

can_complete_example :
    (i : WorkflowInstance) × (start 7 review (text "eva") ≡ ok i)
    × (actions : List Text) × (i' : WorkflowInstance) × (perform review (text "eva") 5 actions i
        ≡ ok i')
    × (i'.status ≡ completed)
unfolding review-IsReady
can_complete_example =
    can_complete review 7 (text "eva") 5 (Built-IsSound review-Built).well_formed refl
      review-IsReady refl

add_transition-ok_example : (add_transition sign unwired ≡ ok in_draft) ↔ (
    (unwired.status ≡ draft)
    × (has_step unwired sign.from_step_key ≡ true)
    × (has_step unwired sign.to_step_key ≡ true)
    × (any (is_edge sign.from_step_key sign.action_name) unwired.transitions ≡ false)
    × (in_draft ≡ record unwired { transitions = unwired.transitions ++ sign ∷ [] }))
add_transition-ok_example = add_transition-ok sign unwired in_draft

-- A workflow whose one step is both start and end.
abbrev single : WorkflowDefinition
single = record review { steps = record drafting { is_terminal = true } ∷ []; transitions = [] }

single_no_issues : find_validation_issues single ≡ []
unfolding find_validation_issues reachable_from explore offer_all unreachable_keys transitions_from
    contains filter sorted_set text_eq
single_no_issues = refl

single-Run : Run single opened
unfolding start initial_step find
single-Run = begun 7 (text "eva") refl

Run-no_exit_example : (opened.status ≡ active) × (opened.current_step_key ≡ text "drafting")
unfolding initial_step find transitions_from filter
Run-no_exit_example = Run-no_exit (record drafting { is_terminal = true }) refl refl single-Run
