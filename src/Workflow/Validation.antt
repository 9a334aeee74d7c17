-- ===== src/Workflow/Validation.antt =====
-- app/domain/workflow/validation.py, and `WorkflowDefinition.activate` that calls it.
pub mod Reachability
pub mod Rounds
pub mod Ready
use orchestract.Common.{
  ℕ, zero, suc, ◌+◌, Bool, not, ◌≡◌, refl, List, [], ◌∷◌, ◌++◌, map, Text, text, contains,
  sorted_set, join, length, filter, if◌then◌else◌, Result, ok, err, ◌>>=◌, ◌>>◌,
  workflow_validation,
}
use orchestract.Workflow.Definition.{
  WorkflowStep, WorkflowTransition, WorkflowDefinition, active, require_draft, transitions_from,
}

-- The two variables of the search. The last item of Python's `frontier` is the first one here.
pub record Search : Type 0 where
  pub reachable : List Text
  pub frontier : List Text

-- The body of the `for` loop.
unfoldable pub offer : Search → WorkflowTransition → Search
offer s t =
    if contains t.to_step_key s.reachable
    then s
    else record { reachable = t.to_step_key ∷ s.reachable; frontier = t.to_step_key ∷ s.frontier }

-- The `for` loop.
unfoldable pub offer_all : Search → List WorkflowTransition → Search
offer_all s [] = s
offer_all s (t ∷ ts) = offer_all (offer s t) ts

-- The `while` loop, with fuel for its rounds.
unfoldable pub explore : ℕ → WorkflowDefinition → Search → Search
explore zero d s = s
explore (suc fuel) d s = elim s.frontier [
  | [] ↦ s
  | current ∷ rest ↦
      explore fuel d (offer_all (record s { frontier = rest }) (transitions_from current d))
]

abbrev pub start_at : Text → Search
start_at key = record { reachable = key ∷ []; frontier = key ∷ [] }

-- `reachable` after the loop. Each round but the first takes a key that a transition has added.
unfoldable pub reachable_from : WorkflowDefinition → Text → List Text
reachable_from d key = (explore (length d.transitions + 1) d (start_at key)).reachable

-- sorted(all_keys - reachable)
unfoldable pub unreachable_keys : WorkflowDefinition → Text → List Text
unreachable_keys d key =
    sorted_set (filter (λ k. not (contains k (reachable_from d key))) (map (λ s. s.key) d.steps))

unreachable_issue : List Text → List Text
unreachable_issue [] = []
unreachable_issue (k ∷ ks) =
    (text "These steps can't be reached from the start yet: "
      ++ (join (text ", ") (k ∷ ks) ++ text "."))
    ∷ []

start_issues : List WorkflowStep → List Text
start_issues [] = text "Mark one step as the start step." ∷ []
start_issues (s ∷ []) = []
start_issues (s ∷ s' ∷ more) = text "Only one step can be the start step." ∷ []

end_issues : List WorkflowStep → List Text
end_issues [] = text "Mark at least one step as an end step." ∷ []
end_issues (s ∷ more) = []

reach_issues : WorkflowDefinition → List WorkflowStep → List Text
unfolding unreachable_issue
reach_issues d (s ∷ []) = unreachable_issue (unreachable_keys d s.key)
reach_issues d _ = []

graph_issues : WorkflowDefinition → List WorkflowStep → List Text
unfolding start_issues end_issues reach_issues
graph_issues d [] = text "Add at least one step." ∷ []
graph_issues d (s ∷ more) =
    let initial_steps = filter (λ x. x.is_initial) d.steps in
    let terminal_steps = filter (λ x. x.is_terminal) d.steps in
    start_issues initial_steps ++ (end_issues terminal_steps ++ reach_issues d initial_steps)

unfoldable pub find_validation_issues : WorkflowDefinition → List Text
unfolding graph_issues
find_validation_issues d = graph_issues d d.steps

raise_issues : List Text → Result (Unit {0})
raise_issues [] = ok tt
raise_issues (i ∷ is) = err (workflow_validation (join (text " ") (i ∷ is)))

unfoldable pub validate_workflow_graph : WorkflowDefinition → Result (Unit {0})
unfolding raise_issues
validate_workflow_graph d = raise_issues (find_validation_issues d)

-- WorkflowDefinition.activate
unfoldable pub activate : WorkflowDefinition → Result WorkflowDefinition
activate d = do require_draft d; validate_workflow_graph d; ok (record d { status = active })
