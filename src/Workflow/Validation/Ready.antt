-- ===== src/Workflow/Validation/Ready.antt =====
-- What an empty list of issues says of the graph.
use mathlib.Core.List.Memᴰ
use orchestract.Common.{
  ◌≡◌, ◌≢◌, refl, subst, ◌↔◌, inl, inr, true, not, List, [], ◌∷◌, ◌++◌, map, Memᴰ, arith, Text,
  contains, sorted_set-eq-nil, mem-filter, filter-eq-nil, append-eq-nil, filter, List-cases, ok,
  Result-cases,
}
use orchestract.Workflow.Definition.{WorkflowStep, WorkflowDefinition, draft, active, require_draft}
use orchestract.Workflow.Validation.{
  unreachable_issue, start_issues, end_issues, reach_issues, reachable_from, unreachable_keys,
  graph_issues, find_validation_issues, validate_workflow_graph, activate,
}
use orchestract.Workflow.Validation.Reachability.{Reach}
use orchestract.Workflow.Validation.Rounds.{reachable_from_correct}

-- Exactly one step starts the workflow, some step ends it, and every step is reached from the start.
pub record IsReady (d : WorkflowDefinition) : Type 0 where
  pub start : WorkflowStep
  pub only_start : filter (λ s. s.is_initial) d.steps ≡ start ∷ []
  pub end : WorkflowStep
  pub end_mem : Memᴰ end d.steps
  pub end_is_terminal : end.is_terminal ≡ true
  pub connected : (s : WorkflowStep) → Memᴰ s d.steps → Reach d start.key s.key

unreachable_keys-eq-nil :
    (d : WorkflowDefinition) (key : Text)
    → (unreachable_keys d key ≡ []) ↔ ((s : WorkflowStep) → Memᴰ s d.steps → Reach d key s.key)
unfolding unreachable_keys
unreachable_keys-eq-nil d key =
    let missed = λ (k : Text). not (contains k (reachable_from d key)) in
    let keys = map (λ (s : WorkflowStep). s.key) d.steps in
    let (none_left, to_none_left) = sorted_set-eq-nil (filter missed keys) in
    let (none_missed, to_none_missed) = filter-eq-nil missed keys in
    (
      λ e s m.
          (reachable_from_correct d key s.key).0
            (ground (arith, none_missed (none_left e) s.key (Memᴰ.map (λ x. x.key) m))),
      λ h. to_none_left (
          to_none_missed λ k m.
            let (s, m', e) = Memᴰ.of_map (λ (x : WorkflowStep). x.key) d.steps m in
            ground (arith, (reachable_from_correct d key s.key).1 (h s m'))),
    )

-- The issues of a graph, one equation for each check.
record NoIssues (d : WorkflowDefinition) (l : List WorkflowStep) : Type 0 where
  steps : l ≢ []
  starts : start_issues (filter (λ s. s.is_initial) d.steps) ≡ []
  ends : end_issues (filter (λ s. s.is_terminal) d.steps) ≡ []
  reaches : reach_issues d (filter (λ s. s.is_initial) d.steps) ≡ []

graph_issues-NoIssues :
    (d : WorkflowDefinition) (l : List WorkflowStep) → (graph_issues d l ≡ []) ↔ NoIssues d l
unfolding graph_issues
graph_issues-NoIssues d [] = (λ e. absurd (ground arith), λ h. absurd (h.steps refl))
graph_issues-NoIssues d (s ∷ more) =
    let starts = start_issues (filter (λ x. x.is_initial) d.steps) in
    let ends = end_issues (filter (λ x. x.is_terminal) d.steps) in
    let reaches = reach_issues d (filter (λ x. x.is_initial) d.steps) in
    let (outer, to_outer) = append-eq-nil starts (ends ++ reaches) in
    let (inner, to_inner) = append-eq-nil ends reaches in
    (
      λ e.
          let (p, q) = outer e in
          let (r, t) = inner q in
          record { steps = ground arith; starts = p; ends = r; reaches = t },
      λ h. to_outer (h.starts, to_inner (h.ends, h.reaches)),
    )

start_issues-eq-nil :
    (l : List WorkflowStep) → start_issues l ≡ [] → (s : WorkflowStep) × (l ≡ s ∷ [])
unfolding start_issues
start_issues-eq-nil [] h = absurd (ground arith)
start_issues-eq-nil (s ∷ []) h = (s, refl)
start_issues-eq-nil (s ∷ s' ∷ more) h = absurd (ground arith)

end_issues-eq-nil : (l : List WorkflowStep) → end_issues l ≡ [] → (s : WorkflowStep) × Memᴰ s l
unfolding end_issues
end_issues-eq-nil [] h = absurd (ground arith)
end_issues-eq-nil (s ∷ more) h = (s, Memᴰ.head refl)

mem→end_issues : {s : WorkflowStep} (l : List WorkflowStep) → Memᴰ s l → end_issues l ≡ []
unfolding end_issues
mem→end_issues [] m = absurd (Memᴰ.not-nil m)
mem→end_issues (x ∷ l) m = refl

unreachable_issue-eq-nil : (ks : List Text) → (unreachable_issue ks ≡ []) ↔ (ks ≡ [])
unfolding unreachable_issue
unreachable_issue-eq-nil [] = (λ e. e, λ e. e)
unreachable_issue-eq-nil (k ∷ ks) = ground arith

module _ (d : WorkflowDefinition) where
  NoIssues→IsReady : NoIssues d d.steps → IsReady d
  unfolding reach_issues
  NoIssues→IsReady h =
      let (start, e) = start_issues-eq-nil (filter (λ s. s.is_initial) d.steps) h.starts in
      let (end, m) = end_issues-eq-nil (filter (λ s. s.is_terminal) d.steps) h.ends in
      let (end_mem, end_is_terminal) = (mem-filter (λ s. s.is_terminal) end d.steps).0 m in
      record {
        start = start;
        only_start = e;
        end = end;
        end_mem = end_mem;
        end_is_terminal = end_is_terminal;
        connected =
            (unreachable_keys-eq-nil d start.key).0
              ((unreachable_issue-eq-nil (unreachable_keys d start.key)).0 (rw e at h.reaches));
      }

  IsReady→NoIssues : IsReady d → NoIssues d d.steps
  unfolding start_issues reach_issues
  IsReady→NoIssues r = record {
    steps = λ e. Memᴰ.not-nil (subst (Memᴰ r.end) e r.end_mem);
    starts = rw r.only_start refl;
    ends =
        mem→end_issues (filter (λ s. s.is_terminal) d.steps)
          ((mem-filter (λ s. s.is_terminal) r.end d.steps).1 (r.end_mem, r.end_is_terminal));
    reaches = rw r.only_start (
        (unreachable_issue-eq-nil (unreachable_keys d r.start.key)).1
          ((unreachable_keys-eq-nil d r.start.key).1 r.connected));
  }

-- A workflow has no validation issue exactly if it is ready: one step starts it, some step ends
-- it, and transitions lead from the start to every step.
pub find_validation_issues-IsReady :
    (d : WorkflowDefinition) → (find_validation_issues d ≡ []) ↔ IsReady d
unfolding find_validation_issues
find_validation_issues-IsReady d =
    let (parts, whole) = graph_issues-NoIssues d d.steps in
    (λ e. NoIssues→IsReady d (parts e), λ r. whole (IsReady→NoIssues d r))

-- Validation passes exactly on a workflow that is ready, and raises otherwise.
validate-ok : (d : WorkflowDefinition) → (validate_workflow_graph d ≡ ok tt) ↔ IsReady d
unfolding validate_workflow_graph
validate-ok d =
    let (sound, full) = find_validation_issues-IsReady d in
    elim (List-cases (find_validation_issues d)) [
      | inl e ↦ (λ h. sound e, λ r. rw e)
      | inr (i, is, e) ↦ (λ h. absurd (ground arith), λ r. absurd (ground (arith, full r)))
    ]

-- Activation succeeds exactly on a draft that is ready, and then only sets the status.
pub activate-ok :
    (d d' : WorkflowDefinition)
    → (activate d ≡ ok d') ↔ ((d.status ≡ draft) × IsReady d × (d' ≡ record d { status = active }))
unfolding activate require_draft
activate-ok d d' =
    let (sound, full) = validate-ok d in
    elim (Result-cases (validate_workflow_graph d)) [
      | inl (u, e) ↦
          (λ h. (ground arith, sound (ground arith), ground arith), λ (p, r, q). ground arith)
      | inr (x, e) ↦ (λ h. absurd (ground arith), λ (p, r, q). absurd (ground (arith, full r)))
    ]
