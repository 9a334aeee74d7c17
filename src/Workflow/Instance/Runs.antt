-- ===== src/Workflow/Instance/Runs.antt =====
-- What holds of every instance of a workflow, however many actions were applied to it.
use orchestract.Common.{
  ℕ, ◌≡◌, refl, sym, ap, ◌∙◌, subst, ◌⊎◌, inl, inr, Bool, true, false, Option, none, some, List, [],
  ◌∷◌, ◌++◌, Memᴰ, arith, length, any, Text, text, text_eq, ok, Result-cases,
}
use orchestract.Workflow.Definition.{
  WorkflowStep, WorkflowTransition, WorkflowDefinition, initial_step, transitions_from,
}
use orchestract.Workflow.Instance.{
  active, completed, WorkflowInstance, WorkflowHistoryEntry, start, arrive, apply_transition,
}
use orchestract.Workflow.Instance.Moves.{Moved, apply_transition-Moved, apply_transition_unknown}

-- The instances of a workflow that calls of the methods lead to; `saved` is the id that the
-- database gives.
pub data Run (d : WorkflowDefinition) : WorkflowInstance → Type 0 where
  begun :
      (contract_id : ℕ) (actor : Text) {i : WorkflowInstance}
      → start contract_id d actor ≡ ok i
      → Run d i
  saved : {i i' : WorkflowInstance} (n : ℕ) → Run d i → i' ≡ record i { id = some n } → Run d i'
  moved :
      {i i' : WorkflowInstance} (a actor : Text) (comment : Option Text) (now : ℕ)
      → Run d i
      → apply_transition d a actor comment now i ≡ ok i'
      → Run d i'

-- A history that records a walk of the workflow: it opens at the initial step, and each further
-- entry starts where the one before ended and follows a transition under its action.
pub data Trail (d : WorkflowDefinition) : List WorkflowHistoryEntry → Text → Type 0 where
  opened :
      {h : List WorkflowHistoryEntry} {k : Text} (e : WorkflowHistoryEntry) (s : WorkflowStep)
      → h ≡ e ∷ []
      → e.from_step_key ≡ none
      → e.action_name ≡ none
      → e.to_step_key ≡ k
      → initial_step d ≡ ok s
      → s.key ≡ k
      → Trail d h k
  extended :
      {h h' : List WorkflowHistoryEntry} {k k' : Text} (e : WorkflowHistoryEntry)
      (t : WorkflowTransition)
      → Trail d h k
      → h' ≡ h ++ e ∷ []
      → Memᴰ t d.transitions
      → t.from_step_key ≡ k
      → t.to_step_key ≡ k'
      → e.from_step_key ≡ some k
      → e.action_name ≡ some t.action_name
      → e.to_step_key ≡ k'
      → Trail d h' k'

-- A step of the workflow with the given key and end mark.
pub record StepAt (d : WorkflowDefinition) (k : Text) (ends : Bool) : Type 0 where
  pub found : WorkflowStep
  pub found_mem : Memᴰ found d.steps
  pub found_key : found.key ≡ k
  pub found_ends : found.is_terminal ≡ ends

-- The history is a walk to the current step, and the status tells whether the last move reached an
-- end step; `completed_at` is set exactly then.
pub record IsTracked (d : WorkflowDefinition) (i : WorkflowInstance) : Type 0 where
  pub trail : Trail d i.history i.current_step_key
  pub finished :
      i.status ≡ completed → StepAt d i.current_step_key true × (n : ℕ) × (i.completed_at ≡ some n)
  pub unfinished :
      i.status ≡ active
      → (i.completed_at ≡ none) × ((length i.history ≡ 1) ⊎ StepAt d i.current_step_key false)

start-IsTracked :
    (d : WorkflowDefinition) (contract_id : ℕ) (actor : Text) {i : WorkflowInstance}
    → start contract_id d actor ≡ ok i
    → IsTracked d i
unfolding start
start-IsTracked d contract_id actor {i} h = elim (Result-cases (initial_step d)) [
  | inr (x, e) ↦ absurd (ground arith)
  | inl (s, e) ↦ record {
    trail =
        opened
          (record {
            from_step_key = none;
            to_step_key = s.key;
            action_name = none;
            actor = actor;
            comment = some (text "workflow started");
          })
          s (ground arith) refl refl (ground arith) e (ground arith);
    finished = λ c. absurd (ground arith);
    unfinished = λ c. (ground arith, inl (ground arith));
  }
]

pub saved-IsTracked :
    (d : WorkflowDefinition) (n : ℕ) {i i' : WorkflowInstance}
    → IsTracked d i
    → i' ≡ record i { id = some n }
    → IsTracked d i'
saved-IsTracked d n {i} {i'} v e =
    subst (IsTracked d) (sym e)
      (record { trail = v.trail; finished = v.finished; unfinished = v.unfinished })

pub Moved-IsTracked :
    {d : WorkflowDefinition} {a actor : Text} {comment : Option Text} {now : ℕ}
    {i i' : WorkflowInstance}
    → Moved d a actor comment now i i'
    → IsTracked d i
    → IsTracked d i'
unfolding arrive
Moved-IsTracked {d} {a} {actor} {comment} {now} {i} {i'} m v =
    let was : i.status ≡ active = ground arith in
    let current : i'.current_step_key ≡ m.target.key = ground arith in
    let entry : WorkflowHistoryEntry = record {
      from_step_key = some i.current_step_key;
      to_step_key = m.target.key;
      action_name = some a;
      actor = actor;
      comment = comment;
    } in
    let written : i'.history ≡ i.history ++ entry ∷ [] = ground arith in
    record {
      trail =
          extended entry m.edge v.trail written m.edge_mem m.edge_from (m.edge_to ∙ sym current)
            refl (ap some (sym m.edge_action)) (sym current);
      finished = λ c. (
        record {
          found = m.target;
          found_mem = m.target_mem;
          found_key = sym current;
          found_ends = ground arith;
        },
        now,
        ground arith,
      );
      unfinished = λ c. (
        ground (arith, v.unfinished was),
        inr (record {
          found = m.target;
          found_mem = m.target_mem;
          found_key = sym current;
          found_ends = ground arith;
        }),
      );
    }

-- Every instance of a workflow has a history that is a walk of the workflow from its initial step
-- to the current one. If it is completed, it stands on an end step and `completed_at` is set; if it
-- is active, `completed_at` is not set, and it stands on a step that is no end step or has not
-- moved yet.
pub Run-IsTracked : {d : WorkflowDefinition} {i : WorkflowInstance} → Run d i → IsTracked d i
Run-IsTracked {d} (begun contract_id actor h) = start-IsTracked d contract_id actor h
Run-IsTracked {d} (saved n r e) = saved-IsTracked d n (Run-IsTracked r) e
Run-IsTracked {d} (moved {i} {i'} a actor comment now r h) =
    Moved-IsTracked (apply_transition-Moved d a actor comment now i i' h) (Run-IsTracked r)

-- If no transition leaves the initial step, every instance of the workflow stays active on it, also
-- where the step is an end step.
pub Run-no_exit :
    {d : WorkflowDefinition} {i : WorkflowInstance} (s : WorkflowStep)
    → initial_step d ≡ ok s
    → transitions_from s.key d ≡ []
    → Run d i
    → (i.status ≡ active) × (i.current_step_key ≡ s.key)
unfolding start any
Run-no_exit {d} s init closed (begun contract_id actor h) = (ground arith, ground arith)
Run-no_exit {d} s init closed (saved n r e) =
    let (p, q) = Run-no_exit s init closed r in (ground arith, ground arith)
Run-no_exit {d} s init closed (moved {i} {i'} a actor comment now r h) =
    let (p, q) = Run-no_exit s init closed r in
    let none_fits : any (λ t. text_eq t.action_name a) (transitions_from i.current_step_key d)
        ≡ false =
      rw (q, closed) refl in
    absurd (ground (arith, apply_transition_unknown d a actor comment now i p none_fits))
