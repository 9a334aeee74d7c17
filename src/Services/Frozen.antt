-- ===== src/Services/Frozen.antt =====
-- What a change of a definition means for the instances that run through it.
use orchestract.Common.{◌≡◌, sym, ◌∙◌, subst, ◌≢◌, inl, inr, Bool, List, Memᴰ, Text}
use orchestract.Workflow.Definition.{WorkflowDefinition, initial_step, draft}
use orchestract.Workflow.Lifecycle.{SameGraph}
use orchestract.Workflow.Instance.{WorkflowInstance, WorkflowHistoryEntry}
use orchestract.Workflow.Instance.Runs.{Trail, opened, extended, StepAt, IsTracked}

module _ {d d' : WorkflowDefinition} (g : SameGraph d d') where
  initial_step-SameGraph : initial_step d' ≡ initial_step d
  unfolding initial_step
  initial_step-SameGraph = rw g.steps

  Trail-SameGraph : {h : List WorkflowHistoryEntry} {k : Text} → Trail d h k → Trail d' h k
  Trail-SameGraph (opened e s p q r u f z) = opened e s p q r u (initial_step-SameGraph ∙ f) z
  Trail-SameGraph (extended e t trail p m q r u v w) =
      extended e t (Trail-SameGraph trail) p (subst (Memᴰ t) (sym g.transitions) m) q r u v w

  StepAt-SameGraph : {k : Text} {ends : Bool} → StepAt d k ends → StepAt d' k ends
  StepAt-SameGraph a = record {
    found = a.found;
    found_mem = subst (Memᴰ a.found) (sym g.steps) a.found_mem;
    found_key = a.found_key;
    found_ends = a.found_ends;
  }

  pub IsTracked-SameGraph : {i : WorkflowInstance} → IsTracked d i → IsTracked d' i
  IsTracked-SameGraph t = record {
    trail = Trail-SameGraph t.trail;
    finished = λ c. let (a, n, e) = t.finished c in (StepAt-SameGraph a, n, e);
    unfinished = λ c.
        let (p, q) = t.unfinished c in
        (p, elim q [ inl one ↦ inl one | inr a ↦ inr (StepAt-SameGraph a) ]);
  }

-- What an edit may do to a definition in the table.
pub record IsEdit (d d' : WorkflowDefinition) : Type 0 where
  pub same_id : d'.id ≡ d.id
  pub frozen : d.status ≢ draft → SameGraph d d' × (d'.status ≢ draft)
