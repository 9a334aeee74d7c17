-- ===== src/Services/Requests.antt =====
-- Sequences of calls of WorkflowService and ContractService.
use orchestract.Common.{
  ℕ, ◌≡◌, inl, inr, Bool, Option, List, [], ◌∷◌, arith, Text, Result, ok, err, Result-cases,
}
use orchestract.Workflow.Definition.{WorkflowStep, WorkflowTransition}
use orchestract.Services.{Store}
use orchestract.Services.Workflows.{
  create_definition, update_details, add_step_to, add_transition_to, activate_definition,
  duplicate_definition,
}
use orchestract.Services.Contracts.{
  start_contract, set_summary, add_document_to, transition_contract,
}
use orchestract.Services.Assistant.{configure_ai}
use orchestract.Services.Copies.{copy-IsConsistent, configure-IsConsistent}
use orchestract.Services.Edits.{
  update-IsConsistent, step-IsConsistent, transition-IsConsistent, activate-IsConsistent,
  create-IsConsistent,
}
use orchestract.Services.Moves.{
  summary-IsConsistent, document-IsConsistent, start-IsConsistent, move-IsConsistent,
}
use orchestract.Services.Consistency.{IsLawfulStore, IsConsistent}

-- The calls of the two services that write, all of them.
pub data Request : Type 0 where
  new_workflow : ℕ → Text → Option Text → Request
  new_details : ℕ → Text → Option Text → Request
  new_step : ℕ → WorkflowStep → Request
  new_transition : ℕ → WorkflowTransition → Request
  activation : ℕ → Request
  new_contract : ℕ → Text → Text → ℕ → Text → Option Text → ℕ → Request
  new_summary : ℕ → Text → ℕ → Request
  new_document : ℕ → Text → ℕ → Request
  move : ℕ → Text → Text → Option Text → ℕ → Request
  new_copy : ℕ → Request
  new_ai_config : ℕ → Option Bool → Option Text → Option Text → Option (List Text) → ℕ → Request

-- The state that a call leaves.
abbrev pub state_of {ℓ} : {A S : Type ℓ} → Result (A × S) → Result S
state_of (ok (a, s)) = ok s
state_of (err e) = err e

module _ {S : Type 0} (store : Store S) where
  unfoldable pub handle : Request → S → Result S
  handle (new_workflow org name description) s =
      state_of (create_definition store org name description s)
  handle (new_details n name description) s = state_of (update_details store n name description s)
  handle (new_step n step) s = state_of (add_step_to store n step s)
  handle (new_transition n t) s = state_of (add_transition_to store n t s)
  handle (activation n) s = state_of (activate_definition store n s)
  handle (new_contract org title contract_type n actor description now) s =
      state_of (start_contract store org title contract_type n actor description now s)
  handle (new_summary n summary now) s = state_of (set_summary store n summary now s)
  handle (new_document n name now) s = state_of (add_document_to store n name now s)
  handle (move n action_name actor comment now) s =
      state_of (transition_contract store n action_name actor comment now s)
  handle (new_copy n) s = state_of (duplicate_definition store n s)
  handle (new_ai_config n enabled model instructions allowed now) s =
      state_of (configure_ai store n enabled model instructions allowed now s)

  -- One request after the other; one that raises is rolled back.
  unfoldable pub handle_all : List Request → S → S
  handle_all [] s = s
  handle_all (r ∷ rs) s = handle_all rs (elim (handle r s) [ ok s' ↦ s' | err _ ↦ s ])

  state_of-ok :
      {A : Type 0} (m : Result (A × S)) (s' : S) → state_of m ≡ ok s' → (a : A) × (m ≡ ok (a, s'))
  state_of-ok (ok (a, s)) s' h = (a, ground arith)
  state_of-ok (err e) s' h = absurd (ground arith)

  module _ (laws : IsLawfulStore store) where
    handle-IsConsistent :
        (r : Request) (s s' : S) → handle r s ≡ ok s' → IsConsistent store s → IsConsistent store s'
    unfolding handle
    handle-IsConsistent (new_workflow org name description) s s' h v =
        let (d, e) = state_of-ok _ s' h in
        create-IsConsistent store laws org name description s s' d e v
    handle-IsConsistent (new_details n name description) s s' h v =
        let (d, e) = state_of-ok _ s' h in
        update-IsConsistent store laws n name description s s' d e v
    handle-IsConsistent (new_step n step) s s' h v =
        let (d, e) = state_of-ok _ s' h in step-IsConsistent store laws n step s s' d e v
    handle-IsConsistent (new_transition n t) s s' h v =
        let (d, e) = state_of-ok _ s' h in transition-IsConsistent store laws n t s s' d e v
    handle-IsConsistent (activation n) s s' h v =
        let (d, e) = state_of-ok _ s' h in activate-IsConsistent store laws n s s' d e v
    handle-IsConsistent (new_contract org title contract_type n actor description now) s s' h v =
        let (c, e) = state_of-ok _ s' h in
        start-IsConsistent store laws org title contract_type n actor description now s s' c e v
    handle-IsConsistent (new_summary n summary now) s s' h v =
        let (c, e) = state_of-ok _ s' h in summary-IsConsistent store laws n summary now s s' c e v
    handle-IsConsistent (new_document n name now) s s' h v =
        let (c, e) = state_of-ok _ s' h in document-IsConsistent store laws n name now s s' c e v
    handle-IsConsistent (move n action_name actor comment now) s s' h v =
        let (i, e) = state_of-ok _ s' h in
        move-IsConsistent store laws n action_name actor comment now s s' i e v
    handle-IsConsistent (new_copy n) s s' h v =
        let (d, e) = state_of-ok _ s' h in copy-IsConsistent store laws n s s' d e v
    handle-IsConsistent (new_ai_config n enabled model instructions allowed now) s s' h v =
        let (c, e) = state_of-ok _ s' h in
        configure-IsConsistent store laws n enabled model instructions allowed now s s' c e v

    -- Over tables that obey their laws, whatever requests are served, one after the other, and
    -- whichever of them fail: if every stored definition is one that its methods lead to, and every
    -- stored instance names a stored definition that is no longer a draft and has a history that is
    -- a walk of it to the current step, then this holds again after them.
    pub handle_all-IsConsistent :
        (rs : List Request) (s : S) → IsConsistent store s → IsConsistent store (handle_all rs s)
    unfolding handle_all
    handle_all-IsConsistent [] s v = v
    handle_all-IsConsistent (r ∷ rs) s v = elim (Result-cases (handle r s)) [
      | inl (s', e) ↦ rw e (handle_all-IsConsistent rs s' (handle-IsConsistent r s s' e v))
      | inr (x, e) ↦ rw e (handle_all-IsConsistent rs s v)
    ]
