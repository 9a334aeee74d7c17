-- ===== src/Services/Assistant/Permitted.antt =====
-- On whose behalf the assistant may write.
use orchestract.Common.{
  ◌>>=◌, inl, inr, Result-cases, ℕ, ◌≡◌, ◌⊎◌, Bool, true, false, not, some, Memᴰ, arith, Text,
  Result, ok, bind-ok, bound, raise_if-ok, permission_denied,
}
use orchestract.Users.User.{User}
use orchestract.Users.Role.{Role}
use orchestract.Users.Permissions.{may_act_iff}
use orchestract.Passwords.{Bytes}
use orchestract.Storage.{StorageConnection}
use orchestract.Workflow.Definition.{WorkflowDefinition, WorkflowStep, get_step}
use orchestract.Workflow.Instance.{WorkflowInstance}
use orchestract.Services.{Store}
use orchestract.Services.Contracts.{get_instance, definition_of, assert_can_edit_contract_step}
use orchestract.Services.Requests.{state_of}
use orchestract.Services.Assistant.{
  advance_workflow_step, add_document_to_contract, upload_document_version,
}

-- A call of one of the tools that write, with the arguments that the language model gives it.
pub data ToolCall : Type 0 where
  advance : Text → Text → ToolCall
  add_document : Text → ToolCall
  upload_version : ℕ → Bytes → Text → Text → ToolCall

-- A test that is not failed.
not-false : (b : Bool) → not b ≡ false → b ≡ true
not-false b h = ground arith

module _ {S : Type 0} (store : Store S) where
  -- The contract stands on a step that the user may edit: no role is linked to the agent of the
  -- step, or one of those that are is the user's.
  pub record IsPermitted (contract_id : ℕ) (u : User) (s : S) : Type 0 where
    pub instance_of : WorkflowInstance
    pub instance_found : get_instance store contract_id s ≡ ok instance_of
    pub definition : WorkflowDefinition
    pub definition_found : definition_of store instance_of s ≡ ok definition
    pub step : WorkflowStep
    pub step_found : get_step instance_of.current_step_key definition ≡ ok step
    pub permitted :
        ((r : Role) → ¬ (Memᴰ r (store.roles.rows s) × (r.agent_id ≡ some step.agent_id)))
        ⊎ ((r : Role) × Memᴰ r (store.roles.rows s)
            × (r.agent_id ≡ some step.agent_id)
            × (r.id ≡ u.role_id))

  checked-IsPermitted :
      (contract_id : ℕ) (u : User) (s : S) {x : Unit {0}}
      → assert_can_edit_contract_step store contract_id u.role_id s ≡ ok x
      → IsPermitted contract_id u s
  unfolding assert_can_edit_contract_step
  checked-IsPermitted contract_id u s h = elim (bind-ok (get_instance store contract_id s) _ h) [
    | bound i e h₀ ↦ elim (bind-ok (definition_of store i s) _ h₀) [
      | bound d f h₁ ↦ elim (bind-ok (get_step i.current_step_key d) _ h₁) [
        | bound step g h₂ ↦
            let may = not-false _ (raise_if-ok _ permission_denied h₂) in
            record {
              instance_of = i;
              instance_found = e;
              definition = d;
              definition_found = f;
              step = step;
              step_found = g;
              permitted = (may_act_iff u.role_id step.agent_id (store.roles.rows s)).0 may;
            }
      ]
    ]
  ]

  module _ (upload : StorageConnection → Text → Bytes → Text → S → Result S)
      (download : StorageConnection → Text → S → Result Bytes) where
    -- The tools of one run, for the user and the contract that it was started with.
    unfoldable pub run_tool : ℕ → User → ℕ → ToolCall → S → Result S
    run_tool contract_id u now (advance action comment) s =
        state_of (advance_workflow_step store contract_id u action comment now s)
    run_tool contract_id u now (add_document name) s =
        state_of (add_document_to_contract store contract_id u name now s)
    run_tool contract_id u now (upload_version document_id file filename notes) s = state_of (
        upload_document_version store upload download contract_id u document_id file filename notes
          now s)

    checked_first :
        {A : Type 0} (contract_id : ℕ) (u : User) (s s' : S) (rest : Result (A × S))
        → state_of (assert_can_edit_contract_step store contract_id u.role_id s >>= λ _. rest)
          ≡ ok s'
        → IsPermitted contract_id u s
    checked_first contract_id u s s' rest h =
        elim (Result-cases (assert_can_edit_contract_step store contract_id u.role_id s)) [
          | inl (x, e) ↦ checked-IsPermitted contract_id u s e
          | inr (x, e) ↦ absurd (ground arith)
        ]

    -- Whatever the language model asks for, a tool of the assistant that writes succeeds only where
    -- the contract of the conversation stands on a step that the user may edit: no role is linked
    -- to the agent of the step, or one of those that are is the user's.
    pub run_tool-IsPermitted :
        (contract_id : ℕ) (u : User) (now : ℕ) (call : ToolCall) (s s' : S)
        → run_tool contract_id u now call s ≡ ok s'
        → IsPermitted contract_id u s
    unfolding run_tool advance_workflow_step add_document_to_contract upload_document_version
    run_tool-IsPermitted contract_id u now (advance action comment) s s' h =
        checked_first contract_id u s s' _ h
    run_tool-IsPermitted contract_id u now (add_document name) s s' h =
        checked_first contract_id u s s' _ h
    run_tool-IsPermitted contract_id u now (upload_version document_id file filename notes) s s' h =
        checked_first contract_id u s s' _ h
