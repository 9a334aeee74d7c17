-- ===== src/Services/Assistant.antt =====
-- app/application/ai_service.py, with the names of app/infrastructure/ai/client.py and set_ai_config
-- of app/application/contract_service.py. `gemini` and `anthropic` are the values of
-- gemini_enabled() and ai_enabled(), which read the environment, and `generate` is the call of the
-- model. A ToolError is the DomainError that it wraps.
pub mod Limits
pub mod Permitted
pub mod Summary
use orchestract.Common.{
  ℕ, zero, suc, ◌+◌, ◌-◌, ◌*◌, ◌≤◌, ◌<◌, String, ◌≡◌, refl, sym, ap, ◌∙◌, subst, ◌≢◌, ◌↔◌, ◌⊎◌, inl,
  inr, Bool, true, false, not, ◌&&◌, ◌||◌, Option, none, some, List, [], ◌∷◌, ◌++◌, map, Memᴰ,
  arith, ltb, leb, ◌==◌, if◌then◌else◌, ltb→lt, lt→ltb, Bool-cases, Option-cases, List-cases,
  length, any, filter, find, last, All, length-append, last-append, any-append, filter-append,
  any_of_mem, mem_of_any, find-some, find-none, find-any, mem-filter, filter-eq-nil, append-eq-nil,
  Text, text, text_eq, text_eq_refl, text_eq_iff, is_empty, strip, lower, slugify, contains,
  sorted_set, join, contains-cons_iff, sorted_set-eq-nil, Result, ok, err, DomainError, ◌>>=◌, ◌>>◌,
  raise_if, or_raise, Result-cases, show_nat, bind-ok, or_raise-ok, raise_if-ok, ok-injective,
  bound, ai_unavailable, unsupported_content_type, invalid_ai_config, no_versions,
}
use orchestract.Tenancy.Organization.{Organization}
use orchestract.Tenancy.Plans.{plan_limits}
use orchestract.Users.User.{User}
use orchestract.Passwords.{Bytes}
use orchestract.Documents.{Document, Contract, AiConfig, DocumentVersion, latest_version}
use orchestract.Documents as Documents
use orchestract.Storage.{StorageConnection}
use orchestract.Workflow.Instance.{WorkflowInstance}
use orchestract.Services.{Store}
use orchestract.Services.Contracts.{
  get_contract, add_document_to, transition_contract, assert_can_edit_contract_step,
}
use orchestract.Services.Documents.{get_document, summarize, download_version, upload_version}

-- AI_MODEL
abbrev pub ai_model : Text
ai_model = text "claude-opus-5"

abbrev pub supported_ai_models : List Text
supported_ai_models = ai_model ∷ text "claude-sonnet-5" ∷ text "claude-haiku-4-5" ∷ []

abbrev pub assistant_tool_names : List Text
assistant_tool_names =
    text "advance_workflow_step"
    ∷ text "add_document_to_contract"
    ∷ text "upload_document_version"
    ∷ []

-- SUMMARIZABLE_MIME_TYPES
abbrev pub summarizable_mime_types : List Text
summarizable_mime_types =
    text "text/plain"
    ∷ text "text/markdown"
    ∷ text "application/pdf"
    ∷ text "image/png"
    ∷ text "image/jpeg"
    ∷ text "image/webp"
    ∷ text "application/vnd.openxmlformats-officedocument.wordprocessingml.document"
    ∷ []

-- contract.ai_config.get(...), where {} is none
abbrev pub config_enabled : Contract → Option Bool
config_enabled c = elim c.ai_config [ none ↦ none | some g ↦ g.enabled ]

abbrev pub config_model : Contract → Option Text
config_model c = elim c.ai_config [ none ↦ none | some g ↦ g.model ]

abbrev pub config_instructions : Contract → Option Text
config_instructions c = elim c.ai_config [ none ↦ none | some g ↦ g.instructions ]

abbrev pub config_tools : Contract → Option (List Text)
config_tools c = elim c.ai_config [ none ↦ none | some g ↦ g.allowed_tools ]

-- x is not False
abbrev not_false : Option Bool → Bool
not_false none = true
not_false (some b) = b

-- text or None
abbrev non_empty : Option Text → Option Text
non_empty none = none
non_empty (some s) = if is_empty s then none else some s

module _ (gemini anthropic : Bool) where
  unfoldable pub is_available : Organization → Contract → Bool
  is_available o c =
      if not (plan_limits o.plan).ai_enabled
      then false
      else if not (gemini || anthropic)
      then false
      else not_false (config_enabled c)

  unfoldable pub unavailable_reason : Organization → Contract → Option Text
  unavailable_reason o c =
      if not (plan_limits o.plan).ai_enabled
      then some (
          text "AI features aren't included in the "
          ++ (plan_limits o.plan).display_name
          ++ text
              " plan. Upgrade to Team or Business to enable contract summaries and the assistant.")
      else if not (gemini || anthropic)
      then some
          (text "AI isn't set up on this server yet. Contact your administrator to enable it.")
      else if not (not_false (config_enabled c))
      then some (text "AI has been turned off for this contract in its AI settings below.")
      else none

  unfoldable pub require_enabled : Organization → Contract → Result (Unit {0})
  unfolding is_available
  require_enabled o c =
      raise_if (not (is_available o c))
        (ai_unavailable (text "AI features aren't available for this contract"))

  unfoldable pub require_summaries : Organization → Contract → Result (Unit {0})
  unfolding require_enabled
  require_summaries o c = do
    require_enabled o c
    raise_if (not gemini) (
        ai_unavailable (
          text "Summarization isn't configured -- set GOOGLE_API_KEY (Gemini Developer API) or, "
          ++ text
              "for Vertex AI, GOOGLE_GENAI_USE_VERTEXAI=true with GOOGLE_CLOUD_PROJECT (via ADC)"))

-- contract.ai_config.get("model") or AI_MODEL
unfoldable pub resolve_model : Contract → Text
resolve_model c = elim (non_empty (config_model c)) [ none ↦ ai_model | some m ↦ m ]

unfoldable pub append_instructions : Text → Contract → Text
append_instructions prompt c = elim (non_empty (config_instructions c)) [
  | none ↦ prompt
  | some i ↦ prompt ++ 10 ∷ 10 ∷ (text "Additional instructions for this contract: " ++ i)
]

-- The names of the mutating tools that `run_assistant` hands out, in order.
unfoldable pub tools_of : Contract → List Text
tools_of c = elim (config_tools c) [
  | none ↦ assistant_tool_names
  | some allowed ↦ filter (λ name. contains name allowed) assistant_tool_names
]

-- set(xs) <= set(ys)
unfoldable pub is_subset : List Text → List Text → Bool
is_subset [] ys = true
is_subset (x ∷ xs) ys = contains x ys && is_subset xs ys

-- The guards of set_ai_config.
unfoldable pub check_model : Option Text → Result (Unit {0})
check_model none = ok tt
check_model (some m) =
    raise_if (not (contains m supported_ai_models))
      (invalid_ai_config (text "'" ++ m ++ text "' is not a supported model"))

unfoldable pub check_tools : Option (List Text) → Result (Unit {0})
unfolding is_subset
check_tools none = ok tt
check_tools (some names) =
    raise_if (not (is_subset names assistant_tool_names))
      (invalid_ai_config (text "allowed_tools contains an unrecognized tool name"))

-- f"AI Assistant (on behalf of {current_user.name})"
unfoldable pub assistant_actor : User → Text
assistant_actor u = text "AI Assistant (on behalf of " ++ u.name ++ text ")"

module _ {S : Type 0} (store : Store S) where
  -- ContractService.set_ai_config
  unfoldable pub configure_ai :
      ℕ
      → Option Bool
      → Option Text
      → Option Text
      → Option (List Text)
      → ℕ
      → S
      → Result (Contract × S)
  unfolding check_model check_tools
  configure_ai contract_id enabled model instructions allowed_tools now s = do
    check_model model
    check_tools allowed_tools
    c ← get_contract store contract_id s
    let c' =
        Documents.set_ai_config
          (record {
            enabled = enabled;
            model = model;
            instructions = non_empty instructions;
            allowed_tools = allowed_tools;
          })
          now c
    ok (c', store.contracts.save contract_id c' s)

  -- The tool advance_workflow_step.
  unfoldable pub advance_workflow_step :
      ℕ → User → Text → Text → ℕ → S → Result (WorkflowInstance × S)
  unfolding assistant_actor
  advance_workflow_step contract_id u action_name comment now s = do
    assert_can_edit_contract_step store contract_id u.role_id s
    transition_contract store contract_id action_name (assistant_actor u)
        (if is_empty comment then none else some comment) now s

  -- The tool add_document_to_contract.
  unfoldable pub add_document_to_contract : ℕ → User → Text → ℕ → S → Result (Contract × S)
  add_document_to_contract contract_id u name now s = do
    assert_can_edit_contract_step store contract_id u.role_id s
    add_document_to store contract_id name now s

  module _ (upload : StorageConnection → Text → Bytes → Text → S → Result S)
      (download : StorageConnection → Text → S → Result Bytes) where
    -- The tool upload_document_version; `file` is content_text in UTF-8.
    unfoldable pub upload_document_version :
        ℕ → User → ℕ → Bytes → Text → Text → ℕ → S → Result (DocumentVersion × S)
    unfolding assistant_actor
    upload_document_version contract_id u document_id file filename notes now s = do
      assert_can_edit_contract_step store contract_id u.role_id s
      upload_version store upload download document_id file filename (text "text/plain")
          (assistant_actor u) (if is_empty notes then none else some notes) none none now s

    -- `part` is build_document_part.
    unfoldable pub summarize_document :
        (Bytes → Text → Text → Text)
        → (Text → Text → Result Text)
        → Bool
        → Bool
        → ℕ
        → Organization
        → ℕ
        → S
        → Result (Document × S)
    unfolding require_summaries append_instructions
    summarize_document part generate gemini anthropic document_id o now s = do
      (n, _, d) ← get_document store document_id s
      c ← get_contract store n s
      require_summaries gemini anthropic o c
      v ← or_raise (latest_version d) no_versions
      raise_if (not (contains v.content_type summarizable_mime_types))
          (unsupported_content_type v.content_type)
      content ← download_version store upload download v s
      summary ← generate (part content v.content_type d.name) (
          append_instructions
            (text "Summarize the attached document '"
              ++ d.name
              ++ text
                  "' for someone managing the contract it belongs to. Ground the summary in the "
              ++ text "document's actual contents, and keep it to at most 8 lines.")
            c)
      summarize store document_id summary now s
