-- ===== src/Services/Assistant/Summary.antt =====
-- AIService.summarize_contract of app/application/ai_service.py. `part` is what build_document_part
-- makes of a file for the client of the language model, and `generate` the call of the model, with
-- its system prompt.
use orchestract.Common.{
  ℕ, Bool, Option, none, some, List, [], ◌∷◌, ◌++◌, if◌then◌else◌, Text, text, is_empty, contains,
  Result, ok, ◌>>=◌, ◌>>◌,
}
use orchestract.Tenancy.Organization.{Organization}
use orchestract.Passwords.{Bytes}
use orchestract.Documents.{Document, Contract, latest_version}
use orchestract.Storage.{StorageConnection}
use orchestract.Workflow.Instance.{WorkflowInstance, InstanceStatus}
use orchestract.Services.{Store}
use orchestract.Services.Contracts.{get_contract, get_instance, set_summary}
use orchestract.Services.Documents.{download_version}
use orchestract.Services.Assistant.{require_summaries, append_instructions, summarizable_mime_types}

-- InstanceStatus.value
unfoldable pub status_value : InstanceStatus → Text
status_value InstanceStatus.active = text "active"
status_value InstanceStatus.completed = text "completed"

-- contract.description or "none"
abbrev shown_description : Option Text → Text
shown_description none = text "none"
shown_description (some s) = if is_empty s then text "none" else s

-- The first item of `contents`.
unfoldable pub contract_metadata : Contract → WorkflowInstance → Text
unfolding status_value
contract_metadata c i =
    text "Contract metadata:"
    ++ 10 ∷ (text "Title: " ++ c.title ++ text " (" ++ c.contract_type ++ text ")")
    ++ 10 ∷ (text "Description: " ++ shown_description c.description)
    ++ 10
      ∷ (text "Workflow status: "
          ++ status_value i.status
          ++ text ", current step: "
          ++ i.current_step_key)

-- f"Document '{document.name}'" and what follows
abbrev about_document : Document → Text → Text
about_document d rest = text "Document '" ++ d.name ++ text "'" ++ rest

module _ {S : Type 0} (store : Store S)
    (upload : StorageConnection → Text → Bytes → Text → S → Result S)
    (download : StorageConnection → Text → S → Result Bytes)
    (part : Bytes → Text → Text → Text) where
  -- What the loop adds to `contents` for one document.
  unfoldable pub document_contents : Document → S → Result (List Text)
  document_contents d s = elim (latest_version d) [
    | none ↦ ok (about_document d (text ": no versions uploaded yet.") ∷ [])
    | some v ↦
        if contains v.content_type summarizable_mime_types
        then (do
          content ← download_version store upload download v s
          ok (about_document d (text ":") ∷ part content v.content_type d.name ∷ []))
        else ok (about_document d (text ": [" ++ v.content_type ++ text ", not summarizable]") ∷ [])
  ]

  -- The loop.
  unfoldable pub all_contents : List Document → S → Result (List Text)
  unfolding document_contents
  all_contents [] s = ok []
  all_contents (d ∷ ds) s = do
    here ← document_contents d s
    rest ← all_contents ds s
    ok (here ++ rest)

  unfoldable pub summarize_contract :
      (List Text → Result Text) → Bool → Bool → ℕ → Organization → ℕ → S → Result (Contract × S)
  unfolding all_contents contract_metadata
  summarize_contract generate gemini anthropic contract_id o now s = do
    c ← get_contract store contract_id s
    require_summaries gemini anthropic o c
    i ← get_instance store contract_id s
    documents ← all_contents c.documents s
    let prompt =
        append_instructions
          (text
              "Using the contract metadata and the attached documents above, summarize this contract "
            ++ text
                "for someone managing it. Base the summary on the actual document contents, not just "
            ++ text
                "the metadata: cover its purpose, current status, and the notable terms found in the "
            ++ text
                "documents (parties, effective/expiry dates, amounts, obligations, and anything "
            ++ text "unusual). Keep it to at most 8 lines.")
          c
    summary ← generate (contract_metadata c i ∷ documents ++ prompt ∷ [])
    set_summary store contract_id summary now s
