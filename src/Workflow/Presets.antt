-- ===== src/Workflow/Presets.antt =====
-- app/application/workflow_presets.py: the ready-made workflows. The icon of a preset is left out.
pub mod Materialize
pub mod Correct
use orchestract.Common.{String, Bool, true, false, Option, none, some, List, [], ◌∷◌, Text, text}

pub record PresetStep : Type 0 where
  pub key : Text
  pub name : Text
  pub agent : Text
  pub description : Text
  pub is_initial : Bool
  pub is_terminal : Bool

pub record PresetTransition : Type 0 where
  pub from_key : Text
  pub to_key : Text
  pub action_name : Text
  pub description : Option Text

pub record WorkflowPreset : Type 0 where
  pub key : Text
  pub name : Text
  pub description : Text
  pub agents : List (Text × Text)
  pub steps : List PresetStep
  pub transitions : List PresetTransition

abbrev agent_of : String → String → Text × Text
agent_of name description = (text name, text description)

abbrev step_of : String → String → String → String → Bool → Bool → PresetStep
step_of key name agent description is_initial is_terminal = record {
  key = text key;
  name = text name;
  agent = text agent;
  description = text description;
  is_initial = is_initial;
  is_terminal = is_terminal;
}

abbrev arrow_of : String → String → String → PresetTransition
arrow_of from_key to_key action_name = record {
  from_key = text from_key;
  to_key = text to_key;
  action_name = text action_name;
  description = none;
}

abbrev described_arrow_of : String → String → String → String → PresetTransition
described_arrow_of from_key to_key action_name description = record {
  from_key = text from_key;
  to_key = text to_key;
  action_name = text action_name;
  description = some (text description);
}

abbrev pub standard_contract : WorkflowPreset
standard_contract = record {
  key = text "standard-contract";
  name = text "Standard Contract Lifecycle";
  description =
      text
        "Draft → Negotiate → Sign → Store, with Renew/Amend loops and a Terminate → Archive → Destruct tail.";
  agents =
      agent_of "Drafting" "Authors and edits the initial document draft."
      ∷ agent_of "Negotiation" "Negotiates terms with the counterparty."
      ∷ agent_of "Signatory" "Collects binding signatures."
      ∷ agent_of "Records Management" "Holds active, signed contracts of record."
      ∷ agent_of "Renewals" "Handles renewal requests for active contracts."
      ∷ agent_of "Amendments" "Handles amendment requests for active contracts."
      ∷ agent_of "Termination" "Processes contract termination."
      ∷ agent_of "Archive" "Retains terminated contracts for the retention period."
      ∷ agent_of "Destruction" "Permanently destroys contracts past retention."
      ∷ [];
  steps =
      step_of "draft" "Draft" "Drafting" "Legal authors the initial contract text." true false
      ∷ step_of "negotiate" "Negotiate" "Negotiation" "Terms are discussed with the counterparty."
          false false
      ∷ step_of "sign" "Sign" "Signatory" "Both parties collect binding signatures." false false
      ∷ step_of "store" "Store" "Records Management" "The signed contract is active and on file."
          false false
      ∷ step_of "renew" "Renew" "Renewals" "A renewal request is reviewed before expiry." false
          false
      ∷ step_of "amend" "Amend" "Amendments" "A change to the active contract is reviewed." false
          false
      ∷ step_of "terminate" "Terminate" "Termination" "The contract is being wound down." false
          false
      ∷ step_of "archive" "Archive" "Archive" "Kept on file for the retention period." false false
      ∷ step_of "destruct" "Destruct" "Destruction" "Permanently destroyed past retention." false
          true
      ∷ [];
  transitions =
      arrow_of "draft" "negotiate" "send_for_negotiation"
      ∷ arrow_of "negotiate" "sign" "approve"
      ∷ arrow_of "negotiate" "draft" "request_changes"
      ∷ arrow_of "sign" "store" "complete_signature"
      ∷ arrow_of "store" "renew" "request_renewal"
      ∷ arrow_of "store" "amend" "request_amendment"
      ∷ arrow_of "store" "terminate" "initiate_termination"
      ∷ arrow_of "renew" "store" "approve_renewal"
      ∷ arrow_of "renew" "terminate" "reject_renewal"
      ∷ arrow_of "amend" "store" "approve_amendment"
      ∷ arrow_of "terminate" "archive" "finalize_termination"
      ∷ arrow_of "archive" "destruct" "schedule_destruction"
      ∷ [];
}

abbrev pub simple_approval : WorkflowPreset
simple_approval = record {
  key = text "simple-approval";
  name = text "Simple Approval";
  description =
      text "A minimal Draft → Review → Approved flow with a request-changes loop back to Draft.";
  agents =
      agent_of "Author" "Prepares the document for review."
      ∷ agent_of "Reviewer" "Reviews and approves or sends the document back."
      ∷ [];
  steps =
      step_of "draft" "Draft" "Author" "The author prepares the document." true false
      ∷ step_of "review" "Review" "Reviewer" "A reviewer checks the document." false false
      ∷ step_of "approved" "Approved" "Reviewer" "The document is approved and final." false true
      ∷ [];
  transitions =
      described_arrow_of "draft" "review" "submit" "Send the draft for review."
      ∷ described_arrow_of "review" "approved" "approve" "Approve the document."
      ∷ described_arrow_of "review" "draft" "request_changes" "Send it back with feedback."
      ∷ [];
}

abbrev pub procurement : WorkflowPreset
procurement = record {
  key = text "procurement";
  name = text "Procurement Request";
  description =
      text
        "Request → Approval → Purchasing → Received, with a rejection loop back to the requester.";
  agents =
      agent_of "Requester" "Raises the purchase request."
      ∷ agent_of "Approvals" "Approves or rejects the spend."
      ∷ agent_of "Purchasing" "Places the order with the supplier."
      ∷ agent_of "Receiving" "Confirms delivery of goods or services."
      ∷ [];
  steps =
      step_of "request" "Request" "Requester" "A purchase request is raised." true false
      ∷ step_of "approval" "Approval" "Approvals" "The spend is approved or rejected." false false
      ∷ step_of "purchasing" "Purchasing" "Purchasing" "The order is placed with the supplier."
          false false
      ∷ step_of "received" "Received" "Receiving" "Goods or services are confirmed received." false
          true
      ∷ [];
  transitions =
      described_arrow_of "request" "approval" "submit" "Submit the request for approval."
      ∷ described_arrow_of "approval" "purchasing" "approve" "Approve the spend."
      ∷ described_arrow_of "approval" "request" "reject" "Send it back to the requester."
      ∷ described_arrow_of "purchasing" "received" "confirm_delivery" "Confirm the order arrived."
      ∷ [];
}

-- WORKFLOW_PRESETS
abbrev pub workflow_presets : List WorkflowPreset
workflow_presets = standard_contract ∷ simple_approval ∷ procurement ∷ []
