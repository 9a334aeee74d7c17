-- ===== src/Services/AssistantExamples.antt =====
-- The settings of a contract and the tools of the assistant, in the database in memory.
use orchestract.Common.{
  ◌≡◌, refl, true, false, none, some, [], ◌∷◌, ◌++◌, Text, text, text_eq, contains, ok, err,
  permission_denied, filter, find, any, strip, strip_chars, strip_left, strip_right, is_space,
}
use orchestract.Users.Permissions.{may_act, can_edit_step, list_for_agent}
use orchestract.Session.{select_where}
use orchestract.Users.User.{User}
use orchestract.Users.Role.{Role}
use orchestract.Documents as Documents
use orchestract.Documents.{create_document, Document, Contract, set_ai_config}
use orchestract.Workflow.Definition.{WorkflowStatus, WorkflowDefinition, WorkflowStep, get_step}
use orchestract.Workflow.Instance.{InstanceStatus, WorkflowInstance}
use orchestract.Session.Part.{part}
use orchestract.Session.Memory.{memory}
use orchestract.Services.Assistant.{
  add_document_to_contract, configure_ai, resolve_model, tools_of, supported_ai_models,
}
use orchestract.Services.Assistant.Permitted.{
  run_tool, add_document, IsPermitted, run_tool-IsPermitted,
}
use orchestract.Services.Assistant.Limits.{configure_ai-limits, is_allowed}
use orchestract.Services.Contracts.{
  get_contract, assert_can_edit_contract_step, get_instance, definition_of, get_for_contract,
  add_document_to,
}
use orchestract.Services.Db.{Db, empty_db, db_store}
use orchestract.Services.FileExamples.{get_file, lease_file, lease_db, put_file}

abbrev limited : Contract
limited = record lease_file {
  ai_config = some (record {
    enabled = none;
    model = some (text "claude-haiku-4-5");
    instructions = none;
    allowed_tools = some (text "add_document_to_contract" ∷ []);
  });
  updated_at = some 50;
}

lease_limited :
    configure_ai db_store 0 none
      (some (text "claude-haiku-4-5"))
      (some [])
      (some (text "add_document_to_contract" ∷ []))
      50
      lease_db
    ≡ ok (limited, record empty_db { contracts = limited ∷ [] })
unfolding configure_ai contains text_eq get_contract part memory set_ai_config
lease_limited = refl

configure_ai-limits_example :
    (resolve_model limited ≡ text "claude-haiku-4-5")
    × (contains (resolve_model limited) supported_ai_models ≡ true)
    × ((t : Text)
        → contains t (tools_of limited)
          ≡ is_allowed (some (text "add_document_to_contract" ∷ [])) t)
configure_ai-limits_example =
    configure_ai-limits db_store 0 none (some (text "claude-haiku-4-5")) (some [])
      (some (text "add_document_to_contract" ∷ [])) 50 lease_db
      (record empty_db { contracts = limited ∷ [] }) limited lease_limited

abbrev review_step : WorkflowStep
review_step = record {
  key = text "review";
  name = text "Review";
  description = none;
  agent_id = 9;
  is_initial = true;
  is_terminal = false;
}

abbrev review : WorkflowDefinition
review = record {
  id = some 0;
  organization_id = 0;
  name = text "Review";
  slug = text "review";
  description = none;
  status = WorkflowStatus.active;
  steps = review_step ∷ [];
  transitions = [];
}

abbrev reviewed : WorkflowInstance
reviewed = record {
  id = some 0;
  contract_id = 0;
  workflow_definition_id = some 0;
  current_step_key = text "review";
  status = InstanceStatus.active;
  completed_at = none;
  history = [];
}

abbrev lawyers : Role
lawyers = record {
  id = 0;
  organization_id = 0;
  name = text "Lawyers";
  slug = text "lawyers";
  description = none;
  agent_id = some 9;
}

abbrev clerk : User
clerk = record {
  id = some 0;
  organization_id = 0;
  name = text "Cleo";
  email = text "cleo@x.org";
  password_hash = none;
  google_sub = none;
  role_id = 3;
  is_active = true;
  email_verified_at = some 1;
  locale = none;
}

abbrev review_db : Db
review_db = record empty_db {
  contracts = lease_file ∷ [];
  definitions = review ∷ [];
  instances = reviewed ∷ [];
  roles = lawyers ∷ [];
}

abbrev lawyer : User
lawyer = record clerk { name = text "Lena"; role_id = 0 }

abbrev annex : Document
annex = record {
  id = none;
  name = text "Annex";
  current_version_no = 0;
  summary = none;
  summary_generated_at = none;
  updated_at = none;
  versions = [];
}

abbrev annexed_db : Db
annexed_db = record review_db {
  contracts =
      record lease_file { documents = lease_file.documents ++ annex ∷ []; updated_at = some 80 }
      ∷ [];
}

annex_added :
    run_tool db_store put_file get_file 0 lawyer 80 (add_document (text "Annex")) review_db
    ≡ ok annexed_db
unfolding run_tool add_document_to_contract assert_can_edit_contract_step get_instance
    get_for_contract select_where filter part memory definition_of get_step find text_eq may_act
    can_edit_step list_for_agent any add_document_to get_contract Documents.add_document
    create_document strip strip_chars strip_left strip_right is_space
annex_added = refl

clerk_refused :
    run_tool db_store put_file get_file 0 clerk 80 (add_document (text "Annex")) review_db
    ≡ err permission_denied
unfolding run_tool add_document_to_contract assert_can_edit_contract_step get_instance select_where
    filter part memory definition_of get_step find text_eq may_act can_edit_step list_for_agent any
clerk_refused = refl

run_tool-IsPermitted_example : IsPermitted db_store 0 lawyer review_db
run_tool-IsPermitted_example =
    run_tool-IsPermitted db_store put_file get_file 0 lawyer 80 (add_document (text "Annex"))
      review_db annexed_db annex_added
