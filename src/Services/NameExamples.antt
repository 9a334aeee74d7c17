-- ===== src/Services/NameExamples.antt =====
-- Free names, ready-made workflows and the limits of a plan, on small databases.
use orchestract.Common.{
  ℕ, ◌≡◌, refl, false, not, some, List, [], ◌∷◌, Memᴰ, Option, Text, text, length, contains,
  slugify, ok, text_eq, show_nat, none, filter, true, fold_all, any,
}
use orchestract.Session.Memory.{memory}
use orchestract.Session.Part.{part}
use orchestract.Session.{select_where}
use orchestract.Passwords.{Bytes, Scrypt}
use orchestract.Tenancy.Plans.{
  plan_limits, can_add_user, can_add_contract, can_add_workflow, can_add_agent, check_limit,
}
use orchestract.Workflow.Definition.{
  WorkflowDefinition, draft, create, WorkflowStep, active, add_step,
}
use orchestract.Workflow.Presets.{simple_approval}
use orchestract.Workflow.Validation.Ready.{IsReady}
use orchestract.Workflow.Lifecycle.{SameGraph}
use orchestract.Services.Copies.{duplicate_definition-SameGraph}
use orchestract.Services.Names.{unique_copy_name, unique_workflow_name}
use orchestract.Services.Names.Free.{unique_names-free}
use orchestract.Services.Presets.{materialize, workflow_name, materialize-IsReady}
use orchestract.Services.Limits.{is_limited, services_limited}
use orchestract.Services.Users.{is_user_of, create_user}
use orchestract.Services.Agents.{is_agent_of, create_agent}
use orchestract.Services.Workflows.{
  is_of_organization, create_definition, activate_definition, duplicate_definition, get_definition,
}
use orchestract.Services.Contracts.{belongs_to, start_contract}
use orchestract.Services.Db.{Db, db_store, db_store-IsLawfulStore}
use orchestract.Services.Examples.{acme, fresh_db}

abbrev taken : List Text
taken = text "deal-copy" ∷ text "deal-copy-2" ∷ text "deal" ∷ []

third_copy : unique_copy_name (text "Deal") taken ≡ text "Deal (copy 3)"
unfolding unique_copy_name contains slugify text_eq show_nat
third_copy = refl

unique_names-free_example :
    (contains (slugify (unique_copy_name (text "Deal") taken)) taken ≡ false)
    × (contains (slugify (unique_workflow_name (text "Deal") taken)) taken ≡ false)
unique_names-free_example = unique_names-free (text "Deal") taken

abbrev blank_approval : WorkflowDefinition
blank_approval = record {
  id = some 0;
  organization_id = 0;
  name = simple_approval.name;
  slug = text "simple-approval";
  description = some simple_approval.description;
  status = draft;
  steps = [];
  transitions = [];
}

abbrev approval_db : Db
approval_db = record fresh_db { definitions = record blank_approval { id = none } ∷ [] }

approval_created :
    create_definition db_store 0
      (workflow_name db_store 0 simple_approval fresh_db)
      (some simple_approval.description)
      fresh_db
    ≡ ok (blank_approval, approval_db)
unfolding create_definition create unique_workflow_name contains slugify part memory check_limit
    plan_limits select_where filter
approval_created = refl

materialize-IsReady_example :
    (s₂ : Db) × (materialize db_store 0 (λ name. 7) simple_approval fresh_db
      ≡ (ok blank_approval, s₂))
    × (n : ℕ) × (blank_approval.id ≡ some n)
    × (d' : WorkflowDefinition) × (db_store.workflow_definitions.get n s₂ ≡ some d')
    × (d'.status ≡ draft)
    × IsReady d'
    × (a : WorkflowDefinition) × (s₃ : Db) × (activate_definition db_store n s₂ ≡ ok (a, s₃))
materialize-IsReady_example =
    materialize-IsReady db_store db_store-IsLawfulStore 0 (λ name. 7) simple_approval fresh_db
      approval_db blank_approval (Memᴰ.tail (Memᴰ.head refl)) approval_created

services_limited_example :
    ((scrypt : Scrypt) (name email raw : Text) (role_id : ℕ) (salt : Bytes)
      → is_limited (create_user db_store scrypt 0 name email raw role_id salt fresh_db)
        ≡ not (
            can_add_user
              (plan_limits acme.plan)
              (length (select_where db_store.users (is_user_of 0) fresh_db))))
    × ((title contract_type : Text) (n : ℕ) (actor : Text) (description : Option Text) (now : ℕ)
        → is_limited
            (start_contract db_store 0 title contract_type n actor description now fresh_db)
          ≡ not (
              can_add_contract
                (plan_limits acme.plan)
                (length (select_where db_store.contracts (belongs_to 0) fresh_db))))
    × ((name : Text) (description : Option Text)
        → is_limited (create_definition db_store 0 name description fresh_db)
          ≡ not (
              can_add_workflow (plan_limits acme.plan) (
                length
                  (select_where db_store.workflow_definitions (is_of_organization 0) fresh_db))))
    × ((name : Text) (description : Option Text)
        → is_limited (create_agent db_store 0 name description fresh_db)
          ≡ not (
              can_add_agent
                (plan_limits acme.plan)
                (length (select_where db_store.agents (is_agent_of 0) fresh_db))))
unfolding part memory
services_limited_example = services_limited db_store 0 acme fresh_db refl

abbrev signing : WorkflowStep
signing = record {
  key = text "sign";
  name = text "Sign";
  description = none;
  agent_id = 7;
  is_initial = true;
  is_terminal = true;
}

abbrev deal : WorkflowDefinition
deal = record {
  id = some 0;
  organization_id = 0;
  name = text "Deal";
  slug = text "deal";
  description = none;
  status = active;
  steps = signing ∷ [];
  transitions = [];
}

abbrev deal_copy : WorkflowDefinition
deal_copy = record deal {
  id = some 1;
  name = text "Deal (copy)";
  slug = text "deal-copy";
  status = draft;
}

abbrev deal_db : Db
deal_db = record fresh_db { definitions = record deal { id = none } ∷ [] }

abbrev copied_db : Db
copied_db = record fresh_db {
  definitions = record deal { id = none } ∷ record deal_copy { id = none } ∷ [];
}

deal_copied : duplicate_definition db_store 0 deal_db ≡ ok (deal_copy, copied_db)
unfolding duplicate_definition create unique_workflow_name contains slugify get_definition part
    memory select_where filter text_eq fold_all add_step any
deal_copied = refl

duplicate_definition-SameGraph_example :
    (source : WorkflowDefinition) × (db_store.workflow_definitions.get 0 deal_db ≡ some source)
    × (db_store.workflow_definitions.get 0 copied_db ≡ some source)
    × (k : ℕ) × (db_store.workflow_definitions.get k deal_db ≡ none)
    × (db_store.workflow_definitions.get k copied_db ≡ some deal_copy)
    × (deal_copy.status ≡ draft)
    × (deal_copy.organization_id ≡ source.organization_id)
    × (deal_copy.description ≡ source.description)
    × SameGraph source deal_copy
duplicate_definition-SameGraph_example =
    duplicate_definition-SameGraph db_store db_store-IsLawfulStore 0 deal_db copied_db deal_copy
      deal_copied
