-- ===== src/Services/Examples.antt =====
-- A database in memory with one organization, and a contract that runs through its workflow.
use mathlib.Core.List.Memᴰ
use orchestract.Common.{
  String, ◌≡◌, refl, ◌↔◌, true, false, none, some, List, [], ◌∷◌, ◌++◌, arith, any, filter, find,
  text, text_eq, strip, slugify, contains, sorted_set, ok,
}
use orchestract.Session.Memory.{memory}
use orchestract.Session.Part.{part}
use orchestract.Tenancy.Organization.{Organization}
use orchestract.Tenancy.Plans.{team}
use orchestract.Workflow.Definition.{WorkflowDefinition, WorkflowTransition}
use orchestract.Workflow.Instance.{WorkflowInstance}
use orchestract.Services.Slugs.{UniqueSlugs, update_details-UniqueSlugs}
use orchestract.Services.Actions.{transition_contract-available}
use orchestract.Session.{count, select_where, scalar_one_or_none}
use orchestract.Tenancy.Plans.{plan_limits, check_limit}
use orchestract.Workflow.Definition.{
  draft, create, add_step, add_transition, require_draft, get_step, initial_step, rename,
  set_description, transitions_from,
}
use orchestract.Workflow.Validation.{
  explore, offer_all, offer, reachable_from, unreachable_keys, find_validation_issues,
  validate_workflow_graph, activate,
}
use orchestract.Workflow.Instance.{active, start}
use orchestract.Documents.{create_contract, add_document, create_document}
use orchestract.Services.Workflows.{
  get_definition, get_by_slug, guard_slug, create_definition, update_details, add_step_to,
  add_transition_to, activate_definition,
}
use orchestract.Services.Contracts.{
  get_instance, get_for_contract, start_contract, transition_contract, actions_of_contract,
}
use orchestract.Services.Consistency.{IsConsistent}
use orchestract.Services.Requests.{
  Request, new_workflow, new_step, new_transition, activation, new_contract, move, new_copy,
  new_ai_config, handle_all, handle_all-IsConsistent, handle,
}
use orchestract.Services.Db.{Db, db_store, empty_db, db_store-IsLawfulStore}

abbrev pub acme : Organization
acme = record {
  id = some 0;
  name = text "Acme";
  slug = text "acme";
  plan = team;
  stripe_customer_id = none;
  stripe_subscription_id = none;
  subscription_status = none;
}

abbrev pub fresh_db : Db
fresh_db = record empty_db { organizations = acme ∷ [] }

fresh_db-IsConsistent : IsConsistent db_store fresh_db
unfolding part memory
fresh_db-IsConsistent = record {
  built = λ n d h. absurd (ground arith);
  linked = λ i m. absurd (Memᴰ.not-nil m);
}

abbrev opening : List Request
opening =
    new_workflow 0 (text "Review") none
    ∷ new_step 0 (record {
      key = text "drafting";
      name = text "Drafting";
      description = none;
      agent_id = 1;
      is_initial = true;
      is_terminal = false;
    })
    ∷ new_step 0 (record {
      key = text "signed";
      name = text "Signed";
      description = none;
      agent_id = 2;
      is_initial = false;
      is_terminal = true;
    })
    ∷ new_transition 0 (record {
      from_step_key = text "drafting";
      to_step_key = text "signed";
      action_name = text "sign";
      description = none;
    })
    ∷ activation 0
    ∷ new_contract 0 (text "Lease") (text "rent") 0 (text "eva") none 5
    ∷ []

abbrev requests : List Request
requests =
    opening
    ++ move 0 (text "sign") (text "eva") none 6
      ∷ new_copy 0
      ∷ new_ai_config 0 (some true) none none none 7
      ∷ []

handle_all-IsConsistent_example : IsConsistent db_store (handle_all db_store requests fresh_db)
handle_all-IsConsistent_example =
    handle_all-IsConsistent db_store db_store-IsLawfulStore requests fresh_db fresh_db-IsConsistent

-- The state in which the contract has been created, and nobody has signed.
abbrev running : Db
running = handle_all db_store opening fresh_db

running-IsConsistent : IsConsistent db_store running
running-IsConsistent =
    handle_all-IsConsistent db_store db_store-IsLawfulStore opening fresh_db fresh_db-IsConsistent

abbrev opened : WorkflowInstance
opened = record {
  id = some 0;
  contract_id = 0;
  workflow_definition_id = some 0;
  current_step_key = text "drafting";
  status = active;
  completed_at = none;
  history =
      record {
        from_step_key = none;
        to_step_key = text "drafting";
        action_name = none;
        actor = text "eva";
        comment = some (text "workflow started");
      }
      ∷ [];
}

running_instance : get_instance db_store 0 running ≡ ok opened
unfolding handle_all handle create_definition add_step_to add_transition_to activate_definition
    start_contract get_instance get_for_contract get_definition part memory select_where filter
    plan_limits check_limit create add_step add_transition require_draft get_step activate
    validate_workflow_graph find_validation_issues reachable_from explore offer_all offer
    unreachable_keys transitions_from contains sorted_set start initial_step create_contract
    add_document create_document strip slugify find any text_eq
running_instance = refl

transition_contract-available_example :
    ((r : WorkflowInstance × Db) × (transition_contract db_store 0
          (text "sign")
          (text "eva")
          none
          6
          running
        ≡ ok r))
    ↔ ((ts : List WorkflowTransition) × (actions_of_contract db_store 0 running ≡ ok ts)
        × (any (λ t. text_eq t.action_name (text "sign")) ts ≡ true))
transition_contract-available_example =
    transition_contract-available db_store db_store-IsLawfulStore 0 (text "sign") (text "eva") none
      6 running opened running-IsConsistent running_instance

abbrev review_of : String → String → WorkflowDefinition
review_of name slug = record {
  id = some 0;
  organization_id = 0;
  name = text name;
  slug = text slug;
  description = none;
  status = draft;
  steps = [];
  transitions = [];
}

abbrev named_db : WorkflowDefinition → Db
named_db d = record fresh_db { definitions = d ∷ [] }

renamed_review :
    update_details db_store 0 (text "Deals") none (named_db (review_of "Review" "review"))
    ≡ ok (review_of "Deals" "deals", named_db (review_of "Deals" "deals"))
unfolding update_details get_definition guard_slug get_by_slug part memory select_where filter
    scalar_one_or_none rename set_description strip slugify text_eq
renamed_review = refl

named_db-UniqueSlugs : UniqueSlugs db_store (named_db (review_of "Review" "review"))
unfolding part memory count filter
named_db-UniqueSlugs = record { at_most_one = λ org slug. ground arith }

update_details-UniqueSlugs_example : UniqueSlugs db_store (named_db (review_of "Deals" "deals"))
update_details-UniqueSlugs_example =
    update_details-UniqueSlugs db_store db_store-IsLawfulStore.definitions 0 (text "Deals") none
      (named_db (review_of "Review" "review")) (named_db (review_of "Deals" "deals"))
      (review_of "Deals" "deals") renamed_review named_db-UniqueSlugs
