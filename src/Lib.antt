-- ===== src/Lib.antt =====
-- orchestract: contracts that run through workflows, for organizations on a plan.
--
-- The program is a FastAPI application with domain objects (app/domain), services that load and
-- store them in a unit of work (app/application), and adapters. The model covers the domain
-- objects, the services that hold rules of their own, and the pages that log people in and out.
--
-- Parts, with the file that models each:
--   Common: Booleans, numbers, lists and texts; Common/Texts has Python's str with
--     slugify (app/domain/shared/types.py), Common/Results the errors of
--     app/domain/*/exceptions.py.
--   Workflow/Definition: WorkflowDefinition, app/domain/workflow/models.py.
--   Workflow/Validation: app/domain/workflow/validation.py and WorkflowDefinition.activate.
--     Reachability, Rounds and Ready below it show what the search and the checks find.
--   Workflow/Invariant, Workflow/Lifecycle: what every definition keeps.
--   Workflow/Instance: WorkflowInstance, app/domain/workflow_instances/models.py, a contract's run
--     through a definition. Moves, Runs and Progress below it are about single moves, whole runs,
--     and the way to completion.
--   Workflow/Presets: app/application/workflow_presets.py. Services/Presets has the calls of
--     _create_workflow_from_preset (app/web/routes.py).
--   Passwords: app/domain/shared/password.py, used by users and share links.
--   Tenancy/Plans, Tenancy/Organization: app/domain/tenancy/plans.py and models.py.
--   Users/Role, Users/User, Users/Token: app/domain/users/models.py.
--   Users/Permissions: app/domain/users/permissions.py and RoleService.can_edit_step.
--   Sharing: app/domain/sharing/models.py.
--   Session: what the repositories use of SQLAlchemy's session, as an interface with laws;
--     Session/Memory is a table that has them.
--   Storage: app/domain/storage/models.py; Storage/Service is app/application/storage_service.py
--     over such a table.
--   Documents: app/domain/documents/models.py and app/domain/contracts/models.py.
--   Agents: app/domain/agents/models.py.
--   Services: the tables that the services use; Services/Workflows is
--     app/application/workflow_service.py, Services/Contracts app/application/contract_service.py
--     and permissions.py; Services/Agents, Services/Roles, Services/Sharing,
--     Services/Organizations and Services/Billing are agent_service.py, role_service.py,
--     sharing_service.py, organization_service.py and billing_service.py beside them. Where a
--     service method has the name of the method it calls, the model adds what it works on (add_step_to,
--     activate_definition, start_contract, get_instance).
--     Frozen, Consistency, Edits, Moves, Copies and Requests below it show what the tables keep,
--     Slugs, Actions, Limits and Revocation what single calls do. Session/Part makes tables that are
--     parts of one state.
--   Services/Names: _unique_copy_name of workflow_service.py and _unique_workflow_name of
--     app/web/routes.py; Numerals, Slugs and Free below it are about the slugs of numbered names.
--   Compliance: app/domain/compliance. Services/Compliance is app/application/compliance_service.py.
--   Services/Users, Services/Logins, Services/Tokens: app/application/user_service.py, cut into the
--     accounts, the sessions and the mailed tokens. Session/Log is the interface of the tables whose
--     rows are only added and deleted. Credentials, Answers and Lockout are about tokens, the
--     password login, and who is shut out.
--   Services/Registration, Services/SocialAuth: registration_service.py and social_auth_service.py
--     of app/application, with the answer of Google (app/infrastructure/auth/google_oidc.py).
--     Services/Signup and the modules below it are about the accounts that these make.
--   Services/Gate: enforce_login_and_membership of app/api/deps.py, which calls Logins, Compliance
--     and Roles for every page of an organization. Services/Admission is about whom it admits.
--   Services/Documents: app/application/document_service.py; Files below it is about stored files.
--   Services/Assistant: app/application/ai_service.py and ContractService.set_ai_config; Limits
--     and Permitted below it are about what the assistant may do, and Summary makes the summary of
--     a contract. Its tools call Contracts and Documents.
--   Locales: app/infrastructure/i18n/__init__.py and _negotiate_and_set_locale of app/api/deps.py.
--   Pages: the pages for login, mailed links, logout, consent and language of app/web/routes.py;
--     Sessions below it is about the requests that follow a login.
--   Examples below a part: its witnesses and tests.
--
-- State and operations. A class is a record, a method that changes the object a function to the
-- new object, and one that may raise a function to a Result. Names are those of the source. Where
-- the source asks for the time, a random token or a salt, the model takes it as an argument.
-- A unit of work is a function from the state of the tables to a result with the new state; an
-- exception rolls back, so an error comes without a state.
--
-- Fuel. The search of validation.py takes one unit for each round of its while loop, and is given
-- one more than there are transitions: each round but the first takes a step that a transition has
-- marked for the first time. The loops that count a suffix up until a name is free take one unit
-- for each number, and are given one more than there are slugs: the slugs of the names differ.
--
-- Parameters. scrypt of hashlib; the tables of the database with their laws; the storage adapters,
-- as an upload and a download; the call of the language model; Babel's negotiate_locale and
-- Python's float, by the rank of the weight that it reads.
--
-- Not modelled: the readings of lists, the loop of _create_workflow_from_preset that makes the
-- agents of a preset, the transcript of the assistant, the sessions of Stripe; the other routes,
-- API schemas, templates and translations, the adapters for cloud storage, mail, Stripe, OIDC and
-- the language model, migrations and seed data; columns that no method reads. str.lower is exact on
-- ASCII only. A weight NaN in Accept-Language, which compares with nothing, has no rank.
pub mod Common
pub mod Workflow
pub mod Session
pub mod Passwords
pub mod Tenancy
pub mod Users
pub mod Sharing
pub mod Storage
pub mod Documents
pub mod Agents
pub mod Compliance
pub mod Locales
pub mod Services
pub mod Pages
