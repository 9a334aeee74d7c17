-- ===== src/Services.antt =====
-- app/application: what the services read and write. `Store` is the part of a UnitOfWork
-- (app/infrastructure/db/unit_of_work.py) that they use, with a table for each repository.
pub mod Workflows
pub mod Names
pub mod Contracts
pub mod Agents
pub mod Roles
pub mod Billing
pub mod Organizations
pub mod Sharing
pub mod Users
pub mod Logins
pub mod Tokens
pub mod Credentials
pub mod Lockout
pub mod Answers
pub mod Signup
pub mod Registration
pub mod SocialAuth
pub mod Compliance
pub mod Gate
pub mod Documents
pub mod Assistant
pub mod Admission
pub mod Db
pub mod Frozen
pub mod Consistency
pub mod Edits
pub mod Moves
pub mod Presets
pub mod Limits
pub mod Copies
pub mod Requests
pub mod Slugs
pub mod Revocation
pub mod Actions
mod Examples
mod NameExamples
mod LinkExamples
mod BillingExamples
mod AccountExamples
mod LoginExamples
mod FileExamples
mod AssistantExamples
use orchestract.Common.{ℕ, Option, none, some, List, [], ◌++◌, Text, text, show_nat}
use orchestract.Session.{Table}
use orchestract.Tenancy.Organization.{Organization}
use orchestract.Tenancy.Plans.{PlanLimits}
use orchestract.Users.Role.{Role}
use orchestract.Workflow.Definition.{WorkflowDefinition}
use orchestract.Workflow.Instance.{WorkflowInstance}
use orchestract.Documents.{Contract}
use orchestract.Agents.{Agent}
use orchestract.Sharing.{ShareLink}
use orchestract.Session.Log.{Log}
use orchestract.Users.User.{User}
use orchestract.Users.Token.{UserSession, UserToken}
use orchestract.Compliance.{TermsAcceptance}
use orchestract.Storage.{StorageConnection}

pub record Store (S : Type 0) : Type 0 where
  pub organizations : Table S Organization
  pub roles : Table S Role
  pub workflow_definitions : Table S WorkflowDefinition
  pub contracts : Table S Contract
  pub agents : Table S Agent
  pub share_links : Table S ShareLink
  pub workflow_instances : Table S WorkflowInstance
  pub users : Table S User
  pub user_sessions : Log S UserSession
  pub user_tokens : Log S UserToken
  pub terms_acceptances : Log S TermsAcceptance
  pub storage_connections : Table S StorageConnection
  -- order_by(WorkflowInstance.started_at.desc())
  pub newest_first : List WorkflowInstance → List WorkflowInstance

-- The message of PlanLimitExceededError.
unfoldable pub limit_message : PlanLimits → Option ℕ → Text → Text
limit_message l limit things =
    text "the "
    ++ l.display_name
    ++ text " plan is limited to "
    ++ elim limit [ none ↦ [] | some n ↦ show_nat n ]
    ++ text " "
    ++ things
    ++ text " -- upgrade to add more"
