-- ===== src/Services/Db.antt =====
-- A database in memory, with a list for each table, and a storage beside it.
use orchestract.Common.{Text, ap, ◌≡◌, ◌∷◌, refl, some, List, [], arith}
use orchestract.Session.Memory.{memory, memory-IsLawful}
use orchestract.Session.Part.{part, part-IsLawful, part-IsSeparate}
use orchestract.Tenancy.Organization.{Organization}
use orchestract.Users.Role.{Role}
use orchestract.Workflow.Definition.{WorkflowDefinition}
use orchestract.Workflow.Instance.{WorkflowInstance}
use orchestract.Documents.{Contract}
use orchestract.Agents.{Agent}
use orchestract.Sharing.{ShareLink}
use orchestract.Services.Revocation.{id_of_link, link_with_id}
use orchestract.Services.{Store}
use orchestract.Services.Consistency.{
  id_of_definition, definition_with_id, id_of_instance, instance_with_id, IsLawfulStore,
}
use orchestract.Session.Log.{log, log-IsLawfulLog}
use orchestract.Session.{IsLawful, IsSeparate}
use orchestract.Services.Signup.{IsLawfulSignup}
use orchestract.Services.Credentials.{IsLawfulAccounts}
use orchestract.Passwords.{Bytes}
use orchestract.Users.User.{User}
use orchestract.Services.Users.{id_of_user, user_with_id}
use orchestract.Users.Token.{UserSession, UserToken}
use orchestract.Compliance.{TermsAcceptance}
use orchestract.Storage.{StorageConnection}

pub record Db : Type 0 where
  pub organizations : List Organization
  pub roles : List Role
  pub definitions : List WorkflowDefinition
  pub contracts : List Contract
  pub agents : List Agent
  pub share_links : List ShareLink
  pub instances : List WorkflowInstance
  pub users : List User
  pub sessions : List UserSession
  pub tokens : List UserToken
  pub acceptances : List TermsAcceptance
  pub connections : List StorageConnection
  -- the files in storage, under their keys
  pub files : List (Text × Bytes)

abbrev pub db_store : Store Db
db_store = record {
  organizations =
      part (λ s. s.organizations) (λ l s. record s { organizations = l })
        (memory (λ o. o.id) (λ n o. record o { id = some n }));
  roles =
      part (λ s. s.roles) (λ l s. record s { roles = l })
        (memory (λ r. some r.id) (λ n r. record r { id = n }));
  workflow_definitions =
      part (λ s. s.definitions) (λ l s. record s { definitions = l })
        (memory id_of_definition definition_with_id);
  contracts =
      part (λ s. s.contracts) (λ l s. record s { contracts = l })
        (memory (λ c. c.id) (λ n c. record c { id = some n }));
  agents =
      part (λ s. s.agents) (λ l s. record s { agents = l })
        (memory (λ a. a.id) (λ n a. record a { id = some n }));
  share_links =
      part (λ s. s.share_links) (λ l s. record s { share_links = l })
        (memory id_of_link link_with_id);
  workflow_instances =
      part (λ s. s.instances) (λ l s. record s { instances = l })
        (memory id_of_instance instance_with_id);
  users = part (λ s. s.users) (λ l s. record s { users = l }) (memory id_of_user user_with_id);
  user_sessions = log (λ s. s.sessions) (λ l s. record s { sessions = l });
  user_tokens = log (λ s. s.tokens) (λ l s. record s { tokens = l });
  terms_acceptances = log (λ s. s.acceptances) (λ l s. record s { acceptances = l });
  storage_connections =
      part (λ s. s.connections) (λ l s. record s { connections = l })
        (memory (λ c. c.id) (λ n c. record c { id = some n }));
  newest_first = λ l. l;
}

-- Nothing is stored.
abbrev pub empty_db : Db
empty_db = record {
  organizations = [];
  roles = [];
  definitions = [];
  contracts = [];
  agents = [];
  share_links = [];
  instances = [];
  users = [];
  sessions = [];
  tokens = [];
  acceptances = [];
  connections = [];
  files = [];
}

pub db_store-IsLawfulStore : IsLawfulStore db_store
db_store-IsLawfulStore = record {
  definitions =
      part-IsLawful (λ s. s.definitions) (λ l s. record s { definitions = l })
        (memory id_of_definition definition_with_id) (λ u s. refl) id_of_definition
        definition_with_id
        (memory-IsLawful id_of_definition definition_with_id (λ n d. refl) (λ n d h. ground arith));
  instances =
      part-IsLawful (λ s. s.instances) (λ l s. record s { instances = l })
        (memory id_of_instance instance_with_id) (λ u s. refl) id_of_instance instance_with_id
        (memory-IsLawful id_of_instance instance_with_id (λ n i. refl) (λ n i h. ground arith));
  definition_write = part-IsSeparate _ _ _ _ _ _ (λ u s. refl);
  instance_write = part-IsSeparate _ _ _ _ _ _ (λ u s. refl);
  contract_write = part-IsSeparate _ _ _ _ _ _ (λ u s. refl);
  contract_write' = part-IsSeparate _ _ _ _ _ _ (λ u s. refl);
  sorted = λ l i m. m;
}

pub users-IsLawful : IsLawful db_store.users id_of_user user_with_id
users-IsLawful =
    part-IsLawful (λ s. s.users) (λ l s. record s { users = l }) (memory id_of_user user_with_id)
      (λ u s. refl) id_of_user user_with_id
      (memory-IsLawful id_of_user user_with_id (λ n u. refl) (λ n u h. ground arith))

organizations-users : IsSeparate db_store.organizations db_store.users
organizations-users = part-IsSeparate _ _ _ _ _ _ (λ u s. refl)

roles-users : IsSeparate db_store.roles db_store.users
roles-users = part-IsSeparate _ _ _ _ _ _ (λ u s. refl)

pub db_store-IsLawfulSignup : IsLawfulSignup db_store
unfolding log part
db_store-IsLawfulSignup = record {
  users = users-IsLawful;
  consents =
      log-IsLawfulLog (λ s. s.acceptances) (λ l s. record s { acceptances = l }) (λ l s. refl);
  tokens = log-IsLawfulLog (λ s. s.tokens) (λ l s. record s { tokens = l }) (λ l s. refl);
  organization_write = organizations-users;
  role_write = roles-users;
  consent_users = λ a s s' h.
      let q : s' ≡ record s { acceptances = a ∷ s.acceptances } = ground arith in
      (ap db_store.users.rows q, λ n. ap (db_store.users.get n) q);
  token_users = λ t s s' h.
      let q : s' ≡ record s { tokens = t ∷ s.tokens } = ground arith in
      (ap db_store.users.rows q, λ n. ap (db_store.users.get n) q);
  token_delete = λ q s. refl;
  token_consents = λ t s s' h.
      let q : s' ≡ record s { tokens = t ∷ s.tokens } = ground arith in
      ap db_store.terms_acceptances.rows q;
}

pub db_store-IsLawfulAccounts : IsLawfulAccounts db_store
unfolding log part
db_store-IsLawfulAccounts = record {
  users = users-IsLawful;
  tokens = log-IsLawfulLog (λ s. s.tokens) (λ l s. record s { tokens = l }) (λ l s. refl);
  users_kept = λ q s. refl;
}
