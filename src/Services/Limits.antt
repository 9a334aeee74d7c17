-- ===== src/Services/Limits.antt =====
-- The limits of a plan, as the services enforce them and as PlanLimits announces them.
use orchestract.Workflow.Definition.{initial_step, WorkflowDefinition}
use orchestract.Common.{
  ℕ, ◌≡◌, refl, inl, inr, Bool, true, false, not, Option, none, some, List, [], ◌∷◌, arith,
  Bool-cases, length, Text, Result, ok, err, ◌>>=◌, raise_if, or_raise, DomainError,
  integrity_error, text, plan_limit_exceeded, text,
}
use orchestract.Services.{Store, Organization, WorkflowDefinition}
use orchestract.Session.{scalar_one_or_none, select_where}
use orchestract.Tenancy.Plans.{
  fits, check_limit, can_add_user, can_add_contract, can_add_workflow, can_add_agent, plan_limits,
}
use orchestract.Tenancy.Limits.{check_limit-fits}
use orchestract.Passwords.{Bytes, Scrypt}
use orchestract.Users.User as User
use orchestract.Agents as Agents
use orchestract.Workflow.Definition as Definition
use orchestract.Documents as Documents
use orchestract.Documents.{Contract}
use orchestract.Workflow.Instance as Instance
use orchestract.Tenancy.Organization.{Organization}
use orchestract.Services.Users.{is_user_of, get_by_email, create_user}
use orchestract.Services.Agents.{is_agent_of, create_agent}
use orchestract.Services.Workflows.{is_of_organization, create_definition, get_definition}
use orchestract.Services.Contracts.{belongs_to, start_contract}

-- Whether a call ends with PlanLimitExceededError.
abbrev pub is_limit_error : DomainError → Bool
is_limit_error (plan_limit_exceeded _) = true
is_limit_error _ = false

abbrev pub is_limited {ℓ} : {A : Type ℓ} → Result A → Bool
is_limited (err e) = is_limit_error e
is_limited (ok a) = false

bind-is_limited {κ μ} :
    {B : Type κ} {C : Type μ} (m : Result B) (k : B → Result C)
    → is_limited m ≡ false
    → ((b : B) → is_limited (k b) ≡ false)
    → is_limited (m >>= k) ≡ false
bind-is_limited (err e) k h f = h
bind-is_limited (ok b) k h f = f b

or_raise-is_limited {ℓ} :
    {A : Type ℓ} (o : Option A) (e : DomainError)
    → is_limit_error e ≡ false
    → is_limited (or_raise o e) ≡ false
or_raise-is_limited none e h = h
or_raise-is_limited (some a) e h = refl

-- The row that a service adds last.
stored-is_limited {κ μ} :
    {B : Type κ} {C : Type μ} (o : Option B) (k : B → C)
    → is_limited (or_raise o integrity_error >>= λ x. ok (k x)) ≡ false
stored-is_limited none k = refl
stored-is_limited (some b) k = refl

raise_if-is_limited :
    (c : Bool) (e : DomainError) → is_limit_error e ≡ false → is_limited (raise_if c e) ≡ false
raise_if-is_limited true e h = h
raise_if-is_limited false e h = refl

-- A guard on a limit, and calls after it that raise no such error.
guarded-is_limited {ℓ κ} :
    {A : Type ℓ} {B : Type κ} (limit : Option ℕ) (existing : List A) (message : Text)
    (rest : Result B)
    → is_limited rest ≡ false
    → is_limited (check_limit limit existing message >>= λ _. rest)
      ≡ not (fits limit (length existing))
guarded-is_limited limit existing message rest h =
    rw (check_limit-fits limit existing message)
      (elim (Bool-cases (fits limit (length existing))) [ inl e ↦ rw e h | inr e ↦ rw e refl ])

create_user-unlimited :
    (scrypt : Scrypt) (org : ℕ) (name email raw : Text) (role_id : ℕ) (salt : Bytes)
    → is_limited (User.create scrypt org name email raw role_id salt) ≡ false
unfolding User.create
create_user-unlimited scrypt org name email raw role_id salt = ground arith

create_agent-unlimited :
    (org : ℕ) (name : Text) (description : Option Text)
    → is_limited (Agents.create org name description) ≡ false
unfolding Agents.create
create_agent-unlimited org name description = ground arith

create_definition-unlimited :
    (org : ℕ) (name : Text) (description : Option Text)
    → is_limited (Definition.create org name description) ≡ false
unfolding Definition.create
create_definition-unlimited org name description = ground arith

scalar-unlimited {ℓ} : {A : Type ℓ} (l : List A) → is_limited (scalar_one_or_none l) ≡ false
unfolding scalar_one_or_none
scalar-unlimited [] = refl
scalar-unlimited (a ∷ []) = refl
scalar-unlimited (a ∷ b ∷ l) = refl

initial_step-unlimited : (d : WorkflowDefinition) → is_limited (initial_step d) ≡ false
unfolding initial_step
initial_step-unlimited d = or_raise-is_limited _ _ refl

start-unlimited :
    (n : ℕ) (d : WorkflowDefinition) (actor : Text) → is_limited (Instance.start n d actor) ≡ false
unfolding Instance.start
start-unlimited n d actor =
    bind-is_limited _ _ (raise_if-is_limited _ _ refl)
      (λ u. bind-is_limited _ _ (initial_step-unlimited d) (λ i. refl))

create_contract-unlimited :
    (org : ℕ) (title contract_type : Text) (description : Option Text)
    → is_limited (Documents.create_contract org title contract_type description) ≡ false
unfolding Documents.create_contract
create_contract-unlimited org title contract_type description = ground arith

add_document-unlimited :
    (name : Text) (now : ℕ) (c : Contract) → is_limited (Documents.add_document name now c) ≡ false
unfolding Documents.add_document Documents.create_document
add_document-unlimited name now c = ground arith

module _ {S : Type 0} (store : Store S) (org : ℕ) (o : Organization) (s : S)
    (h : store.organizations.get org s ≡ some o) where
  create_user-is_limited :
      (scrypt : Scrypt) (name email raw : Text) (role_id : ℕ) (salt : Bytes)
      → is_limited (create_user store scrypt org name email raw role_id salt s)
        ≡ not (
            can_add_user
              (plan_limits o.plan)
              (length (select_where store.users (is_user_of org) s)))
  unfolding create_user can_add_user get_by_email
  create_user-is_limited scrypt name email raw role_id salt = rw h (
      guarded-is_limited _ _ _ _ (
        bind-is_limited _ _ (scalar-unlimited _) (λ found.
          bind-is_limited _ _ (raise_if-is_limited _ _ refl) (λ u.
            bind-is_limited _ _ (create_user-unlimited scrypt org name email raw role_id salt)
              (λ x. stored-is_limited (store.users.add x s) _)))))

  create_agent-is_limited :
      (name : Text) (description : Option Text)
      → is_limited (create_agent store org name description s)
        ≡ not (
            can_add_agent
              (plan_limits o.plan)
              (length (select_where store.agents (is_agent_of org) s)))
  unfolding create_agent can_add_agent
  create_agent-is_limited name description = rw h (
      guarded-is_limited _ _ _ _ (
        bind-is_limited _ _ (create_agent-unlimited org name description)
          (λ x. stored-is_limited (store.agents.add x s) _)))

  create_definition-is_limited :
      (name : Text) (description : Option Text)
      → is_limited (create_definition store org name description s)
        ≡ not (
            can_add_workflow
              (plan_limits o.plan)
              (length (select_where store.workflow_definitions (is_of_organization org) s)))
  unfolding create_definition can_add_workflow
  create_definition-is_limited name description = rw h (
      guarded-is_limited _ _ _ _ (
        bind-is_limited _ _ (create_definition-unlimited org name description)
          (λ x. stored-is_limited (store.workflow_definitions.add x s) _)))

  start_contract-is_limited :
      (title contract_type : Text) (n : ℕ) (actor : Text) (description : Option Text) (now : ℕ)
      → is_limited (start_contract store org title contract_type n actor description now s)
        ≡ not (
            can_add_contract
              (plan_limits o.plan)
              (length (select_where store.contracts (belongs_to org) s)))
  unfolding start_contract can_add_contract get_definition
  start_contract-is_limited title contract_type n actor description now = rw h (
      guarded-is_limited _ _ _ _ (
        bind-is_limited (get_definition store n s) _ (or_raise-is_limited _ _ refl) (λ d.
          bind-is_limited _ _ (create_contract-unlimited org title contract_type description) (λ c.
            bind-is_limited _ _ (add_document-unlimited (text "Main Document") now c) (λ c'.
              bind-is_limited (or_raise (store.contracts.add c' s) integrity_error) _
                (or_raise-is_limited _ _ refl)
                (λ x.
                  bind-is_limited _ _ (start-unlimited x.0 d actor)
                    (λ i. stored-is_limited (store.workflow_instances.add i x.1) _)))))))

  -- For a stored organization, each of the four services that a plan limits ends with
  -- PlanLimitExceededError exactly where the method of PlanLimits for the same things says that no
  -- more than the organization has can be added.
  pub services_limited :
      ((scrypt : Scrypt) (name email raw : Text) (role_id : ℕ) (salt : Bytes)
        → is_limited (create_user store scrypt org name email raw role_id salt s)
          ≡ not (
              can_add_user
                (plan_limits o.plan)
                (length (select_where store.users (is_user_of org) s))))
      × ((title contract_type : Text) (n : ℕ) (actor : Text) (description : Option Text) (now : ℕ)
          → is_limited (start_contract store org title contract_type n actor description now s)
            ≡ not (
                can_add_contract
                  (plan_limits o.plan)
                  (length (select_where store.contracts (belongs_to org) s))))
      × ((name : Text) (description : Option Text)
          → is_limited (create_definition store org name description s)
            ≡ not (
                can_add_workflow
                  (plan_limits o.plan)
                  (length (select_where store.workflow_definitions (is_of_organization org) s))))
      × ((name : Text) (description : Option Text)
          → is_limited (create_agent store org name description s)
            ≡ not (
                can_add_agent
                  (plan_limits o.plan)
                  (length (select_where store.agents (is_agent_of org) s))))
  services_limited = (
    create_user-is_limited, start_contract-is_limited, create_definition-is_limited,
    create_agent-is_limited,
  )
