-- ===== src/Common/Results.antt =====
-- app/domain/*/exceptions.py: the errors that the domain raises, as values, and the order in
-- which a method that may raise goes on.
use mathlib.Core.Path.{◌≡◌, refl}
use mathlib.Core.Logic.{◌⊎◌, inl, inr}
use mathlib.Core.Bool.{Bool, true, false}
use mathlib.Core.List.{List, [], ◌∷◌}
use mathlib.Core.Option.{Option, none, some}
use Prim.Native.Nat.{ℕ}
use native.Mathlib.Omega.{arith}
use orchestract.Common.Texts.{Text}

-- What a NotFoundError was looking for.
pub data Entity : Type 0 where
  organization agent workflow_definition contract workflow_instance document : Entity
  file_version storage_connection share_link role user stripe_customer : Entity

-- One constructor for each subclass of DomainError, with the values it is raised with.
pub data DomainError : Type 0 where
  not_found : Entity → ℕ → DomainError
  empty_workflow_name empty_role_name empty_user_name empty_user_email : DomainError
  empty_agent_name empty_contract_title empty_document_name empty_organization_name : DomainError
  duplicate_workflow_name duplicate_role_name duplicate_email : Text → DomainError
  duplicate_step_key unknown_step : Text → DomainError
  multiple_initial_steps : DomainError
  ambiguous_transition : Text → Text → DomainError
  workflow_definition_locked : Option ℕ → DomainError
  workflow_validation : Text → DomainError
  inactive_workflow : Option ℕ → DomainError
  invalid_transition : Text → Text → DomainError
  workflow_already_completed : Option ℕ → DomainError
  plan_limit_exceeded : Text → DomainError
  invalid_credentials email_not_verified invalid_or_expired_token permission_denied : DomainError
  social_login : Text → DomainError
  ai_unavailable unsupported_content_type invalid_ai_config : Text → DomainError
  no_versions : DomainError
  share_link_not_active invalid_share_password no_shared_documents : DomainError
  read_only_provider_cannot_be_primary duplicate_provider_connection : Text → DomainError
  no_primary_storage_connection : ℕ → DomainError
  -- No DomainError, but the exceptions of the database layer and of Python's lists.
  integrity_error multiple_results_found index_error : DomainError

pub data Result {ℓ} (A : Type ℓ) : Type ℓ where
  err : DomainError → Result A
  ok : A → Result A

-- if c: raise e
abbrev pub raise_if : Bool → DomainError → Result (Unit {0})
raise_if true e = err e
raise_if false e = ok tt

-- if x is None: raise e
abbrev pub or_raise {ℓ} : {A : Type ℓ} → Option A → DomainError → Result A
or_raise none e = err e
or_raise (some a) e = ok a

-- What comes after a statement that may raise.
infixl 5 ◌>>=◌ ◌>>◌
abbrev pub ◌>>=◌ {κ μ} : {B : Type κ} {C : Type μ} → Result B → (B → Result C) → Result C
err raised >>= rest = err raised
ok value >>= rest = rest value

abbrev pub ◌>>◌ {κ μ} : {B : Type κ} {C : Type μ} → Result B → Result C → Result C
first >> rest = first >>= λ _. rest

-- for x in xs: d = f(x, d)
unfoldable pub fold_all {κ μ} :
    {A : Type κ} {D : Type μ} → (A → D → Result D) → List A → D → Result D
fold_all f [] d = ok d
fold_all f (x ∷ xs) d = f x d >>= fold_all f xs

pub Result-cases {ℓ} :
    {A : Type ℓ} (m : Result A) → ((a : A) × (m ≡ ok a)) ⊎ ((e : DomainError) × (m ≡ err e))
Result-cases (ok a) = inl (a, refl)
Result-cases (err e) = inr (e, refl)

-- A chain that succeeds has a first part that succeeds, and a rest that does.
pub data Succeeds {κ μ} {B : Type κ} {C : Type μ} (m : Result B) (k : B → Result C) (c : C)
    : Type (κ ⊔ μ) where
  bound : (b : B) → m ≡ ok b → k b ≡ ok c → Succeeds m k c

pub bind-ok {κ μ} :
    {B : Type κ} {C : Type μ} (m : Result B) (k : B → Result C) {c : C}
    → (m >>= k) ≡ ok c
    → Succeeds m k c
bind-ok (err e) k h = absurd (ground arith)
bind-ok (ok b) k h = Succeeds.bound b refl h

pub or_raise-ok {ℓ} :
    {A : Type ℓ} (o : Option A) (e : DomainError) {a : A} → or_raise o e ≡ ok a → o ≡ some a
or_raise-ok none e h = absurd (ground arith)
or_raise-ok (some a) e h = ground arith

pub raise_if-ok : (c : Bool) (e : DomainError) {u : Unit {0}} → raise_if c e ≡ ok u → c ≡ false
raise_if-ok true e h = absurd (ground arith)
raise_if-ok false e h = refl

pub ok-injective {ℓ} : {A : Type ℓ} {a b : A} → ok a ≡ ok b → a ≡ b
ok-injective h = ground arith
