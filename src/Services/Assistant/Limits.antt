-- ===== src/Services/Assistant/Limits.antt =====
-- What the plan, the contract's settings and the user's role leave to the assistant.
use orchestract.Common.{
  text_eq_refl, text_eq_iff, text_eq, none, ℕ, ◌≡◌, refl, sym, Option-cases, ap, ◌∙◌, subst, ◌≢◌,
  ◌↔◌, inl, inr, Bool, true, false, ◌&&◌, Option, none, some, List, [], ◌∷◌, arith, Bool-cases,
  filter, Text, text_eq, text_eq_refl, text_eq_iff, contains, contains-cons_iff, ok, bind-ok,
  ok-injective, bound,
}
use orchestract.Tenancy.Organization.{Organization}
use orchestract.Tenancy.Plans.{plan_limits}
use orchestract.Documents.{Contract, AiConfig, set_ai_config}
use orchestract.Services.{Store}
use orchestract.Services.Contracts.{get_contract}
use orchestract.Services.Assistant.{
  ai_model, supported_ai_models, assistant_tool_names, config_enabled, is_available,
  unavailable_reason, resolve_model, tools_of, is_subset, check_model, check_tools, configure_ai,
  non_empty,
}

-- The reason that is shown is missing exactly where the features are available, and neither a
-- contract's settings nor the keys of the server make up for a plan without them.
pub is_available-reason :
    (gemini anthropic : Bool) (o : Organization) (c : Contract)
    → ((is_available gemini anthropic o c ≡ true)
        ↔ (unavailable_reason gemini anthropic o c ≡ none))
      × (is_available gemini anthropic o c ≡ true
          → ((plan_limits o.plan).ai_enabled ≡ true) × (config_enabled c ≢ some false))
unfolding is_available unavailable_reason
is_available-reason gemini anthropic o c =
    ((λ h. ground arith, λ h. ground arith), λ h. (ground arith, λ k. ground arith))

contains-filter :
    (allowed : List Text) (t : Text) (xs : List Text)
    → contains t (filter (λ name. contains name allowed) xs) ≡ (contains t xs && contains t allowed)
unfolding contains filter
contains-filter allowed t [] = refl
contains-filter allowed t (x ∷ xs) = elim (Bool-cases (text_eq t x)) [
  | inl e ↦
      let same = (text_eq_iff t x).0 e in
      elim (Bool-cases (contains x allowed)) [
        | inl f ↦ rw (same, f, text_eq_refl x) (ground arith)
        | inr f ↦ ground (arith, contains-filter allowed t xs, ap (λ y. contains y allowed) same)
      ]
  | inr e ↦ ground (arith, contains-filter allowed t xs)
]

subset-contains :
    (xs ys : List Text) (t : Text)
    → is_subset xs ys ≡ true
    → contains t xs ≡ true
    → contains t ys ≡ true
unfolding is_subset contains
subset-contains [] ys t h m = absurd (let q : false ≡ true = m in ground arith)
subset-contains (x ∷ xs) ys t h m = elim ((contains-cons_iff t x xs).0 m) [
  | inl e ↦ rw e (ground arith)
  | inr m' ↦ subset-contains xs ys t (ground arith) m'
]

check_tools-ok :
    (names : List Text) {u : Unit {0}}
    → check_tools (some names) ≡ ok u
    → is_subset names assistant_tool_names ≡ true
unfolding check_tools
check_tools-ok names h = ground arith

check_model-ok :
    (model : Text) {u : Unit {0}}
    → check_model (some model) ≡ ok u
    → contains model supported_ai_models ≡ true
unfolding check_model
check_model-ok model h = ground arith

supported-non_empty :
    (m : Text) → contains m supported_ai_models ≡ true → non_empty (some m) ≡ some m
unfolding contains text_eq
supported-non_empty [] h = absurd (ground arith)
supported-non_empty (c ∷ s) h = refl

tools-both :
    (allowed : List Text) (t : Text)
    → is_subset allowed assistant_tool_names ≡ true
    → (contains t assistant_tool_names && contains t allowed) ≡ contains t allowed
tools-both allowed t h = elim (Bool-cases (contains t allowed)) [
  | inl e ↦ ground (arith, subset-contains allowed assistant_tool_names t h e)
  | inr e ↦ ground arith
]

-- The model that a contract is answered with: the one it was given, or the default.
abbrev pub model_or_default : Option Text → Text
model_or_default none = ai_model
model_or_default (some model) = model

-- Whether a tool is allowed; without a list, all are.
abbrev pub is_allowed : Option (List Text) → Text → Bool
is_allowed none t = contains t assistant_tool_names
is_allowed (some allowed) t = contains t allowed

set_ai_config-model :
    (g : AiConfig) (now : ℕ) (old : Contract) {u : Unit {0}}
    → check_model g.model ≡ ok u
    → (resolve_model (set_ai_config g now old) ≡ model_or_default g.model)
      × (contains (model_or_default g.model) supported_ai_models ≡ true)
unfolding set_ai_config resolve_model contains text_eq
set_ai_config-model g now old h = elim (Option-cases g.model) [
  | inl e ↦ rw e (refl, refl)
  | inr (model, e) ↦
      let supported = check_model-ok model (ap check_model (sym e) ∙ h) in
      rw e (rw (supported-non_empty model supported) refl, supported)
]

set_ai_config-tools :
    (g : AiConfig) (now : ℕ) (old : Contract) (t : Text) {u : Unit {0}}
    → check_tools g.allowed_tools ≡ ok u
    → contains t (tools_of (set_ai_config g now old)) ≡ is_allowed g.allowed_tools t
unfolding set_ai_config tools_of
set_ai_config-tools g now old t h = elim (Option-cases g.allowed_tools) [
  | inl e ↦ rw e refl
  | inr (allowed, e) ↦
      let subset = check_tools-ok allowed (ap check_tools (sym e) ∙ h) in
      rw e (contains-filter allowed t assistant_tool_names ∙ tools-both allowed t subset)
]

module _ {S : Type 0} (store : Store S) where
  -- Whatever settings `set_ai_config` has written to a contract, with a model or without, and with
  -- a list of tools or without: the contract is answered with the model it was given, or else with
  -- the default, which is a supported model either way; and the assistant has exactly the tools
  -- that were allowed, or else all.
  pub configure_ai-limits :
      (contract_id : ℕ) (enabled : Option Bool) (model instructions : Option Text)
      (allowed : Option (List Text)) (now : ℕ) (s s' : S) (c : Contract)
      → configure_ai store contract_id enabled model instructions allowed now s ≡ ok (c, s')
      → (resolve_model c ≡ model_or_default model)
        × (contains (resolve_model c) supported_ai_models ≡ true)
        × ((t : Text) → contains t (tools_of c) ≡ is_allowed allowed t)
  unfolding configure_ai
  configure_ai-limits contract_id enabled model instructions allowed now s s' c h =
      elim (bind-ok (check_model model) _ h) [
        | bound _ e₀ h₀ ↦ elim (bind-ok (check_tools allowed) _ h₀) [
          | bound _ e₁ h₁ ↦ elim (bind-ok (get_contract store contract_id s) _ h₁) [
            | bound old e₂ h₂ ↦
                let g : AiConfig = record {
                  enabled = enabled;
                  model = model;
                  instructions = non_empty instructions;
                  allowed_tools = allowed;
                } in
                let (same, supported) = set_ai_config-model g now old e₀ in
                subst
                  (λ x.
                    (resolve_model x.0 ≡ model_or_default model)
                    × (contains (resolve_model x.0) supported_ai_models ≡ true)
                    × ((t : Text) → contains t (tools_of x.0) ≡ is_allowed allowed t))
                  (ok-injective h₂)
                  (
                    same,
                    ap (λ m. contains m supported_ai_models) same ∙ supported,
                    λ t. set_ai_config-tools g now old t e₁,
                  )
          ]
        ]
      ]
