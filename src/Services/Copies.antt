-- ===== src/Services/Copies.antt =====
-- The copy of a workflow and the settings of a contract, and the consistency of the tables.
use orchestract.Common.{
  append_assoc, append-nil, ◌++◌, [], ◌∷◌, none, some, ◌≢◌, ℕ, ◌≡◌, sym, ap, ◌∙◌, subst, Bool,
  Option, some, List, [], ◌∷◌, map, Text, ok, Result, bind-ok, or_raise, or_raise-ok, ok-injective,
  bound, fold_all, integrity_error, arith,
}
use orchestract.Session.{select_where}
use orchestract.Workflow.Definition.{
  WorkflowDefinition, create, add_step, add_transition, draft, WorkflowStep, WorkflowTransition,
}
use orchestract.Workflow.Lifecycle.{Built, created, step_added, transition_added, SameGraph}
use orchestract.Documents.{Contract}
use orchestract.Workflow.Invariant.{add_step-ok, add_transition-ok}
use orchestract.Services.Edits.{get_definition-found}
use orchestract.Services.{Store}
use orchestract.Services.Names.{unique_copy_name}
use orchestract.Services.Workflows.{get_definition, duplicate_definition, is_of_organization}
use orchestract.Services.Contracts.{get_contract}
use orchestract.Services.Assistant.{configure_ai, check_model, check_tools}
use orchestract.Services.Consistency.{IsLawfulStore, IsConsistent, add_definition-IsConsistent}
use orchestract.Services.Moves.{save_contract-IsConsistent}

-- What every step of a loop keeps, the loop keeps.
pub fold_all-keeps {κ μ ν} :
    {A : Type κ} {D : Type μ} (P : D → Type ν) (f : A → D → Result D)
    → ((x : A) (d d' : D) → P d → f x d ≡ ok d' → P d')
    → (xs : List A) (d d' : D) → P d
    → fold_all f xs d ≡ ok d'
    → P d'
unfolding fold_all
fold_all-keeps P f keep [] d d' p h = subst P (ok-injective h) p
fold_all-keeps P f keep (x ∷ xs) d d' p h = elim (bind-ok (f x d) _ h) [
  | bound e q h' ↦ fold_all-keeps P f keep xs e d' (keep x d e p q) h'
]

-- What the loop over the steps does to a definition.
fold_all-add_step :
    (xs : List WorkflowStep) (d d' : WorkflowDefinition)
    → fold_all add_step xs d ≡ ok d'
    → d' ≡ record d { steps = d.steps ++ xs }
unfolding fold_all
fold_all-add_step [] d d' h =
    sym (ok-injective h)
    ∙ ap {B = WorkflowDefinition} (λ l. record d { steps = l }) (sym (append-nil d.steps))
fold_all-add_step (x ∷ xs) d d' h = elim (bind-ok (add_step x d) _ h) [
  | bound e q h' ↦
      let (_, _, _, one) = (add_step-ok x d e).0 q in
      fold_all-add_step xs e d' h'
      ∙ ap {A = WorkflowDefinition} {B = WorkflowDefinition}
          (λ y. record y { steps = y.steps ++ xs }) one
      ∙ ap {B = WorkflowDefinition} (λ l. record d { steps = l }) (append_assoc d.steps (x ∷ []) xs)
]

fold_all-add_transition :
    (ts : List WorkflowTransition) (d d' : WorkflowDefinition)
    → fold_all add_transition ts d ≡ ok d'
    → d' ≡ record d { transitions = d.transitions ++ ts }
unfolding fold_all
fold_all-add_transition [] d d' h =
    sym (ok-injective h)
    ∙ ap {B = WorkflowDefinition} (λ l. record d { transitions = l })
        (sym (append-nil d.transitions))
fold_all-add_transition (t ∷ ts) d d' h = elim (bind-ok (add_transition t d) _ h) [
  | bound e q h' ↦
      let (_, _, _, _, one) = (add_transition-ok t d e).0 q in
      fold_all-add_transition ts e d' h'
      ∙ ap {A = WorkflowDefinition} {B = WorkflowDefinition}
          (λ y. record y { transitions = y.transitions ++ ts }) one
      ∙ ap {B = WorkflowDefinition} (λ l. record d { transitions = l })
          (append_assoc d.transitions (t ∷ []) ts)
]

create-blank :
    (org : ℕ) (name : Text) (description : Option Text) (d : WorkflowDefinition)
    → create org name description ≡ ok d
    → (d.status ≡ draft)
      × (d.organization_id ≡ org)
      × (d.description ≡ description)
      × (d.steps ≡ [])
      × (d.transitions ≡ [])
unfolding create
create-blank org name description d h =
    (ground arith, ground arith, ground arith, ground arith, ground arith)

module _ {S : Type 0} (store : Store S) where
  -- The row that a copy adds.
  pub record Copied (n : ℕ) (s : S) (source : WorkflowDefinition) (k : ℕ) (s' : S)
      (d : WorkflowDefinition) : Type 0 where
    pub source_stored : get_definition store n s ≡ ok source
    pub blank : WorkflowDefinition
    pub graphless : WorkflowDefinition
    pub row : WorkflowDefinition
    pub made :
        create source.organization_id
          (unique_copy_name source.name (
            map
              (λ x. x.slug)
              (select_where store.workflow_definitions
                (is_of_organization source.organization_id)
                s)))
          source.description
        ≡ ok blank
    pub with_steps : fold_all add_step source.steps blank ≡ ok graphless
    pub with_transitions : fold_all add_transition source.transitions graphless ≡ ok row
    pub added : store.workflow_definitions.add row s ≡ some (k, s')
    pub result : d ≡ record row { id = some k }

  pub duplicate_definition-Copied :
      (n : ℕ) (s s' : S) (d : WorkflowDefinition)
      → duplicate_definition store n s ≡ ok (d, s')
      → (source : WorkflowDefinition) × (k : ℕ) × Copied n s source k s' d
  unfolding duplicate_definition
  duplicate_definition-Copied n s s' d h = elim (bind-ok (get_definition store n s) _ h) [
    | bound source e₀ h₀ ↦
        elim (bind-ok (create source.organization_id _ source.description) _ h₀) [
          | bound blank e₁ h₁ ↦ elim (bind-ok (fold_all add_step source.steps blank) _ h₁) [
            | bound d₁ e₂ h₂ ↦ elim (bind-ok (fold_all add_transition source.transitions d₁) _ h₂) [
              | bound d₂ e₃ h₃ ↦
                  elim (bind-ok (or_raise (store.workflow_definitions.add d₂ s) integrity_error) _
                    h₃) [
                      | bound (k, u) e₄ h₄ ↦
                          let last = ok-injective h₄ in
                          (
                            source,
                            k,
                            record {
                              source_stored = e₀;
                              blank = blank;
                              graphless = d₁;
                              row = d₂;
                              made = e₁;
                              with_steps = e₂;
                              with_transitions = e₃;
                              added = or_raise-ok _ _ e₄ ∙ ap (λ x. some (k, x.1)) last;
                              result = ap (λ x. x.0) (sym last);
                            },
                          )
                    ]
            ]
          ]
        ]
  ]

  module _ (laws : IsLawfulStore store) where
    pub copy-IsConsistent :
        (n : ℕ) (s s' : S) (d : WorkflowDefinition)
        → duplicate_definition store n s ≡ ok (d, s')
        → IsConsistent store s
        → IsConsistent store s'
    copy-IsConsistent n s s' d h v =
        let (source, k, c) = duplicate_definition-Copied n s s' d h in
        let blank = created source.organization_id _ source.description c.made in
        let steps =
          fold_all-keeps Built add_step (λ x d d' b q. step_added x b q) source.steps c.blank
            c.graphless blank c.with_steps in
        let built =
          fold_all-keeps Built add_transition (λ x d d' b q. transition_added x b q)
            source.transitions c.graphless c.row steps c.with_transitions in
        add_definition-IsConsistent store laws k s s' c.row c.added built v

    pub configure-IsConsistent :
        (n : ℕ) (enabled : Option Bool) (model instructions : Option Text)
        (allowed : Option (List Text)) (now : ℕ) (s s' : S) (c : Contract)
        → configure_ai store n enabled model instructions allowed now s ≡ ok (c, s')
        → IsConsistent store s
        → IsConsistent store s'
    unfolding configure_ai
    configure-IsConsistent n enabled model instructions allowed now s s' c h v =
        elim (bind-ok (check_model model) _ h) [
          | bound _ e₀ h₀ ↦ elim (bind-ok (check_tools allowed) _ h₀) [
            | bound _ e₁ h₁ ↦ elim (bind-ok (get_contract store n s) _ h₁) [
              | bound old e₂ h₂ ↦
                  subst (λ x. IsConsistent store x.1) (ok-injective h₂)
                    (save_contract-IsConsistent store laws n _ s v)
            ]
          ]
        ]

    -- Over tables that obey their laws: a copy of a workflow is stored under an id that was free, as
    -- a draft of the same organization with the same description, steps and transitions, whatever
    -- the status of the workflow, which is stored as it was.
    pub duplicate_definition-SameGraph :
        (n : ℕ) (s s' : S) (d : WorkflowDefinition)
        → duplicate_definition store n s ≡ ok (d, s')
        → (source : WorkflowDefinition) × (store.workflow_definitions.get n s ≡ some source)
          × (store.workflow_definitions.get n s' ≡ some source)
          × (k : ℕ) × (store.workflow_definitions.get k s ≡ none)
          × (store.workflow_definitions.get k s' ≡ some d)
          × (d.status ≡ draft)
          × (d.organization_id ≡ source.organization_id)
          × (d.description ≡ source.description)
          × SameGraph source d
    duplicate_definition-SameGraph n s s' d h =
        let (source, k, c) = duplicate_definition-Copied n s s' d h in
        let there = get_definition-found store laws n s source c.source_stored in
        let fresh = laws.definitions.get-add_fresh s s' c.row k c.added in
        let differ : k ≢ n = λ e. absurd (ground (arith, there, fresh)) in
        let (status, org, description, steps, transitions) =
          create-blank source.organization_id _ source.description c.blank c.made in
        let first = fold_all-add_step source.steps c.blank c.graphless c.with_steps in
        let second =
          fold_all-add_transition source.transitions c.graphless c.row c.with_transitions in
        (
          source,
          there,
          laws.definitions.get-add_ne s s' c.row k n c.added differ ∙ there,
          k,
          fresh,
          laws.definitions.get-add s s' c.row k c.added ∙ ap some (sym c.result),
          ap (λ x. x.status) c.result
              ∙ ap (λ x. x.status) second
              ∙ ap (λ x. x.status) first
              ∙ status,
          ap (λ x. x.organization_id) c.result
              ∙ ap (λ x. x.organization_id) second
              ∙ ap (λ x. x.organization_id) first
              ∙ org,
          ap (λ x. x.description) c.result
              ∙ ap (λ x. x.description) second
              ∙ ap (λ x. x.description) first
              ∙ description,
          record {
            steps =
                ap (λ x. x.steps) c.result
                ∙ ap (λ x. x.steps) second
                ∙ ap (λ x. x.steps) first
                ∙ ap (λ l. l ++ source.steps) steps;
            transitions =
                ap (λ x. x.transitions) c.result
                ∙ ap (λ x. x.transitions) second
                ∙ ap (λ x. x.transitions ++ source.transitions) first
                ∙ ap (λ l. l ++ source.transitions) transitions;
          },
        )
