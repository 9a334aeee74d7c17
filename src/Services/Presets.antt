-- ===== src/Services/Presets.antt =====
-- app/web/routes.py, _create_workflow_from_preset from the name on: the calls of WorkflowService
-- that make a workflow of a preset. Every call commits on its own, so the state that is reached
-- stays when a later call raises. `agent_ids` is the dict that the loop over the agents fills.
use orchestract.Common.{
  none, Option, Option-cases, inl, inr, Result-cases, integrity_error, Memᴰ, sym, ℕ, ◌≡◌, refl, sym,
  ap, ◌∙◌, some, List, [], ◌∷◌, map, Memᴰ, arith, Text, Result, ok, err, ◌>>=◌, bind-ok, bound,
  ok-injective, fold_all, integrity_error, inl, inr, Result-cases,
}
use orchestract.Session.{select_where}
use orchestract.Workflow.Validation.Ready.{IsReady, activate-ok}
use orchestract.Workflow.Presets.{PresetStep, PresetTransition, WorkflowPreset, workflow_presets}
use orchestract.Workflow.Presets.Correct.{wire-IsReady}
use orchestract.Services.Names.{unique_workflow_name}
use orchestract.Services.Workflows.{
  get_definition, is_of_organization, create_definition, add_step_to, add_transition_to,
  activate_definition,
}
use orchestract.Workflow.Definition.{
  WorkflowDefinition, draft, active, create, add_step, add_transition,
}
use orchestract.Workflow.Invariant.{add_step-ok, add_transition-ok}
use orchestract.Workflow.Presets.Materialize.{preset_step, preset_transition, wire}
use orchestract.Services.{Store}
use orchestract.Services.Consistency.{IsLawfulStore, definition_with_id}

-- A call that commits, and what comes after it.
abbrev pub after_commit {ℓ} :
    {S A B : Type ℓ} → Result (A × S) → S → (A → S → Result B × S) → Result B × S
after_commit (ok (a, s')) s rest = rest a s'
after_commit (err e) s rest = (err e, s)

-- A loop of such calls, and what comes after it.
abbrev pub after_loop {ℓ} : {S A B : Type ℓ} → Result A × S → (S → Result B × S) → Result B × S
after_loop (ok a, s) rest = rest s
after_loop (err e, s) rest = (err e, s)

-- for x in xs: await f(x)
unfoldable pub each {ℓ} :
    {S A B : Type ℓ} → (A → S → Result (B × S)) → List A → S → Result (Unit {ℓ}) × S
each f [] s = (ok tt, s)
each f (x ∷ xs) s = after_commit (f x s) s (λ _ s'. each f xs s')

module _ {S : Type 0} (store : Store S) where
  -- The two loops over the preset, for the definition with this id.
  unfoldable pub wire_stored : (Text → ℕ) → WorkflowPreset → ℕ → S → Result (Unit {0}) × S
  unfolding each
  wire_stored agent_ids p n s =
      after_loop
        (each (λ (x : PresetStep). add_step_to store n (preset_step agent_ids x)) p.steps s)
        (each (λ (t : PresetTransition). add_transition_to store n (preset_transition t))
          p.transitions)

  -- _unique_workflow_name for the preset
  abbrev pub workflow_name : ℕ → WorkflowPreset → S → Text
  workflow_name organization_id p s = unique_workflow_name p.name (
      map (λ x. x.slug)
        (select_where store.workflow_definitions (is_of_organization organization_id) s))

  -- What comes after the loop over the agents.
  unfoldable pub materialize : ℕ → (Text → ℕ) → WorkflowPreset → S → Result WorkflowDefinition × S
  unfolding wire_stored unique_workflow_name
  materialize organization_id agent_ids p s =
      after_commit
        (create_definition store organization_id (workflow_name organization_id p s)
          (some p.description) s)
        s
        (λ d s₁. elim d.id [
          | none ↦ (err integrity_error, s₁)
          | some n ↦ after_loop (wire_stored agent_ids p n s₁) (λ s₂. (ok d, s₂))
        ])

  module _ (laws : IsLawfulStore store) where
    -- A loop of calls that load, change and store one definition does to it what the loop of the
    -- changes does.
    each-fold_all :
        {A : Type 0} (n : ℕ) (f : A → S → Result (WorkflowDefinition × S))
        (g : A → WorkflowDefinition → Result WorkflowDefinition)
        → ((x : A) (s : S)
            → f x s ≡ (
                get_definition store n s >>= λ d.
                g x d >>= λ d'. ok (d', store.workflow_definitions.save n d' s)))
        → ((x : A) (d d' : WorkflowDefinition) → g x d ≡ ok d' → d'.id ≡ d.id)
        → (xs : List A) (s : S) (d d' : WorkflowDefinition)
        → store.workflow_definitions.get n s ≡ some d
        → fold_all g xs d ≡ ok d'
        → (s' : S) × (each f xs s ≡ (ok tt, s')) × (store.workflow_definitions.get n s' ≡ some d')
    unfolding each fold_all get_definition
    each-fold_all n f g same kept [] s d d' h q = (s, refl, h ∙ ap some (ok-injective q))
    each-fold_all n f g same kept (x ∷ xs) s d d' h q = elim (bind-ok (g x d) _ q) [
      | bound e r q' ↦
          let (_, i) = laws.definitions.get-rows n s d h in
          let s₁ = store.workflow_definitions.save n e s in
          let stored = laws.definitions.get-save_self n s d e h (kept x d e r ∙ i) in
          let call : f x s ≡ ok (e, s₁) = same x s ∙ rw h (rw r refl) in
          let (s', done, found) = each-fold_all n f g same kept xs s₁ e d' stored q' in
          (s', rw call done, found)
    ]

    wire_stored-wire :
        (agent_ids : Text → ℕ) (p : WorkflowPreset) (n : ℕ) (s : S) (d d' : WorkflowDefinition)
        → store.workflow_definitions.get n s ≡ some d
        → wire agent_ids p d ≡ ok d'
        → (s' : S) × (wire_stored agent_ids p n s ≡ (ok tt, s'))
          × (store.workflow_definitions.get n s' ≡ some d')
    unfolding wire_stored wire add_step_to add_transition_to
    wire_stored-wire agent_ids p n s d d' h q = elim (bind-ok (fold_all _ p.steps d) _ q) [
      | bound e r q' ↦
          let (s₁, steps, found) =
            each-fold_all n (λ (x : PresetStep). add_step_to store n (preset_step agent_ids x))
              (λ (x : PresetStep). add_step (preset_step agent_ids x)) (λ x u. refl)
              (λ x a b k. ap (λ y. y.id) ((add_step-ok (preset_step agent_ids x) a b).0 k).3)
              p.steps s d e h r in
          let (s₂, transitions, found') =
            each-fold_all n
              (λ (t : PresetTransition). add_transition_to store n (preset_transition t))
              (λ (t : PresetTransition). add_transition (preset_transition t)) (λ x u. refl)
              (λ x a b k. ap (λ y. y.id) ((add_transition-ok (preset_transition x) a b).0 k).4)
              p.transitions s₁ e d' found q' in
          (
            s₂,
            ap
                  (λ r. after_loop r (
                    each (λ (t : PresetTransition). add_transition_to store n (preset_transition t))
                      p.transitions))
                  steps
                ∙ transitions,
            found',
          )
    ]

    -- The row that `create_definition` adds is blank.
    created-blank :
        (org : ℕ) (name : Text) (description : Option Text) (s s₁ : S) (d : WorkflowDefinition)
        → create_definition store org name description s ≡ ok (d, s₁)
        → (n : ℕ) × (d.id ≡ some n)
          × (store.workflow_definitions.get n s₁ ≡ some d)
          × (d.status ≡ draft)
          × (d.steps ≡ [])
          × (d.transitions ≡ [])
    unfolding create_definition create
    created-blank org name description s s₁ d h =
        elim (Result-cases (create org name description)) [
          | inr (x, e) ↦ absurd (ground arith)
          | inl (new, e) ↦ elim (Option-cases (store.workflow_definitions.add new s)) [
            | inl f ↦ absurd (ground arith)
            | inr ((n, u), f) ↦
                let stored = laws.definitions.get-add s u new n f in
                let same : d ≡ definition_with_id n new = ground arith in
                let last : s₁ ≡ u = ground arith in
                (
                  n,
                  ground arith,
                  ap (store.workflow_definitions.get n) last ∙ stored ∙ ap some (sym same),
                  ground arith,
                  ground arith,
                  ground arith,
                )
          ]
        ]

    materialized :
        (org : ℕ) (agent_ids : Text → ℕ) (p : WorkflowPreset) (s s₁ s₂ : S) (d : WorkflowDefinition)
        (n : ℕ)
        → create_definition store org (workflow_name org p s) (some p.description) s ≡ ok (d, s₁)
        → d.id ≡ some n
        → wire_stored agent_ids p n s₁ ≡ (ok tt, s₂)
        → materialize org agent_ids p s ≡ (ok d, s₂)
    unfolding materialize
    materialized org agent_ids p s s₁ s₂ d n h i done =
        let then_wire : Option ℕ → Result WorkflowDefinition × S = λ o. elim o [
          | none ↦ (err integrity_error, s₁)
          | some k ↦ after_loop (wire_stored agent_ids p k s₁) (λ s'. (ok d, s'))
        ] in
        rw h (ap then_wire i ∙ ap (λ r. after_loop r (λ s'. (ok d, s'))) done)

    -- Over tables that obey their laws: where `create_definition` succeeds with the name that is
    -- chosen for a ready-made workflow and with its description, the loops over the steps and the
    -- transitions raise no error, whatever ids the agents have. They leave a stored draft that is
    -- ready for activation, and `activate` then succeeds.
    pub materialize-IsReady :
        (org : ℕ) (agent_ids : Text → ℕ) (p : WorkflowPreset) (s s₁ : S) (d : WorkflowDefinition)
        → Memᴰ p workflow_presets
        → create_definition store org (workflow_name org p s) (some p.description) s ≡ ok (d, s₁)
        → (s₂ : S) × (materialize org agent_ids p s ≡ (ok d, s₂))
          × (n : ℕ) × (d.id ≡ some n)
          × (d' : WorkflowDefinition) × (store.workflow_definitions.get n s₂ ≡ some d')
          × (d'.status ≡ draft)
          × IsReady d'
          × (a : WorkflowDefinition) × (s₃ : S) × (activate_definition store n s₂ ≡ ok (a, s₃))
    unfolding materialize activate_definition get_definition
    materialize-IsReady org agent_ids p s s₁ d m h =
        let (n, i, stored, status, steps, transitions) = created-blank org _ _ s s₁ d h in
        let (d', wired, kept, ready) = wire-IsReady p d agent_ids m status steps transitions in
        let (s₂, done, found) = wire_stored-wire agent_ids p n s₁ d d' stored wired in
        let a : WorkflowDefinition = record d' { status = active } in
        let activated = (activate-ok d' a).1 (kept, ready, refl) in
        (
          s₂,
          materialized org agent_ids p s s₁ s₂ d n h i done,
          n,
          i,
          d',
          found,
          kept,
          ready,
          a,
          store.workflow_definitions.save n a s₂,
          rw found (rw activated refl),
        )
