-- ===== src/Services/Edits.antt =====
-- The calls of WorkflowService and the consistency of the tables.
use orchestract.Common.{
  ℕ, ◌≡◌, refl, sym, ap, subst, inl, inr, Option, some, arith, Option-cases, Text, strip, ok,
  Result-cases,
}
use orchestract.Workflow.Definition.{
  WorkflowStep, WorkflowTransition, WorkflowDefinition, draft, rename, set_description, add_step,
  add_transition, create,
}
use orchestract.Workflow.Validation.{activate}
use orchestract.Workflow.Validation.Ready.{activate-ok}
use orchestract.Workflow.Invariant.{add_step-ok, add_transition-ok}
use orchestract.Workflow.Lifecycle.{
  created, renamed, described, step_added, transition_added, activated,
}
use orchestract.Services.{Store}
use orchestract.Services.Workflows.{
  get_definition, create_definition, guard_slug, update_details, add_step_to, add_transition_to,
  activate_definition,
}
use orchestract.Services.Frozen.{IsEdit}
use orchestract.Services.Consistency.{
  IsLawfulStore, IsConsistent, save_definition-IsConsistent, add_definition-IsConsistent,
}

rename-IsEdit :
    (name : Text) (description : Option Text) (d d' : WorkflowDefinition)
    → rename name d ≡ ok d'
    → IsEdit d (set_description description d')
unfolding rename set_description
rename-IsEdit name description d d' h = record {
  same_id = ground arith;
  frozen =
      λ r. (record { steps = ground arith; transitions = ground arith }, λ q. r (ground arith));
}

-- What only a draft allows keeps nothing frozen.
draft-IsEdit : (d d' : WorkflowDefinition) → d.status ≡ draft → d'.id ≡ d.id → IsEdit d d'
draft-IsEdit d d' p q = record { same_id = q; frozen = λ r. absurd (r p) }

module _ {S : Type 0} (store : Store S) (laws : IsLawfulStore store) where
  pub get_definition-found :
      (n : ℕ) (s : S) (d : WorkflowDefinition)
      → get_definition store n s ≡ ok d
      → store.workflow_definitions.get n s ≡ some d
  unfolding get_definition
  get_definition-found n s d h = ground arith

  pub update-IsConsistent :
      (n : ℕ) (name : Text) (description : Option Text) (s s' : S) (d : WorkflowDefinition)
      → update_details store n name description s ≡ ok (d, s')
      → IsConsistent store s
      → IsConsistent store s'
  unfolding update_details
  update-IsConsistent n name description s s' d h v =
      elim (Result-cases (get_definition store n s)) [
        | inr (x, e) ↦ absurd (ground arith)
        | inl (old, e) ↦ elim (Result-cases (guard_slug store n old (strip name) s)) [
          | inr (x, f) ↦ absurd (ground arith)
          | inl (u, f) ↦ elim (Result-cases (rename name old)) [
            | inr (x, g) ↦ absurd (ground arith)
            | inl (new, g) ↦
                let stored = get_definition-found n s old e in
                let last : s'
                    ≡ store.workflow_definitions.save n (set_description description new) s =
                  ground arith in
                subst (IsConsistent store) (sym last) (
                  save_definition-IsConsistent store laws n s old (set_description description new)
                    stored (rename-IsEdit name description old new g)
                    (described description (renamed name (v.built n old stored) g) refl) v)
          ]
        ]
      ]

  pub step-IsConsistent :
      (n : ℕ) (step : WorkflowStep) (s s' : S) (d : WorkflowDefinition)
      → add_step_to store n step s ≡ ok (d, s')
      → IsConsistent store s
      → IsConsistent store s'
  unfolding add_step_to
  step-IsConsistent n step s s' d h v = elim (Result-cases (get_definition store n s)) [
    | inr (x, e) ↦ absurd (ground arith)
    | inl (old, e) ↦ elim (Result-cases (add_step step old)) [
      | inr (x, g) ↦ absurd (ground arith)
      | inl (new, g) ↦
          let stored = get_definition-found n s old e in
          let (p, _, _, q) = (add_step-ok step old new).0 g in
          let last : s' ≡ store.workflow_definitions.save n new s = ground arith in
          subst (IsConsistent store) (sym last) (
            save_definition-IsConsistent store laws n s old new stored
              (draft-IsEdit old new p (ap (λ x. x.id) q)) (step_added step (v.built n old stored) g)
              v)
    ]
  ]

  pub transition-IsConsistent :
      (n : ℕ) (t : WorkflowTransition) (s s' : S) (d : WorkflowDefinition)
      → add_transition_to store n t s ≡ ok (d, s')
      → IsConsistent store s
      → IsConsistent store s'
  unfolding add_transition_to
  transition-IsConsistent n t s s' d h v = elim (Result-cases (get_definition store n s)) [
    | inr (x, e) ↦ absurd (ground arith)
    | inl (old, e) ↦ elim (Result-cases (add_transition t old)) [
      | inr (x, g) ↦ absurd (ground arith)
      | inl (new, g) ↦
          let stored = get_definition-found n s old e in
          let (p, _, _, _, q) = (add_transition-ok t old new).0 g in
          let last : s' ≡ store.workflow_definitions.save n new s = ground arith in
          subst (IsConsistent store) (sym last) (
            save_definition-IsConsistent store laws n s old new stored
              (draft-IsEdit old new p (ap (λ x. x.id) q))
              (transition_added t (v.built n old stored) g) v)
    ]
  ]

  pub activate-IsConsistent :
      (n : ℕ) (s s' : S) (d : WorkflowDefinition)
      → activate_definition store n s ≡ ok (d, s')
      → IsConsistent store s
      → IsConsistent store s'
  unfolding activate_definition
  activate-IsConsistent n s s' d h v = elim (Result-cases (get_definition store n s)) [
    | inr (x, e) ↦ absurd (ground arith)
    | inl (old, e) ↦ elim (Result-cases (activate old)) [
      | inr (x, g) ↦ absurd (ground arith)
      | inl (new, g) ↦
          let stored = get_definition-found n s old e in
          let (p, _, q) = (activate-ok old new).0 g in
          let last : s' ≡ store.workflow_definitions.save n new s = ground arith in
          subst (IsConsistent store) (sym last) (
            save_definition-IsConsistent store laws n s old new stored
              (draft-IsEdit old new p (ap (λ x. x.id) q)) (activated (v.built n old stored) g) v)
    ]
  ]

  pub create-IsConsistent :
      (org : ℕ) (name : Text) (description : Option Text) (s s' : S) (d : WorkflowDefinition)
      → create_definition store org name description s ≡ ok (d, s')
      → IsConsistent store s
      → IsConsistent store s'
  unfolding create_definition
  create-IsConsistent org name description s s' d h v =
      elim (Result-cases (create org name description)) [
        | inr (x, e) ↦ absurd (ground arith)
        | inl (new, e) ↦ elim (Option-cases (store.workflow_definitions.add new s)) [
          | inl f ↦ absurd (ground arith)
          | inr ((n, u), f) ↦
              let last : s' ≡ u = ground arith in
              subst (IsConsistent store) (sym last) (
                add_definition-IsConsistent store laws n s u new f (created org name description e)
                  v)
        ]
      ]
