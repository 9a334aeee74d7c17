-- ===== src/Services/Slugs.antt =====
-- The guard of WorkflowService.update_details and the constraint uq_workflow_org_slug.
use mathlib.Core.Path.{subst₂}
use orchestract.Common.{
  ℕ, ◌≤◌, ◌≡◌, sym, ◌∙◌, subst, ◌⊎◌, inl, inr, true, false, Option, some, arith, Bool-cases, Text,
  text_eq_iff, is_empty, strip, slugify, ok, Result-cases,
}
use orchestract.Session.Query.{scalar-count}
use orchestract.Session.{IsLawful, count, select_where}
use orchestract.Workflow.Definition.{WorkflowDefinition, rename, set_description}
use orchestract.Services.{Store}
use orchestract.Services.Workflows.{
  get_definition, has_slug, get_by_slug, guard_slug, update_details,
}
use orchestract.Services.Consistency.{id_of_definition, definition_with_id}

-- The definition that `update_details` writes.
rename-slug :
    (name : Text) (description : Option Text) (d d' : WorkflowDefinition)
    → rename name d ≡ ok d'
    → let new = set_description description d' in
      (new.organization_id ≡ d.organization_id)
      × (new.slug ≡ slugify (strip name))
      × (new.id ≡ d.id)
      × (is_empty (strip name) ≡ false)
unfolding rename set_description
rename-slug name description d d' h = (ground arith, ground arith, ground arith, ground arith)

has_slug-eq :
    (org : ℕ) (slug : Text) (d : WorkflowDefinition)
    → has_slug org slug d ≡ true
    → (d.organization_id ≡ org) × (d.slug ≡ slug)
has_slug-eq org slug d h = (ground arith, (text_eq_iff d.slug slug).0 (ground arith))

module _ {S : Type 0} (store : Store S) where
  abbrev pub slugs : ℕ → Text → S → ℕ
  slugs org slug s = count (has_slug org slug) (store.workflow_definitions.rows s)

  -- No organization has two workflows with one slug.
  pub record UniqueSlugs (s : S) : Type 0 where
    pub at_most_one : (org : ℕ) (slug : Text) → slugs org slug s ≤ 1

  module _ (laws : IsLawful store.workflow_definitions id_of_definition definition_with_id) where
    -- Where the guard lets a name pass, no workflow has its slug, or only the one to be renamed.
    guard_slug-ok :
        (n : ℕ) (s : S) (d : WorkflowDefinition) (trimmed : Text)
        → store.workflow_definitions.get n s ≡ some d
        → is_empty trimmed ≡ false
        → guard_slug store n d trimmed s ≡ ok tt
        → (slugs d.organization_id (slugify trimmed) s ≡ 0)
          ⊎ (has_slug d.organization_id (slugify trimmed) d ≡ true)
    unfolding guard_slug get_by_slug select_where
    guard_slug-ok n s d trimmed h named g =
        elim (Result-cases (get_by_slug store d.organization_id (slugify trimmed) s)) [
          | inr (x, e) ↦ absurd (ground arith)
          | inl (clash, e) ↦
              elim (scalar-count (has_slug d.organization_id (slugify trimmed))
                (store.workflow_definitions.rows s) clash e) [
                  | inl (q, z) ↦ inl z
                  | inr (c, q, one, m, p) ↦
                      let (k, ki, kg) = laws.rows-get s c m in
                      let is_same : c ≡ d = ground arith in
                      inr (
                        subst (λ x. has_slug d.organization_id (slugify trimmed) x ≡ true) is_same
                          p)
                ]
        ]

    -- A write keeps a slug unique if the new row only has it where no other row does.
    saved_slug :
        (n : ℕ) (s : S) (old new : WorkflowDefinition) (org : ℕ) (slug : Text)
        → store.workflow_definitions.get n s ≡ some old
        → new.id ≡ some n
        → slugs org slug s ≤ 1
        → (has_slug org slug new ≡ true → (slugs org slug s ≡ 0) ⊎ (has_slug org slug old ≡ true))
        → slugs org slug (store.workflow_definitions.save n new s) ≤ 1
    saved_slug n s old new org slug h i one free =
        let counted = laws.count-save (has_slug org slug) n s old new h i in
        elim (Bool-cases (has_slug org slug new)) [
          | inr other ↦ ground arith
          | inl here ↦ elim (free here) [ inl z ↦ ground arith | inr p ↦ ground arith ]
        ]

    -- Over a table of definitions that obeys its laws: if no organization has two workflows with
    -- one slug, then none has after a successful call of `update_details`.
    pub update_details-UniqueSlugs :
        (n : ℕ) (name : Text) (description : Option Text) (s s' : S) (d : WorkflowDefinition)
        → update_details store n name description s ≡ ok (d, s')
        → UniqueSlugs s
        → UniqueSlugs s'
    unfolding update_details get_definition
    update_details-UniqueSlugs n name description s s' d h v =
        elim (Result-cases (get_definition store n s)) [
          | inr (x, e) ↦ absurd (ground arith)
          | inl (old, e) ↦ elim (Result-cases (guard_slug store n old (strip name) s)) [
            | inr (x, f) ↦ absurd (ground arith)
            | inl (u, f) ↦ elim (Result-cases (rename name old)) [
              | inr (x, g) ↦ absurd (ground arith)
              | inl (new, g) ↦
                  let stored : store.workflow_definitions.get n s ≡ some old = ground arith in
                  let written = set_description description new in
                  let last : s' ≡ store.workflow_definitions.save n written s = ground arith in
                  let (same_org, new_slug, same_id, named) =
                    rename-slug name description old new g in
                  let (_, i) = laws.get-rows n s old stored in
                  record {
                    at_most_one = λ org slug.
                        subst (λ u. slugs org slug u ≤ 1) (sym last)
                          (saved_slug n s old written org slug stored (same_id ∙ i)
                            (v.at_most_one org slug)
                            (λ p.
                              let (q, r) = has_slug-eq org slug written p in
                              subst₂ (λ x y. (slugs x y s ≡ 0) ⊎ (has_slug x y old ≡ true))
                                (sym same_org ∙ q) (sym new_slug ∙ r)
                                (guard_slug-ok n s old (strip name) stored named f)));
                  }
            ]
          ]
        ]
