-- ===== src/Services/Moves.antt =====
-- The calls of ContractService and the consistency of the tables.
use orchestract.Common.{
  ℕ, ◌≡◌, refl, sym, ap, ◌∙◌, subst, ◌≢◌, inl, inr, Option, some, List, [], ◌∷◌, Memᴰ, arith,
  Option-cases, filter, mem-filter, Text, text, ok, Result-cases,
}
use orchestract.Session.{select_where}
use orchestract.Workflow.Definition.{WorkflowDefinition, draft}
use orchestract.Workflow.Instance.{WorkflowInstance, apply_transition, start, arrive}
use orchestract.Workflow.Instance.Moves.{apply_transition-Moved}
use orchestract.Workflow.Instance.Runs.{
  begun, Run-IsTracked, IsTracked, Moved-IsTracked, saved-IsTracked,
}
use orchestract.Documents.{Contract}
use orchestract.Documents as Documents
use orchestract.Services.{Store}
use orchestract.Services.Workflows.{get_definition}
use orchestract.Services.Contracts.{
  get_contract, start_contract, set_summary, add_document_to, transition_contract, get_instance,
  get_for_contract, definition_of, first, runs_for,
}
use orchestract.Services.Edits.{get_definition-found}
use orchestract.Services.Consistency.{
  IsLawfulStore, IsLinked, IsConsistent, unseen-IsConsistent, save_instance-IsConsistent,
  add_instance-IsConsistent, instance_with_id,
}

start-runs :
    (n : ℕ) (d : WorkflowDefinition) (actor : Text) (i : WorkflowInstance)
    → start n d actor ≡ ok i
    → (d.status ≢ draft) × (i.workflow_definition_id ≡ d.id)
unfolding start
start-runs n d actor i h = (λ e. ground arith, ground arith)

first-mem {ℓ} : {A : Type ℓ} (l : List A) (a : A) → first l ≡ some a → Memᴰ a l
first-mem [] a h = absurd (ground arith)
first-mem (x ∷ l) a h = Memᴰ.head (ground arith)

-- A move keeps the id of the instance and that of its definition.
apply_transition-ids :
    (d : WorkflowDefinition) (a actor : Text) (comment : Option Text) (now : ℕ)
    (i i' : WorkflowInstance)
    → apply_transition d a actor comment now i ≡ ok i'
    → (i'.id ≡ i.id) × (i'.workflow_definition_id ≡ i.workflow_definition_id)
unfolding arrive
apply_transition-ids d a actor comment now i i' h =
    let m = apply_transition-Moved d a actor comment now i i' h in
    (ground (arith, m.result), ground (arith, m.result))

module _ {S : Type 0} (store : Store S) (laws : IsLawfulStore store) where
  -- A write to the contracts alone.
  pub save_contract-IsConsistent :
      (n : ℕ) (c : Contract) (s : S)
      → IsConsistent store s
      → IsConsistent store (store.contracts.save n c s)
  save_contract-IsConsistent n c s =
      unseen-IsConsistent store s (store.contracts.save n c s)
        (λ m. laws.contract_write.get-save n m c s) (laws.contract_write'.rows-save n c s)

  pub summary-IsConsistent :
      (n : ℕ) (summary : Text) (now : ℕ) (s s' : S) (c : Contract)
      → set_summary store n summary now s ≡ ok (c, s')
      → IsConsistent store s
      → IsConsistent store s'
  unfolding set_summary
  summary-IsConsistent n summary now s s' c h v = elim (Result-cases (get_contract store n s)) [
    | inr (x, e) ↦ absurd (ground arith)
    | inl (old, e) ↦
        let last : s' ≡ store.contracts.save n c s = ground arith in
        subst (IsConsistent store) (sym last) (save_contract-IsConsistent n c s v)
  ]

  pub document-IsConsistent :
      (n : ℕ) (name : Text) (now : ℕ) (s s' : S) (c : Contract)
      → add_document_to store n name now s ≡ ok (c, s')
      → IsConsistent store s
      → IsConsistent store s'
  unfolding add_document_to
  document-IsConsistent n name now s s' c h v = elim (Result-cases (get_contract store n s)) [
    | inr (x, e) ↦ absurd (ground arith)
    | inl (old, e) ↦ elim (Result-cases (Documents.add_document name now old)) [
      | inr (x, f) ↦ absurd (ground arith)
      | inl (new, f) ↦
          let last : s' ≡ store.contracts.save n c s = ground arith in
          subst (IsConsistent store) (sym last) (save_contract-IsConsistent n c s v)
    ]
  ]

  -- A fresh instance of a stored definition that is active.
  start-IsLinked :
      (n k c : ℕ) (d : WorkflowDefinition) (actor : Text) (i : WorkflowInstance) (s : S)
      → store.workflow_definitions.get n s ≡ some d
      → start c d actor ≡ ok i
      → IsLinked store s (instance_with_id k i)
  start-IsLinked n k c d actor i s h st =
      let (_, di) = laws.definitions.get-rows n s d h in
      let (released, same) = start-runs c d actor i st in
      record {
        link = n;
        link_stored = same ∙ di;
        definition = d;
        found = h;
        released = released;
        tracked = saved-IsTracked d k (Run-IsTracked (begun c actor st)) refl;
      }

  -- The two rows that a new contract adds.
  added-IsConsistent :
      (n m k : ℕ) (s u z : S) (c : Contract) (d : WorkflowDefinition) (actor : Text)
      (i : WorkflowInstance)
      → store.workflow_definitions.get n s ≡ some d
      → store.contracts.add c s ≡ some (m, u)
      → start m d actor ≡ ok i
      → store.workflow_instances.add i u ≡ some (k, z)
      → IsConsistent store s
      → IsConsistent store z
  added-IsConsistent n m k s u z c d actor i h r t w v =
      let same_definitions = λ (x : ℕ). laws.contract_write.get-add m x c s u r in
      add_instance-IsConsistent store laws k u z i w
        (start-IsLinked n k m d actor i u (same_definitions n ∙ h) t)
        (unseen-IsConsistent store s u same_definitions (laws.contract_write'.rows-add m c s u r) v)

  pub start-IsConsistent :
      (org : ℕ) (title contract_type : Text) (n : ℕ) (actor : Text) (description : Option Text)
      (now : ℕ) (s s' : S) (c : Contract)
      → start_contract store org title contract_type n actor description now s ≡ ok (c, s')
      → IsConsistent store s
      → IsConsistent store s'
  unfolding start_contract
  start-IsConsistent org title contract_type n actor description now s s' c h v =
      elim (Result-cases (get_definition store n s)) [
        | inr (x, e) ↦ absurd (ground arith)
        | inl (d, e) ↦
            elim (Result-cases (Documents.create_contract org title contract_type description)) [
              | inr (x, f) ↦ absurd (ground arith)
              | inl (c0, f) ↦
                  elim (Result-cases (Documents.add_document (text "Main Document") now c0)) [
                    | inr (x, g) ↦ absurd (ground arith)
                    | inl (c1, g) ↦ elim (Option-cases (store.contracts.add c1 s)) [
                      | inl r ↦ absurd (ground arith)
                      | inr ((m, u), r) ↦ elim (Result-cases (start m d actor)) [
                        | inr (x, t) ↦ absurd (ground arith)
                        | inl (i, t) ↦ elim (Option-cases (store.workflow_instances.add i u)) [
                          | inl w ↦ absurd (ground arith)
                          | inr ((k, z), w) ↦
                              let last : s' ≡ z = ground arith in
                              subst (IsConsistent store) (sym last) (
                                added-IsConsistent n m k s u z c1 d actor i
                                  (get_definition-found store laws n s d e) r t w v)
                        ]
                      ]
                    ]
                  ]
            ]
      ]

  pub get_instance-mem :
      (c : ℕ) (s : S) (i : WorkflowInstance)
      → get_instance store c s ≡ ok i
      → Memᴰ i (store.workflow_instances.rows s)
  unfolding get_instance get_for_contract select_where
  get_instance-mem c s i h =
      let found : first (store.newest_first (filter (runs_for c) (store.workflow_instances.rows s)))
          ≡ some i =
        ground arith in
      let sorted = laws.sorted _ i (first-mem _ i found) in
      ((mem-filter (runs_for c) i (store.workflow_instances.rows s)).0 sorted).0

  definition_of-linked :
      (s : S) (i : WorkflowInstance) (d : WorkflowDefinition) (l : IsLinked store s i)
      → definition_of store i s ≡ ok d
      → d ≡ l.definition
  unfolding definition_of get_definition
  definition_of-linked s i d l h = ground (arith, l.link_stored, l.found)

  pub move-IsConsistent :
      (contract_id : ℕ) (a actor : Text) (comment : Option Text) (now : ℕ) (s s' : S)
      (i : WorkflowInstance)
      → transition_contract store contract_id a actor comment now s ≡ ok (i, s')
      → IsConsistent store s
      → IsConsistent store s'
  unfolding transition_contract
  move-IsConsistent contract_id a actor comment now s s' i h v =
      elim (Result-cases (get_instance store contract_id s)) [
        | inr (x, e) ↦ absurd (ground arith)
        | inl (old, e) ↦ elim (Result-cases (definition_of store old s)) [
          | inr (x, f) ↦ absurd (ground arith)
          | inl (d, f) ↦ elim (Result-cases (apply_transition d a actor comment now old)) [
            | inr (x, g) ↦ absurd (ground arith)
            | inl (new, g) ↦
                let m = get_instance-mem contract_id s old e in
                let (k, ki, kg) = laws.instances.rows-get s old m in
                let l = v.linked old m in
                let (same_id, same_link) = apply_transition-ids d a actor comment now old new g in
                let last : s' ≡ store.workflow_instances.save k new s = ground arith in
                let q = definition_of-linked s old d l f in
                subst (IsConsistent store) (sym last) (
                  save_instance-IsConsistent store laws k s old new kg (same_id ∙ ki)
                    (record {
                      link = l.link;
                      link_stored = same_link ∙ l.link_stored;
                      definition = d;
                      found = l.found ∙ ap some (sym q);
                      released = subst (λ x. x.status ≢ draft) (sym q) l.released;
                      tracked =
                          Moved-IsTracked (apply_transition-Moved d a actor comment now old new g)
                            (subst (λ x. IsTracked x old) (sym q) l.tracked);
                    })
                    v)
          ]
        ]
      ]
