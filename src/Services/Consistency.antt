-- ===== src/Services/Consistency.antt =====
-- What the tables of definitions and instances keep between the calls of the services.
use orchestract.Common.{
  ℕ, ◌≡◌, refl, sym, ◌∙◌, subst, ◌≢◌, inl, inr, Option, some, List, Memᴰ, arith, ◌==◌, Bool-cases,
}
use orchestract.Session.{IsLawful, IsSeparate}
use orchestract.Workflow.Definition.{WorkflowDefinition, draft}
use orchestract.Workflow.Lifecycle.{Built, saved}
use orchestract.Workflow.Instance.{WorkflowInstance}
use orchestract.Workflow.Instance.Runs.{IsTracked}
use orchestract.Services.{Store}
use orchestract.Services.Frozen.{IsEdit, IsTracked-SameGraph}

abbrev pub id_of_definition : WorkflowDefinition → Option ℕ
id_of_definition d = d.id

abbrev pub definition_with_id : ℕ → WorkflowDefinition → WorkflowDefinition
definition_with_id n d = record d { id = some n }

abbrev pub id_of_instance : WorkflowInstance → Option ℕ
id_of_instance i = i.id

abbrev pub instance_with_id : ℕ → WorkflowInstance → WorkflowInstance
instance_with_id n i = record i { id = some n }

module _ {S : Type 0} (store : Store S) where
  -- What the services rely on: each table is lawful, a write to one leaves the others alone, and
  -- sorting a list of instances adds none.
  pub record IsLawfulStore : Type 0 where
    pub definitions : IsLawful store.workflow_definitions id_of_definition definition_with_id
    pub instances : IsLawful store.workflow_instances id_of_instance instance_with_id
    pub definition_write : IsSeparate store.workflow_definitions store.workflow_instances
    pub instance_write : IsSeparate store.workflow_instances store.workflow_definitions
    pub contract_write : IsSeparate store.contracts store.workflow_definitions
    pub contract_write' : IsSeparate store.contracts store.workflow_instances
    pub sorted :
        (l : List WorkflowInstance) (i : WorkflowInstance)
        → Memᴰ i (store.newest_first l)
        → Memᴰ i l

  -- The instance runs through a stored definition that is no longer a draft.
  pub record IsLinked (s : S) (i : WorkflowInstance) : Type 0 where
    pub link : ℕ
    pub link_stored : i.workflow_definition_id ≡ some link
    pub definition : WorkflowDefinition
    pub found : store.workflow_definitions.get link s ≡ some definition
    pub released : definition.status ≢ draft
    pub tracked : IsTracked definition i

  -- Every stored definition is one that its methods lead to, and every stored instance is linked.
  pub record IsConsistent (s : S) : Type 0 where
    pub built :
        (n : ℕ) (d : WorkflowDefinition) → store.workflow_definitions.get n s ≡ some d → Built d
    pub linked : (i : WorkflowInstance) → Memᴰ i (store.workflow_instances.rows s) → IsLinked s i

  -- A write that both tables do not see.
  pub unseen-IsConsistent :
      (s s' : S)
      → ((n : ℕ) → store.workflow_definitions.get n s' ≡ store.workflow_definitions.get n s)
      → store.workflow_instances.rows s' ≡ store.workflow_instances.rows s
      → IsConsistent s
      → IsConsistent s'
  unseen-IsConsistent s s' g r v = record {
    built = λ n d h. v.built n d (sym (g n) ∙ h);
    linked = λ i m.
        let l = v.linked i (subst (Memᴰ i) r m) in
        record {
          link = l.link;
          link_stored = l.link_stored;
          definition = l.definition;
          found = g l.link ∙ l.found;
          released = l.released;
          tracked = l.tracked;
        };
  }

  module _ (laws : IsLawfulStore) where
    pub save_definition-IsConsistent :
        (n : ℕ) (s : S) (d d' : WorkflowDefinition)
        → store.workflow_definitions.get n s ≡ some d
        → IsEdit d d'
        → Built d'
        → IsConsistent s
        → IsConsistent (store.workflow_definitions.save n d' s)
    save_definition-IsConsistent n s d d' h edit b v =
        let (_, di) = laws.definitions.get-rows n s d h in
        let now_there = laws.definitions.get-save_self n s d d' h (edit.same_id ∙ di) in
        record {
          built = λ m e g. elim (Bool-cases (n == m)) [
            | inl same ↦ let q : e ≡ d' = ground arith in subst Built (sym q) b
            | inr other ↦
                v.built m e (sym (laws.definitions.get-save_ne n m s d' (ground arith)) ∙ g)
          ];
          linked = λ i m.
              let l = v.linked i (subst (Memᴰ i) (laws.definition_write.rows-save n d' s) m) in
              elim (Bool-cases (n == l.link)) [
                | inl same ↦
                    let q : l.definition ≡ d = ground (arith, l.found) in
                    let (graph, status) =
                      edit.frozen (subst (λ x. x.status ≢ draft) q l.released) in
                    record {
                      link = n;
                      link_stored = ground (arith, l.link_stored);
                      definition = d';
                      found = now_there;
                      released = status;
                      tracked = IsTracked-SameGraph graph (subst (λ x. IsTracked x i) q l.tracked);
                    }
                | inr other ↦ record {
                  link = l.link;
                  link_stored = l.link_stored;
                  definition = l.definition;
                  found = laws.definitions.get-save_ne n l.link s d' (ground arith) ∙ l.found;
                  released = l.released;
                  tracked = l.tracked;
                }
              ];
        }

    pub add_definition-IsConsistent :
        (n : ℕ) (s s' : S) (d : WorkflowDefinition)
        → store.workflow_definitions.add d s ≡ some (n, s')
        → Built d
        → IsConsistent s
        → IsConsistent s'
    add_definition-IsConsistent n s s' d h b v = record {
      built = λ m e g. elim (Bool-cases (n == m)) [
        | inl same ↦
            let q : e ≡ record d { id = some n } =
              ground (arith, laws.definitions.get-add s s' d n h) in
            subst Built (sym q) (saved n b refl)
        | inr other ↦
            v.built m e (sym (laws.definitions.get-add_ne s s' d n m h (ground arith)) ∙ g)
      ];
      linked = λ i m.
          let l = v.linked i (subst (Memᴰ i) (laws.definition_write.rows-add n d s s' h) m) in
          let differ : n ≢ l.link =
            λ e. absurd (ground (arith, l.found, laws.definitions.get-add_fresh s s' d n h)) in
          record {
            link = l.link;
            link_stored = l.link_stored;
            definition = l.definition;
            found = laws.definitions.get-add_ne s s' d n l.link h differ ∙ l.found;
            released = l.released;
            tracked = l.tracked;
          };
    }

    -- A link does not depend on the instances that are stored.
    moved-IsLinked :
        (s s' : S) (i : WorkflowInstance)
        → ((n : ℕ) → store.workflow_definitions.get n s' ≡ store.workflow_definitions.get n s)
        → IsLinked s i
        → IsLinked s' i
    moved-IsLinked s s' i g l = record {
      link = l.link;
      link_stored = l.link_stored;
      definition = l.definition;
      found = g l.link ∙ l.found;
      released = l.released;
      tracked = l.tracked;
    }

    pub save_instance-IsConsistent :
        (n : ℕ) (s : S) (i i' : WorkflowInstance)
        → store.workflow_instances.get n s ≡ some i
        → i'.id ≡ some n
        → IsLinked s i'
        → IsConsistent s
        → IsConsistent (store.workflow_instances.save n i' s)
    save_instance-IsConsistent n s i i' h q l v =
        let after = store.workflow_instances.save n i' s in
        let same_definitions = λ (m : ℕ). laws.instance_write.get-save n m i' s in
        record {
          built = λ m e g. v.built m e (sym (same_definitions m) ∙ g);
          linked = λ x m.
              let (k, ki, kg) = laws.instances.rows-get after x m in
              moved-IsLinked s after x same_definitions (elim (Bool-cases (n == k)) [
                | inl same ↦
                    let e : x ≡ i' = ground (arith, laws.instances.get-save_self n s i i' h q) in
                    subst (IsLinked s) (sym e) l
                | inr other ↦
                    let old = sym (laws.instances.get-save_ne n k s i' (ground arith)) ∙ kg in
                    v.linked x (laws.instances.get-rows k s x old).0
              ]);
        }

    pub add_instance-IsConsistent :
        (n : ℕ) (s s' : S) (i : WorkflowInstance)
        → store.workflow_instances.add i s ≡ some (n, s')
        → IsLinked s (instance_with_id n i)
        → IsConsistent s
        → IsConsistent s'
    add_instance-IsConsistent n s s' i h l v =
        let same_definitions = λ (m : ℕ). laws.instance_write.get-add n m i s s' h in
        record {
          built = λ m e g. v.built m e (sym (same_definitions m) ∙ g);
          linked = λ x m.
              let (k, ki, kg) = laws.instances.rows-get s' x m in
              moved-IsLinked s s' x same_definitions (elim (Bool-cases (n == k)) [
                | inl same ↦
                    let e : x ≡ instance_with_id n i =
                      ground (arith, laws.instances.get-add s s' i n h) in
                    subst (IsLinked s) (sym e) l
                | inr other ↦
                    let old = sym (laws.instances.get-add_ne s s' i n k h (ground arith)) ∙ kg in
                    v.linked x (laws.instances.get-rows k s x old).0
              ]);
        }
