-- ===== src/Workflow/Instance/Moves.antt =====
-- Which moves an instance can make.
use mathlib.Core.List.Memᴰ
use orchestract.Common.{
  ℕ, ◌≡◌, refl, sym, ap, ◌∙◌, subst, ◌↔◌, ◌⊎◌, inl, inr, true, false, Option, none, some, List, [],
  ◌∷◌, Memᴰ, arith, Bool-cases, Option-cases, any, find, All, find-some, find-none, find-any,
  mem-filter, Text, text_eq, text_eq_iff, ok, err, Result-cases, workflow_already_completed,
  invalid_transition,
}
use orchestract.Workflow.Definition.{
  WorkflowStep, WorkflowTransition, WorkflowDefinition, has_key, transitions_from, find_transition,
  get_step,
}
use orchestract.Workflow.Invariant.{has_step→get_step, IsWellFormed}
use orchestract.Workflow.Instance.{
  active, completed, InstanceStatus, WorkflowInstance, is_running, available_actions, arrive,
  apply_transition,
}

All-mem {ℓ κ} : {A : Type ℓ} (P : A → Type κ) {x : A} (xs : List A) → All P xs → Memᴰ x xs → P x
All-mem P [] h m = absurd (Memᴰ.not-nil m)
All-mem P (y ∷ xs) h m = elim (Memᴰ.cases_cons m) [
  | inl e ↦ subst P (sym e) h.0
  | inr m' ↦ All-mem P xs h.1 m'
]

-- A transition that `find_transition` returns is one of the workflow, between the given step and
-- its target, under the given action.
pub find_transition-mem :
    (k a : Text) (d : WorkflowDefinition) {t : WorkflowTransition}
    → find_transition k a d ≡ some t
    → Memᴰ t d.transitions × (t.from_step_key ≡ k) × (t.action_name ≡ a)
unfolding find_transition transitions_from
find_transition-mem k a d {t} h =
    let (m, p) = find-some (λ x. text_eq x.action_name a) (transitions_from k d) h in
    let (m', q) = (mem-filter (λ x. text_eq x.from_step_key k) t d.transitions).0 m in
    (m', (text_eq_iff t.from_step_key k).0 q, (text_eq_iff t.action_name a).0 p)

-- No transition is found exactly if none of those on offer has the action.
find_transition-none :
    (k a : Text) (d : WorkflowDefinition)
    → any (λ t. text_eq t.action_name a) (transitions_from k d) ≡ false
    → find_transition k a d ≡ none
unfolding find_transition
find_transition-none k a d h = find-none (λ t. text_eq t.action_name a) (transitions_from k d) h

pub get_step-key :
    (k : Text) (d : WorkflowDefinition) {s : WorkflowStep}
    → get_step k d ≡ ok s
    → Memᴰ s d.steps × (s.key ≡ k)
unfolding get_step
get_step-key k d {s} h = elim (Option-cases (find (has_key k) d.steps)) [
  | inl e ↦ absurd (ground arith)
  | inr (x, e) ↦
      let (m, p) = find-some (has_key k) d.steps e in
      let q : x ≡ s = ground arith in
      (subst (λ y. Memᴰ y d.steps) q m, ap (λ y. y.key) (sym q) ∙ (text_eq_iff x.key k).0 p)
]

-- In a well-formed workflow the target of a transition is a step.
pub target_known :
    (d : WorkflowDefinition) (t : WorkflowTransition)
    → IsWellFormed d
    → Memᴰ t d.transitions
    → (s : WorkflowStep) × (get_step t.to_step_key d ≡ ok s)
target_known d t w m = has_step→get_step t.to_step_key d (All-mem _ d.transitions w.known_ends m).1

Status-cases : (s : InstanceStatus) → (s ≡ active) ⊎ (s ≡ completed)
Status-cases active = inl refl
Status-cases completed = inr refl

-- What a successful move did: it followed a transition on offer, to its target step.
pub record Moved (d : WorkflowDefinition) (a actor : Text) (comment : Option Text) (now : ℕ)
    (i i' : WorkflowInstance) : Type 0 where
  pub edge : WorkflowTransition
  pub target : WorkflowStep
  pub was_running : is_running i.status ≡ true
  pub edge_mem : Memᴰ edge d.transitions
  pub edge_from : edge.from_step_key ≡ i.current_step_key
  pub edge_action : edge.action_name ≡ a
  pub edge_to : edge.to_step_key ≡ target.key
  pub target_mem : Memᴰ target d.steps
  pub result : i' ≡ arrive target a actor comment now i

module _ (d : WorkflowDefinition) (a actor : Text) (comment : Option Text) (now : ℕ)
    (i : WorkflowInstance) where
  pub apply_transition-Moved :
      (i' : WorkflowInstance)
      → apply_transition d a actor comment now i ≡ ok i'
      → Moved d a actor comment now i i'
  unfolding apply_transition
  apply_transition-Moved i' h = elim (Option-cases (find_transition i.current_step_key a d)) [
    | inl e ↦ absurd (ground arith)
    | inr (t, e) ↦ elim (Result-cases (get_step t.to_step_key d)) [
      | inr (x, g) ↦ absurd (ground arith)
      | inl (s, g) ↦
          let (m, p, q) = find_transition-mem i.current_step_key a d e in
          let (ms, k) = get_step-key t.to_step_key d g in
          record {
            edge = t;
            target = s;
            was_running = ground arith;
            edge_mem = m;
            edge_from = p;
            edge_action = q;
            edge_to = sym k;
            target_mem = ms;
            result = ground arith;
          }
    ]
  ]

  -- A completed instance refuses every action.
  pub apply_transition_completed :
      i.status ≡ completed
      → apply_transition d a actor comment now i ≡ err (workflow_already_completed i.id)
  unfolding apply_transition
  apply_transition_completed h = ground arith

  -- A running instance refuses an action that no transition from its step has.
  pub apply_transition_unknown :
      i.status ≡ active
      → any (λ t. text_eq t.action_name a) (transitions_from i.current_step_key d) ≡ false
      → apply_transition d a actor comment now i ≡ err (invalid_transition i.current_step_key a)
  unfolding apply_transition
  apply_transition_unknown h none_fits =
      ground (arith, find_transition-none i.current_step_key a d none_fits)

  apply_transition_offered :
      IsWellFormed d
      → i.status ≡ active
      → any (λ t. text_eq t.action_name a) (transitions_from i.current_step_key d) ≡ true
      → (i' : WorkflowInstance) × (apply_transition d a actor comment now i ≡ ok i')
  unfolding apply_transition
  apply_transition_offered w h fits =
      let (t, e) =
        find-any (λ t. text_eq t.action_name a) (transitions_from i.current_step_key d) fits in
      let e' : find_transition i.current_step_key a d ≡ some t = unfold find_transition in e in
      let (m, _, _) = find_transition-mem i.current_step_key a d e' in
      let (s, g) = target_known d t w m in (arrive s a actor comment now i, ground arith)

  -- In a well-formed workflow an action succeeds exactly if the instance offers it.
  pub apply_transition-available :
      IsWellFormed d
      → ((i' : WorkflowInstance) × (apply_transition d a actor comment now i ≡ ok i'))
        ↔ (any (λ t. text_eq t.action_name a) (available_actions d i) ≡ true)
  unfolding available_actions any
  apply_transition-available w = elim (Status-cases i.status) [
    | inr e ↦ (
      λ (i', h). absurd (ground (arith, apply_transition_completed e)),
      λ h. absurd (ground arith),
    )
    | inl e ↦
        elim (Bool-cases
          (any (λ t. text_eq t.action_name a) (transitions_from i.current_step_key d))) [
            | inl fits ↦ (λ r. ground arith, λ h. apply_transition_offered w e fits)
            | inr none_fits ↦ (
              λ (i', h). absurd (ground (arith, apply_transition_unknown e none_fits)),
              λ h. absurd (ground arith),
            )
          ]
  ]
