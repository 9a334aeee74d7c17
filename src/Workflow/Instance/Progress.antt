-- ===== src/Workflow/Instance/Progress.antt =====
-- The way of an instance to its completion.
use orchestract.Common.{
  ℕ, ◌≡◌, refl, sym, ap, ◌∙◌, subst, ◌⊎◌, inl, inr, true, false, none, some, List, [], ◌∷◌, ◌++◌,
  Memᴰ, arith, Bool-cases, any_of_mem, find-some, find-any, mem-filter, Text, text, text_eq,
  text_eq_refl, text_eq_iff, Result, ok, ◌>>=◌, Result-cases,
}
use orchestract.Common.{find-filter}
use orchestract.Workflow.Definition as Definition
use orchestract.Workflow.Definition.{
  WorkflowStep, WorkflowTransition, WorkflowDefinition, has_key, initial_step, transitions_from,
  find_transition, get_step,
}
use orchestract.Workflow.Invariant.{AllPairs-unique, same_edge, same_key, IsWellFormed}
use orchestract.Workflow.Validation.Reachability.{Edge, Reach, here, step}
use orchestract.Workflow.Validation.Ready.{IsReady}
use orchestract.Workflow.Instance.{
  active, completed, WorkflowInstance, start, arrive, apply_transition,
}
use orchestract.Workflow.Instance.Moves.{find_transition-mem, target_known, get_step-key}

-- One action after the other, by one actor and without comments.
unfoldable pub perform :
    WorkflowDefinition → Text → ℕ → List Text → WorkflowInstance → Result WorkflowInstance
perform d actor now [] i = ok i
perform d actor now (a ∷ rest) i = do
  i' ← apply_transition d a actor none now i
  perform d actor now rest i'

text_eq_sym : (s t : Text) → text_eq s t ≡ true → text_eq t s ≡ true
text_eq_sym s t h = (text_eq_iff t s).1 (sym ((text_eq_iff s t).0 h))

module _ (d : WorkflowDefinition) (w : IsWellFormed d) where
  -- `find_transition` finds every transition of a well-formed workflow.
  find_transition_self :
      (t : WorkflowTransition)
      → Memᴰ t d.transitions
      → find_transition t.from_step_key t.action_name d ≡ some t
  unfolding find_transition transitions_from
  find_transition_self t m =
      let on_offer =
        (mem-filter (λ x. text_eq x.from_step_key t.from_step_key) t d.transitions).1
          (m, text_eq_refl t.from_step_key) in
      let (t', e) =
        find-any (λ x. text_eq x.action_name t.action_name) (transitions_from t.from_step_key d)
          (any_of_mem (λ x. text_eq x.action_name t.action_name) on_offer
            (text_eq_refl t.action_name)) in
      let (m', p, q) = find_transition-mem t.from_step_key t.action_name d {t = t'} e in
      let same : t' ≡ t =
        AllPairs-unique same_edge d.transitions t' t
          (λ x y h. ground (
            arith,
            text_eq_sym x.from_step_key y.from_step_key,
            text_eq_sym x.action_name y.action_name,
          ))
          w.unique_edges m' m
          (ground (
            arith,
            text_eq_iff t'.from_step_key t.from_step_key,
            text_eq_iff t'.action_name t.action_name,
          )) in
      e ∙ ap some same

  -- `get_step` finds every step of a well-formed workflow.
  get_step_self : (s : WorkflowStep) → Memᴰ s d.steps → get_step s.key d ≡ ok s
  unfolding get_step
  get_step_self s m =
      let (s', e) =
        find-any (has_key s.key) d.steps (any_of_mem (has_key s.key) m (text_eq_refl s.key)) in
      let (m', p) = find-some (has_key s.key) d.steps e in
      let same : s' ≡ s =
        AllPairs-unique same_key d.steps s' s (λ x y h. text_eq_sym x.key y.key h) w.unique_keys m'
          m p in
      rw e (ap ok same)

  -- The instance is active, at a step that is no end.
  record Waiting (i : WorkflowInstance) (k : Text) : Type 0 where
    running : i.status ≡ active
    current : i.current_step_key ≡ k
    at : WorkflowStep
    at_found : get_step k d ≡ ok at
    at_open : at.is_terminal ≡ false

  module _ (actor : Text) (now : ℕ) where
    advance :
        {i : WorkflowInstance} {u v : Text}
        → Waiting i u
        → Edge d u v
        → (a : Text) × (i' : WorkflowInstance) × (apply_transition d a actor none now i ≡ ok i')
          × ((i'.status ≡ completed) ⊎ Waiting i' v)
    unfolding apply_transition arrive
    advance {i} {u} {v} wait (t, m, p, q) =
        let (s, g) = target_known d t w m in
        let f : find_transition i.current_step_key t.action_name d ≡ some t =
          subst (λ k. find_transition k t.action_name d ≡ some t) (p ∙ sym wait.current)
            (find_transition_self t m) in
        (
          t.action_name,
          arrive s t.action_name actor none now i,
          ground (arith, wait.running),
          elim (Bool-cases s.is_terminal) [
            | inl ends ↦ inl (ground arith)
            | inr goes_on ↦ inr (record {
              running = ground (arith, wait.running);
              current = ground (arith, (get_step-key t.to_step_key d g).1);
              at = s;
              at_found = subst (λ k. get_step k d ≡ ok s) q g;
              at_open = goes_on;
            })
          ],
        )

    perform-append :
        (actions : List Text) (a : Text) (i i' : WorkflowInstance) {i'' : WorkflowInstance}
        → perform d actor now actions i ≡ ok i'
        → apply_transition d a actor none now i' ≡ ok i''
        → perform d actor now (actions ++ a ∷ []) i ≡ ok i''
    unfolding perform
    perform-append [] a i i' h e = ground arith
    perform-append (b ∷ actions) a i i' {i''} h e =
        elim (Result-cases (apply_transition d b actor none now i)) [
          | inl (j, g) ↦ ground (arith, perform-append actions a j i' {i'' = i''})
          | inr (x, g) ↦ absurd (ground arith)
        ]

    -- Along a walk an instance moves on until it is completed or stands at the end of the walk.
    follow :
        {u v : Text} {i : WorkflowInstance}
        → Reach d u v
        → Waiting i u
        → (actions : List Text) × (i' : WorkflowInstance) × (perform d actor now actions i ≡ ok i')
          × ((i'.status ≡ completed) ⊎ Waiting i' v)
    unfolding perform
    follow {i = i} here wait = ([], i, refl, inr wait)
    follow {i = i} (step r edge) wait =
        let (actions, i', e, state) = follow {i = i} r wait in
        elim state [
          | inl done ↦ (actions, i', e, inl done)
          | inr wait' ↦
              let (a, i'', g, state') = advance {i = i'} wait' edge in
              (actions ++ a ∷ [], i'', perform-append actions a i i' e g, state')
        ]

start_ready :
    (d : WorkflowDefinition) (contract_id : ℕ) (actor : Text)
    → d.status ≡ Definition.active
    → (r : IsReady d)
    → (i : WorkflowInstance) × (start contract_id d actor ≡ ok i)
      × (i.status ≡ active)
      × (i.current_step_key ≡ r.start.key)
unfolding start initial_step
start_ready d contract_id actor running r =
    let init = find-filter (λ s. s.is_initial) d.steps r.start [] r.only_start in
    (
      record {
        id = none;
        contract_id = contract_id;
        workflow_definition_id = d.id;
        current_step_key = r.start.key;
        status = active;
        completed_at = none;
        history =
            record {
              from_step_key = none;
              to_step_key = r.start.key;
              action_name = none;
              actor = actor;
              comment = some (text "workflow started");
            }
            ∷ [];
      },
      ground arith,
      refl,
      refl,
    )

ends_not_open :
    (d : WorkflowDefinition) (w : IsWellFormed d) (r : IsReady d) (i : WorkflowInstance)
    → ¬ Waiting d w i r.end.key
ends_not_open d w r i wait =
    ground
      (arith, get_step_self d w r.end r.end_mem, r.end_is_terminal, wait.at_found, wait.at_open)

-- From an active, well-formed workflow that is ready and whose start is no end step, an instance
-- starts, and some sequence of actions, each of which succeeds, completes it.
pub can_complete :
    (d : WorkflowDefinition) (contract_id : ℕ) (actor : Text) (now : ℕ)
    → IsWellFormed d
    → d.status ≡ Definition.active
    → (r : IsReady d) → r.start.is_terminal ≡ false
    → (i : WorkflowInstance) × (start contract_id d actor ≡ ok i)
      × (actions : List Text) × (i' : WorkflowInstance) × (perform d actor now actions i ≡ ok i')
      × (i'.status ≡ completed)
can_complete d contract_id actor now w running r open_start =
    let (i, began, active_now, at_start) = start_ready d contract_id actor running r in
    let (start_mem, _) =
      (mem-filter (λ s. s.is_initial) r.start d.steps).0
        (subst (Memᴰ r.start) (sym r.only_start) (Memᴰ.head refl)) in
    let wait : Waiting d w i r.start.key = record {
      running = active_now;
      current = at_start;
      at = r.start;
      at_found = get_step_self d w r.start start_mem;
      at_open = open_start;
    } in
    let (actions, i', e, state) = follow d w actor now {i = i} (r.connected r.end r.end_mem) wait in
    (
      i,
      began,
      actions,
      i',
      e,
      elim state [ inl done ↦ done | inr wait' ↦ absurd (ends_not_open d w r i' wait') ],
    )
