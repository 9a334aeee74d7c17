-- ===== src/Workflow/Lifecycle.antt =====
-- What holds of every definition that the methods of WorkflowDefinition can produce.
use orchestract.Common.{
  ℕ, ◌≡◌, sym, subst, ◌≢◌, true, Option, some, [], ◌∷◌, Memᴰ, arith, any, filter, All, Text, ok,
}
use orchestract.Workflow.Definition.{
  WorkflowStep, WorkflowTransition, WorkflowDefinition, draft, active, create, rename,
  set_description, add_step, add_transition, retire, has_key,
}
use orchestract.Workflow.Validation.{activate}
use orchestract.Workflow.Validation.Reachability.{Reach, here, step}
use orchestract.Workflow.Validation.Ready.{IsReady, activate-ok}
use mathlib.Core.Path.{subst₂}
use orchestract.Workflow.Invariant.{
  AllPairs, both_initial, same_edge, same_key, IsWellFormed, create-IsWellFormed, add_step-ok,
  add_step-IsWellFormed, add_transition-ok, add_transition-IsWellFormed,
}

-- The definitions that calls of the methods lead to; `saved` is the id that the database gives.
pub data Built : WorkflowDefinition → Type 0 where
  created :
      (org : ℕ) (name : Text) (description : Option Text) {d : WorkflowDefinition}
      → create org name description ≡ ok d
      → Built d
  saved : {d d' : WorkflowDefinition} (i : ℕ) → Built d → d' ≡ record d { id = some i } → Built d'
  renamed : {d d' : WorkflowDefinition} (name : Text) → Built d → rename name d ≡ ok d' → Built d'
  described :
      {d d' : WorkflowDefinition} (description : Option Text)
      → Built d
      → d' ≡ set_description description d
      → Built d'
  step_added :
      {d d' : WorkflowDefinition} (s : WorkflowStep) → Built d → add_step s d ≡ ok d' → Built d'
  transition_added :
      {d d' : WorkflowDefinition} (t : WorkflowTransition)
      → Built d
      → add_transition t d ≡ ok d'
      → Built d'
  activated : {d d' : WorkflowDefinition} → Built d → activate d ≡ ok d' → Built d'
  made_retired : {d d' : WorkflowDefinition} → Built d → retire d ≡ ok d' → Built d'

-- The graph is the same.
pub record SameGraph (d d' : WorkflowDefinition) : Type 0 where
  pub steps : d'.steps ≡ d.steps
  pub transitions : d'.transitions ≡ d.transitions

Reach-SameGraph :
    {d d' : WorkflowDefinition} {src v : Text} → SameGraph d d' → Reach d src v → Reach d' src v
Reach-SameGraph g here = here
Reach-SameGraph g (step r (t, m, p, q)) =
    step (Reach-SameGraph g r) (t, subst (Memᴰ t) (sym g.transitions) m, p, q)

IsReady-SameGraph : {d d' : WorkflowDefinition} → SameGraph d d' → IsReady d → IsReady d'
IsReady-SameGraph g r = record {
  start = r.start;
  only_start = subst (λ l. filter (λ s. s.is_initial) l ≡ r.start ∷ []) (sym g.steps) r.only_start;
  end = r.end;
  end_mem = subst (Memᴰ r.end) (sym g.steps) r.end_mem;
  end_is_terminal = r.end_is_terminal;
  connected = λ s m. Reach-SameGraph g (r.connected s (subst (Memᴰ s) g.steps m));
}

IsWellFormed-SameGraph :
    {d d' : WorkflowDefinition} → SameGraph d d' → IsWellFormed d → IsWellFormed d'
IsWellFormed-SameGraph g w = record {
  unique_keys = subst (AllPairs same_key) (sym g.steps) w.unique_keys;
  one_initial = subst (AllPairs both_initial) (sym g.steps) w.one_initial;
  unique_edges = subst (AllPairs same_edge) (sym g.transitions) w.unique_edges;
  known_ends =
      subst₂
        (λ ss ts.
          All
            (λ (t : WorkflowTransition).
              (any (has_key t.from_step_key) ss ≡ true) × (any (has_key t.to_step_key) ss ≡ true))
            ts)
        (sym g.steps) (sym g.transitions) w.known_ends;
}

pub rename-SameGraph :
    (name : Text) (d : WorkflowDefinition) {d' : WorkflowDefinition}
    → rename name d ≡ ok d'
    → SameGraph d d' × (d'.status ≡ d.status)
unfolding rename
rename-SameGraph name d h =
    (record { steps = ground arith; transitions = ground arith }, ground arith)

pub set_description-SameGraph :
    (description : Option Text) (d : WorkflowDefinition) {d' : WorkflowDefinition}
    → d' ≡ set_description description d
    → SameGraph d d' × (d'.status ≡ d.status)
unfolding set_description
set_description-SameGraph description d e =
    (record { steps = ground arith; transitions = ground arith }, ground arith)

retire-SameGraph :
    (d : WorkflowDefinition) {d' : WorkflowDefinition}
    → retire d ≡ ok d'
    → SameGraph d d' × (d.status ≡ active)
unfolding retire
retire-SameGraph d h = (record { steps = ground arith; transitions = ground arith }, ground arith)

-- What every definition keeps: it is well formed, and ready from its activation on.
pub record IsSound (d : WorkflowDefinition) : Type 0 where
  pub well_formed : IsWellFormed d
  pub ready : d.status ≢ draft → IsReady d

create-draft :
    (org : ℕ) (name : Text) (description : Option Text) (d : WorkflowDefinition)
    → create org name description ≡ ok d
    → d.status ≡ draft
unfolding create
create-draft org name description d h = ground arith

-- A change that leaves the graph alone, and no draft behind, keeps all of it.
keep :
    {d d' : WorkflowDefinition}
    → IsSound d
    → SameGraph d d'
    → (d'.status ≢ draft → d.status ≢ draft)
    → IsSound d'
keep s g f = record {
  well_formed = IsWellFormed-SameGraph g s.well_formed;
  ready = λ p. IsReady-SameGraph g (s.ready (f p));
}

-- However its methods are called, a definition is well formed, and once it is no longer a draft
-- its graph is ready: one start, an end, and every step reached from the start.
pub Built-IsSound : {d : WorkflowDefinition} → Built d → IsSound d
Built-IsSound (created org name description {d} h) = record {
  well_formed = create-IsWellFormed org name description h;
  ready = λ p. absurd (p (create-draft org name description d h));
}
Built-IsSound (saved i b e) =
    keep (Built-IsSound b) (record { steps = ground arith; transitions = ground arith })
      (λ q. ground arith)
Built-IsSound (renamed {d} name b h) =
    let (g, e) = rename-SameGraph name d h in keep (Built-IsSound b) g (λ q. ground arith)
Built-IsSound (described {d} {d'} description b e) =
    let (g, p) = set_description-SameGraph description d e in
    keep (Built-IsSound b) g (λ q. ground arith)
Built-IsSound (step_added {d} {d'} s b h) =
    let (p, _, _, e) = (add_step-ok s d d').0 h in
    record {
      well_formed = add_step-IsWellFormed s d (Built-IsSound b).well_formed h;
      ready = λ q. absurd (q (ground arith));
    }
Built-IsSound (transition_added {d} {d'} t b h) =
    let (p, _, _, _, e) = (add_transition-ok t d d').0 h in
    record {
      well_formed = add_transition-IsWellFormed t d (Built-IsSound b).well_formed h;
      ready = λ q. absurd (q (ground arith));
    }
Built-IsSound (activated {d} {d'} b h) =
    let (p, r, e) = (activate-ok d d').0 h in
    let g : SameGraph d d' = record { steps = ground arith; transitions = ground arith } in
    record {
      well_formed = IsWellFormed-SameGraph g (Built-IsSound b).well_formed;
      ready = λ q. IsReady-SameGraph g r;
    }
Built-IsSound (made_retired {d} b h) =
    let (g, e) = retire-SameGraph d h in keep (Built-IsSound b) g (λ q. ground arith)
