-- ===== src/Workflow/Invariant.antt =====
-- The invariants that WorkflowDefinition states for itself: step keys are unique, at most one step
-- is initial, transitions join known steps, and no two of them share source and action.
use mathlib.Core.List.Memᴰ
use mathlib.Core.Bool.{false≢true}
use orchestract.Common.{
  Memᴰ, sym, any_of_mem, ◌∙◌, ℕ, ◌≡◌, refl, sym, subst, ◌↔◌, inl, inr, Bool, true, false, ◌&&◌,
  Option, List, [], ◌∷◌, ◌++◌, arith, Bool-cases, any, All, any-append, find-none, find-any, Text,
  text_eq, ok, err, unknown_step,
}
use orchestract.Workflow.Definition.{
  WorkflowStep, WorkflowTransition, WorkflowDefinition, draft, create, add_step, add_transition,
  has_key, is_edge, get_step, get_step,
}

-- No item of the list is related to an earlier one.
abbrev pub AllPairs {ℓ} : {A : Type ℓ} → (A → A → Bool) → List A → Type 0
AllPairs same [] = Unit
AllPairs same (x ∷ xs) = (any (same x) xs ≡ false) × AllPairs same xs

abbrev pub same_key : WorkflowStep → WorkflowStep → Bool
same_key s t = text_eq s.key t.key

abbrev pub both_initial : WorkflowStep → WorkflowStep → Bool
both_initial s t = s.is_initial && t.is_initial

abbrev pub same_edge : WorkflowTransition → WorkflowTransition → Bool
same_edge s t = text_eq s.from_step_key t.from_step_key && text_eq s.action_name t.action_name

abbrev pub has_step : WorkflowDefinition → Text → Bool
has_step d k = any (has_key k) d.steps

-- Where no two items are related, related items are one.
pub AllPairs-unique {ℓ} :
    {A : Type ℓ} (same : A → A → Bool) (xs : List A) (x y : A)
    → ((a b : A) → same a b ≡ true → same b a ≡ true)
    → AllPairs same xs
    → Memᴰ x xs
    → Memᴰ y xs
    → same x y ≡ true
    → x ≡ y
AllPairs-unique same [] x y f h mx my e = absurd (Memᴰ.not-nil mx)
AllPairs-unique same (z ∷ zs) x y f h mx my e = elim (Memᴰ.cases_cons mx) [
  | inl p ↦ elim (Memᴰ.cases_cons my) [
    | inl q ↦ p ∙ sym q
    | inr my' ↦
        absurd (false≢true (sym h.0 ∙ any_of_mem (same z) my' (subst (λ w. same w y ≡ true) p e)))
  ]
  | inr mx' ↦ elim (Memᴰ.cases_cons my) [
    | inl q ↦
        absurd (
          false≢true (sym h.0 ∙ any_of_mem (same z) mx' (subst (λ w. same w x ≡ true) q (f x y e))))
    | inr my' ↦ AllPairs-unique same zs x y f h.1 mx' my' e
  ]
]

pub record IsWellFormed (d : WorkflowDefinition) : Type 0 where
  pub unique_keys : AllPairs same_key d.steps
  pub one_initial : AllPairs both_initial d.steps
  pub unique_edges : AllPairs same_edge d.transitions
  pub known_ends :
      All
        (λ t. (has_step d t.from_step_key ≡ true) × (has_step d t.to_step_key ≡ true))
        d.transitions

AllPairs-append {ℓ} :
    {A : Type ℓ} (same : A → A → Bool) (xs : List A) (y : A)
    → AllPairs same xs
    → any (λ x. same x y) xs ≡ false
    → AllPairs same (xs ++ y ∷ [])
unfolding any
AllPairs-append same [] y h e = ground arith
AllPairs-append same (x ∷ xs) y h e =
    (ground (arith, any-append (same x) xs (y ∷ [])), AllPairs-append same xs y h.1 (ground arith))

All-append {ℓ κ} :
    {A : Type ℓ} (P : A → Type κ) (xs : List A) (y : A) → All P xs → P y → All P (xs ++ y ∷ [])
All-append P [] y h e = (e, tt)
All-append P (x ∷ xs) y h e = (h.0, All-append P xs y h.1 e)

All-map {ℓ κ} :
    {A : Type ℓ} (P Q : A → Type κ) (xs : List A) → ((x : A) → P x → Q x) → All P xs → All Q xs
All-map P Q [] f h = tt
All-map P Q (x ∷ xs) f h = (f x h.0, All-map P Q xs f h.1)

-- A step whose key or whose start mark is new is related to no earlier step.
no_initial_pair :
    (s : WorkflowStep) (xs : List WorkflowStep)
    → (s.is_initial && any (λ x. x.is_initial) xs) ≡ false
    → any (λ x. both_initial x s) xs ≡ false
unfolding any
no_initial_pair s [] h = refl
no_initial_pair s (x ∷ xs) h = ground (arith, no_initial_pair s xs)

has_step-append :
    (d : WorkflowDefinition) (s : WorkflowStep) (k : Text)
    → has_step d k ≡ true
    → any (has_key k) (d.steps ++ s ∷ []) ≡ true
has_step-append d s k h = rw any-append (ground arith)

pub has_step→get_step :
    (k : Text) (d : WorkflowDefinition)
    → has_step d k ≡ true
    → (s : WorkflowStep) × (get_step k d ≡ ok s)
unfolding get_step
has_step→get_step k d h = let (s, e) = find-any (has_key k) d.steps h in (s, rw e)

pub get_step_unknown :
    (k : Text) (d : WorkflowDefinition) → has_step d k ≡ false → get_step k d ≡ err (unknown_step k)
unfolding get_step
get_step_unknown k d h = rw (find-none (has_key k) d.steps h)

-- A step is added exactly to a draft in which its key is new, and, if it is to be the start, in
-- which no step is; it then comes last, and nothing else changes.
pub add_step-ok :
    (step : WorkflowStep) (d d' : WorkflowDefinition)
    → (add_step step d ≡ ok d') ↔ (
        (d.status ≡ draft)
        × (has_step d step.key ≡ false)
        × ((step.is_initial && any (λ s. s.is_initial) d.steps) ≡ false)
        × (d' ≡ record d { steps = d.steps ++ step ∷ [] }))
unfolding add_step
add_step-ok step d d' =
    (λ h. (ground arith, ground arith, ground arith, ground arith), λ (p, q, r, e). ground arith)

-- A transition is added exactly to a draft that has both its steps and no transition with the same
-- source and action; it then comes last, and nothing else changes.
pub add_transition-ok :
    (t : WorkflowTransition) (d d' : WorkflowDefinition)
    → (add_transition t d ≡ ok d') ↔ (
        (d.status ≡ draft)
        × (has_step d t.from_step_key ≡ true)
        × (has_step d t.to_step_key ≡ true)
        × (any (is_edge t.from_step_key t.action_name) d.transitions ≡ false)
        × (d' ≡ record d { transitions = d.transitions ++ t ∷ [] }))
unfolding add_transition
add_transition-ok t d d' = elim (Bool-cases (has_step d t.from_step_key)) [
  | inr f ↦ (
    λ h. absurd (ground (arith, get_step_unknown t.from_step_key d f)),
    λ (p, q, r, n, e). absurd (ground arith),
  )
  | inl f ↦ elim (Bool-cases (has_step d t.to_step_key)) [
    | inr g ↦ (
      λ h. absurd (
          ground
            (arith, has_step→get_step t.from_step_key d f, get_step_unknown t.to_step_key d g)),
      λ (p, q, r, n, e). absurd (ground arith),
    )
    | inl g ↦
        let (a, ea) = has_step→get_step t.from_step_key d f in
        let (b, eb) = has_step→get_step t.to_step_key d g in
        (λ h. (ground arith, f, g, ground arith, ground arith), λ (p, q, r, n, e). ground arith)
  ]
]

pub create-IsWellFormed :
    (org : ℕ) (name : Text) (description : Option Text) {d : WorkflowDefinition}
    → create org name description ≡ ok d
    → IsWellFormed d
unfolding create
create-IsWellFormed org name description {d} h =
    let e : d.steps ≡ [] = ground arith in
    let e' : d.transitions ≡ [] = ground arith in
    record {
      unique_keys = rw e tt;
      one_initial = rw e tt;
      unique_edges = rw e' tt;
      known_ends = rw e' tt;
    }

pub add_step-IsWellFormed :
    (step : WorkflowStep) (d : WorkflowDefinition) {d' : WorkflowDefinition}
    → IsWellFormed d
    → add_step step d ≡ ok d'
    → IsWellFormed d'
add_step-IsWellFormed step d {d'} v h =
    let (p, fresh, start, e) = (add_step-ok step d d').0 h in
    subst IsWellFormed (sym e) (record {
      unique_keys = AllPairs-append same_key d.steps step v.unique_keys fresh;
      one_initial =
          AllPairs-append both_initial d.steps step v.one_initial
            (no_initial_pair step d.steps start);
      unique_edges = v.unique_edges;
      known_ends =
          All-map _ _ d.transitions
            (λ t q. (
              has_step-append d step t.from_step_key q.0,
              has_step-append d step t.to_step_key q.1,
            ))
            v.known_ends;
    })

pub add_transition-IsWellFormed :
    (t : WorkflowTransition) (d : WorkflowDefinition) {d' : WorkflowDefinition}
    → IsWellFormed d
    → add_transition t d ≡ ok d'
    → IsWellFormed d'
add_transition-IsWellFormed t d {d'} v h =
    let (p, from, to, fresh, e) = (add_transition-ok t d d').0 h in
    subst IsWellFormed (sym e) (record {
      unique_keys = v.unique_keys;
      one_initial = v.one_initial;
      unique_edges = AllPairs-append same_edge d.transitions t v.unique_edges fresh;
      known_ends = All-append _ d.transitions t v.known_ends (from, to);
    })
