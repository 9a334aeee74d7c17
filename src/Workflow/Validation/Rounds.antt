-- ===== src/Workflow/Validation/Rounds.antt =====
-- The rounds of the search of validation.py, and its fuel.
use mathlib.Core.List.Memᴰ
use mathlib.Core.Bool.{false≢true}
use orchestract.Common.{
  ℕ, zero, suc, ◌+◌, ◌≤◌, ◌<◌, ◌≡◌, refl, subst, ◌↔◌, inl, inr, true, false, List, [], ◌∷◌, Memᴰ,
  arith, Text, contains, contains-cons_iff, length, List-cases, if◌then◌else◌,
}
use orchestract.Workflow.Definition.{WorkflowTransition, WorkflowDefinition, transitions_from}
use orchestract.Workflow.Validation.{Search, offer, offer_all, explore, start_at, reachable_from}
use orchestract.Workflow.Validation.Reachability.{
  mem-transitions_from, explore_done, explore_round, Reach, here, step, Inv-start, Inv-explore,
}

-- How many transitions lead to a key that is not marked yet.
unseen : List Text → List WorkflowTransition → ℕ
unseen marked [] = 0
unseen marked (t ∷ ts) = (if contains t.to_step_key marked then 0 else 1) + unseen marked ts

unseen-cons-le :
    (k : Text) (marked : List Text) (ts : List WorkflowTransition)
    → unseen (k ∷ marked) ts ≤ unseen marked ts
unfolding unseen
unseen-cons-le k marked [] = omega arith
unseen-cons-le k marked (t ∷ ts) =
    ground (arith, unseen-cons-le k marked ts, contains-cons_iff t.to_step_key k marked)

unseen-cons-lt :
    (t : WorkflowTransition) (marked : List Text) (ts : List WorkflowTransition)
    → Memᴰ t ts
    → contains t.to_step_key marked ≡ false
    → unseen (t.to_step_key ∷ marked) ts < unseen marked ts
unfolding unseen
unseen-cons-lt t marked [] m h = absurd (Memᴰ.not-nil m)
unseen-cons-lt t marked (x ∷ ts) m h = elim (Memᴰ.cases_cons m) [
  | inl e ↦ ground (
    arith,
    unseen-cons-le t.to_step_key marked ts,
    contains-cons_iff x.to_step_key t.to_step_key marked,
  )
  | inr m' ↦
      ground (
        arith,
        unseen-cons-lt t marked ts m' h,
        contains-cons_iff x.to_step_key t.to_step_key marked,
      )
]

module _ (d : WorkflowDefinition) where
  -- The keys still to be taken, and at most as many as can still be added.
  abbrev work : Search → ℕ
  work s = length s.frontier + unseen s.reachable d.transitions

  work-offer :
      (s : Search) (t : WorkflowTransition) → Memᴰ t d.transitions → work (offer s t) ≤ work s
  unfolding offer
  work-offer s t m = ground (arith, unseen-cons-lt t s.reachable d.transitions m)

  work-offer_all :
      (s : Search) (ts : List WorkflowTransition)
      → ((t : WorkflowTransition) → Memᴰ t ts → Memᴰ t d.transitions)
      → work (offer_all s ts) ≤ work s
  unfolding offer_all
  work-offer_all s [] h = omega arith
  work-offer_all s (t ∷ ts) h = omega (
    arith,
    work-offer s t (h t (Memᴰ.head refl)),
    work-offer_all (offer s t) ts (λ x m. h x (Memᴰ.tail m)),
  )

  work-round :
      (s : Search) (current : Text) (rest : List Text)
      → s.frontier ≡ current ∷ rest
      → work (offer_all (record s { frontier = rest }) (transitions_from current d)) < work s
  work-round s current rest e = ground (
    arith,
    work-offer_all (record s { frontier = rest }) (transitions_from current d)
        (λ t m. ((mem-transitions_from current d t).0 m).0),
  )

  frontier-explore : (fuel : ℕ) (s : Search) → work s ≤ fuel → (explore fuel d s).frontier ≡ []
  unfolding explore
  frontier-explore zero s h = ground arith
  frontier-explore (suc fuel) s h = elim (List-cases s.frontier) [
    | inl e ↦ rw (explore_done d fuel s e) e
    | inr (current, rest, e) ↦ rw (explore_round d fuel s current rest e) (
        frontier-explore fuel
          (offer_all (record s { frontier = rest }) (transitions_from current d))
          (omega (arith, work-round s current rest e)))
  ]

unseen-le-length :
    (marked : List Text) (ts : List WorkflowTransition) → unseen marked ts ≤ length ts
unfolding unseen
unseen-le-length marked [] = omega arith
unseen-le-length marked (t ∷ ts) = ground (arith, unseen-le-length marked ts)

module _ (d : WorkflowDefinition) (src : Text) where
  abbrev final : Search
  final = explore (length d.transitions + 1) d (start_at src)

  -- With the fuel that `reachable_from` gives it, the search of a workflow ends with an empty
  -- frontier.
  pub search_ends : (explore (length d.transitions + 1) d (start_at src)).frontier ≡ []
  search_ends =
      frontier-explore d (length d.transitions + 1) (start_at src)
        (omega (arith, unseen-le-length (src ∷ []) d.transitions))

  Reach→contains : {v : Text} → Reach d src v → contains v final.reachable ≡ true
  unfolding contains
  Reach→contains here =
      (Inv-explore d src (length d.transitions + 1) (start_at src) (Inv-start d src)).source
  Reach→contains (step {u} {v} r edge) =
      let inv = Inv-explore d src (length d.transitions + 1) (start_at src) (Inv-start d src) in
      elim (inv.closed u v (Reach→contains r) edge) [
        | inl waiting ↦ absurd (false≢true (subst (λ f. contains u f ≡ true) search_ends waiting))
        | inr m ↦ m
      ]

  -- The keys that the search of a workflow from a given key marks are exactly those that a walk
  -- along its transitions leads to from there.
  pub reachable_from_correct :
      (v : Text) → (contains v (reachable_from d src) ≡ true) ↔ Reach d src v
  unfolding reachable_from
  reachable_from_correct v = (
    (Inv-explore d src (length d.transitions + 1) (start_at src) (Inv-start d src)).sound v,
    Reach→contains,
  )
