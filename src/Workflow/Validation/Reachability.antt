-- ===== src/Workflow/Validation/Reachability.antt =====
-- The keys that the search of validation.py marks, and those that transitions lead to.
use mathlib.Core.List.Memᴰ
use orchestract.Common.{
  ℕ, zero, suc, ◌≡◌, refl, sym, subst, ◌↔◌, ◌⊎◌, inl, inr, Bool, ◌||◌, true, false, List, [], ◌∷◌,
  Memᴰ, arith, Text, text_eq, text_eq_iff, text_eq_refl, contains, contains-cons_iff, mem-filter,
  Bool-cases, List-cases,
}
use orchestract.Workflow.Definition.{WorkflowTransition, WorkflowDefinition, transitions_from}
use orchestract.Workflow.Validation.{Search, offer, offer_all, explore, start_at}

-- A transition of the workflow leads from `u` to `v`.
abbrev pub Edge : WorkflowDefinition → Text → Text → Type 0
Edge d u v =
    (t : WorkflowTransition) × Memᴰ t d.transitions × (t.from_step_key ≡ u) × (t.to_step_key ≡ v)

-- The walks along transitions from `src`.
pub data Reach (d : WorkflowDefinition) (src : Text) : Text → Type 0 where
  here : Reach d src src
  step : {u v : Text} → Reach d src u → Edge d u v → Reach d src v

pub mem-transitions_from :
    (u : Text) (d : WorkflowDefinition) (t : WorkflowTransition)
    → Memᴰ t (transitions_from u d) ↔ (Memᴰ t d.transitions × (t.from_step_key ≡ u))
unfolding transitions_from
mem-transitions_from u d t =
    let (into, out) = mem-filter (λ x. text_eq x.from_step_key u) t d.transitions in
    let (sound, full) = text_eq_iff t.from_step_key u in
    (λ m. ((into m).0, sound (into m).1), λ h. out (h.0, full h.1))

-- The keys that the transitions of a list lead to.
leads_to : List WorkflowTransition → Text → Bool
leads_to [] v = false
leads_to (t ∷ ts) v = text_eq v t.to_step_key || leads_to ts v

-- What one `for` loop does to the two lists.
record Offered (s : Search) (ts : List WorkflowTransition) (s' : Search) (v : Text) : Type 0 where
  seen :
      (contains v s'.reachable ≡ true) ↔ ((contains v s.reachable ≡ true) ⊎ (leads_to ts v ≡ true))
  kept : contains v s.frontier ≡ true → contains v s'.frontier ≡ true
  fresh :
      contains v s'.reachable ≡ true
      → (contains v s.reachable ≡ true) ⊎ (contains v s'.frontier ≡ true)
  queued :
      contains v s'.frontier ≡ true
      → (contains v s.frontier ≡ true) ⊎ (contains v s'.reachable ≡ true)

offer-Offered : (s : Search) (t : WorkflowTransition) (v : Text) → Offered s (t ∷ []) (offer s t) v
unfolding offer leads_to contains
offer-Offered s t v = record {
  seen = ground (arith, contains-cons_iff v t.to_step_key s.reachable, text_eq_iff v t.to_step_key);
  kept = ground arith;
  fresh = ground arith;
  queued = ground arith;
}

offer_all-Offered :
    (s : Search) (ts : List WorkflowTransition) (v : Text) → Offered s ts (offer_all s ts) v
unfolding offer_all leads_to
offer_all-Offered s [] v = record {
  seen = ground arith;
  kept = ground arith;
  fresh = ground arith;
  queued = ground arith;
}
offer_all-Offered s (t ∷ ts) v =
    let first = offer-Offered s t v in
    let rest = offer_all-Offered (offer s t) ts v in
    record {
      seen = ground (arith, first.seen, rest.seen);
      kept = ground (arith, first.kept, rest.kept);
      fresh = ground (arith, first.fresh, rest.fresh, first.kept, rest.kept);
      queued = ground (arith, first.queued, rest.queued, rest.seen);
    }

leads_to→mem :
    (ts : List WorkflowTransition) (v : Text)
    → leads_to ts v ≡ true
    → (t : WorkflowTransition) × Memᴰ t ts × (t.to_step_key ≡ v)
unfolding leads_to
leads_to→mem [] v h = absurd (ground arith)
leads_to→mem (t ∷ ts) v h = elim (Bool-cases (text_eq v t.to_step_key)) [
  | inl e ↦ (t, Memᴰ.head refl, sym ((text_eq_iff v t.to_step_key).0 e))
  | inr e ↦ let (x, m, q) = leads_to→mem ts v (ground arith) in (x, Memᴰ.tail m, q)
]

mem→leads_to :
    (t : WorkflowTransition) (ts : List WorkflowTransition) (v : Text)
    → Memᴰ t ts
    → t.to_step_key ≡ v
    → leads_to ts v ≡ true
unfolding leads_to
mem→leads_to t [] v m e = absurd (Memᴰ.not-nil m)
mem→leads_to t (x ∷ ts) v m e = elim (Memᴰ.cases_cons m) [
  | inl q ↦ ground (arith, text_eq_iff v x.to_step_key)
  | inr m' ↦ ground (arith, mem→leads_to t ts v m' e)
]

leads_to_iff-Edge :
    (d : WorkflowDefinition) (u v : Text) → (leads_to (transitions_from u d) v ≡ true) ↔ Edge d u v
leads_to_iff-Edge d u v = (
  λ h.
      let (t, m, q) = leads_to→mem (transitions_from u d) v h in
      let (m', p) = (mem-transitions_from u d t).0 m in (t, m', p, q),
  λ (t, m, p, q). mem→leads_to t (transitions_from u d) v ((mem-transitions_from u d t).1 (m, p)) q,
)

module _ (d : WorkflowDefinition) (fuel : ℕ) (s : Search) where
  pub explore_done : s.frontier ≡ [] → explore (suc fuel) d s ≡ s
  unfolding explore
  explore_done e = ground arith

  pub explore_round :
      (current : Text) (rest : List Text)
      → s.frontier ≡ current ∷ rest
      → explore (suc fuel) d s
        ≡ explore fuel d (offer_all (record s { frontier = rest }) (transitions_from current d))
  unfolding explore
  explore_round current rest e = ground arith

module _ (d : WorkflowDefinition) (src : Text) where
  pub record Inv (s : Search) : Type 0 where
    pub source : contains src s.reachable ≡ true
    pub sound : (v : Text) → contains v s.reachable ≡ true → Reach d src v
    pub queued : (v : Text) → contains v s.frontier ≡ true → contains v s.reachable ≡ true
    pub closed :
        (u v : Text)
        → contains u s.reachable ≡ true
        → Edge d u v
        → (contains u s.frontier ≡ true) ⊎ (contains v s.reachable ≡ true)

  -- one round of the `while` loop
  abbrev round : Search → Text → List Text → Search
  round s current rest = offer_all (record s { frontier = rest }) (transitions_from current d)

  pub Inv-start : Inv (start_at src)
  unfolding contains
  Inv-start = record {
    source = ground (arith, text_eq_refl src);
    sound = λ v h. subst (Reach d src) (sym ((text_eq_iff v src).0 (ground arith))) here;
    queued = λ v h. h;
    closed = λ u v h edge. inl h;
  }

  Inv-round :
      (s : Search) (current : Text) (rest : List Text)
      → s.frontier ≡ current ∷ rest
      → Inv s
      → Inv (round s current rest)
  Inv-round s current rest e h =
      let after = λ (v : Text).
        offer_all-Offered (record s { frontier = rest }) (transitions_from current d) v in
      let popped = λ (v : Text). contains-cons_iff v current rest in
      let at_current : Reach d src current =
        h.sound current (h.queued current (rw e ((popped current).1 (inl refl)))) in
      record {
        source = (after src).seen.1 (inl h.source);
        sound = λ v m. elim ((after v).seen.0 m) [
          | inl old ↦ h.sound v old
          | inr led ↦ step at_current ((leads_to_iff-Edge d current v).0 led)
        ];
        queued = λ v m. ground (arith, (after v).queued, (after v).seen, popped v, h.queued v);
        closed = λ u v m edge. ground (
          arith,
          (after u).fresh,
          (after u).kept,
          (after v).seen,
          popped u,
          h.closed u v,
          (leads_to_iff-Edge d u v).1 edge,
        );
      }

  pub Inv-explore : (fuel : ℕ) (s : Search) → Inv s → Inv (explore fuel d s)
  unfolding explore
  Inv-explore zero s h = h
  Inv-explore (suc fuel) s h = elim (List-cases s.frontier) [
    | inl e ↦ rw (explore_done d fuel s e) h
    | inr (current, rest, e) ↦
        rw (explore_round d fuel s current rest e)
          (Inv-explore fuel (round s current rest) (Inv-round s current rest e h))
  ]
