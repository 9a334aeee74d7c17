-- ===== src/Users/Permissions.antt =====
-- app/domain/users/permissions.py, and the query of SqlAlchemyRoleRepository.list_for_agent and
-- RoleService.can_edit_step that feed it.
use mathlib.Core.List.Memᴰ
use orchestract.Common.{
  ℕ, ◌≡◌, refl, sym, subst, ◌↔◌, ◌⊎◌, inl, inr, Bool, true, false, Option, none, some, List, [],
  ◌∷◌, Memᴰ, arith, ◌==◌, List-cases, any, filter, any_of_mem, mem_of_any, mem-filter, join,
}
use orchestract.Users.Role.{Role}

unfoldable pub can_edit_step : ℕ → List Role → Bool
can_edit_step user_role_id [] = true
can_edit_step user_role_id (r ∷ rs) = any (λ role. role.id == user_role_id) (r ∷ rs)

abbrev pub is_linked : ℕ → Option ℕ → Bool
is_linked agent_id none = false
is_linked agent_id (some a) = a == agent_id

-- select(Role).where(Role.agent_id == agent_id), on the rows of the table
unfoldable pub list_for_agent : ℕ → List Role → List Role
list_for_agent agent_id roles = filter (λ r. is_linked agent_id r.agent_id) roles

-- RoleService.can_edit_step
unfoldable pub may_act : ℕ → ℕ → List Role → Bool
may_act user_role_id agent_id roles = can_edit_step user_role_id (list_for_agent agent_id roles)

is_linked-eq : (a : ℕ) (o : Option ℕ) → (is_linked a o ≡ true) ↔ (o ≡ some a)
is_linked-eq a none = ground arith
is_linked-eq a (some b) = ground arith

can_edit_step-cases :
    (user_role_id : ℕ) (l : List Role)
    → (can_edit_step user_role_id l ≡ true)
      ↔ ((l ≡ []) ⊎ (any (λ role. role.id == user_role_id) l ≡ true))
unfolding can_edit_step
can_edit_step-cases user_role_id [] = (λ h. inl refl, λ h. refl)
can_edit_step-cases user_role_id (r ∷ rs) = (λ h. inr h, λ h. ground arith)

module _ (agent_id : ℕ) (roles : List Role) where
  -- The role is of the table and linked to the agent.
  abbrev Linked : Role → Type 0
  Linked r = Memᴰ r roles × (r.agent_id ≡ some agent_id)

  mem-list_for_agent : (r : Role) → Memᴰ r (list_for_agent agent_id roles) ↔ Linked r
  unfolding list_for_agent
  mem-list_for_agent r =
      let (into, out) = mem-filter (λ (x : Role). is_linked agent_id x.agent_id) r roles in
      let (sound, full) = is_linked-eq agent_id r.agent_id in
      (λ m. ((into m).0, sound (into m).1), λ h. out (h.0, full h.1))

  nobody-Linked : (list_for_agent agent_id roles ≡ []) ↔ ((r : Role) → ¬ Linked r)
  nobody-Linked = (
    λ e r h. Memᴰ.not-nil (subst (Memᴰ r) e ((mem-list_for_agent r).1 h)),
    λ none_linked. elim (List-cases (list_for_agent agent_id roles)) [
      | inl e ↦ e
      | inr (r, rest, e) ↦
          absurd
            (none_linked r ((mem-list_for_agent r).0 (subst (Memᴰ r) (sym e) (Memᴰ.head refl))))
    ],
  )

-- A user may act on the steps of an agent exactly if no role is linked to that agent, or one of
-- those that are is the user's.
pub may_act_iff :
    (user_role_id agent_id : ℕ) (roles : List Role)
    → (may_act user_role_id agent_id roles ≡ true) ↔ (
        ((r : Role) → ¬ (Memᴰ r roles × (r.agent_id ≡ some agent_id)))
        ⊎ ((r : Role) × Memᴰ r roles × (r.agent_id ≡ some agent_id) × (r.id ≡ user_role_id)))
unfolding may_act
may_act_iff user_role_id agent_id roles =
    let linked = list_for_agent agent_id roles in
    let (split, join) = can_edit_step-cases user_role_id linked in
    let (empty_sound, empty_full) = nobody-Linked agent_id roles in
    (
      λ h. elim (split h) [
        | inl e ↦ inl (empty_sound e)
        | inr one ↦
            let (r, m, p) = mem_of_any (λ (role : Role). role.id == user_role_id) linked one in
            let (m', q) = (mem-list_for_agent agent_id roles r).0 m in inr (r, m', q, ground arith)
      ],
      λ h. elim h [
        | inl none_linked ↦ join (inl (empty_full none_linked))
        | inr (r, m, q, p) ↦ join (
            inr (
              any_of_mem (λ (role : Role). role.id == user_role_id)
                ((mem-list_for_agent agent_id roles r).1 (m, q)) (ground arith)))
      ],
    )
