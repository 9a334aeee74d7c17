-- ===== src/Users/Examples.antt =====
-- A role table.
use orchestract.Common.{◌≡◌, ◌↔◌, ◌⊎◌, true, none, some, [], ◌∷◌, Memᴰ, text}
use orchestract.Users.Role.{Role}
use orchestract.Users.Permissions.{may_act, may_act_iff}

abbrev lawyer : Role
lawyer = record {
  id = 4;
  organization_id = 1;
  name = text "Lawyer";
  slug = text "lawyer";
  description = none;
  agent_id = some 9;
}

may_act_iff_example : (may_act 4 9 (lawyer ∷ []) ≡ true) ↔ (
    ((r : Role) → ¬ (Memᴰ r (lawyer ∷ []) × (r.agent_id ≡ some 9)))
    ⊎ ((r : Role) × Memᴰ r (lawyer ∷ []) × (r.agent_id ≡ some 9) × (r.id ≡ 4)))
may_act_iff_example = may_act_iff 4 9 (lawyer ∷ [])
