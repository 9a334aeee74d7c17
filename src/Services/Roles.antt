-- ===== src/Services/Roles.antt =====
-- app/application/role_service.py, with the query get_by_slug of
-- app/infrastructure/db/repositories/roles.py.
use orchestract.Common.{
  ℕ, Bool, true, false, not, ◌&&◌, Option, none, some, ◌==◌, if◌then◌else◌, Text, text_eq, is_empty,
  strip, slugify, Result, ok, ◌>>=◌, ◌>>◌, raise_if, or_raise, not_found, role, duplicate_role_name,
  integrity_error,
}
use orchestract.Session.{select_where, scalar_one_or_none}
use orchestract.Users.Role.{Role, set_agent}
use orchestract.Users.Role as Role
use orchestract.Services.{Store}

abbrev pub has_role_slug : ℕ → Text → Role → Bool
has_role_slug organization_id slug r = r.organization_id == organization_id && text_eq r.slug slug

-- existing is not None
abbrev pub is_some {ℓ} : {A : Type ℓ} → Option A → Bool
is_some none = false
is_some (some _) = true

-- clash is not None and clash.id != role_id
abbrev pub is_other_role : ℕ → Option Role → Bool
is_other_role n none = false
is_other_role n (some r) = not (r.id == n)

module _ {S : Type 0} (store : Store S) where
  unfoldable pub get_role_by_slug : ℕ → Text → S → Result (Option Role)
  get_role_by_slug organization_id slug s =
      scalar_one_or_none (select_where store.roles (has_role_slug organization_id slug) s)

  -- The guard takes the name as it was given, and Role.create the name without outer space.
  unfoldable pub create_role : ℕ → Text → Option Text → Option ℕ → S → Result (Role × S)
  create_role organization_id name description agent_id s = do
    existing ← get_role_by_slug organization_id (slugify name) s
    raise_if (is_some existing) (duplicate_role_name name)
    r ← Role.create 0 organization_id name description agent_id
    (n, s') ← or_raise (store.roles.add r s) integrity_error
    ok (record r { id = n }, s')

  -- RoleService.get
  unfoldable pub get_role : ℕ → S → Result Role
  get_role role_id s = or_raise (store.roles.get role_id s) (not_found role role_id)

  unfoldable pub rename_role : ℕ → Text → S → Result (Role × S)
  rename_role role_id new_name s = do
    r ← get_role role_id s
    r' ← Role.rename new_name r
    ok (r', store.roles.save role_id r' s)

  -- The guard of `update_role`.
  unfoldable pub guard_role_slug : ℕ → Role → Text → S → Result (Unit {0})
  guard_role_slug role_id r trimmed s = if is_empty trimmed then ok tt else (do
    clash ← get_role_by_slug r.organization_id (slugify trimmed) s
    raise_if (is_other_role role_id clash) (duplicate_role_name trimmed))

  unfoldable pub update_role : ℕ → Text → Option Text → Option ℕ → S → Result (Role × S)
  update_role role_id name description agent_id s = do
    r ← get_role role_id s
    guard_role_slug role_id r (strip name) s
    r' ← Role.rename name r
    let r'' = set_agent agent_id (Role.set_description description r')
    ok (r'', store.roles.save role_id r'' s)

  -- RoleService.set_agent
  unfoldable pub set_role_agent : ℕ → Option ℕ → S → Result (Role × S)
  set_role_agent role_id agent_id s = do
    r ← get_role role_id s
    ok (set_agent agent_id r, store.roles.save role_id (set_agent agent_id r) s)
