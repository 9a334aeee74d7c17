-- ===== src/Services/Users.antt =====
-- app/application/user_service.py: the accounts, with the queries of
-- app/infrastructure/db/repositories/users.py. `salt` is the value of os.urandom(16), and scrypt a
-- parameter.
use orchestract.Common.{
  ℕ, Bool, true, false, not, Option, none, some, ◌==◌, if◌then◌else◌, Text, text, text_eq, Result,
  ok, ◌>>=◌, ◌>>◌, raise_if, or_raise, not_found, user, organization, duplicate_email,
  integrity_error, invalid_credentials,
}
use orchestract.Session.{select_where, scalar_one_or_none}
use orchestract.Tenancy.Plans.{plan_limits, check_limit}
use orchestract.Passwords.{Bytes, Scrypt}
use orchestract.Users.User.{
  User, normalize_email, mark_email_verified, set_password, verify_password,
}
use orchestract.Users.User as User
use orchestract.Services.{Store, limit_message}

abbrev pub is_user_of : ℕ → User → Bool
is_user_of organization_id u = u.organization_id == organization_id

abbrev pub has_email : Text → User → Bool
has_email email u = text_eq u.email email

abbrev pub is_found {ℓ} : {A : Type ℓ} → Option A → Bool
is_found none = false
is_found (some _) = true

abbrev pub id_of_user : User → Option ℕ
id_of_user u = u.id

abbrev pub user_with_id : ℕ → User → User
user_with_id n u = record u { id = some n }

module _ {S : Type 0} (store : Store S) where
  unfoldable pub get_by_email : Text → S → Result (Option User)
  unfolding normalize_email
  get_by_email email s =
      scalar_one_or_none (select_where store.users (has_email (normalize_email email)) s)

  -- UserService.get
  unfoldable pub get_user : ℕ → S → Result User
  get_user user_id s = or_raise (store.users.get user_id s) (not_found user user_id)

  unfoldable pub create_user : Scrypt → ℕ → Text → Text → Text → ℕ → Bytes → S → Result (User × S)
  create_user scrypt organization_id name email raw_password role_id salt s = do
    o ←
        or_raise (store.organizations.get organization_id s)
          (not_found organization organization_id)
    let limits = plan_limits o.plan
    check_limit limits.max_users (select_where store.users (is_user_of organization_id) s)
        (limit_message limits limits.max_users (text "users"))
    existing ← get_by_email email s
    raise_if (is_found existing) (duplicate_email email)
    u ← User.create scrypt organization_id name email raw_password role_id salt
    (n, s') ← or_raise (store.users.add u s) integrity_error
    ok (record u { id = some n }, s')

  -- UserService.set_active
  unfoldable pub set_user_active : ℕ → Bool → S → Result (User × S)
  set_user_active user_id active s = do
    u ← get_user user_id s
    let u' = if active then User.activate u else User.deactivate u
    ok (u', store.users.save user_id u' s)

  -- UserService.set_role
  unfoldable pub set_user_role : ℕ → ℕ → S → Result (User × S)
  set_user_role user_id role_id s = do
    u ← get_user user_id s
    ok (User.set_role role_id u, store.users.save user_id (User.set_role role_id u) s)

  -- UserService.set_locale
  unfoldable pub set_user_locale : ℕ → Option Text → S → Result (User × S)
  set_user_locale user_id locale s = do
    u ← get_user user_id s
    ok (User.set_locale locale u, store.users.save user_id (User.set_locale locale u) s)

  unfoldable pub update_profile : ℕ → Text → ℕ → S → Result (User × S)
  update_profile user_id name role_id s = do
    u ← get_user user_id s
    u' ← User.rename name u
    let u'' = User.set_role role_id u'
    ok (u'', store.users.save user_id u'' s)

  -- UserService.rename
  unfoldable pub rename_user : ℕ → Text → S → Result (User × S)
  rename_user user_id new_name s = do
    u ← get_user user_id s
    u' ← User.rename new_name u
    ok (u', store.users.save user_id u' s)

  unfoldable pub force_verify : ℕ → ℕ → S → Result (User × S)
  force_verify user_id now s = do
    u ← get_user user_id s
    ok (mark_email_verified now u, store.users.save user_id (mark_email_verified now u) s)

  unfoldable pub change_password : Scrypt → ℕ → Text → Text → Bytes → S → Result (User × S)
  change_password scrypt user_id current_password new_password salt s = do
    u ← get_user user_id s
    raise_if (not (verify_password scrypt current_password u)) invalid_credentials
    let u' = set_password scrypt new_password salt u
    ok (u', store.users.save user_id u' s)
