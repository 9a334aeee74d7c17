-- ===== src/Services/Gate.antt =====
-- app/api/deps.py, enforce_login_and_membership: who may see the pages of an organization. `token` is
-- the cookie session_token, `now` the value of utcnow(), and `locale` gives the language for a
-- user's preference.
use orchestract.Common.{
  ℕ, Bool, true, false, not, Option, none, some, [], ◌∷◌, ◌++◌, ◌==◌, if◌then◌else◌, Text, is_empty,
  Result, ok, err, DomainError,
}
use orchestract.Users.Role.{Role}
use orchestract.Services.Roles.{get_role}
use orchestract.Services.Compliance.{has_accepted_current}
use orchestract.Services.Logins.{get_user_by_session_token}
use orchestract.Tenancy.Organization.{Organization}
use orchestract.Services.{Store}
use orchestract.Users.User.{User}

-- What the dependency ends with: the exceptions NotAuthenticatedError, with the path to go on to,
-- and TermsNotAcceptedError, an exception of a service, or what it stores in request.state.
pub data Gate : Type 0 where
  not_authenticated : Text → Gate
  terms_not_accepted : Gate
  raised : DomainError → Gate
  admitted : User → Role → Text → Gate

-- user.organization_id != organization.id
unfoldable pub is_foreign : User → Organization → Bool
is_foreign u o = elim o.id [ none ↦ true | some n ↦ not (u.organization_id == n) ]

-- f"/{organization.slug}/"
abbrev pub home_path : Organization → Text
home_path o = b'/' ∷ (o.slug ++ b'/' ∷ [])

module _ {S : Type 0} (store : Store S) (locale : Option Text → Text) where
  -- user is None where there is no token.
  unfoldable pub current_user : Option Text → ℕ → S → Result (Option User)
  current_user none now s = ok none
  current_user (some token) now s =
      if is_empty token then ok none else get_user_by_session_token store token now s

  -- has_accepted_current(user.id); a user of the database has an id.
  unfoldable pub user_has_accepted : User → S → Bool
  user_has_accepted u s = elim u.id [ none ↦ false | some n ↦ has_accepted_current store n s ]

  -- The checks of a user who is logged in.
  unfoldable pub admit : User → Organization → S → Gate
  unfolding is_foreign user_has_accepted
  admit u o s =
      if is_foreign u o
      then not_authenticated (home_path o)
      else if not (user_has_accepted u s)
      then terms_not_accepted
      else elim (get_role store u.role_id s) [
        | err e ↦ raised e
        | ok r ↦ admitted u r (locale u.locale)
      ]

  unfoldable pub enforce_login_and_membership : Option Text → Text → Organization → ℕ → S → Gate
  unfolding current_user admit
  enforce_login_and_membership token path o now s = elim (current_user token now s) [
    | err e ↦ raised e
    | ok none ↦ not_authenticated path
    | ok (some u) ↦ admit u o s
  ]
