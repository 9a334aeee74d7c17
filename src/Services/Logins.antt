-- ===== src/Services/Logins.antt =====
-- app/application/user_service.py: passwords and sessions, with the queries of
-- app/infrastructure/db/repositories/user_sessions.py. `now` is the value of utcnow(), and `token`
-- that of secrets.token_urlsafe(32).
use orchestract.Common.{
  ℕ, Bool, not, ◌||◌, Option, none, some, if◌then◌else◌, filter, Text, text_eq, Result, ok, err,
  ◌>>=◌, ◌>>◌, raise_if, or_raise, invalid_credentials, email_not_verified, integrity_error,
}
use orchestract.Session.{scalar_one_or_none}
use orchestract.Passwords.{Scrypt}
use orchestract.Users.User.{User, verify_password, is_email_verified}
use orchestract.Users.Token.{UserSession, session_ttl, issue_session, session_is_valid}
use orchestract.Services.{Store}
use orchestract.Services.Users.{get_by_email}

-- The guards of `authenticate` on the user that was found.
unfoldable pub check_login : Scrypt → Text → Option User → Result User
check_login scrypt raw_password none = err invalid_credentials
check_login scrypt raw_password (some u) = do
  raise_if (not u.is_active || not (verify_password scrypt raw_password u)) invalid_credentials
  raise_if (not (is_email_verified u)) email_not_verified
  ok u

abbrev pub has_session_token : Text → UserSession → Bool
has_session_token token x = text_eq x.token token

-- user is None or not user.is_active
abbrev pub if_active : Option User → Option User
if_active none = none
if_active (some u) = if u.is_active then some u else none

module _ {S : Type 0} (store : Store S) where
  unfoldable pub authenticate : Scrypt → Text → Text → S → Result User
  unfolding check_login
  authenticate scrypt email raw_password s = do
    found ← get_by_email store email s
    check_login scrypt raw_password found

  unfoldable pub create_session : ℕ → Text → ℕ → S → Result (UserSession × S)
  create_session user_id token now s = do
    let x = issue_session user_id session_ttl token now
    s' ← or_raise (store.user_sessions.add x s) integrity_error
    ok (x, s')

  unfoldable pub get_session : Text → S → Result (Option UserSession)
  get_session token s =
      scalar_one_or_none (filter (has_session_token token) (store.user_sessions.rows s))

  unfoldable pub get_user_by_session_token : Text → ℕ → S → Result (Option User)
  get_user_by_session_token token now s = do
    found ← get_session token s
    ok (elim found [
      | none ↦ none
      | some x ↦ if session_is_valid now x then if_active (store.users.get x.user_id s) else none
    ])

  unfoldable pub delete_session : Text → S → S
  delete_session token s = store.user_sessions.delete (has_session_token token) s
