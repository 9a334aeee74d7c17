-- ===== src/Services/Tokens.antt =====
-- app/application/user_service.py: the tokens in mails, with the queries of
-- app/infrastructure/db/repositories/user_tokens.py. `now` is the value of utcnow(), `token` that of
-- secrets.token_urlsafe(32) and `salt` that of os.urandom(16).
use orchestract.Common.{
  ℕ, Bool, true, false, not, ◌&&◌, Option, none, some, ◌==◌, if◌then◌else◌, filter, Text, text_eq,
  Result, ok, ◌>>=◌, ◌>>◌, raise_if, or_raise, invalid_or_expired_token, integrity_error,
}
use orchestract.Session.{scalar_one_or_none}
use orchestract.Passwords.{Bytes, Scrypt}
use orchestract.Users.User.{User, mark_email_verified, set_password, is_email_verified}
use orchestract.Users.Token.{
  UserToken, UserTokenPurpose, email_verification, password_reset, issue_token, token_is_valid,
}
use orchestract.Services.{Store}
use orchestract.Services.Users.{get_by_email}

abbrev pub same_purpose : UserTokenPurpose → UserTokenPurpose → Bool
same_purpose email_verification email_verification = true
same_purpose password_reset password_reset = true
same_purpose _ _ = false

abbrev pub has_user_token : Text → UserToken → Bool
has_user_token token t = text_eq t.token token

abbrev pub has_purpose_token : Text → UserTokenPurpose → UserToken → Bool
has_purpose_token token purpose t = text_eq t.token token && same_purpose t.purpose purpose

abbrev pub is_user_purpose : ℕ → UserTokenPurpose → UserToken → Bool
is_user_purpose user_id purpose t = t.user_id == user_id && same_purpose t.purpose purpose

module _ {S : Type 0} (store : Store S) where
  -- SqlAlchemyUserTokenRepository.get_by_token
  unfoldable pub get_token : Text → UserTokenPurpose → S → Result (Option UserToken)
  get_token token purpose s =
      scalar_one_or_none (filter (has_purpose_token token purpose) (store.user_tokens.rows s))

  -- What the four methods that issue a token do once the user is known: the user's older tokens for
  -- the purpose are deleted, and a new one is stored.
  unfoldable pub replace_token : ℕ → UserTokenPurpose → Text → ℕ → S → Result (UserToken × S)
  replace_token user_id purpose token now s = do
    let t = issue_token user_id purpose token now
    s' ←
        or_raise
          (store.user_tokens.add t (store.user_tokens.delete (is_user_purpose user_id purpose) s))
          integrity_error
    ok (t, s')

  unfoldable pub create_email_verification_token : ℕ → Text → ℕ → S → Result (UserToken × S)
  unfolding replace_token
  create_email_verification_token user_id token now s =
      replace_token user_id email_verification token now s

  -- None stands for no answer; the state is then as it was.
  unfoldable pub resend_verification : Text → Text → ℕ → S → Result (Option (User × UserToken) × S)
  unfolding replace_token
  resend_verification email token now s = do
    found ← get_by_email store email s
    elim found [
      | none ↦ ok (none, s)
      | some u ↦ if is_email_verified u then ok (none, s) else (do
        n ← or_raise u.id integrity_error
        (t, s') ← replace_token n email_verification token now s
        ok (some (u, t), s'))
    ]

  unfoldable pub create_password_reset_token :
      Text → Text → ℕ → S → Result (Option (User × UserToken) × S)
  unfolding replace_token
  create_password_reset_token email token now s = do
    found ← get_by_email store email s
    elim found [
      | none ↦ ok (none, s)
      | some u ↦
          if u.is_active
          then (do
            n ← or_raise u.id integrity_error
            (t, s') ← replace_token n password_reset token now s
            ok (some (u, t), s'))
          else ok (none, s)
    ]

  -- The user of a valid token, which `verify_email` and `reset_password` look up.
  unfoldable pub redeem : Text → UserTokenPurpose → ℕ → S → Result (ℕ × User)
  redeem token purpose now s = do
    found ← get_token token purpose s
    t ← or_raise found invalid_or_expired_token
    raise_if (not (token_is_valid now t)) invalid_or_expired_token
    u ← or_raise (store.users.get t.user_id s) invalid_or_expired_token
    ok (t.user_id, u)

  -- The commit of a change to that user, which uses the token up.
  unfoldable pub consume : Text → ℕ → User → S → S
  consume token n u s = store.user_tokens.delete (has_user_token token) (store.users.save n u s)

  unfoldable pub verify_email : Text → ℕ → S → Result (User × S)
  unfolding redeem consume
  verify_email token now s = do
    (n, u) ← redeem token email_verification now s
    ok (mark_email_verified now u, consume token n (mark_email_verified now u) s)

  unfoldable pub reset_password : Scrypt → Text → Text → Bytes → ℕ → S → Result (User × S)
  unfolding redeem consume
  reset_password scrypt token new_password salt now s = do
    (n, u) ← redeem token password_reset now s
    let u' = set_password scrypt new_password salt u
    ok (u', consume token n u' s)
