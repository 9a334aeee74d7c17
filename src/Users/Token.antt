-- ===== src/Users/Token.antt =====
-- app/domain/users/models.py, classes UserSession and UserToken. Times are seconds, `now` is the
-- value of utcnow(), and `token` that of secrets.token_urlsafe(32).
use orchestract.Common.{ℕ, ◌+◌, ◌*◌, ◌<◌, ◌≡◌, ◌↔◌, Bool, true, arith, ltb, Text}

abbrev pub session_ttl : ℕ
session_ttl = 14 * 86400

abbrev pub email_verification_ttl : ℕ
email_verification_ttl = 24 * 3600

abbrev pub password_reset_ttl : ℕ
password_reset_ttl = 3600

pub record UserSession : Type 0 where
  pub user_id : ℕ
  pub token : Text
  pub expires_at : ℕ

pub data UserTokenPurpose : Type 0 where
  email_verification password_reset : UserTokenPurpose

pub record UserToken : Type 0 where
  pub user_id : ℕ
  pub purpose : UserTokenPurpose
  pub token : Text
  pub expires_at : ℕ

-- UserSession.issue
unfoldable pub issue_session : ℕ → ℕ → Text → ℕ → UserSession
issue_session user_id ttl token now = record {
  user_id = user_id;
  token = token;
  expires_at = now + ttl;
}

-- UserSession.is_valid
unfoldable pub session_is_valid : ℕ → UserSession → Bool
session_is_valid now s = ltb now s.expires_at

abbrev pub ttl_of : UserTokenPurpose → ℕ
ttl_of email_verification = email_verification_ttl
ttl_of password_reset = password_reset_ttl

-- UserToken.issue
unfoldable pub issue_token : ℕ → UserTokenPurpose → Text → ℕ → UserToken
issue_token user_id purpose token now = record {
  user_id = user_id;
  purpose = purpose;
  token = token;
  expires_at = now + ttl_of purpose;
}

-- UserToken.is_valid
unfoldable pub token_is_valid : ℕ → UserToken → Bool
token_is_valid now t = ltb now t.expires_at

-- A token is valid from its issue for exactly as long as its purpose allows.
pub token_lifetime :
    (user_id : ℕ) (purpose : UserTokenPurpose) (token : Text) (issued elapsed : ℕ)
    → (token_is_valid (issued + elapsed) (issue_token user_id purpose token issued) ≡ true)
      ↔ (elapsed < ttl_of purpose)
unfolding token_is_valid issue_token
token_lifetime user_id purpose token issued elapsed = ground arith
