-- ===== src/Services/Registration.antt =====
-- app/application/registration_service.py. `salt` is the value of os.urandom(16), `token` that of
-- secrets.token_urlsafe(32) and `now` that of utcnow(), and scrypt a parameter.
use orchestract.Common.{
  ℕ, Option, none, some, Text, text, Result, ok, ◌>>=◌, ◌>>◌, raise_if, or_raise, integrity_error,
  duplicate_email,
}
use orchestract.Users.Token.{UserToken, issue_token, email_verification}
use orchestract.Services.Users.{get_by_email, is_found}
use orchestract.Passwords.{Scrypt, Bytes}
use orchestract.Compliance.{record_acceptance}
use orchestract.Services.{Store}
use orchestract.Tenancy.Organization.{Organization}
use orchestract.Users.User.{User}
use orchestract.Tenancy.Organization as Organization
use orchestract.Users.Role as Role
use orchestract.Users.User as User

module _ {S : Type 0} (store : Store S) where
  -- An organization and its role "Owner", which `register` and `login_or_register_google` store for
  -- a new person.
  unfoldable pub found_organization : Text → S → Result (ℕ × Organization × ℕ × S)
  found_organization name s = do
    o ← Organization.create name
    (n, s') ← or_raise (store.organizations.add o s) integrity_error
    r ← Role.create 0 n (text "Owner") none none
    (k, s'') ← or_raise (store.roles.add r s') integrity_error
    ok (n, record o { id = some n }, k, s'')

  unfoldable pub register :
      Scrypt
      → Text
      → Text
      → Text
      → Text
      → Text
      → Option Text
      → Option Text
      → Bytes
      → Text
      → ℕ
      → S
      → Result (Organization × User × UserToken × S)
  unfolding found_organization
  register scrypt organization_name user_name email raw_password terms_version ip_address user_agent
        salt token now s =
      do
        existing ← get_by_email store email s
        raise_if (is_found existing) (duplicate_email email)
        (org, o, role_id, s₁) ← found_organization organization_name s
        u ← User.create scrypt org user_name email raw_password role_id salt
        (n, s₂) ← or_raise (store.users.add u s₁) integrity_error
        s₃ ←
            or_raise
              (store.terms_acceptances.add
                (record_acceptance n org terms_version ip_address user_agent now) s₂)
              integrity_error
        let t = issue_token n email_verification token now
        s₄ ← or_raise (store.user_tokens.add t s₃) integrity_error
        ok (o, record u { id = some n }, t, s₄)
