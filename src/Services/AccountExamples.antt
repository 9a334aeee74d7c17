-- ===== src/Services/AccountExamples.antt =====
-- Registration, logins and lockout, in the database in memory.
use orchestract.Common.{
  ℕ, ◌+◌, ◌*◌, ◌≤◌, ◌<◌, ◌≡◌, refl, ◌↔◌, inl, true, false, none, some, List, [], ◌∷◌, arith, filter,
  text, text_eq, strip, lower, slugify, ok, err, email_not_verified, invalid_credentials,
  invalid_or_expired_token,
}
use orchestract.Session.Log.{log}
use orchestract.Users.User as User
use orchestract.Users.Role as Role
use orchestract.Tenancy.Organization as Organization
use orchestract.Tenancy.Organization.{Organization}
use orchestract.Users.User.{User, normalize_email, is_email_verified}
use orchestract.Users.Role.{Role}
use orchestract.Passwords.{Scrypt, hash_password}
use orchestract.Users.Token.{
  UserToken, email_verification, issue_token, password_reset, token_is_valid,
}
use orchestract.Compliance.{TermsAcceptance, record_acceptance}
use orchestract.Session.{count, scalar_one_or_none, select_where}
use orchestract.Services.Users.{get_by_email, has_email}
use orchestract.Services.Logins.{authenticate}
use orchestract.Services.Tokens.{has_purpose_token, verify_email, reset_password, get_token}
use orchestract.Services.Registration.{register}
use orchestract.Session.Memory.{memory}
use orchestract.Session.Part.{part}
use orchestract.Tenancy.Plans.{free}
use orchestract.Services.Answers.{IsOwner, IsLogin, authenticate-answers}
use orchestract.Services.Credentials.{token_once, reset_password-authenticate}
use orchestract.Services.Db.{
  Db, db_store, empty_db, db_store-IsLawfulSignup, db_store-IsLawfulAccounts,
}
use orchestract.Services.Signup.Verified.{register-authenticate}
use orchestract.Services.Signup.Emails.{UniqueEmails, AccountRun, AccountStep, run-UniqueEmails}

abbrev pub no_scrypt : Scrypt
no_scrypt raw salt n r p = []

abbrev pub ann : User
ann = record {
  id = some 0;
  organization_id = 0;
  name = text "Ann";
  email = text "ann@x.org";
  password_hash = some (hash_password no_scrypt [] (text "pw"));
  google_sub = none;
  role_id = 0;
  is_active = true;
  email_verified_at = none;
  locale = none;
}

abbrev pub office : Organization
office = record {
  id = some 0;
  name = text "Acme";
  slug = text "acme";
  plan = free;
  stripe_customer_id = none;
  stripe_subscription_id = none;
  subscription_status = none;
}

abbrev pub owner : Role
owner = record {
  id = 0;
  organization_id = 0;
  name = text "Owner";
  slug = text "owner";
  description = none;
  agent_id = none;
}

abbrev pub consent : TermsAcceptance
consent = record {
  user_id = 0;
  organization_id = 0;
  version = text "2026-07-28";
  accepted_at = 1000;
  ip_address = none;
  user_agent = none;
}

abbrev mailed : UserToken
mailed = record {
  user_id = 0;
  purpose = email_verification;
  token = text "tok";
  expires_at = 87400;
}

-- The state with this user and these tokens.
abbrev pub with_user : User → List UserToken → Db
with_user u tokens = record empty_db {
  organizations = record office { id = none } ∷ [];
  roles = owner ∷ [];
  users = u ∷ [];
  acceptances = consent ∷ [];
  tokens = tokens;
}

abbrev registered_db : Db
registered_db = with_user (record ann { id = none }) (mailed ∷ [])

ann_registered :
    register db_store no_scrypt
      (text "Acme")
      (text "Ann")
      (text " Ann@x.org")
      (text "pw")
      (text "2026-07-28")
      none
      none
      []
      (text "tok")
      1000
      empty_db
    ≡ ok (office, ann, mailed, registered_db)
unfolding register get_by_email scalar_one_or_none select_where filter part memory
    Organization.create strip Role.create User.create lower log slugify issue_token
    record_acceptance
ann_registered = refl

one_mailed : count (has_purpose_token (text "tok") email_verification) (mailed ∷ []) ≤ 1
unfolding count has_purpose_token text_eq
one_mailed = omega arith

register-authenticate_example :
    (authenticate db_store no_scrypt (text " Ann@x.org") (text "pw") registered_db
      ≡ err email_not_verified)
    × ((later : ℕ)
        → later < 1000 + 24 * 3600
        → (v : User) × (s : Db) × (verify_email db_store (text "tok") later registered_db
            ≡ ok (v, s))
          × (authenticate db_store no_scrypt (text " Ann@x.org") (text "pw") s ≡ ok v)
          × (v.id ≡ ann.id))
unfolding log
register-authenticate_example =
    register-authenticate db_store db_store-IsLawfulSignup no_scrypt (text "Acme") (text "Ann")
      (text " Ann@x.org") (text "pw") (text "2026-07-28") none none [] (text "tok") 1000 empty_db
      registered_db office ann mailed (λ x y. tt) tt ann_registered one_mailed

no_emails : UniqueEmails db_store empty_db
unfolding part memory count filter
no_emails = record { at_most_one = λ email. omega arith }

run-UniqueEmails_example : UniqueEmails db_store registered_db
run-UniqueEmails_example =
    run-UniqueEmails db_store db_store-IsLawfulSignup
      (AccountRun.next
        (AccountStep.registered no_scrypt (text "Acme") (text "Ann") (text " Ann@x.org") (text "pw")
          (text "2026-07-28") none none [] (text "tok") 1000 office ann mailed ann_registered)
        AccountRun.stop)
      no_emails

one_ann :
    count (has_email (normalize_email (text "ann@x.org"))) (db_store.users.rows registered_db) ≤ 1
unfolding count part memory text_eq normalize_email lower strip
one_ann = omega arith

authenticate-answers_example :
    ((u : User)
      → (authenticate db_store no_scrypt (text "ann@x.org") (text "pw") registered_db ≡ ok u) ↔ (
          IsOwner db_store (text "ann@x.org") registered_db u
          × IsLogin no_scrypt (text "pw") u
          × (is_email_verified u ≡ true)))
    × ((authenticate db_store no_scrypt (text "ann@x.org") (text "pw") registered_db
          ≡ err email_not_verified)
        ↔ ((u : User) × IsOwner db_store (text "ann@x.org") registered_db u
            × IsLogin no_scrypt (text "pw") u
            × (is_email_verified u ≡ false)))
    × (((u : User)
          → IsOwner db_store (text "ann@x.org") registered_db u
          → ¬ (IsLogin no_scrypt (text "pw") u))
        → authenticate db_store no_scrypt (text "ann@x.org") (text "pw") registered_db
          ≡ err invalid_credentials)
authenticate-answers_example =
    authenticate-answers db_store no_scrypt (text "ann@x.org") (text "pw") registered_db one_ann

abbrev pub verified_ann : User
verified_ann = record ann { email_verified_at = some 1500 }

abbrev reset_token : UserToken
reset_token = record mailed { purpose = password_reset }

abbrev reset_ann : User
reset_ann = record verified_ann { password_hash = some (hash_password no_scrypt [] (text "new")) }

ann_reset :
    reset_password db_store no_scrypt
      (text "tok")
      (text "new")
      []
      2000
      (with_user verified_ann (reset_token ∷ []))
    ≡ ok (reset_ann, with_user reset_ann [])
unfolding reset_password get_token scalar_one_or_none filter log text_eq token_is_valid part memory
    User.set_password
ann_reset = refl

token_once_example :
    (reset_password db_store no_scrypt (text "tok") (text "other") [] 2100 (with_user reset_ann [])
      ≡ err invalid_or_expired_token)
    × (verify_email db_store (text "tok") 2100 (with_user reset_ann [])
        ≡ err invalid_or_expired_token)
token_once_example =
    token_once db_store db_store-IsLawfulAccounts no_scrypt (text "tok") (text "new") (text "other")
      [] [] 2000 2100 (with_user verified_ann (reset_token ∷ [])) (with_user reset_ann []) reset_ann
      (inl ann_reset)

one_verified :
    count
      (has_email (text "ann@x.org"))
      (db_store.users.rows (with_user verified_ann (reset_token ∷ [])))
    ≤ 1
unfolding count part memory text_eq
one_verified = omega arith

normal_email : normalize_email (text " Ann@x.org") ≡ text "ann@x.org"
unfolding normalize_email lower strip
normal_email = refl

reset_password-authenticate_example :
    authenticate db_store no_scrypt (text " Ann@x.org") (text "new") (with_user reset_ann [])
    ≡ ok reset_ann
reset_password-authenticate_example =
    reset_password-authenticate db_store db_store-IsLawfulAccounts no_scrypt (text "tok")
      (text " Ann@x.org") (text "new") [] 2000 (with_user verified_ann (reset_token ∷ []))
      (with_user reset_ann []) reset_ann (λ x y. tt) tt ann_reset refl refl normal_email
      one_verified
