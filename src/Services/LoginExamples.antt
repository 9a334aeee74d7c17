-- ===== src/Services/LoginExamples.antt =====
-- Pages, lockout and the login with Google, in the database in memory.
use orchestract.Common.{
  ℕ, ◌+◌, ◌*◌, ◌≤◌, ◌≡◌, refl, ap, ◌≢◌, ◌⊎◌, true, false, Option, none, some, [], ◌∷◌, arith, any,
  filter, Text, text, text_eq, strip, lower, slugify, ok, is_space, lower_char, strip_chars,
  strip_left, strip_right,
}
use orchestract.Pages.{
  signed_in, starts_with, login_submit, user_from_request, redirect_to, start_session,
}
use orchestract.Pages.Sessions.{IsLawfulLogin, login_submit-lasts}
use orchestract.Services.Organizations.{get_organization}
use orchestract.Services.Logins.{
  authenticate, has_session_token, delete_session, get_user_by_session_token, get_session,
  check_login, create_session,
}
use orchestract.Session.{count, scalar_one_or_none, select_where}
use orchestract.Services.Gate.{home_path, admitted, not_authenticated, enforce_login_and_membership}
use orchestract.Services.Roles.{get_role}
use orchestract.Session.Log.{log, log-IsLawfulLog}
use orchestract.Users.User as User
use orchestract.Users.Role as Role
use orchestract.Tenancy.Organization as Organization
use orchestract.Tenancy.Organization.{Organization}
use orchestract.Users.User.{User, normalize_email, is_email_verified}
use orchestract.Users.Role.{Role}
use orchestract.Passwords.{
  Scrypt, verify_password, split, hash_password, hex, from_hex, compare_digest, hex_digit,
  hex_value, parse_int, to_int, verify_fields,
}
use orchestract.Users.Token.{UserSession, session_is_valid, issue_session}
use orchestract.Compliance.{record_acceptance}
use orchestract.Services.Users.{get_by_email, set_user_active, get_user, user_with_id}
use orchestract.Services.Registration.{found_organization}
use orchestract.Session.Memory.{memory}
use orchestract.Session.Part.{part}
use orchestract.Services.Admission.{Recognized, admitted-IsMember}
use orchestract.Services.Lockout.{set_user_active-locked_out, delete_session-enforce}
use orchestract.Services.SocialAuth.{GoogleIdentity, login_or_register_google, derive_org_name}
use orchestract.Services.Signup.{Added}
use orchestract.Services.Signup.Google.{IsGoogleUser, login_or_register_google-IsGoogleUser, Linked}
use orchestract.Services.Compliance.{has_accepted, has_accepted_current}
use orchestract.Services.Db.{Db, db_store, empty_db, db_store-IsLawfulSignup, users-IsLawful}
use orchestract.Services.AccountExamples.{
  no_scrypt, office, owner, consent, with_user, verified_ann,
}

abbrev session : UserSession
session = record { user_id = 0; token = text "s"; expires_at = 5000 }

abbrev session_db : Db
session_db = record (with_user verified_ann []) { sessions = session ∷ [] }

abbrev english : Option Text → Text
english l = text "en"

ann_admitted :
    enforce_login_and_membership db_store english
      (some (text "s"))
      (text "/acme/")
      office
      2000
      session_db
    ≡ admitted verified_ann owner (text "en")
unfolding enforce_login_and_membership get_user_by_session_token get_session scalar_one_or_none
    filter log text_eq session_is_valid part memory has_accepted_current any get_role
ann_admitted = refl

admitted-IsMember_example :
    (raw : Text) × (some (text "s") ≡ some raw)
    × Recognized db_store raw 2000 session_db verified_ann
    × (office.id ≡ some 0)
    × (n : ℕ) × (db_store.users.get n session_db ≡ some verified_ann)
    × (has_accepted_current db_store n session_db ≡ true)
    × (db_store.roles.get 0 session_db ≡ some owner)
admitted-IsMember_example =
    admitted-IsMember db_store english users-IsLawful (some (text "s")) (text "/acme/") office 2000
      session_db verified_ann owner (text "en") ann_admitted

abbrev off_ann : User
off_ann = record verified_ann { is_active = false }

abbrev locked_db : Db
locked_db = record session_db { users = off_ann ∷ [] }

ann_deactivated : set_user_active db_store 0 false session_db ≡ ok (off_ann, locked_db)
unfolding set_user_active get_user part memory User.deactivate
ann_deactivated = refl

set_user_active-locked_out_example :
    ((token : Option Text) (path : Text) (o : Organization) (now : ℕ) (v : User) (r : Role)
        (l : Text)
      → enforce_login_and_membership db_store english token path o now locked_db ≡ admitted v r l
      → v.id ≢ some 0)
    × ((scrypt : Scrypt) (email password : Text) (v : User)
        → authenticate db_store scrypt email password locked_db ≡ ok v
        → v.id ≢ some 0)
set_user_active-locked_out_example =
    set_user_active-locked_out db_store english users-IsLawful 0 session_db locked_db off_ann
      ann_deactivated

delete_session-enforce_example :
    enforce_login_and_membership db_store english
      (some (text "s"))
      (text "/acme/")
      office
      2000
      (delete_session db_store (text "s") session_db)
    ≡ not_authenticated (text "/acme/")
delete_session-enforce_example =
    delete_session-enforce db_store english
      (log-IsLawfulLog (λ s. s.sessions) (λ l s. record s { sessions = l }) (λ l s. refl))
      (text "s") (text "/acme/") office 2000 session_db

abbrev bob_identity : GoogleIdentity
bob_identity = record {
  sub = text "g1";
  email = text "bob@x.org";
  email_verified = true;
  name = text "Bob Li";
  given_name = none;
}

abbrev bob : User
bob = record {
  id = some 0;
  organization_id = 0;
  name = text "Bob Li";
  email = text "bob@x.org";
  password_hash = none;
  google_sub = some (text "g1");
  role_id = 0;
  is_active = true;
  email_verified_at = some 1000;
  locale = none;
}

abbrev bob_db : Db
bob_db = record empty_db {
  organizations =
      record office { id = none; name = text "Bob's workspace"; slug = text "bob-s-workspace" }
      ∷ [];
  roles = owner ∷ [];
  users = record bob { id = none } ∷ [];
  acceptances = consent ∷ [];
}

bob_logged_in :
    login_or_register_google db_store bob_identity (text "2026-07-28") none none 1000 empty_db
    ≡ ok (bob, bob_db)
unfolding login_or_register_google get_by_email scalar_one_or_none select_where filter part memory
    derive_org_name strip found_organization Organization.create Role.create User.create_social
    lower log slugify record_acceptance
bob_logged_in = refl

login_or_register_google-IsGoogleUser_example :
    (bob_identity.email_verified ≡ true)
    × IsGoogleUser bob_identity bob
    × (((old : User) × Linked db_store bob_identity empty_db bob_db old bob)
        ⊎ ((n : ℕ) × Added db_store empty_db bob_db n bob
            × (bob.password_hash ≡ none)
            × (has_accepted db_store n (text "2026-07-28") bob_db ≡ true)))
login_or_register_google-IsGoogleUser_example =
    login_or_register_google-IsGoogleUser db_store db_store-IsLawfulSignup bob_identity
      (text "2026-07-28") none none 1000 empty_db bob_db bob bob_logged_in

abbrev new_session : UserSession
new_session = record { user_id = 0; token = text "s"; expires_at = 1211600 }

abbrev entered_db : Db
entered_db = record (with_user verified_ann []) { sessions = new_session ∷ [] }

ann_entered :
    login_submit db_store no_scrypt
      (text "ann@x.org")
      (text "pw")
      (text "//evil.com/")
      (text "s")
      2000
      (with_user verified_ann [])
    ≡ (signed_in (text "/acme/") (text "s"), entered_db)
unfolding login_submit authenticate get_by_email scalar_one_or_none select_where filter part memory
    text_eq lower strip User.verify_password verify_password split hash_password hex from_hex
    is_space lower_char strip_chars strip_left strip_right redirect_to start_session starts_with
    compare_digest hex_digit hex_value parse_int to_int verify_fields check_login create_session
    get_organization issue_session normalize_email log user_with_id home_path
ann_entered = refl

one_session : count (has_session_token (text "s")) (db_store.user_sessions.rows entered_db) ≤ 1
unfolding count log text_eq
one_session = omega arith

db_store-IsLawfulLogin : IsLawfulLogin db_store
unfolding log part
db_store-IsLawfulLogin = record {
  users = users-IsLawful;
  sessions = log-IsLawfulLog (λ s. s.sessions) (λ l s. record s { sessions = l }) (λ l s. refl);
  session_users = λ x s s' h n.
      let q : s' ≡ record s { sessions = x ∷ s.sessions } = ground arith in
      ap (db_store.users.get n) q;
}

login_submit-lasts_example :
    (u : User) × (authenticate db_store no_scrypt
        (text "ann@x.org")
        (text "pw")
        (with_user verified_ann [])
      ≡ ok u)
    × (o : Organization) × (get_organization db_store u.organization_id entered_db ≡ ok o)
    × (starts_with (home_path o) (text "/acme/") ≡ true)
    × (user_from_request db_store (some (text "s")) (2000 + 13 * 86400) entered_db ≡ ok (some u))
login_submit-lasts_example =
    login_submit-lasts db_store db_store-IsLawfulLogin no_scrypt (text "ann@x.org") (text "pw")
      (text "//evil.com/") (text "s") 2000 (with_user verified_ann []) entered_db (text "/acme/")
      (text "s") (2000 + 13 * 86400) ann_entered refl one_session (omega arith)
