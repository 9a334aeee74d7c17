-- ===== src/Users/User.antt =====
-- app/domain/users/models.py, class User. `now` is the value of utcnow() and `salt` that of
-- os.urandom(16); scrypt is a parameter.
use orchestract.Common.{
  ℕ, Bool, true, false, Option, none, some, Text, is_empty, strip, lower, Result, ok, ◌>>◌,
  raise_if, empty_user_name, empty_user_email,
}
use orchestract.Passwords.{Bytes, Scrypt, hash_password}
use orchestract.Passwords

pub record User : Type 0 where
  pub id : Option ℕ
  pub organization_id : ℕ
  pub name : Text
  pub email : Text
  pub password_hash : Option Text
  pub google_sub : Option Text
  pub role_id : ℕ
  pub is_active : Bool
  pub email_verified_at : Option ℕ
  pub locale : Option Text

-- email.strip().lower()
unfoldable pub normalize_email : Text → Text
normalize_email email = lower (strip email)

-- User.create_social
unfoldable pub create_social : ℕ → Text → Text → ℕ → Text → ℕ → Result User
unfolding normalize_email
create_social organization_id name email role_id google_sub now = do
  raise_if (is_empty (strip name)) empty_user_name
  raise_if (is_empty (normalize_email email)) empty_user_email
  ok (record {
    id = none;
    organization_id = organization_id;
    name = strip name;
    email = normalize_email email;
    password_hash = none;
    google_sub = some google_sub;
    role_id = role_id;
    is_active = true;
    email_verified_at = some now;
    locale = none;
  })

unfoldable pub link_google : Text → ℕ → User → User
link_google google_sub now u = record u {
  google_sub = some google_sub;
  email_verified_at = elim u.email_verified_at [ none ↦ some now | some t ↦ some t ];
}

unfoldable pub rename : Text → User → Result User
rename new_name u = do
  raise_if (is_empty (strip new_name)) empty_user_name
  ok (record u { name = strip new_name })

unfoldable pub set_role : ℕ → User → User
set_role role_id u = record u { role_id = role_id }

unfoldable pub set_locale : Option Text → User → User
set_locale locale u = record u { locale = locale }

unfoldable pub deactivate : User → User
deactivate u = record u { is_active = false }

unfoldable pub activate : User → User
activate u = record u { is_active = true }

unfoldable pub mark_email_verified : ℕ → User → User
mark_email_verified now u = record u { email_verified_at = some now }

abbrev pub is_email_verified : User → Bool
is_email_verified u = elim u.email_verified_at [ none ↦ false | some _ ↦ true ]

module _ (scrypt : Scrypt) where
  -- User.create
  unfoldable pub create : ℕ → Text → Text → Text → ℕ → Bytes → Result User
  unfolding normalize_email
  create organization_id name email raw_password role_id salt = do
    raise_if (is_empty (strip name)) empty_user_name
    raise_if (is_empty (normalize_email email)) empty_user_email
    ok (record {
      id = none;
      organization_id = organization_id;
      name = strip name;
      email = normalize_email email;
      password_hash = some (hash_password scrypt salt raw_password);
      google_sub = none;
      role_id = role_id;
      is_active = true;
      email_verified_at = none;
      locale = none;
    })

  unfoldable pub verify_password : Text → User → Bool
  verify_password raw_password u = elim u.password_hash [
    | none ↦ false
    | some encoded ↦ Passwords.verify_password scrypt raw_password encoded
  ]

  unfoldable pub set_password : Text → Bytes → User → User
  set_password raw_password salt u = record u {
    password_hash = some (hash_password scrypt salt raw_password);
  }
