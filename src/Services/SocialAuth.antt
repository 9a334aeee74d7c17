-- ===== src/Services/SocialAuth.antt =====
-- app/application/social_auth_service.py, and the identity that exchange_code of
-- app/infrastructure/auth/google_oidc.py reads from Google's answer. `now` is the value of utcnow().
use orchestract.Users.User.{User, link_google, create_social}
use orchestract.Common.{
  ℕ, Bool, false, not, ◌&&◌, Option, none, some, [], ◌∷◌, ◌++◌, ◌==◌, if◌then◌else◌, Text, text,
  is_empty, strip, lower, Result, ok, err, ◌>>=◌, ◌>>◌, raise_if, or_raise, integrity_error,
  index_error, social_login, is_space,
}
use orchestract.Services.Registration.{found_organization}
use orchestract.Services.Users.{get_by_email}
use orchestract.Services.{Store}
use orchestract.Compliance.{record_acceptance}

pub record GoogleIdentity : Type 0 where
  pub sub : Text
  pub email : Text
  pub email_verified : Bool
  pub name : Text
  pub given_name : Option Text

-- x or ""
abbrev or_empty : Option Text → Text
or_empty none = []
or_empty (some s) = s

-- x or y
abbrev pub or_else : Text → Text → Text
or_else s t = if is_empty s then t else s

-- The values that userinfo answers with, each under its key, turned into an identity.
unfoldable pub google_identity :
    Text → Option Text → Option Bool → Option Text → Option Text → GoogleIdentity
google_identity sub email email_verified name given_name = record {
  sub = sub;
  email = lower (strip (or_empty email));
  email_verified = elim email_verified [ none ↦ false | some b ↦ b ];
  name = strip (or_else (or_empty name) (or_empty email));
  given_name = given_name;
}

-- The characters up to the first that passes the test: s.split("@")[0], and s.split()[0] of a
-- text that starts with no space.
unfoldable pub before : (ℕ → Bool) → Text → Text
before p [] = []
before p (c ∷ s) = let rest = before p s in if p c then [] else c ∷ rest

-- s.split()[0]
unfoldable pub first_word : Text → Result Text
unfolding before
first_word [] = err index_error
first_word (c ∷ s) = ok (before is_space (c ∷ s))

-- The first two of the three names that `_derive_org_name` tries.
unfoldable pub personal_name : GoogleIdentity → Result Text
unfolding first_word
personal_name i =
    let given = strip (or_empty i.given_name) in
    if is_empty given && not (is_empty i.name) then first_word (strip i.name) else ok given

unfoldable pub derive_org_name : GoogleIdentity → Result Text
unfolding personal_name before
derive_org_name i = do
  name ← personal_name i
  let base = if is_empty name then before (λ c. c == b'@') i.email else name
  ok (or_else base (text "My") ++ text "'s workspace")

abbrev pub no_email : Text
no_email = text "Google didn't provide an email address for this account."

abbrev pub unverified_email : Text
unverified_email = text "Your Google email address isn't verified, so we can't sign you in."

abbrev pub deactivated_account : Text
deactivated_account = text "This account has been deactivated. Contact your organization's admin."

module _ {S : Type 0} (store : Store S) where
  -- The branch for a user who exists.
  unfoldable pub link_existing : Text → ℕ → User → S → Result (User × S)
  link_existing sub now u s = do
    raise_if (not u.is_active) (social_login deactivated_account)
    n ← or_raise u.id integrity_error
    ok (link_google sub now u, store.users.save n (link_google sub now u) s)

  -- The branch for a person who is new.
  unfoldable pub provision :
      GoogleIdentity → Text → Option Text → Option Text → ℕ → S → Result (User × S)
  provision i terms_version ip_address user_agent now s = do
    name ← derive_org_name i
    (org, o, role_id, s₁) ← found_organization store name s
    u ← create_social org (or_else i.name i.email) i.email role_id i.sub now
    (n, s₂) ← or_raise (store.users.add u s₁) integrity_error
    s₃ ←
        or_raise
          (store.terms_acceptances.add
            (record_acceptance n org terms_version ip_address user_agent now) s₂)
          integrity_error
    ok (record u { id = some n }, s₃)

  unfoldable pub login_or_register_google :
      GoogleIdentity → Text → Option Text → Option Text → ℕ → S → Result (User × S)
  unfolding link_existing provision
  login_or_register_google i terms_version ip_address user_agent now s = do
    raise_if (is_empty i.email) (social_login no_email)
    raise_if (not i.email_verified) (social_login unverified_email)
    existing ← get_by_email store i.email s
    elim existing [
      | some u ↦ link_existing i.sub now u s
      | none ↦ provision i terms_version ip_address user_agent now s
    ]
