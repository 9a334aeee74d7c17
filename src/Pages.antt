-- ===== src/Pages.antt =====
-- app/web/routes.py: the pages through which people log in and out, give consent, and choose a
-- language. Each call of a service commits on its own, so a page gives a state whatever it ends
-- with. `token` is the cookie session_token, `fresh` the value of secrets.token_urlsafe(32) and `now`
-- that of utcnow().
pub mod Sessions
use orchestract.Common.{
  ℕ, Bool, true, false, not, ◌&&◌, ◌||◌, Option, none, some, [], ◌∷◌, ◌++◌, Memᴰ, arith, ◌==◌,
  if◌then◌else◌, ◌>>=◌, ◌>>◌, Text, text, text_eq, is_empty, contains, Result, ok, err, DomainError,
  or_raise, integrity_error, invalid_credentials, email_not_verified, invalid_or_expired_token,
}
use orchestract.Tenancy.Organization.{Organization}
use orchestract.Users.User.{User}
use orchestract.Users.Token.{UserSession}
use orchestract.Passwords.{Bytes, Scrypt}
use orchestract.Compliance.{current_terms_version}
use orchestract.Locales.{supported_locales, default_locale}
use orchestract.Services.{Store}
use orchestract.Services.Logins.{
  authenticate, create_session, delete_session, get_user_by_session_token,
}
use orchestract.Services.Tokens.{verify_email, reset_password}
use orchestract.Services.Organizations.{get_organization}
use orchestract.Services.Users.{set_user_locale}
use orchestract.Services.Compliance.{accept_terms, has_accepted_current}
use orchestract.Services.Gate.{home_path}

-- What a page answers with: RedirectResponse, the same with the cookie of a session or with that of
-- a language, a template without an error and one with it, or an exception.
pub data Page : Type 0 where
  redirect : Text → Page
  signed_in in_language : Text → Text → Page
  shown : Page
  refused raised : DomainError → Page

-- s.startswith(prefix)
unfoldable pub starts_with : Text → Text → Bool
starts_with [] s = true
starts_with (c ∷ prefix) [] = false
starts_with (c ∷ prefix) (d ∷ s) = c == d && starts_with prefix s

-- The page to go on to after a login.
unfoldable pub redirect_to : Text → Organization → Text
unfolding starts_with
redirect_to next o = if starts_with (home_path o) next then next else home_path o

-- What login_submit, and the pages for mailed tokens, catch.
abbrev pub is_login_error : DomainError → Bool
is_login_error invalid_credentials = true
is_login_error email_not_verified = true
is_login_error _ = false

abbrev pub is_token_error : DomainError → Bool
is_token_error invalid_or_expired_token = true
is_token_error _ = false

-- plan in ("team", "business")
abbrev pub is_paid_plan : Text → Bool
is_paid_plan plan = text_eq plan (text "team") || text_eq plan (text "business")

-- The page to go on to after a mail address was verified.
unfoldable pub welcome_path : Text → Organization → Text
welcome_path plan o =
    if is_paid_plan plan then home_path o ++ text "settings/billing?plan=" ++ plan else home_path o

-- The target of set_language.
unfoldable pub same_origin : Text → Text
unfolding starts_with
same_origin next =
    if starts_with (text "/") next && not (starts_with (text "//") next) then next else text "/"

module _ {S : Type 0} (store : Store S) where
  -- How a page ends that logs a user in.
  unfoldable pub start_session : (Organization → Text) → User → Text → ℕ → S → Page × S
  start_session target u fresh now s = elim u.id [
    | none ↦ (raised integrity_error, s)
    | some n ↦ elim (create_session store n fresh now s) [
      | err e ↦ (raised e, s)
      | ok (x, s') ↦ elim (get_organization store u.organization_id s') [
        | err e ↦ (raised e, s')
        | ok o ↦ (signed_in (target o) x.token, s')
      ]
    ]
  ]

  unfoldable pub login_submit : Scrypt → Text → Text → Text → Text → ℕ → S → Page × S
  unfolding start_session redirect_to
  login_submit scrypt email password next fresh now s =
      elim (authenticate store scrypt email password s) [
        | err e ↦ (if is_login_error e then refused e else raised e, s)
        | ok u ↦ start_session (redirect_to next) u fresh now s
      ]

  unfoldable pub verify_email_page : Text → Text → Text → ℕ → S → Page × S
  unfolding start_session welcome_path
  verify_email_page mailed plan fresh now s = elim (verify_email store mailed now s) [
    | err e ↦ (if is_token_error e then refused e else raised e, s)
    | ok (u, s') ↦ start_session (welcome_path plan) u fresh now s'
  ]

  unfoldable pub reset_password_submit : Scrypt → Text → Text → Bytes → Text → ℕ → S → Page × S
  unfolding start_session
  reset_password_submit scrypt mailed new_password salt fresh now s =
      elim (reset_password store scrypt mailed new_password salt now s) [
        | err e ↦ (if is_token_error e then refused e else raised e, s)
        | ok (u, s') ↦ start_session home_path u fresh now s'
      ]

  unfoldable pub logout : Option Text → S → Page × S
  logout none s = (redirect (text "/login"), s)
  logout (some token) s =
      (redirect (text "/login"), if is_empty token then s else delete_session store token s)

  -- _user_from_request
  unfoldable pub user_from_request : Option Text → ℕ → S → Result (Option User)
  user_from_request none now s = ok none
  user_from_request (some token) now s =
      if is_empty token then ok none else get_user_by_session_token store token now s

  -- organization_service.get, and the redirect to its page
  unfoldable pub go_home : ℕ → S → Page
  go_home organization_id s = elim (get_organization store organization_id s) [
    | err e ↦ raised e
    | ok o ↦ redirect (home_path o)
  ]

  unfoldable pub index : Option Text → ℕ → S → Page
  unfolding user_from_request go_home
  index token now s = elim (user_from_request token now s) [
    | err e ↦ raised e
    | ok none ↦ shown
    | ok (some u) ↦ go_home u.organization_id s
  ]

  unfoldable pub terms_accept : Option Text → Option Text → Option Text → ℕ → S → Page × S
  unfolding user_from_request go_home
  terms_accept token ip_address user_agent now s = elim (user_from_request token now s) [
    | err e ↦ (raised e, s)
    | ok none ↦ (redirect (text "/login"), s)
    | ok (some u) ↦ elim u.id [
      | none ↦ (raised integrity_error, s)
      | some n ↦
          elim (accept_terms store n u.organization_id ip_address user_agent current_terms_version
            now s) [ err e ↦ (raised e, s) | ok (a, s') ↦ (go_home u.organization_id s', s') ]
    ]
  ]

  -- The preference that set_language stores.
  unfoldable pub store_locale : Text → Option User → S → Result S
  store_locale resolved none s = ok s
  store_locale resolved (some u) s = do
    n ← or_raise u.id integrity_error
    (_, s') ← set_user_locale store n (some resolved) s
    ok s'

  unfoldable pub set_language : Text → Text → Option Text → ℕ → S → Page × S
  unfolding same_origin user_from_request store_locale
  set_language lang next token now s =
      let resolved = if contains lang supported_locales then lang else default_locale in
      elim (user_from_request token now s) [
        | err e ↦ (raised e, s)
        | ok found ↦ elim (store_locale resolved found s) [
          | err e ↦ (raised e, s)
          | ok s' ↦ (in_language (same_origin next) resolved, s')
        ]
      ]
