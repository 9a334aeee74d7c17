-- ===== src/Pages/Sessions.antt =====
-- From the login form to the requests after it.
use orchestract.Common.{
  sym, ◌∙◌, Bool-cases, ℕ, ◌+◌, ◌*◌, ◌≤◌, ◌<◌, ◌≡◌, refl, ap, inl, inr, true, false, some, [], ◌∷◌,
  arith, Option-cases, Text, text_eq_refl, is_empty, ok, Result-cases,
}
use orchestract.Tenancy.Organization.{Organization}
use orchestract.Users.User.{User}
use orchestract.Users.Token.{UserSession, session_ttl, issue_session, session_is_valid}
use orchestract.Passwords.{Scrypt}
use orchestract.Session.{IsLawful, count}
use orchestract.Session.Log.{IsLawfulLog}
use orchestract.Session.Query.{scalar-one, mem-count}
use orchestract.Services.{Store}
use orchestract.Services.Users.{id_of_user, user_with_id}
use orchestract.Services.Logins.{
  authenticate, create_session, get_session, has_session_token, get_user_by_session_token,
}
use orchestract.Services.Answers.{authenticate-ok}
use orchestract.Services.Organizations.{get_organization}
use orchestract.Services.Gate.{home_path}
use orchestract.Pages.{
  is_login_error, signed_in, starts_with, redirect_to, start_session, login_submit,
  user_from_request,
}

starts_with_refl : (s : Text) → starts_with s s ≡ true
unfolding starts_with
starts_with_refl [] = refl
starts_with_refl (c ∷ s) = ground (arith, starts_with_refl s)

redirect_to-starts_with :
    (next : Text) (o : Organization) → starts_with (home_path o) (redirect_to next o) ≡ true
unfolding redirect_to
redirect_to-starts_with next o = elim (Bool-cases (starts_with (home_path o) next)) [
  | inl e ↦ rw e e
  | inr e ↦ rw e (starts_with_refl (home_path o))
]

issued-session :
    (n later now : ℕ) (fresh : Text)
    → later < now + session_ttl
    → (session_is_valid later (issue_session n session_ttl fresh now) ≡ true)
      × (has_session_token fresh (issue_session n session_ttl fresh now) ≡ true)
      × ((issue_session n session_ttl fresh now).user_id ≡ n)
unfolding issue_session session_is_valid
issued-session n later now fresh h = (ground arith, text_eq_refl fresh, refl)

module _ {S : Type 0} (store : Store S) where
  pub record IsLawfulLogin : Type 0 where
    pub users : IsLawful store.users id_of_user user_with_id
    pub sessions : IsLawfulLog store.user_sessions
    pub session_users :
        (x : UserSession) (s s' : S)
        → store.user_sessions.add x s ≡ some s'
        → (n : ℕ) → store.users.get n s' ≡ store.users.get n s

  -- A session that was started for the user.
  pub record Started (target : Organization → Text) (u : User) (fresh : Text) (now : ℕ) (s : S)
      (path token : Text) (s' : S) : Type 0 where
    pub key : ℕ
    pub same_id : u.id ≡ some key
    pub added : store.user_sessions.add (issue_session key session_ttl fresh now) s ≡ some s'
    pub home : Organization
    pub found : get_organization store u.organization_id s' ≡ ok home
    pub same_path : path ≡ target home
    pub same_token : token ≡ fresh

  start_session-Started :
      (target : Organization → Text) (u : User) (fresh : Text) (now : ℕ) (s : S) (path token : Text)
      (s' : S)
      → start_session store target u fresh now s ≡ (signed_in path token, s')
      → Started target u fresh now s path token s'
  unfolding start_session create_session issue_session
  start_session-Started target u fresh now s path token s' h = elim (Option-cases u.id) [
    | inl e ↦ absurd (ground arith)
    | inr (n, e) ↦
        elim (Option-cases (store.user_sessions.add (issue_session n session_ttl fresh now) s)) [
          | inl f ↦ absurd (ground arith)
          | inr (s₁, f) ↦ elim (Result-cases (get_organization store u.organization_id s₁)) [
            | inr (x, g) ↦ absurd (ground arith)
            | inl (o, g) ↦
                let last : s₁ ≡ s' = ground arith in
                record {
                  key = n;
                  same_id = e;
                  added = f ∙ ap some last;
                  home = o;
                  found = ap (get_organization store u.organization_id) (sym last) ∙ g;
                  same_path = ground arith;
                  same_token = ground arith;
                }
          ]
        ]
  ]

  module _ (laws : IsLawfulLogin) where
    started-user_from_request :
        (u : User) (n : ℕ) (fresh : Text) (now later : ℕ) (s s' : S)
        → store.users.get n s ≡ some u
        → u.is_active ≡ true
        → is_empty fresh ≡ false
        → store.user_sessions.add (issue_session n session_ttl fresh now) s ≡ some s'
        → count (has_session_token fresh) (store.user_sessions.rows s') ≤ 1
        → later < now + session_ttl
        → user_from_request store (some fresh) later s' ≡ ok (some u)
    unfolding user_from_request get_user_by_session_token get_session
    started-user_from_request u n fresh now later s s' g active filled added unique early =
        let x = issue_session n session_ttl fresh now in
        let (valid, matches, same) = issued-session n later now fresh early in
        let m = laws.sessions.mem-add s s' x added in
        let rows = store.user_sessions.rows s' in
        let found =
          scalar-one (has_session_token fresh) rows x
            (omega (arith, unique, mem-count (has_session_token fresh) m matches)) m matches in
        let theirs = ap (λ k. store.users.get k s') same ∙ laws.session_users x s s' added n ∙ g in
        ground (arith, filled, found, valid, theirs, active)

    -- Over tables that obey their laws: where the login form signs someone in with a token that no
    -- other session has, the password login has given a user; the page to go on to is one of that
    -- user's organization, wherever the form wanted to go; and for 14 days a request with the token
    -- comes from that user.
    pub login_submit-lasts :
        (scrypt : Scrypt) (email password next fresh : Text) (now : ℕ) (s s' : S)
        (path token : Text) (later : ℕ)
        → login_submit store scrypt email password next fresh now s ≡ (signed_in path token, s')
        → is_empty fresh ≡ false
        → count (has_session_token fresh) (store.user_sessions.rows s') ≤ 1
        → later < now + 14 * 86400
        → (u : User) × (authenticate store scrypt email password s ≡ ok u)
          × (o : Organization) × (get_organization store u.organization_id s' ≡ ok o)
          × (starts_with (home_path o) path ≡ true)
          × (user_from_request store (some token) later s' ≡ ok (some u))
    unfolding login_submit
    login_submit-lasts scrypt email password next fresh now s s' path token later h filled unique
          early =
        elim (Result-cases (authenticate store scrypt email password s)) [
          | inr (x, e) ↦ elim (Bool-cases (is_login_error x)) [
            | inl f ↦ absurd (ground arith)
            | inr f ↦ absurd (ground arith)
          ]
          | inl (u, e) ↦
              let started =
                start_session-Started (redirect_to next) u fresh now s path token s'
                  (ground arith) in
              let (own, login, verified) = authenticate-ok store scrypt email password s u e in
              let (k, i, g) = laws.users.rows-get s u own.stored in
              let numbers = sym i ∙ started.same_id in
              let same_key : k ≡ started.key = ground (arith, numbers) in
              (
                u,
                e,
                started.home,
                started.found,
                ap (starts_with (home_path started.home)) started.same_path
                    ∙ redirect_to-starts_with next started.home,
                ap (λ t. user_from_request store (some t) later s') started.same_token
                    ∙ started-user_from_request u started.key fresh now later s s'
                        (ap (λ n. store.users.get n s) (sym same_key) ∙ g) login.active filled
                        started.added unique early,
              )
        ]
