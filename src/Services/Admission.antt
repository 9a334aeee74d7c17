-- ===== src/Services/Admission.antt =====
-- What the cookie, the account and the consent must be for a page to be shown.
use orchestract.Common.{
  ℕ, ◌≡◌, refl, sym, ap, ◌∙◌, inl, inr, true, Option, none, some, Memᴰ, arith, Bool-cases,
  Option-cases, Text, text_eq_iff, is_empty, ok, Result-cases,
}
use orchestract.Services.Compliance.{has_accepted_current}
use orchestract.Services.Users.{id_of_user, user_with_id}
use orchestract.Session.{IsLawful}
use orchestract.Services.Roles.{get_role}
use orchestract.Session.Query.{scalar-count}
use orchestract.Users.Token.{session_is_valid}
use orchestract.Services.Logins.{
  get_user_by_session_token, if_active, get_session, has_session_token,
}
use orchestract.Services.{Store}
use orchestract.Users.Token.{UserSession}
use orchestract.Tenancy.Organization.{Organization}
use orchestract.Users.User.{User}
use orchestract.Services.Gate.{
  admitted, enforce_login_and_membership, current_user, admit, is_foreign, user_has_accepted,
}
use orchestract.Users.Role.{Role}

if_active-some :
    (o : Option User) (u : User) → if_active o ≡ some u → (o ≡ some u) × (u.is_active ≡ true)
if_active-some none u h = absurd (ground arith)
if_active-some (some v) u h = elim (Bool-cases v.is_active) [
  | inl e ↦ (ground arith, ground arith)
  | inr e ↦ absurd (ground arith)
]

module _ {S : Type 0} (store : Store S) where
  -- The session and the account behind a token that is recognized.
  pub record Recognized (token : Text) (now : ℕ) (s : S) (u : User) : Type 0 where
    pub session : UserSession
    pub stored : Memᴰ session (store.user_sessions.rows s)
    pub same_token : session.token ≡ token
    pub valid : session_is_valid now session ≡ true
    pub account : store.users.get session.user_id s ≡ some u
    pub active : u.is_active ≡ true

  pub get_user_by_session_token-Recognized :
      (token : Text) (now : ℕ) (s : S) (u : User)
      → get_user_by_session_token store token now s ≡ ok (some u)
      → Recognized token now s u
  unfolding get_user_by_session_token get_session
  get_user_by_session_token-Recognized token now s u h =
      elim (Result-cases (get_session store token s)) [
        | inr (x, e) ↦ absurd (ground arith)
        | inl (found, e) ↦
            elim (scalar-count (has_session_token token) (store.user_sessions.rows s) found e) [
              | inl (z, q) ↦ absurd (ground arith)
              | inr (x, is_x, one, m, p) ↦ elim (Bool-cases (session_is_valid now x)) [
                | inr late ↦ absurd (ground arith)
                | inl valid ↦
                    let (account, active) =
                      if_active-some (store.users.get x.user_id s) u (ground arith) in
                    record {
                      session = x;
                      stored = m;
                      same_token = (text_eq_iff x.token token).0 p;
                      valid = valid;
                      account = account;
                      active = active;
                    }
              ]
            ]
      ]

  module _ (locale : Option Text → Text) where
    admit-facts :
        (u v : User) (o : Organization) (s : S) (r : Role) (l : Text)
        → admit store locale v o s ≡ admitted u r l
        → (v ≡ u)
          × (o.id ≡ some v.organization_id)
          × (user_has_accepted store locale v s ≡ true)
          × (store.roles.get v.role_id s ≡ some r)
    unfolding admit is_foreign get_role
    admit-facts u v o s r l h = elim (Option-cases o.id) [
      | inl e ↦ absurd (ground arith)
      | inr (n, e) ↦ elim (Bool-cases (user_has_accepted store locale v s)) [
        | inr f ↦ absurd (ground arith)
        | inl f ↦ elim (Option-cases (store.roles.get v.role_id s)) [
          | inl g ↦ absurd (ground arith)
          | inr (role, g) ↦ (ground arith, ground arith, f, ground arith)
        ]
      ]
    ]

    current_user-Recognized :
        (token : Option Text) (now : ℕ) (s : S) (u : User)
        → current_user store locale token now s ≡ ok (some u)
        → (raw : Text) × (token ≡ some raw) × Recognized raw now s u
    unfolding current_user
    current_user-Recognized none now s u h = absurd (ground arith)
    current_user-Recognized (some raw) now s u h = elim (Bool-cases (is_empty raw)) [
      | inl e ↦ absurd (ground arith)
      | inr e ↦ (raw, refl, get_user_by_session_token-Recognized raw now s u (ground arith))
    ]

    user_has_accepted-eq :
        (u : User) (n : ℕ) (s : S)
        → u.id ≡ some n
        → user_has_accepted store locale u s ≡ has_accepted_current store n s
    unfolding user_has_accepted
    user_has_accepted-eq u n s h = rw h

    -- Over a table of users that obeys its laws: a user who is admitted to the pages of an
    -- organization has a valid session with the token of the cookie, is active, belongs to the
    -- organization, has accepted the current terms, and their role is stored.
    pub admitted-IsMember :
        IsLawful store.users id_of_user user_with_id
        → (token : Option Text) (path : Text) (o : Organization) (now : ℕ) (s : S) (u : User)
          (r : Role) (l : Text)
        → enforce_login_and_membership store locale token path o now s ≡ admitted u r l
        → (raw : Text) × (token ≡ some raw)
          × Recognized raw now s u
          × (o.id ≡ some u.organization_id)
          × (n : ℕ) × (store.users.get n s ≡ some u)
          × (has_accepted_current store n s ≡ true)
          × (store.roles.get u.role_id s ≡ some r)
    unfolding enforce_login_and_membership user_has_accepted
    admitted-IsMember laws token path o now s u r l h =
        elim (Result-cases (current_user store locale token now s)) [
          | inr (x, f) ↦ absurd (ground arith)
          | inl (none, f) ↦ absurd (ground arith)
          | inl (some v, f) ↦
              let (same, member, accepted, role) = admit-facts u v o s r l (ground arith) in
              let (raw, e, found) =
                current_user-Recognized token now s u (f ∙ ap (λ x. ok (some x)) same) in
              let (_, i) = laws.get-rows found.session.user_id s u found.account in
              (
                raw,
                e,
                found,
                rw (← same) member,
                found.session.user_id,
                found.account,
                sym (user_has_accepted-eq u found.session.user_id s i)
                    ∙ ap (λ x. user_has_accepted store locale x s) (sym same)
                    ∙ accepted,
                rw (← same) role,
              )
        ]
