-- ===== src/Services/Lockout.antt =====
-- Deactivated accounts and sessions that are logged out.
use orchestract.Common.{
  ℕ, ◌≡◌, refl, sym, ap, ◌∙◌, subst, ◌≢◌, inl, inr, Bool, true, false, not, ◌&&◌, Option, none,
  some, List, [], ◌∷◌, Memᴰ, arith, Option-cases, filter, Text, ok, Result-cases,
}
use orchestract.Tenancy.Organization.{Organization}
use orchestract.Users.User.{User, normalize_email}
use orchestract.Users.Role.{Role}
use orchestract.Passwords.{Scrypt}
use orchestract.Services.{Store}
use orchestract.Session.{IsLawful, count, select_where}
use orchestract.Session.Query.{scalar-none, scalar-count}
use orchestract.Session.Log.{IsLawfulLog}
use orchestract.Services.Users.{
  id_of_user, user_with_id, has_email, get_by_email, get_user, set_user_active,
}
use orchestract.Services.Logins.{
  check_login, has_session_token, authenticate, get_session, get_user_by_session_token,
  delete_session,
}
use orchestract.Services.Gate.{admitted, enforce_login_and_membership, current_user}
use orchestract.Services.Admission.{admitted-IsMember}
use orchestract.Users.User.{deactivate}
use orchestract.Services.Gate.{not_authenticated}

count-and-not {ℓ} : {A : Type ℓ} (p : A → Bool) (xs : List A) → count (λ a. p a && not (p a)) xs ≡ 0
unfolding count filter
count-and-not p [] = refl
count-and-not p (x ∷ xs) = ground (arith, count-and-not p xs)

deactivate-id : (u : User) → (deactivate u).id ≡ u.id
unfolding deactivate
deactivate-id u = refl

deactivate-is_active : (u v : User) → some (deactivate u) ≡ some v → v.is_active ≡ false
unfolding deactivate
deactivate-is_active u v h = ground arith

module _ {S : Type 0} (store : Store S) (locale : Option Text → Text) where
  -- After a logout the token of the session is that of no one: over sessions that obey their laws,
  -- once `delete_session` has deleted a token, a request with it is sent to the login.
  pub delete_session-enforce :
      IsLawfulLog store.user_sessions
      → (token path : Text) (o : Organization) (now : ℕ) (s : S)
      → enforce_login_and_membership store locale
          (some token)
          path
          o
          now
          (delete_session store token s)
        ≡ not_authenticated path
  unfolding enforce_login_and_membership current_user get_user_by_session_token get_session
      delete_session
  delete_session-enforce laws token path o now s =
      let gone =
        scalar-none (has_session_token token)
          (store.user_sessions.rows (store.user_sessions.delete (has_session_token token) s))
          (laws.count-delete (has_session_token token) (has_session_token token) s
            ∙ count-and-not (has_session_token token) (store.user_sessions.rows s)) in
      ground (arith, gone)

  -- What the password login lets in.
  authenticate-found :
      (scrypt : Scrypt) (email password : Text) (s : S) (u : User)
      → authenticate store scrypt email password s ≡ ok u
      → Memᴰ u (store.users.rows s) × (u.is_active ≡ true)
  unfolding authenticate get_by_email check_login select_where
  authenticate-found scrypt email password s u h =
      elim (Result-cases (get_by_email store email s)) [
        | inr (x, e) ↦ absurd (ground arith)
        | inl (none, e) ↦ absurd (ground arith)
        | inl (some v, e) ↦
            elim (scalar-count (has_email (normalize_email email)) (store.users.rows s) (some v)
              e) [
                | inl (z, q) ↦ absurd (ground arith)
                | inr (x, is_x, one, m, p) ↦
                    (subst (λ y. Memᴰ y (store.users.rows s)) (ground arith) m, ground arith)
              ]
      ]

  module _ (laws : IsLawful store.users id_of_user user_with_id) where
    -- The stored user of this id is inactive.
    deactivated :
        (n : ℕ) (s s' : S) (u v : User)
        → set_user_active store n false s ≡ ok (u, s')
        → store.users.get n s' ≡ some v
        → v.is_active ≡ false
    unfolding set_user_active get_user
    deactivated n s s' u v h g = elim (Option-cases (store.users.get n s)) [
      | inl e ↦ absurd (ground arith)
      | inr (old, e) ↦
          let (_, i) = laws.get-rows n s old e in
          let last : s' ≡ store.users.save n (deactivate old) s = ground arith in
          let there : store.users.get n s' ≡ some (deactivate old) =
            ap (store.users.get n) last
            ∙ laws.get-save_self n s old (deactivate old) e (deactivate-id old ∙ i) in
          deactivate-is_active old v (sym there ∙ g)
    ]

    deactivated-not_active :
        (n : ℕ) (s s' : S) (u v : User)
        → set_user_active store n false s ≡ ok (u, s')
        → Memᴰ v (store.users.rows s')
        → v.id ≡ some n
        → v.is_active ≢ true
    deactivated-not_active n s s' u v h m i active =
        let (k, ki, g) = laws.rows-get s' v m in
        let same : k ≡ n = ground arith in
        let off = deactivated n s s' u v h (ap (λ x. store.users.get x s') (sym same) ∙ g) in
        ground arith

    -- Over a table of users that obeys its laws: after a successful `set_active` of a user to
    -- false, no request is admitted as that user, and no password logs them in.
    pub set_user_active-locked_out :
        (n : ℕ) (s s' : S) (u : User)
        → set_user_active store n false s ≡ ok (u, s')
        → ((token : Option Text) (path : Text) (o : Organization) (now : ℕ) (v : User) (r : Role)
              (l : Text)
            → enforce_login_and_membership store locale token path o now s' ≡ admitted v r l
            → v.id ≢ some n)
          × ((scrypt : Scrypt) (email password : Text) (v : User)
              → authenticate store scrypt email password s' ≡ ok v
              → v.id ≢ some n)
    set_user_active-locked_out n s s' u h = (
      λ token path o now v r l a i.
          let (raw, e, found, _, _, _, _, _) =
            admitted-IsMember store locale laws token path o now s' v r l a in
          let (m, _) = laws.get-rows found.session.user_id s' v found.account in
          deactivated-not_active n s s' u v h m i found.active,
      λ scrypt email password v a i.
          let (m, active) = authenticate-found scrypt email password s' v a in
          deactivated-not_active n s s' u v h m i active,
    )
