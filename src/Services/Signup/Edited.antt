-- ===== src/Services/Signup/Edited.antt =====
-- The operations that change one user who is there: each keeps the mail address.
use orchestract.Common.{
  ℕ, ◌≡◌, refl, sym, ap, ◌∙◌, subst, inl, inr, Bool, true, false, not, Option, some, arith, Text,
  Result, ok, raise_if, or_raise, bind-ok, or_raise-ok, ok-injective, bound, integrity_error,
  invalid_credentials, social_login,
}
use orchestract.Services.Credentials.{redeem-found}
use orchestract.Users.User.{
  User, normalize_email, mark_email_verified, set_password, is_email_verified, create_social,
  link_google,
}
use orchestract.Passwords.{Bytes, Scrypt}
use orchestract.Users.Token.{UserTokenPurpose, email_verification, password_reset}
use orchestract.Services.{Store}
use orchestract.Session.{select_where}
use orchestract.Session.Query.{scalar-count}
use orchestract.Services.Users.{
  id_of_user, has_email, get_by_email, get_user, set_user_active, set_user_role, set_user_locale,
  update_profile, rename_user, force_verify, change_password,
}
use orchestract.Services.Tokens.{has_user_token, redeem, consume, verify_email, reset_password}
use orchestract.Services.SocialAuth.{link_existing}
use orchestract.Users.User.{verify_password}
use orchestract.Services.Credentials.{redeem-found}
use orchestract.Services.Signup.{IsLawfulSignup}
use orchestract.Users.User as User
use orchestract.Services.SocialAuth.{deactivated_account}

link_google-email :
    (sub : Text) (now : ℕ) (u : User)
    → ((link_google sub now u).id ≡ u.id) × ((link_google sub now u).email ≡ u.email)
unfolding link_google
link_google-email sub now u = (refl, refl)

module _ {S : Type 0} (store : Store S) where
  -- One user has changed, but for the id and the mail address.
  pub record Edited (s s' : S) : Type 0 where
    pub key : ℕ
    pub old : User
    pub new : User
    pub stored : store.users.get key s ≡ some old
    pub same_id : new.id ≡ old.id
    pub same_email : new.email ≡ old.email
    pub written : store.users.rows s' ≡ store.users.rows (store.users.save key new s)

  get_user-stored :
      (n : ℕ) (s : S) (u : User) → get_user store n s ≡ ok u → store.users.get n s ≡ some u
  unfolding get_user
  get_user-stored n s u h = or_raise-ok _ _ h

  saved :
      (n : ℕ) (s s' : S) (old new u : User)
      → get_user store n s ≡ ok old
      → new.id ≡ old.id
      → new.email ≡ old.email
      → ◌≡◌ {A = Result (User × S)} (ok (new, store.users.save n new s)) (ok (u, s'))
      → Edited s s'
  saved n s s' old new u g i e h = record {
    key = n;
    old = old;
    new = new;
    stored = get_user-stored n s old g;
    same_id = i;
    same_email = e;
    written = ap (λ x. store.users.rows x.1) (sym (ok-injective h));
  }

  pub set_user_active-Edited :
      (n : ℕ) (active : Bool) (s s' : S) (u : User)
      → set_user_active store n active s ≡ ok (u, s')
      → Edited s s'
  unfolding set_user_active User.activate User.deactivate
  set_user_active-Edited n true s s' u h = elim (bind-ok (get_user store n s) _ h) [
    | bound old e h' ↦ saved n s s' old (User.activate old) u e refl refl h'
  ]
  set_user_active-Edited n false s s' u h = elim (bind-ok (get_user store n s) _ h) [
    | bound old e h' ↦ saved n s s' old (User.deactivate old) u e refl refl h'
  ]

  pub set_user_role-Edited :
      (n k : ℕ) (s s' : S) (u : User) → set_user_role store n k s ≡ ok (u, s') → Edited s s'
  unfolding set_user_role User.set_role
  set_user_role-Edited n k s s' u h = elim (bind-ok (get_user store n s) _ h) [
    | bound old e h' ↦ saved n s s' old (User.set_role k old) u e refl refl h'
  ]

  pub set_user_locale-Edited :
      (n : ℕ) (l : Option Text) (s s' : S) (u : User)
      → set_user_locale store n l s ≡ ok (u, s')
      → Edited s s'
  unfolding set_user_locale User.set_locale
  set_user_locale-Edited n l s s' u h = elim (bind-ok (get_user store n s) _ h) [
    | bound old e h' ↦ saved n s s' old (User.set_locale l old) u e refl refl h'
  ]

  rename-email :
      (name : Text) (old new : User)
      → User.rename name old ≡ ok new
      → (new.id ≡ old.id) × (new.email ≡ old.email)
  unfolding User.rename
  rename-email name old new h = (ground arith, ground arith)

  pub update_profile-Edited :
      (n : ℕ) (name : Text) (k : ℕ) (s s' : S) (u : User)
      → update_profile store n name k s ≡ ok (u, s')
      → Edited s s'
  unfolding update_profile User.set_role
  update_profile-Edited n name k s s' u h = elim (bind-ok (get_user store n s) _ h) [
    | bound old e h' ↦ elim (bind-ok (User.rename name old) _ h') [
      | bound new f h'' ↦
          let (i, m) = rename-email name old new f in
          saved n s s' old (User.set_role k new) u e i m h''
    ]
  ]

  pub rename_user-Edited :
      (n : ℕ) (name : Text) (s s' : S) (u : User)
      → rename_user store n name s ≡ ok (u, s')
      → Edited s s'
  unfolding rename_user
  rename_user-Edited n name s s' u h = elim (bind-ok (get_user store n s) _ h) [
    | bound old e h' ↦ elim (bind-ok (User.rename name old) _ h') [
      | bound new f h'' ↦
          let (i, m) = rename-email name old new f in saved n s s' old new u e i m h''
    ]
  ]

  pub force_verify-Edited :
      (n now : ℕ) (s s' : S) (u : User) → force_verify store n now s ≡ ok (u, s') → Edited s s'
  unfolding force_verify mark_email_verified
  force_verify-Edited n now s s' u h = elim (bind-ok (get_user store n s) _ h) [
    | bound old e h' ↦ saved n s s' old (mark_email_verified now old) u e refl refl h'
  ]

  pub change_password-Edited :
      (scrypt : Scrypt) (n : ℕ) (current new : Text) (salt : Bytes) (s s' : S) (u : User)
      → change_password store scrypt n current new salt s ≡ ok (u, s')
      → Edited s s'
  unfolding change_password set_password
  change_password-Edited scrypt n current new salt s s' u h =
      elim (bind-ok (get_user store n s) _ h) [
        | bound old e h' ↦
            elim (bind-ok (raise_if (not (verify_password scrypt current old)) invalid_credentials)
              _ h') [
                | bound _ f h'' ↦
                    saved n s s' old (set_password scrypt new salt old) u e refl refl h''
              ]
      ]

  module _ (laws : IsLawfulSignup store) where
    -- A change that a mailed token allows.
    consumed :
        (token : Text) (purpose : UserTokenPurpose) (now n : ℕ) (s s' : S) (old new u : User)
        → redeem store token purpose now s ≡ ok (n, old)
        → new.id ≡ old.id
        → new.email ≡ old.email
        → ◌≡◌ {A = Result (User × S)} (ok (new, consume store token n new s)) (ok (u, s'))
        → Edited s s'
    unfolding consume
    consumed token purpose now n s s' old new u g i e h = record {
      key = n;
      old = old;
      new = new;
      stored = redeem-found store token purpose now s n old g;
      same_id = i;
      same_email = e;
      written =
          ap (λ x. store.users.rows x.1) (sym (ok-injective h))
          ∙ laws.token_delete (has_user_token token) (store.users.save n new s);
    }

    pub verify_email-Edited :
        (token : Text) (now : ℕ) (s s' : S) (u : User)
        → verify_email store token now s ≡ ok (u, s')
        → Edited s s'
    unfolding verify_email mark_email_verified
    verify_email-Edited token now s s' u h =
        elim (bind-ok (redeem store token email_verification now s) _ h) [
          | bound (n, old) e h' ↦
              consumed token email_verification now n s s' old (mark_email_verified now old) u e
                refl refl h'
        ]

    pub reset_password-Edited :
        (scrypt : Scrypt) (token new : Text) (salt : Bytes) (now : ℕ) (s s' : S) (u : User)
        → reset_password store scrypt token new salt now s ≡ ok (u, s')
        → Edited s s'
    unfolding reset_password set_password
    reset_password-Edited scrypt token new salt now s s' u h =
        elim (bind-ok (redeem store token password_reset now s) _ h) [
          | bound (n, old) e h' ↦
              consumed token password_reset now n s s' old (set_password scrypt new salt old) u e
                refl refl h'
        ]

    pub link_existing-Edited :
        (email sub : Text) (now : ℕ) (s s' : S) (found u : User)
        → get_by_email store email s ≡ ok (some found)
        → link_existing store sub now found s ≡ ok (u, s')
        → Edited s s'
    unfolding link_existing get_by_email select_where
    link_existing-Edited email sub now s s' found u g h =
        elim (scalar-count (has_email (normalize_email email)) (store.users.rows s) (some found)
          g) [
            | inl (z, q) ↦ absurd (ground arith)
            | inr (x, is_x, one, m, p) ↦
                elim (bind-ok (raise_if (not found.is_active) (social_login deactivated_account)) _
                  h) [
                    | bound _ e h' ↦ elim (bind-ok (or_raise found.id integrity_error) _ h') [
                      | bound n f h'' ↦
                          let (k, i, stored) = laws.users.rows-get s x m in
                          let same : x ≡ found = ground arith in
                          let number : found.id ≡ some n = or_raise-ok _ _ f in
                          let numbers = sym i ∙ ap id_of_user same ∙ number in
                          let same_key : k ≡ n = ground (arith, numbers) in
                          let (keep_id, keep_email) = link_google-email sub now found in
                          record {
                            key = n;
                            old = found;
                            new = link_google sub now found;
                            stored =
                                subst (λ y. store.users.get y s ≡ some found) same_key
                                  (stored ∙ ap some same);
                            same_id = keep_id;
                            same_email = keep_email;
                            written = ap (λ x. store.users.rows x.1) (sym (ok-injective h''));
                          }
                    ]
                  ]
          ]
