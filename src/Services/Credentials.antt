-- ===== src/Services/Credentials.antt =====
-- Mailed tokens and passwords: what is left of a token once it is used, and the login after it.
use orchestract.Common.{
  ℕ, ◌≤◌, ◌≡◌, refl, ap, ◌∙◌, subst, ◌⊎◌, inl, inr, Bool, true, false, none, some, List, [], ◌∷◌,
  arith, Option-cases, filter, Text, text_eq_refl, text_eq_iff, ok, err, Result-cases,
  invalid_or_expired_token,
}
use orchestract.Session.{IsLawful, count, select_where}
use orchestract.Session.Query.{scalar-one, scalar-none, mem-count}
use orchestract.Session.Log.{IsLawfulLog}
use orchestract.Passwords.{Bytes, Scrypt, hash_password}
use orchestract.Passwords.RoundTrip.{AreBytes, verify-hash_password}
use orchestract.Users.User.{
  User, normalize_email, mark_email_verified, set_password, verify_password, is_email_verified,
}
use orchestract.Users.Token.{UserToken, UserTokenPurpose, email_verification, password_reset}
use orchestract.Services.{Store}
use orchestract.Services.Users.{id_of_user, user_with_id, get_by_email, has_email}
use orchestract.Services.Logins.{authenticate, check_login}
use orchestract.Services.Tokens.{
  has_user_token, has_purpose_token, get_token, redeem, consume, verify_email, reset_password,
}

count-none {ℓ} :
    {A : Type ℓ} (p : A → Bool) (xs : List A) → ((a : A) → p a ≡ false) → count p xs ≡ 0
unfolding count filter
count-none p [] h = refl
count-none p (x ∷ xs) h = ground (arith, h x, count-none p xs h)

module _ {S : Type 0} (store : Store S) where
  -- The table of users and that of tokens obey their laws, and a write to one leaves the rows of the
  -- other.
  pub record IsLawfulAccounts : Type 0 where
    pub users : IsLawful store.users id_of_user user_with_id
    pub tokens : IsLawfulLog store.user_tokens
    pub users_kept :
        (q : UserToken → Bool) (s : S)
        → store.users.rows (store.user_tokens.delete q s) ≡ store.users.rows s

  -- The user that a redeemed token gives.
  pub redeem-found :
      (token : Text) (purpose : UserTokenPurpose) (now : ℕ) (s : S) (n : ℕ) (u : User)
      → redeem store token purpose now s ≡ ok (n, u)
      → store.users.get n s ≡ some u
  unfolding redeem
  redeem-found token purpose now s n u h = elim (Result-cases (get_token store token purpose s)) [
    | inr (x, e) ↦ absurd (ground arith)
    | inl (none, e) ↦ absurd (ground arith)
    | inl (some t, e) ↦ elim (Option-cases (store.users.get t.user_id s)) [
      | inl f ↦ absurd (ground arith)
      | inr (v, f) ↦ ground arith
    ]
  ]

  module _ (laws : IsLawfulAccounts) where
    get_token-consume :
        (token : Text) (purpose : UserTokenPurpose) (n : ℕ) (u : User) (s : S)
        → get_token store token purpose (consume store token n u s) ≡ ok none
    unfolding get_token consume
    get_token-consume token purpose n u s =
        scalar-none (has_purpose_token token purpose)
          (store.user_tokens.rows
            (store.user_tokens.delete (has_user_token token) (store.users.save n u s)))
          (laws.tokens.count-delete (has_purpose_token token purpose) (has_user_token token)
              (store.users.save n u s)
            ∙ count-none _ _ (λ a. ground arith))

    redeem-consume :
        (token : Text) (purpose : UserTokenPurpose) (later n : ℕ) (u : User) (s : S)
        → redeem store token purpose later (consume store token n u s)
          ≡ err invalid_or_expired_token
    unfolding redeem
    redeem-consume token purpose later n u s = rw (get_token-consume token purpose n u s)

    -- A mailed token works once: after a successful `reset_password` or `verify_email`, both refuse
    -- the token, whatever the time.
    pub token_once :
        (scrypt : Scrypt) (token first second : Text) (salt salt' : Bytes) (now later : ℕ)
        (s s' : S) (u : User)
        → (reset_password store scrypt token first salt now s ≡ ok (u, s'))
          ⊎ (verify_email store token now s ≡ ok (u, s'))
        → (reset_password store scrypt token second salt' later s' ≡ err invalid_or_expired_token)
          × (verify_email store token later s' ≡ err invalid_or_expired_token)
    unfolding reset_password verify_email
    token_once scrypt token first second salt salt' now later s s' u (inl h) =
        elim (Result-cases (redeem store token password_reset now s)) [
          | inr (x, e) ↦ absurd (ground arith)
          | inl ((n, v), e) ↦
              let last : s' ≡ consume store token n (set_password scrypt first salt v) s =
                ground arith in
              rw last (
                rw (
                    redeem-consume token password_reset later n (set_password scrypt first salt v)
                      s),
                rw (
                    redeem-consume token email_verification later n
                      (set_password scrypt first salt v) s),
              )
        ]
    token_once scrypt token first second salt salt' now later s s' u (inr h) =
        elim (Result-cases (redeem store token email_verification now s)) [
          | inr (x, e) ↦ absurd (ground arith)
          | inl ((n, v), e) ↦
              let last : s' ≡ consume store token n (mark_email_verified now v) s = ground arith in
              rw last (
                rw (redeem-consume token password_reset later n (mark_email_verified now v) s),
                rw (redeem-consume token email_verification later n (mark_email_verified now v) s),
              )
        ]

    -- A changed user is found by the mail address that is still theirs.
    get_by_email-consume :
        (token email : Text) (n : ℕ) (u u' : User) (s : S)
        → store.users.get n s ≡ some u
        → u'.id ≡ u.id
        → u'.email ≡ u.email
        → normalize_email email ≡ u.email
        → count (has_email u.email) (store.users.rows s) ≤ 1
        → get_by_email store email (consume store token n u' s) ≡ ok (some u')
    unfolding get_by_email consume select_where
    get_by_email-consume token email n u u' s g same_id same_email norm unique =
        let (m, i) = laws.users.get-rows n s u g in
        let p = has_email u.email in
        let after = store.users.save n u' s in
        let counted = laws.users.count-save p n s u u' g (same_id ∙ i) in
        let old : p u ≡ true = text_eq_refl u.email in
        let new : p u' ≡ true = (text_eq_iff u'.email u.email).1 same_email in
        let one : count p (store.users.rows after) ≡ 1 = ground (arith, mem-count p m old) in
        let (m', _) =
          laws.users.get-rows n after u' (laws.users.get-save_self n s u u' g (same_id ∙ i)) in
        rw (norm, laws.users_kept (has_user_token token) after)
          (scalar-one p (store.users.rows after) u' one m' new)

    -- After a successful `reset_password` the user of the token can log in with the new password, if
    -- they are active, have verified their mail address, and are the only user with it.
    pub reset_password-authenticate :
        (scrypt : Scrypt) (token email password : Text) (salt : Bytes) (now : ℕ) (s s' : S)
        (u : User)
        → ((raw : Text) (x : Bytes) → AreBytes (scrypt raw x 16384 8 1))
        → AreBytes salt
        → reset_password store scrypt token password salt now s ≡ ok (u, s')
        → u.is_active ≡ true
        → is_email_verified u ≡ true
        → normalize_email email ≡ u.email
        → count (has_email u.email) (store.users.rows s) ≤ 1
        → authenticate store scrypt email password s' ≡ ok u
    unfolding reset_password authenticate check_login set_password verify_password
    reset_password-authenticate scrypt token email password salt now s s' u bytes salted h active
          verified norm unique =
        elim (Result-cases (redeem store token password_reset now s)) [
          | inr (x, e) ↦ absurd (ground arith)
          | inl ((n, v), e) ↦
              let g = redeem-found token password_reset now s n v e in
              let is_u : u ≡ set_password scrypt password salt v = ground arith in
              let last : s' ≡ consume store token n u s = ground arith in
              let found =
                get_by_email-consume token email n v u s g (ap (λ x. x.id) is_u)
                  (ap (λ x. x.email) is_u) (norm ∙ ap (λ x. x.email) is_u)
                  (subst (λ x. count (has_email x) (store.users.rows s) ≤ 1)
                    (ap (λ x. x.email) is_u) unique) in
              let hashed : u.password_hash ≡ some (hash_password scrypt salt password) =
                ap (λ x. x.password_hash) is_u in
              let right =
                (verify-hash_password scrypt bytes salt password password salted).1 refl in
              rw last (rw found (ground arith))
        ]
