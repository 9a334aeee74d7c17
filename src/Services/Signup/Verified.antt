-- ===== src/Services/Signup/Verified.antt =====
-- From the form to the first login.
use orchestract.Common.{
  sym, ◌∙◌, Memᴰ, text_eq, ℕ, ◌+◌, ◌*◌, ◌≤◌, ◌<◌, ◌≡◌, refl, sym, ap, ◌∙◌, subst, true, Option,
  some, Memᴰ, arith, Text, text_eq, text_eq_refl, ok, err, email_not_verified,
}
use orchestract.Tenancy.Organization.{Organization}
use orchestract.Users.User.{User, normalize_email, mark_email_verified, is_email_verified}
use orchestract.Passwords.{Bytes, Scrypt}
use orchestract.Users.Token.{UserToken, email_verification, token_is_valid, issue_token}
use orchestract.Services.{Store}
use orchestract.Session.{count}
use orchestract.Session.Query.{scalar-one, mem-count}
use orchestract.Services.Users.{has_email}
use orchestract.Services.Logins.{authenticate}
use orchestract.Services.Tokens.{
  has_user_token, has_purpose_token, get_token, redeem, consume, verify_email,
}
use orchestract.Services.Registration.{register}
use orchestract.Passwords.{hash_password}
use orchestract.Passwords.RoundTrip.{AreBytes, verify-hash_password}
use orchestract.Users.User.{verify_password}
use orchestract.Session.Query.{scalar-one, mem-count}
use orchestract.Services.Tokens.{has_user_token}
use orchestract.Services.Signup.{Added, IsLawfulSignup, Added}
use orchestract.Services.Signup.New.{register-Registered}
use orchestract.Services.Answers.{IsLogin, IsOwner, authenticate-answers}

-- What the mail's token is worth.
issued-valid :
    (n later now : ℕ) (token : Text) (t : UserToken)
    → t ≡ issue_token n email_verification token now
    → later < now + 24 * 3600
    → (token_is_valid later t ≡ true)
      × (has_purpose_token token email_verification t ≡ true)
      × (t.user_id ≡ n)
unfolding issue_token token_is_valid
issued-valid n later now token t e h = rw e (ground arith, ground (arith, text_eq_refl token), refl)

verified-facts :
    (now : ℕ) (u : User)
    → ((mark_email_verified now u).id ≡ u.id)
      × ((mark_email_verified now u).email ≡ u.email)
      × ((mark_email_verified now u).is_active ≡ u.is_active)
      × ((mark_email_verified now u).password_hash ≡ u.password_hash)
      × (is_email_verified (mark_email_verified now u) ≡ true)
unfolding mark_email_verified
verified-facts now u = (refl, refl, refl, refl, refl)

hashed-IsLogin :
    (scrypt : Scrypt) (salt : Bytes) (raw : Text) (u : User)
    → ((x : Text) (y : Bytes) → AreBytes (scrypt x y 16384 8 1))
    → AreBytes salt
    → u.password_hash ≡ some (hash_password scrypt salt raw)
    → u.is_active ≡ true
    → IsLogin scrypt raw u
unfolding verify_password
hashed-IsLogin scrypt salt raw u bytes salted h active =
    let right = (verify-hash_password scrypt bytes salt raw raw salted).1 refl in
    record { active = active; right = ground (arith, h, right) }

module _ {S : Type 0} (store : Store S) (laws : IsLawfulSignup store) where
  verify_email-found :
      (token : Text) (later n : ℕ) (t : UserToken) (u : User) (s : S)
      → get_token store token email_verification s ≡ ok (some t)
      → token_is_valid later t ≡ true
      → t.user_id ≡ n
      → store.users.get n s ≡ some u
      → verify_email store token later s
        ≡ ok (mark_email_verified later u, consume store token n (mark_email_verified later u) s)
  unfolding verify_email redeem
  verify_email-found token later n t u s g valid same found =
      let theirs = ap (λ x. store.users.get x s) same ∙ found in
      ground (arith, g, valid, theirs, same)

  Added-count :
      (email : Text) (s s' : S) (n : ℕ) (u : User)
      → Added store s s' n u
      → u.email ≡ normalize_email email
      → count (has_email (normalize_email email)) (store.users.rows s') ≤ 1
  Added-count email s s' n u a same =
      let fresh = subst (λ x. count (has_email x) (store.users.rows s) ≡ 0) same a.fresh in
      ground (arith, a.counted (has_email (normalize_email email)), fresh)

  Added-IsOwner :
      (email : Text) (s s' : S) (n : ℕ) (u : User)
      → Added store s s' n u
      → u.email ≡ normalize_email email
      → IsOwner store email s' u
  Added-IsOwner email s s' n u a same =
      let (m, _) = laws.users.get-rows n s' u a.stored in record { stored = m; same_email = same }

  -- The state after a token was used up for a user who keeps the mail address.
  module _ (email token : Text) (s : S) (n : ℕ) (u u' : User)
      (stored : store.users.get n s ≡ some u) (same_id : u'.id ≡ u.id)
      (same_email : u'.email ≡ u.email) (theirs : u.email ≡ normalize_email email) where
    consume-count :
        count (has_email (normalize_email email)) (store.users.rows s) ≤ 1
        → count (has_email (normalize_email email)) (store.users.rows (consume store token n u' s))
          ≤ 1
    unfolding consume
    consume-count unique =
        let (_, i) = laws.users.get-rows n s u stored in
        let p = has_email (normalize_email email) in
        let counted = laws.users.count-save p n s u u' stored (same_id ∙ i) in
        let rows =
          ap (count p) (laws.token_delete (has_user_token token) (store.users.save n u' s)) in
        let both = ap (λ x. text_eq x (normalize_email email)) same_email in
        ground (arith, counted, rows, both)

    consume-IsOwner : IsOwner store email (consume store token n u' s) u'
    unfolding consume
    consume-IsOwner =
        let (_, i) = laws.users.get-rows n s u stored in
        let after = store.users.save n u' s in
        let (m, _) =
          laws.users.get-rows n after u' (laws.users.get-save_self n s u u' stored (same_id ∙ i)) in
        record {
          stored = subst (Memᴰ u') (sym (laws.token_delete (has_user_token token) after)) m;
          same_email = same_email ∙ theirs;
        }

  mailed-get_token :
      (token : Text) (s : S) (t : UserToken)
      → Memᴰ t (store.user_tokens.rows s)
      → has_purpose_token token email_verification t ≡ true
      → count (has_purpose_token token email_verification) (store.user_tokens.rows s) ≤ 1
      → get_token store token email_verification s ≡ ok (some t)
  unfolding get_token
  mailed-get_token token s t m p unique =
      scalar-one (has_purpose_token token email_verification) (store.user_tokens.rows s) t
        (omega (arith, unique, mem-count (has_purpose_token token email_verification) m p)) m p

  -- Over tables that obey their laws: after a successful `register` that was mailed a token no
  -- other row has, the password login says that the address is not verified; and `verify_email`
  -- with the token succeeds for 24 hours, after which that login gives the user.
  pub register-authenticate :
      (scrypt : Scrypt) (org_name name email raw version : Text) (ip agent : Option Text)
      (salt : Bytes) (token : Text) (now : ℕ) (s s' : S) (o : Organization) (u : User)
      (t : UserToken)
      → ((x : Text) (y : Bytes) → AreBytes (scrypt x y 16384 8 1))
      → AreBytes salt
      → register store scrypt org_name name email raw version ip agent salt token now s
        ≡ ok (o, u, t, s')
      → count (has_purpose_token token email_verification) (store.user_tokens.rows s') ≤ 1
      → (authenticate store scrypt email raw s' ≡ err email_not_verified)
        × ((later : ℕ)
            → later < now + 24 * 3600
            → (v : User) × (s'' : S) × (verify_email store token later s' ≡ ok (v, s''))
              × (authenticate store scrypt email raw s'' ≡ ok v)
              × (v.id ≡ u.id))
  register-authenticate scrypt org_name name email raw version ip agent salt token now s s' o u t
        bytes salted h unique =
      let r =
        register-Registered store laws scrypt org_name name email raw version ip agent salt token
          now s s' o u t h in
      let owner = Added-IsOwner email s s' r.key u r.added r.same_email in
      let one = Added-count email s s' r.key u r.added r.same_email in
      let login = hashed-IsLogin scrypt salt raw u bytes salted r.hashed r.active in
      (
        (authenticate-answers store scrypt email raw s' one).1.1 (u, owner, login, r.unverified),
        λ later early.
            let (valid, matches, same_user) = issued-valid r.key later now token t r.issued early in
            let (same_id, same_email, same_active, same_hash, verified) = verified-facts later u in
            let v = mark_email_verified later u in
            let found = mailed-get_token token s' t r.mailed matches unique in
            (
              v,
              consume store token r.key v s',
              verify_email-found token later r.key t u s' found valid same_user r.added.stored,
              ((authenticate-answers store scrypt email raw (consume store token r.key v s') (
                      consume-count email token s' r.key u v r.added.stored same_id same_email
                        r.same_email one)).0
                    v).1
                  (
                    consume-IsOwner email token s' r.key u v r.added.stored same_id same_email
                        r.same_email,
                    hashed-IsLogin scrypt salt raw v bytes salted (same_hash ∙ r.hashed)
                        (same_active ∙ r.active),
                    verified,
                  ),
              same_id,
            ),
      )
