-- ===== src/Services/Signup/Emails.antt =====
-- The constraint uq_user_email, and the operations of the accounts as steps.
use orchestract.Common.{
  ℕ, ◌≤◌, ◌≡◌, ap, ◌∙◌, subst, inl, inr, Bool, not, Option, none, some, arith, Bool-cases, Text,
  text_eq, text_eq_iff, is_empty, ok, raise_if, bind-ok, bound, social_login,
}
use orchestract.Tenancy.Organization.{Organization}
use orchestract.Users.User.{User}
use orchestract.Passwords.{Bytes, Scrypt}
use orchestract.Users.Token.{UserToken}
use orchestract.Services.{Store}
use orchestract.Session.{count}
use orchestract.Services.Users.{
  has_email, get_by_email, create_user, set_user_active, set_user_role, set_user_locale,
  update_profile, rename_user, force_verify, change_password,
}
use orchestract.Services.Tokens.{verify_email, reset_password}
use orchestract.Services.Registration.{register}
use orchestract.Services.SocialAuth.{GoogleIdentity, login_or_register_google}
use orchestract.Services.Signup.{IsLawfulSignup, Added}
use orchestract.Services.Signup.New.{create_user-Added, provision-Added, register-Registered}
use orchestract.Services.Signup.Edited.{
  Edited, set_user_active-Edited, set_user_role-Edited, set_user_locale-Edited,
  update_profile-Edited, rename_user-Edited, force_verify-Edited, change_password-Edited,
  verify_email-Edited, reset_password-Edited, link_existing-Edited,
}
use orchestract.Services.SocialAuth.{no_email, unverified_email}

module _ {S : Type 0} (store : Store S) where
  -- No two users have one mail address.
  pub record UniqueEmails (s : S) : Type 0 where
    pub at_most_one : (email : Text) → count (has_email email) (store.users.rows s) ≤ 1

  -- A call that succeeds, of one of the operations that write to the users.
  pub data AccountStep (s s' : S) : Type 0 where
    created :
        (scrypt : Scrypt) (org : ℕ) (name email raw : Text) (role_id : ℕ) (salt : Bytes) (u : User)
        → create_user store scrypt org name email raw role_id salt s ≡ ok (u, s')
        → AccountStep s s'
    registered :
        (scrypt : Scrypt) (org_name name email raw version : Text) (ip agent : Option Text)
        (salt : Bytes) (token : Text) (now : ℕ) (o : Organization) (u : User) (t : UserToken)
        → register store scrypt org_name name email raw version ip agent salt token now s
          ≡ ok (o, u, t, s')
        → AccountStep s s'
    with_google :
        (i : GoogleIdentity) (version : Text) (ip agent : Option Text) (now : ℕ) (u : User)
        → login_or_register_google store i version ip agent now s ≡ ok (u, s')
        → AccountStep s s'
    activity :
        (n : ℕ) (active : Bool) (u : User)
        → set_user_active store n active s ≡ ok (u, s')
        → AccountStep s s'
    role_set : (n k : ℕ) (u : User) → set_user_role store n k s ≡ ok (u, s') → AccountStep s s'
    locale_set :
        (n : ℕ) (l : Option Text) (u : User)
        → set_user_locale store n l s ≡ ok (u, s')
        → AccountStep s s'
    profile :
        (n : ℕ) (name : Text) (k : ℕ) (u : User)
        → update_profile store n name k s ≡ ok (u, s')
        → AccountStep s s'
    renamed :
        (n : ℕ) (name : Text) (u : User)
        → rename_user store n name s ≡ ok (u, s')
        → AccountStep s s'
    forced : (n now : ℕ) (u : User) → force_verify store n now s ≡ ok (u, s') → AccountStep s s'
    changed :
        (scrypt : Scrypt) (n : ℕ) (current new : Text) (salt : Bytes) (u : User)
        → change_password store scrypt n current new salt s ≡ ok (u, s')
        → AccountStep s s'
    verified :
        (token : Text) (now : ℕ) (u : User)
        → verify_email store token now s ≡ ok (u, s')
        → AccountStep s s'
    reset :
        (scrypt : Scrypt) (token new : Text) (salt : Bytes) (now : ℕ) (u : User)
        → reset_password store scrypt token new salt now s ≡ ok (u, s')
        → AccountStep s s'

  -- Any number of such calls, one after the other.
  pub data AccountRun : S → S → Type 0 where
    stop : {s : S} → AccountRun s s
    next : {s s' s'' : S} → AccountStep s s' → AccountRun s' s'' → AccountRun s s''

  module _ (laws : IsLawfulSignup store) where
    Added-UniqueEmails :
        (s s' : S) (n : ℕ) (u : User) → Added store s s' n u → UniqueEmails s → UniqueEmails s'
    Added-UniqueEmails s s' n u a v = record {
      at_most_one = λ email. elim (Bool-cases (has_email email u)) [
        | inr other ↦ ground (arith, a.counted (has_email email), v.at_most_one email)
        | inl theirs ↦
            let fresh =
              subst (λ x. count (has_email x) (store.users.rows s) ≡ 0)
                ((text_eq_iff u.email email).0 theirs) a.fresh in
            ground (arith, a.counted (has_email email), fresh)
      ];
    }

    Edited-UniqueEmails : (s s' : S) → Edited store s s' → UniqueEmails s → UniqueEmails s'
    Edited-UniqueEmails s s' a v = record {
      at_most_one = λ email.
          let (m, i) = laws.users.get-rows a.key s a.old a.stored in
          let counted =
            laws.users.count-save (has_email email) a.key s a.old a.new a.stored (a.same_id ∙ i) in
          let same = ap (λ x. text_eq x email) a.same_email in
          let rows = ap (count (has_email email)) a.written in
          ground (arith, counted, same, rows, v.at_most_one email);
    }

    google-UniqueEmails :
        (i : GoogleIdentity) (version : Text) (ip agent : Option Text) (now : ℕ) (s s' : S)
        (u : User)
        → login_or_register_google store i version ip agent now s ≡ ok (u, s')
        → UniqueEmails s
        → UniqueEmails s'
    unfolding login_or_register_google
    google-UniqueEmails i version ip agent now s s' u h v =
        elim (bind-ok (raise_if (is_empty i.email) (social_login no_email)) _ h) [
          | bound _ e₀ h₀ ↦
              elim (bind-ok (raise_if (not i.email_verified) (social_login unverified_email)) _
                h₀) [
                  | bound _ e₁ h₁ ↦ elim (bind-ok (get_by_email store i.email s) _ h₁) [
                    | bound none e₂ h₂ ↦
                        let (n, a, _) =
                          provision-Added store laws i version ip agent now s s' u e₂ h₂ in
                        Added-UniqueEmails s s' n u a v
                    | bound (some found) e₂ h₂ ↦
                        Edited-UniqueEmails s s'
                          (link_existing-Edited store laws i.email i.sub now s s' found u e₂ h₂) v
                  ]
                ]
        ]

    step-UniqueEmails : (s s' : S) → AccountStep s s' → UniqueEmails s → UniqueEmails s'
    step-UniqueEmails s s' (AccountStep.created scrypt org name email raw k salt u h) v =
        let (n, a) = create_user-Added store laws scrypt org name email raw k salt s s' u h in
        Added-UniqueEmails s s' n u a v
    step-UniqueEmails s s'
          (AccountStep.registered scrypt org_name name email raw version ip agent salt token now o u
            t h)
          v =
        let r =
          register-Registered store laws scrypt org_name name email raw version ip agent salt token
            now s s' o u t h in
        Added-UniqueEmails s s' r.key u r.added v
    step-UniqueEmails s s' (AccountStep.with_google i version ip agent now u h) v =
        google-UniqueEmails i version ip agent now s s' u h v
    step-UniqueEmails s s' (AccountStep.activity n active u h) v =
        Edited-UniqueEmails s s' (set_user_active-Edited store n active s s' u h) v
    step-UniqueEmails s s' (AccountStep.role_set n k u h) v =
        Edited-UniqueEmails s s' (set_user_role-Edited store n k s s' u h) v
    step-UniqueEmails s s' (AccountStep.locale_set n l u h) v =
        Edited-UniqueEmails s s' (set_user_locale-Edited store n l s s' u h) v
    step-UniqueEmails s s' (AccountStep.profile n name k u h) v =
        Edited-UniqueEmails s s' (update_profile-Edited store n name k s s' u h) v
    step-UniqueEmails s s' (AccountStep.renamed n name u h) v =
        Edited-UniqueEmails s s' (rename_user-Edited store n name s s' u h) v
    step-UniqueEmails s s' (AccountStep.forced n now u h) v =
        Edited-UniqueEmails s s' (force_verify-Edited store n now s s' u h) v
    step-UniqueEmails s s' (AccountStep.changed scrypt n current new salt u h) v =
        Edited-UniqueEmails s s' (change_password-Edited store scrypt n current new salt s s' u h) v
    step-UniqueEmails s s' (AccountStep.verified token now u h) v =
        Edited-UniqueEmails s s' (verify_email-Edited store laws token now s s' u h) v
    step-UniqueEmails s s' (AccountStep.reset scrypt token new salt now u h) v =
        Edited-UniqueEmails s s'
          (reset_password-Edited store laws scrypt token new salt now s s' u h) v

    -- Over tables that obey their laws: if no two users have one mail address, then none have
    -- after any number of successful calls of the operations on accounts, registration and the
    -- login with Google among them.
    pub run-UniqueEmails : {s s' : S} → AccountRun s s' → UniqueEmails s → UniqueEmails s'
    run-UniqueEmails AccountRun.stop v = v
    run-UniqueEmails {s} (AccountRun.next {s' = t} step rest) v =
        run-UniqueEmails rest (step-UniqueEmails s t step v)
