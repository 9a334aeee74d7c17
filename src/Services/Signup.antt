-- ===== src/Services/Signup.antt =====
-- New accounts: what `create_user`, `register` and `login_or_register_google` add to the users.
pub mod New
pub mod Edited
pub mod Emails
pub mod Verified
pub mod Identity
pub mod Google
use orchestract.Common.{
  bound, ok-injective, any_of_mem, text_eq_refl, or_raise, not_found, organization, integrity_error,
  or_raise, text, none, Option, bind-ok, or_raise-ok, raise_if-ok, ap, ℕ, ◌+◌, ◌≡◌, refl, ap, ◌∙◌,
  subst, inl, inr, Bool, true, false, Option, none, some, arith, any_of_mem, Text, text,
  text_eq_refl, ok, raise_if, or_raise, duplicate_email,
}
use orchestract.Tenancy.Organization.{Organization}
use orchestract.Users.User.{
  User, normalize_email, mark_email_verified, set_password, is_email_verified, create_social,
  link_google,
}
use orchestract.Users.Role.{Role}
use orchestract.Passwords.{Bytes, Scrypt}
use orchestract.Users.Token.{UserToken}
use orchestract.Compliance.{TermsAcceptance, record_acceptance}
use orchestract.Services.{Store}
use orchestract.Session.{IsLawful, IsSeparate, count, select_where, one_if}
use orchestract.Session.Query.{scalar-count}
use orchestract.Session.Log.{IsLawfulLog}
use orchestract.Services.Users.{
  id_of_user, user_with_id, is_user_of, has_email, is_found, get_by_email, create_user,
}
use orchestract.Services.Compliance.{is_acceptance_of, has_accepted}
use orchestract.Services.Registration.{found_organization}
use orchestract.Services.SocialAuth.{GoogleIdentity, derive_org_name, provision}
use orchestract.Passwords.{hash_password}
use orchestract.Users.User as User
use orchestract.Tenancy.Plans.{check_limit, plan_limits}
use orchestract.Services.{limit_message}
use orchestract.Services.Users.{is_user_of}
use orchestract.Compliance.{record_acceptance}
use orchestract.Users.User.{create_social}
use orchestract.Services.Compliance.{is_acceptance_of, has_accepted}
use orchestract.Services.SocialAuth.{GoogleIdentity, provision, derive_org_name, or_else}
use orchestract.Users.Role as Role
use orchestract.Tenancy.Organization as Organization

pub create-facts :
    (scrypt : Scrypt) (org : ℕ) (name email raw : Text) (role_id : ℕ) (salt : Bytes) (u : User)
    → User.create scrypt org name email raw role_id salt ≡ ok u
    → (u.email ≡ normalize_email email)
      × (u.is_active ≡ true)
      × (is_email_verified u ≡ false)
      × (u.password_hash ≡ some (hash_password scrypt salt raw))
unfolding User.create
create-facts scrypt org name email raw role_id salt u h =
    (ground arith, ground arith, ground arith, ground arith)

pub create_social-email :
    (org : ℕ) (name email : Text) (role_id : ℕ) (sub : Text) (now : ℕ) (u : User)
    → create_social org name email role_id sub now ≡ ok u
    → u.email ≡ normalize_email email
unfolding create_social
create_social-email org name email role_id sub now u h = ground arith

module _ {S : Type 0} (store : Store S) where
  -- The tables obey their laws, and the writes to the others leave the users as they are.
  pub record IsLawfulSignup : Type 0 where
    pub users : IsLawful store.users id_of_user user_with_id
    pub consents : IsLawfulLog store.terms_acceptances
    pub tokens : IsLawfulLog store.user_tokens
    pub organization_write : IsSeparate store.organizations store.users
    pub role_write : IsSeparate store.roles store.users
    pub consent_users :
        (a : TermsAcceptance) (s s' : S)
        → store.terms_acceptances.add a s ≡ some s'
        → (store.users.rows s' ≡ store.users.rows s)
          × ((n : ℕ) → store.users.get n s' ≡ store.users.get n s)
    pub token_users :
        (t : UserToken) (s s' : S)
        → store.user_tokens.add t s ≡ some s'
        → (store.users.rows s' ≡ store.users.rows s)
          × ((n : ℕ) → store.users.get n s' ≡ store.users.get n s)
    pub token_delete :
        (q : UserToken → Bool) (s : S)
        → store.users.rows (store.user_tokens.delete q s) ≡ store.users.rows s
    pub token_consents :
        (t : UserToken) (s s' : S)
        → store.user_tokens.add t s ≡ some s'
        → store.terms_acceptances.rows s' ≡ store.terms_acceptances.rows s

  -- The user is stored under a mail address that was no one's, and no other user has changed.
  pub record Added (s s' : S) (n : ℕ) (u : User) : Type 0 where
    pub fresh : count (has_email u.email) (store.users.rows s) ≡ 0
    pub same_id : u.id ≡ some n
    pub stored : store.users.get n s' ≡ some u
    pub counted :
        (p : User → Bool)
        → count p (store.users.rows s') ≡ count p (store.users.rows s) + one_if (p u)

  module _ (laws : IsLawfulSignup) where
    pub found_organization-users :
        (name : Text) (s s' : S) (org k : ℕ) (o : Organization)
        → found_organization store name s ≡ ok (org, o, k, s')
        → store.users.rows s' ≡ store.users.rows s
    unfolding found_organization
    found_organization-users name s s' org k o h = elim (bind-ok (Organization.create name) _ h) [
      | bound o₀ e₀ h₀ ↦
          elim (bind-ok (or_raise (store.organizations.add o₀ s) integrity_error) _ h₀) [
            | bound (n, s₁) e₁ h₁ ↦ elim (bind-ok (Role.create 0 n (text "Owner") none none) _ h₁) [
              | bound r e₂ h₂ ↦
                  elim (bind-ok (or_raise (store.roles.add r s₁) integrity_error) _ h₂) [
                    | bound (m, s₂) e₃ h₃ ↦
                        let a₁ = or_raise-ok _ _ e₁ in
                        let a₂ = or_raise-ok _ _ e₃ in
                        let last : s' ≡ s₂ = ground arith in
                        ap store.users.rows last
                        ∙ laws.role_write.rows-add m r s₁ s₂ a₂
                        ∙ laws.organization_write.rows-add n o₀ s s₁ a₁
                  ]
            ]
          ]
    ]

    -- The guard that create_user and register share.
    pub guard-fresh :
        (email : Text) (s : S) (found : Option User)
        → get_by_email store email s ≡ ok found
        → is_found found ≡ false
        → count (has_email (normalize_email email)) (store.users.rows s) ≡ 0
    unfolding get_by_email select_where
    guard-fresh email s found h q =
        elim (scalar-count (has_email (normalize_email email)) (store.users.rows s) found h) [
          | inl (e, z) ↦ z
          | inr (x, e, _, _, _) ↦ absurd (ground arith)
        ]

    pub add-Added :
        (s s₁ s₂ : S) (n : ℕ) (u : User)
        → count (has_email u.email) (store.users.rows s) ≡ 0
        → store.users.rows s₁ ≡ store.users.rows s
        → store.users.add u s₁ ≡ some (n, s₂)
        → Added s s₂ n (user_with_id n u)
    add-Added s s₁ s₂ n u fresh same h = record {
      fresh = fresh;
      same_id = refl;
      stored = laws.users.get-add s₁ s₂ u n h;
      counted = λ p.
          laws.users.count-add p s₁ s₂ u n h
          ∙ ap (λ l. count p l + one_if (p (user_with_id n u))) same;
    }

    pub Added-kept :
        (s s₂ s₃ : S) (n : ℕ) (u : User)
        → Added s s₂ n u
        → (store.users.rows s₃ ≡ store.users.rows s₂)
          × ((m : ℕ) → store.users.get m s₃ ≡ store.users.get m s₂)
        → Added s s₃ n u
    Added-kept s s₂ s₃ n u a kept = record {
      fresh = a.fresh;
      same_id = a.same_id;
      stored = kept.1 n ∙ a.stored;
      counted = λ p. ap (count p) kept.0 ∙ a.counted p;
    }

    -- What a new person's consent adds to the users.
    pub consented-Added :
        (a : TermsAcceptance) (s s₁ s₂ s₃ : S) (n : ℕ) (u : User)
        → count (has_email u.email) (store.users.rows s) ≡ 0
        → store.users.rows s₁ ≡ store.users.rows s
        → store.users.add u s₁ ≡ some (n, s₂)
        → store.terms_acceptances.add a s₂ ≡ some s₃
        → Added s s₃ n (user_with_id n u)
    consented-Added a s s₁ s₂ s₃ n u fresh same h g =
        Added-kept s s₂ s₃ n (user_with_id n u) (add-Added s s₁ s₂ n u fresh same h)
          (laws.consent_users a s₂ s₃ g)

    -- The consent itself.
    pub consented :
        (n org : ℕ) (version : Text) (ip agent : Option Text) (now : ℕ) (s s' : S)
        → store.terms_acceptances.add (record_acceptance n org version ip agent now) s ≡ some s'
        → has_accepted store n version s' ≡ true
    unfolding has_accepted record_acceptance
    consented n org version ip agent now s s' h =
        any_of_mem (is_acceptance_of n version)
          (laws.consents.mem-add s s' (record_acceptance n org version ip agent now) h)
          (ground (arith, text_eq_refl version))
