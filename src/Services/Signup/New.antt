-- ===== src/Services/Signup/New.antt =====
-- The three ways to a new account: by an administrator, by the form, and with Google.
use orchestract.Common.{
  bound, sym, Memᴰ, any, ok-injective, or_raise, not_found, organization, integrity_error, or_raise,
  text, none, Option, bind-ok, or_raise-ok, raise_if-ok, ap, ℕ, ◌≡◌, refl, ap, ◌∙◌, subst, true,
  false, Option, none, some, arith, Text, text, ok, raise_if, or_raise, duplicate_email,
}
use orchestract.Tenancy.Organization.{Organization}
use orchestract.Users.User.{
  User, normalize_email, mark_email_verified, set_password, is_email_verified, create_social,
  link_google,
}
use orchestract.Users.Role.{Role}
use orchestract.Passwords.{Bytes, Scrypt}
use orchestract.Users.Token.{UserToken}
use orchestract.Compliance.{record_acceptance}
use orchestract.Services.{Store}
use orchestract.Session.{count, select_where}
use orchestract.Services.Users.{
  user_with_id, is_user_of, has_email, is_found, get_by_email, create_user,
}
use orchestract.Services.Compliance.{is_acceptance_of, has_accepted}
use orchestract.Services.Registration.{found_organization}
use orchestract.Services.SocialAuth.{GoogleIdentity, derive_org_name, provision}
use orchestract.Passwords.{hash_password}
use orchestract.Users.User as User
use orchestract.Tenancy.Plans.{check_limit, plan_limits}
use orchestract.Services.{limit_message}
use orchestract.Services.Users.{is_user_of}
use orchestract.Compliance.{record_acceptance}
use orchestract.Users.User.{create_social}
use orchestract.Services.Compliance.{is_acceptance_of, has_accepted}
use orchestract.Services.SocialAuth.{GoogleIdentity, provision, derive_org_name, or_else}
use orchestract.Users.Role as Role
use orchestract.Tenancy.Organization as Organization
use orchestract.Services.Signup.{
  IsLawfulSignup, Added, guard-fresh, add-Added, Added-kept, consented-Added, consented,
  found_organization-users, create-facts, create_social-email,
}
use orchestract.Users.Token.{issue_token, email_verification, UserToken}
use orchestract.Services.Registration.{register}

create-home :
    (scrypt : Scrypt) (org : ℕ) (name email raw : Text) (role_id : ℕ) (salt : Bytes) (u : User)
    → User.create scrypt org name email raw role_id salt ≡ ok u
    → u.organization_id ≡ org
unfolding User.create
create-home scrypt org name email raw role_id salt u h = ground arith

found_organization-id :
    {S : Type 0} (store : Store S) (name : Text) (s s' : S) (org k : ℕ) (o : Organization)
    → found_organization store name s ≡ ok (org, o, k, s')
    → o.id ≡ some org
unfolding found_organization
found_organization-id store name s s' org k o h = elim (bind-ok (Organization.create name) _ h) [
  | bound o₀ e₀ h₀ ↦ elim (bind-ok (or_raise (store.organizations.add o₀ s) integrity_error) _ h₀) [
    | bound (n, s₁) e₁ h₁ ↦ elim (bind-ok (Role.create 0 n (text "Owner") none none) _ h₁) [
      | bound r e₂ h₂ ↦ elim (bind-ok (or_raise (store.roles.add r s₁) integrity_error) _ h₂) [
        | bound (m, s₂) e₃ h₃ ↦ ground arith
      ]
    ]
  ]
]

module _ {S : Type 0} (store : Store S) where
  -- What a registration leaves: an active user whose mail address is not verified, with the password
  -- and the consent that the form gave, an organization that is theirs, and a token to mail.
  pub record Registered (scrypt : Scrypt) (email raw version : Text) (salt : Bytes) (token : Text)
      (now : ℕ) (s : S) (o : Organization) (u : User) (t : UserToken) (s' : S) : Type 0 where
    pub key : ℕ
    pub added : Added store s s' key u
    pub consent : has_accepted store key version s' ≡ true
    pub home : o.id ≡ some u.organization_id
    pub same_email : u.email ≡ normalize_email email
    pub active : u.is_active ≡ true
    pub unverified : is_email_verified u ≡ false
    pub hashed : u.password_hash ≡ some (hash_password scrypt salt raw)
    pub issued : t ≡ issue_token key email_verification token now
    pub mailed : Memᴰ t (store.user_tokens.rows s')

  module _ (laws : IsLawfulSignup store) where
    pub create_user-Added :
        (scrypt : Scrypt) (org : ℕ) (name email raw : Text) (role_id : ℕ) (salt : Bytes) (s s' : S)
        (u : User)
        → create_user store scrypt org name email raw role_id salt s ≡ ok (u, s')
        → (n : ℕ) × Added store s s' n u
    unfolding create_user
    create_user-Added scrypt org name email raw role_id salt s s' u h =
        elim (bind-ok (or_raise (store.organizations.get org s) (not_found organization org)) _ h) [
          | bound o e₀ h₀ ↦
              elim (bind-ok
                (check_limit (plan_limits o.plan).max_users
                  (select_where store.users (is_user_of org) s)
                  (limit_message (plan_limits o.plan) (plan_limits o.plan).max_users
                    (text "users")))
                _ h₀) [
                  | bound _ e₁ h₁ ↦ elim (bind-ok (get_by_email store email s) _ h₁) [
                    | bound found e₂ h₂ ↦
                        elim (bind-ok (raise_if (is_found found) (duplicate_email email)) _ h₂) [
                          | bound _ e₃ h₃ ↦
                              elim (bind-ok (User.create scrypt org name email raw role_id salt) _
                                h₃) [
                                  | bound u₀ e₄ h₄ ↦
                                      elim (bind-ok
                                        (or_raise (store.users.add u₀ s) integrity_error) _ h₄) [
                                          | bound (n, s₁) e₅ h₅ ↦
                                              let (same_email, _, _, _) =
                                                create-facts scrypt org name email raw role_id salt
                                                  u₀ e₄ in
                                              let fresh =
                                                guard-fresh store laws email s found e₂
                                                  (raise_if-ok _ _ e₃) in
                                              let added =
                                                add-Added store laws s s s₁ n u₀
                                                  (ap
                                                      (λ x.
                                                        count (has_email x) (store.users.rows s))
                                                      same_email
                                                    ∙ fresh)
                                                  refl (or_raise-ok _ _ e₅) in
                                              (
                                                n,
                                                subst (λ x. Added store s x.1 n x.0)
                                                    (ok-injective h₅) added,
                                              )
                                        ]
                                ]
                        ]
                  ]
                ]
        ]

    pub provision-Added :
        (i : GoogleIdentity) (version : Text) (ip agent : Option Text) (now : ℕ) (s s' : S)
        (u : User)
        → get_by_email store i.email s ≡ ok none
        → provision store i version ip agent now s ≡ ok (u, s')
        → (n : ℕ) × Added store s s' n u × (has_accepted store n version s' ≡ true)
    unfolding provision
    provision-Added i version ip agent now s s' u q h = elim (bind-ok (derive_org_name i) _ h) [
      | bound name e₀ h₀ ↦ elim (bind-ok (found_organization store name s) _ h₀) [
        | bound (org, o, k, s₁) e₁ h₁ ↦
            elim (bind-ok (create_social org (or_else i.name i.email) i.email k i.sub now) _ h₁) [
              | bound u₀ e₂ h₂ ↦
                  elim (bind-ok (or_raise (store.users.add u₀ s₁) integrity_error) _ h₂) [
                    | bound (n, s₂) e₃ h₃ ↦
                        let a = record_acceptance n org version ip agent now in
                        elim (bind-ok (or_raise (store.terms_acceptances.add a s₂) integrity_error)
                          _ h₃) [
                            | bound s₃ e₄ h₄ ↦
                                let same_email =
                                  create_social-email org (or_else i.name i.email) i.email k i.sub
                                    now u₀ e₂ in
                                let added =
                                  consented-Added store laws a s s₁ s₂ s₃ n u₀
                                    (ap (λ x. count (has_email x) (store.users.rows s)) same_email
                                      ∙ guard-fresh store laws i.email s none q refl)
                                    (found_organization-users store laws name s s₁ org k o e₁)
                                    (or_raise-ok _ _ e₃) (or_raise-ok _ _ e₄) in
                                (
                                  n,
                                  subst (λ x. Added store s x.1 n x.0) (ok-injective h₄) added,
                                  subst (λ x. has_accepted store n version x.1 ≡ true)
                                      (ok-injective h₄)
                                      (consented store laws n org version ip agent now s₂ s₃
                                        (or_raise-ok _ _ e₄)),
                                )
                          ]
                  ]
            ]
      ]
    ]

    pub register-Registered :
        (scrypt : Scrypt) (org_name name email raw version : Text) (ip agent : Option Text)
        (salt : Bytes) (token : Text) (now : ℕ) (s s' : S) (o : Organization) (u : User)
        (t : UserToken)
        → register store scrypt org_name name email raw version ip agent salt token now s
          ≡ ok (o, u, t, s')
        → Registered scrypt email raw version salt token now s o u t s'
    unfolding register has_accepted
    register-Registered scrypt org_name name email raw version ip agent salt token now s s' o u t
          h =
        elim (bind-ok (get_by_email store email s) _ h) [
          | bound found e₀ h₀ ↦
              elim (bind-ok (raise_if (is_found found) (duplicate_email email)) _ h₀) [
                | bound _ e₁ h₁ ↦ elim (bind-ok (found_organization store org_name s) _ h₁) [
                  | bound (org, o₁, k, s₁) e₂ h₂ ↦
                      elim (bind-ok (User.create scrypt org name email raw k salt) _ h₂) [
                        | bound u₀ e₃ h₃ ↦
                            elim (bind-ok (or_raise (store.users.add u₀ s₁) integrity_error) _ h₃) [
                              | bound (n, s₂) e₄ h₄ ↦
                                  let a = record_acceptance n org version ip agent now in
                                  elim (bind-ok
                                    (or_raise (store.terms_acceptances.add a s₂) integrity_error) _
                                    h₄) [
                                      | bound s₃ e₅ h₅ ↦
                                          let t₀ = issue_token n email_verification token now in
                                          elim (bind-ok
                                            (or_raise (store.user_tokens.add t₀ s₃) integrity_error)
                                            _ h₅) [
                                              | bound s₄ e₆ h₆ ↦
                                                  let (same_email, active, unverified, hashed) =
                                                    create-facts scrypt org name email raw k salt u₀
                                                      e₃ in
                                                  let fresh =
                                                    guard-fresh store laws email s found e₀
                                                      (raise_if-ok _ _ e₁) in
                                                  let a₆ = or_raise-ok _ _ e₆ in
                                                  let added =
                                                    consented-Added store laws a s s₁ s₂ s₃ n u₀
                                                      (ap
                                                          (λ x.
                                                            count (has_email x)
                                                            (store.users.rows s))
                                                          same_email
                                                        ∙ fresh)
                                                      (found_organization-users store laws org_name
                                                        s s₁ org k o₁ e₂)
                                                      (or_raise-ok _ _ e₄) (or_raise-ok _ _ e₅) in
                                                  let both : Registered scrypt email raw version
                                                      salt token now s o₁ (user_with_id n u₀) t₀
                                                      s₄ =
                                                    record {
                                                      key = n;
                                                      added =
                                                          Added-kept store laws s s₃ s₄ n
                                                            (user_with_id n u₀) added
                                                            (laws.token_users t₀ s₃ s₄ a₆);
                                                      consent =
                                                          ap (any (is_acceptance_of n version))
                                                            (laws.token_consents t₀ s₃ s₄ a₆)
                                                          ∙ consented store laws n org version ip
                                                            agent now s₂ s₃ (or_raise-ok _ _ e₅);
                                                      home =
                                                          found_organization-id store org_name s s₁
                                                            org k o₁ e₂
                                                          ∙ ap some (
                                                            sym (
                                                            create-home scrypt org name email raw k
                                                            salt u₀ e₃));
                                                      same_email = same_email;
                                                      active = active;
                                                      unverified = unverified;
                                                      hashed = hashed;
                                                      issued = refl;
                                                      mailed = laws.tokens.mem-add s₃ s₄ t₀ a₆;
                                                    } in
                                                  subst
                                                    (λ x.
                                                      Registered scrypt email raw version salt token
                                                        now s x.0 x.1 x.2 x.3)
                                                    (ok-injective h₆) both
                                            ]
                                    ]
                            ]
                      ]
                ]
              ]
        ]
