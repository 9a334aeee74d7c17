-- ===== src/Services/Signup/Google.antt =====
-- The account that the login with Google gives.
use orchestract.Common.{
  ◌+◌, or_raise-ok, integrity_error, raise_if-ok, or_raise, ok-injective, ℕ, ◌≡◌, refl, ◌⊎◌, inl,
  inr, Bool, false, arith, Text, is_empty, ok, ap, Option, true, ◌∙◌, some, sym, none, Option-cases,
  bind-ok, raise_if, social_login, bound, not, subst, or_raise-ok,
}
use orchestract.Services.Users.{get_by_email}
use orchestract.Services.Compliance.{has_accepted}
use orchestract.Services.Signup.New.{provision-Added}
use orchestract.Services.Answers.{get_by_email-IsOwner, IsOwner}
use orchestract.Compliance.{record_acceptance}
use orchestract.Services.Registration.{found_organization}
use orchestract.Services.Signup.{create_social-email, IsLawfulSignup, Added, or_else}
use orchestract.Session.{count, one_if}
use orchestract.Services.{Store}
use orchestract.Services.SocialAuth.{
  derive_org_name, GoogleIdentity, login_or_register_google, no_email, unverified_email,
  link_existing, deactivated_account, provision,
}
use orchestract.Users.User.{create_social, link_google, User, is_email_verified, normalize_email}

create_social-facts :
    (org : ℕ) (name email : Text) (role_id : ℕ) (sub : Text) (now : ℕ) (u : User)
    → create_social org name email role_id sub now ≡ ok u
    → (u.is_active ≡ true)
      × (is_email_verified u ≡ true)
      × (u.google_sub ≡ some sub)
      × (u.password_hash ≡ none)
unfolding create_social
create_social-facts org name email role_id sub now u h =
    (ground arith, ground arith, ground arith, ground arith)

link_google-facts :
    (sub : Text) (now : ℕ) (u : User)
    → ((link_google sub now u).is_active ≡ u.is_active)
      × (is_email_verified (link_google sub now u) ≡ true)
      × ((link_google sub now u).google_sub ≡ some sub)
      × ((link_google sub now u).password_hash ≡ u.password_hash)
      × ((link_google sub now u).email ≡ u.email)
unfolding link_google
link_google-facts sub now u = elim (Option-cases u.email_verified_at) [
  | inl e ↦ (refl, rw e, refl, refl, refl)
  | inr (t, e) ↦ (refl, rw e, refl, refl, refl)
]

link_google-id : (sub : Text) (now : ℕ) (u : User) → (link_google sub now u).id ≡ u.id
unfolding link_google
link_google-id sub now u = refl

not-false : (b : Bool) → not b ≡ false → b ≡ true
not-false b h = ground arith

-- An account that the login with Google may give for the identity.
pub record IsGoogleUser (i : GoogleIdentity) (u : User) : Type 0 where
  pub active : u.is_active ≡ true
  pub verified : is_email_verified u ≡ true
  pub linked : u.google_sub ≡ some i.sub
  pub same_email : u.email ≡ normalize_email i.email

module _ {S : Type 0} (store : Store S) where
  -- The user who had the address, before and after Google's id was linked.
  pub record Linked (i : GoogleIdentity) (s s' : S) (old u : User) : Type 0 where
    pub owner : IsOwner store i.email s old
    pub key : ℕ
    pub found : store.users.get key s ≡ some old
    pub stored : store.users.get key s' ≡ some u
    pub same_password : u.password_hash ≡ old.password_hash
    pub counted :
        (p : User → Bool)
        → count p (store.users.rows s') + one_if (p old)
          ≡ count p (store.users.rows s) + one_if (p u)

module _ {S : Type 0} (store : Store S) (laws : IsLawfulSignup store) where
  provision-IsGoogleUser :
      (i : GoogleIdentity) (version : Text) (ip agent : Option Text) (now : ℕ) (s s' : S) (u : User)
      → provision store i version ip agent now s ≡ ok (u, s')
      → IsGoogleUser i u × (u.password_hash ≡ none)
  unfolding provision
  provision-IsGoogleUser i version ip agent now s s' u h = elim (bind-ok (derive_org_name i) _ h) [
    | bound name e₀ h₀ ↦ elim (bind-ok (found_organization store name s) _ h₀) [
      | bound (org, o, k, s₁) e₁ h₁ ↦
          let name' = or_else i.name i.email in
          elim (bind-ok (create_social org name' i.email k i.sub now) _ h₁) [
            | bound u₀ e₂ h₂ ↦
                elim (bind-ok (or_raise (store.users.add u₀ s₁) integrity_error) _ h₂) [
                  | bound (n, s₂) e₃ h₃ ↦
                      let a = record_acceptance n org version ip agent now in
                      elim (bind-ok (or_raise (store.terms_acceptances.add a s₂) integrity_error) _
                        h₃) [
                          | bound s₃ e₄ h₄ ↦
                              let (active, verified, linked, hash) =
                                create_social-facts org name' i.email k i.sub now u₀ e₂ in
                              subst (λ x. IsGoogleUser i x.0 × (x.0.password_hash ≡ none))
                                (ok-injective h₄)
                                (
                                  record {
                                    active = active;
                                    verified = verified;
                                    linked = linked;
                                    same_email =
                                        create_social-email org name' i.email k i.sub now u₀ e₂;
                                  },
                                  hash,
                                )
                        ]
                ]
          ]
    ]
  ]

  link_google-Linked :
      (i : GoogleIdentity) (now n : ℕ) (s : S) (old : User)
      → IsOwner store i.email s old
      → old.id ≡ some n
      → Linked store i s
          (store.users.save n (link_google i.sub now old) s)
          old
          (link_google i.sub now old)
  link_google-Linked i now n s old own f =
      let u = link_google i.sub now old in
      let (k, same, found) = laws.users.rows-get s old own.stored in
      let here : store.users.get n s ≡ some old =
        ap (λ m. store.users.get m s) (let q = sym f ∙ same in ground (arith, q)) ∙ found in
      let kept = link_google-id i.sub now old ∙ f in
      let (active, verified, linked, hash, email) = link_google-facts i.sub now old in
      record {
        owner = own;
        key = n;
        found = here;
        stored = laws.users.get-save_self n s old u here kept;
        same_password = hash;
        counted = λ p. laws.users.count-save p n s old u here kept;
      }

  link_existing-Linked :
      (i : GoogleIdentity) (now : ℕ) (s s' : S) (old u : User)
      → IsOwner store i.email s old
      → link_existing store i.sub now old s ≡ ok (u, s')
      → IsGoogleUser i u × Linked store i s s' old u
  unfolding link_existing
  link_existing-Linked i now s s' old u own h =
      elim (bind-ok (raise_if (not old.is_active) (social_login deactivated_account)) _ h) [
        | bound _ e h' ↦ elim (bind-ok (or_raise old.id integrity_error) _ h') [
          | bound n f h'' ↦
              let (active, verified, linked, hash, same) = link_google-facts i.sub now old in
              subst (λ x. IsGoogleUser i x.0 × Linked store i s x.1 old x.0) (ok-injective h'')
                (
                  record {
                    active = active ∙ (let on = raise_if-ok _ _ e in ground arith);
                    verified = verified;
                    linked = linked;
                    same_email = same ∙ own.same_email;
                  },
                  link_google-Linked i now n s old own (or_raise-ok _ _ f),
                )
        ]
      ]

  -- Over tables that obey their laws: the login with Google succeeds only for an address that Google
  -- has verified. It gives an active user with that address, verified and with Google's id, who is
  -- either the user who had the address, or a new one. The former keeps the password and is stored
  -- again in place of the row from before, with no other row changed; the latter is stored with no
  -- password and a consent.
  pub login_or_register_google-IsGoogleUser :
      (i : GoogleIdentity) (version : Text) (ip agent : Option Text) (now : ℕ) (s s' : S) (u : User)
      → login_or_register_google store i version ip agent now s ≡ ok (u, s')
      → (i.email_verified ≡ true)
        × IsGoogleUser i u
        × (((old : User) × Linked store i s s' old u)
            ⊎ ((n : ℕ) × Added store s s' n u
                × (u.password_hash ≡ none)
                × (has_accepted store n version s' ≡ true)))
  unfolding login_or_register_google
  login_or_register_google-IsGoogleUser i version ip agent now s s' u h =
      elim (bind-ok (raise_if (is_empty i.email) (social_login no_email)) _ h) [
        | bound _ e₀ h₀ ↦
            elim (bind-ok (raise_if (not i.email_verified) (social_login unverified_email)) _ h₀) [
              | bound _ e₁ h₁ ↦ elim (bind-ok (get_by_email store i.email s) _ h₁) [
                | bound none e₂ h₂ ↦
                    let (user, hash) = provision-IsGoogleUser i version ip agent now s s' u h₂ in
                    let (n, a, consent) =
                      provision-Added store laws i version ip agent now s s' u e₂ h₂ in
                    (
                      not-false i.email_verified (raise_if-ok _ _ e₁),
                      user,
                      inr (n, a, hash, consent),
                    )
                | bound (some found) e₂ h₂ ↦
                    let own = get_by_email-IsOwner store i.email s found e₂ in
                    let (user, linked) = link_existing-Linked i now s s' found u own h₂ in
                    (not-false i.email_verified (raise_if-ok _ _ e₁), user, inl (found, linked))
              ]
            ]
      ]
