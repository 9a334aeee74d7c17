-- ===== src/Services/Answers.antt =====
-- Answers of the password login, with what each tells of the account.
use orchestract.Common.{
  sym, Option-cases, ap, ◌∙◌, ◌≢◌, if◌then◌else◌, Result-cases, ◌≤◌, ◌≡◌, refl, sym, ap, ◌∙◌, subst,
  ◌≢◌, ◌↔◌, inl, inr, true, false, Option, none, some, Memᴰ, arith, if◌then◌else◌, Bool-cases,
  Option-cases, Text, text_eq_iff, ok, err, Result-cases, invalid_credentials, email_not_verified,
}
use orchestract.Users.User.{User, normalize_email, is_email_verified}
use orchestract.Passwords.{Scrypt}
use orchestract.Services.{Store}
use orchestract.Session.{count, select_where}
use orchestract.Session.Query.{scalar-one, mem-count, scalar-count}
use orchestract.Services.Users.{has_email, get_by_email}
use orchestract.Services.Logins.{check_login, authenticate}
use orchestract.Users.User.{verify_password}
use orchestract.Session.Query.{scalar-total}

-- An account that the password login may open once its mail address is verified.
pub record IsLogin (scrypt : Scrypt) (password : Text) (u : User) : Type 0 where
  pub active : u.is_active ≡ true
  pub right : verify_password scrypt password u ≡ true

check_login-ok :
    (scrypt : Scrypt) (password : Text) (u v : User)
    → check_login scrypt password (some v) ≡ ok u
    → (v ≡ u) × IsLogin scrypt password v × (is_email_verified v ≡ true)
unfolding check_login
check_login-ok scrypt password u v h = elim (Bool-cases v.is_active) [
  | inr e ↦ absurd (ground arith)
  | inl e ↦ elim (Bool-cases (verify_password scrypt password v)) [
    | inr f ↦ absurd (ground arith)
    | inl f ↦ elim (Bool-cases (is_email_verified v)) [
      | inr g ↦ absurd (ground arith)
      | inl g ↦ (ground arith, record { active = e; right = f }, g)
    ]
  ]
]

check_login-unverified :
    (scrypt : Scrypt) (password : Text) (v : User)
    → check_login scrypt password (some v) ≡ err email_not_verified
    → IsLogin scrypt password v × (is_email_verified v ≡ false)
unfolding check_login
check_login-unverified scrypt password v h = elim (Bool-cases v.is_active) [
  | inr e ↦ absurd (ground arith)
  | inl e ↦ elim (Bool-cases (verify_password scrypt password v)) [
    | inr f ↦ absurd (ground arith)
    | inl f ↦ elim (Bool-cases (is_email_verified v)) [
      | inl g ↦ absurd (ground arith)
      | inr g ↦ (record { active = e; right = f }, g)
    ]
  ]
]

check_login-login :
    (scrypt : Scrypt) (password : Text) (v : User)
    → IsLogin scrypt password v
    → check_login scrypt password (some v)
      ≡ (if is_email_verified v then ok v else err email_not_verified)
unfolding check_login
check_login-login scrypt password v h = ground (arith, h.active, h.right)

check_login-other :
    (scrypt : Scrypt) (password : Text) (found : Option User)
    → ((u : User) → found ≡ some u → ¬ (IsLogin scrypt password u))
    → check_login scrypt password found ≡ err invalid_credentials
unfolding check_login
check_login-other scrypt password none h = refl
check_login-other scrypt password (some v) h = elim (Bool-cases v.is_active) [
  | inr e ↦ ground arith
  | inl e ↦ elim (Bool-cases (verify_password scrypt password v)) [
    | inr f ↦ ground arith
    | inl f ↦ absurd (h v refl (record { active = e; right = f }))
  ]
]

none-refused :
    (scrypt : Scrypt) (password : Text) (u : User) → check_login scrypt password none ≢ ok u
unfolding check_login
none-refused scrypt password u h = ground arith

none-hidden :
    (scrypt : Scrypt) (password : Text) → check_login scrypt password none ≢ err email_not_verified
unfolding check_login
none-hidden scrypt password h = ground arith

module _ {S : Type 0} (store : Store S) where
  -- The account is stored, and has the mail address.
  pub record IsOwner (email : Text) (s : S) (u : User) : Type 0 where
    pub stored : Memᴰ u (store.users.rows s)
    pub same_email : u.email ≡ normalize_email email

  pub get_by_email-IsOwner :
      (email : Text) (s : S) (u : User)
      → get_by_email store email s ≡ ok (some u)
      → IsOwner email s u
  unfolding get_by_email select_where
  get_by_email-IsOwner email s u h =
      elim (scalar-count (has_email (normalize_email email)) (store.users.rows s) (some u) h) [
        | inl (z, q) ↦ absurd (ground arith)
        | inr (x, is_x, one, m, p) ↦
            let same : x ≡ u = ground arith in
            subst (IsOwner email s) same (record {
              stored = m;
              same_email = (text_eq_iff x.email (normalize_email email)).0 p;
            })
      ]

  owner-get_by_email :
      (email : Text) (s : S) (u : User)
      → count (has_email (normalize_email email)) (store.users.rows s) ≤ 1
      → IsOwner email s u
      → get_by_email store email s ≡ ok (some u)
  unfolding get_by_email select_where
  owner-get_by_email email s u unique own =
      let p = has_email (normalize_email email) in
      let passes = (text_eq_iff u.email (normalize_email email)).1 own.same_email in
      scalar-one p (store.users.rows s) u (omega (arith, unique, mem-count p own.stored passes))
        own.stored passes

  found_total :
      (email : Text) (s : S)
      → count (has_email (normalize_email email)) (store.users.rows s) ≤ 1
      → (found : Option User) × (get_by_email store email s ≡ ok found)
  unfolding get_by_email select_where
  found_total email s h = scalar-total (has_email (normalize_email email)) (store.users.rows s) h

  owner-authenticate :
      (scrypt : Scrypt) (email password : Text) (s : S) (u : User)
      → count (has_email (normalize_email email)) (store.users.rows s) ≤ 1
      → IsOwner email s u
      → IsLogin scrypt password u
      → authenticate store scrypt email password s
        ≡ (if is_email_verified u then ok u else err email_not_verified)
  unfolding authenticate
  owner-authenticate scrypt email password s u unique own login =
      let found = owner-get_by_email email s u unique own in
      let checked = check_login-login scrypt password u login in ground (arith, found, checked)

  pub authenticate-ok :
      (scrypt : Scrypt) (email password : Text) (s : S) (u : User)
      → authenticate store scrypt email password s ≡ ok u
      → IsOwner email s u × IsLogin scrypt password u × (is_email_verified u ≡ true)
  unfolding authenticate
  authenticate-ok scrypt email password s u h = elim (Result-cases (get_by_email store email s)) [
    | inr (x, e) ↦ absurd (ground arith)
    | inl (none, e) ↦ absurd (
        let q : check_login scrypt password none ≡ ok u = ground arith in
        none-refused scrypt password u q)
    | inl (some v, e) ↦
        let (same, login, verified) = check_login-ok scrypt password u v (ground arith) in
        subst (λ x. IsOwner email s x × IsLogin scrypt password x × (is_email_verified x ≡ true))
          same (get_by_email-IsOwner email s v e, login, verified)
  ]

  authenticate-unverified :
      (scrypt : Scrypt) (email password : Text) (s : S)
      → count (has_email (normalize_email email)) (store.users.rows s) ≤ 1
      → authenticate store scrypt email password s ≡ err email_not_verified
      → (u : User) × IsOwner email s u × IsLogin scrypt password u × (is_email_verified u ≡ false)
  unfolding authenticate
  authenticate-unverified scrypt email password s unique h =
      let (found, e) = found_total email s unique in
      elim (Option-cases found) [
        | inl q ↦ absurd (
            none-hidden scrypt password (
              ap (check_login scrypt password) (sym q)
              ∙ (let run : check_login scrypt password found ≡ err email_not_verified =
                    ground arith in
                  run)))
        | inr (v, q) ↦
            let (login, unverified) = check_login-unverified scrypt password v (ground arith) in
            (v, get_by_email-IsOwner email s v (e ∙ ap ok q), login, unverified)
      ]

  authenticate-invalid :
      (scrypt : Scrypt) (email password : Text) (s : S)
      → count (has_email (normalize_email email)) (store.users.rows s) ≤ 1
      → ((u : User) → IsOwner email s u → ¬ (IsLogin scrypt password u))
      → authenticate store scrypt email password s ≡ err invalid_credentials
  unfolding authenticate
  authenticate-invalid scrypt email password s unique h =
      let (found, e) = found_total email s unique in
      let refused =
        check_login-other scrypt password found
          (λ u q. h u (get_by_email-IsOwner email s u (e ∙ ap ok q))) in
      ground (arith, e, refused)

  -- Where at most one user has the mail address, the password login answers in three ways. It gives
  -- a user exactly if the address is theirs, they are active, the password is right and the address
  -- is verified. It says that the address is not verified exactly if the rest holds for some user,
  -- so never to someone without the password. For an account that lacks one of the others, or none,
  -- it says that the credentials are invalid.
  pub authenticate-answers :
      (scrypt : Scrypt) (email password : Text) (s : S)
      → count (has_email (normalize_email email)) (store.users.rows s) ≤ 1
      → ((u : User)
          → (authenticate store scrypt email password s ≡ ok u)
            ↔ (IsOwner email s u × IsLogin scrypt password u × (is_email_verified u ≡ true)))
        × ((authenticate store scrypt email password s ≡ err email_not_verified) ↔ (
            (u : User) × IsOwner email s u
            × IsLogin scrypt password u
            × (is_email_verified u ≡ false)))
        × (((u : User) → IsOwner email s u → ¬ (IsLogin scrypt password u))
            → authenticate store scrypt email password s ≡ err invalid_credentials)
  authenticate-answers scrypt email password s unique = (
    λ u. (
      authenticate-ok scrypt email password s u,
      λ (own, login, verified).
          owner-authenticate scrypt email password s u unique own login ∙ rw verified,
    ),
    (
      authenticate-unverified scrypt email password s unique,
      λ (u, own, login, unverified).
          owner-authenticate scrypt email password s u unique own login ∙ rw unverified,
    ),
    authenticate-invalid scrypt email password s unique,
  )
