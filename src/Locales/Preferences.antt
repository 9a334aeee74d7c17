-- ===== src/Locales/Preferences.antt =====
-- Which language a request is answered in, and the order of the languages that a browser asks for.
use orchestract.Common.{
  All, leb, ◌∙◌, ℕ, ◌≤◌, ◌≡◌, refl, ◌∙◌, inl, inr, true, false, Option, none, some, List, [], ◌∷◌,
  arith, leb, ◌==◌, Bool-cases, filter, All, Text, text_eq, contains,
}
use orchestract.Locales.{
  supported_locales, is_supported, set_current_locale, insert_ranked, sort_ranked,
  negotiate_and_set_locale,
}

set_current_locale-supported :
    (l : Option Text) → contains (set_current_locale l) supported_locales ≡ true
unfolding set_current_locale contains text_eq
set_current_locale-supported none = refl
set_current_locale-supported (some l) = elim (Bool-cases (contains l supported_locales)) [
  | inl e ↦ ground arith
  | inr e ↦ ground arith
]

supported-set_current_locale :
    (l : Text) → contains l supported_locales ≡ true → set_current_locale (some l) ≡ l
unfolding set_current_locale
supported-set_current_locale l h = rw h

module _ (float : Text → Option ℕ) (one : ℕ)
    (negotiate_locale : List Text → List Text → Option Text) where
  -- A request is always answered in a language that is supported: the one that the user has saved,
  -- if it is; else that of the cookie, if it is.
  pub negotiate_and_set_locale-supported :
      (preference cookie : Option Text) (header : Text)
      → let l = negotiate_and_set_locale float one negotiate_locale preference cookie header in
        (contains l supported_locales ≡ true)
        × (is_supported preference ≡ true → preference ≡ some l)
        × (is_supported preference ≡ false → is_supported cookie ≡ true → cookie ≡ some l)
  unfolding negotiate_and_set_locale
  negotiate_and_set_locale-supported none none header =
      (set_current_locale-supported _, λ h. absurd (ground arith), λ h g. absurd (ground arith))
  negotiate_and_set_locale-supported none (some l) header = (
    set_current_locale-supported _,
    λ h. absurd (ground arith),
    λ h g. ground (arith, supported-set_current_locale l g),
  )
  negotiate_and_set_locale-supported (some l) none header = (
    set_current_locale-supported _,
    λ h. ground (arith, supported-set_current_locale l h),
    λ h g. absurd (ground arith),
  )
  negotiate_and_set_locale-supported (some l) (some k) header = (
    set_current_locale-supported _,
    λ h. ground (arith, supported-set_current_locale l h),
    λ h g. ground (arith, supported-set_current_locale k g),
  )

-- The weights fall along the list.
abbrev pub Falls : List (ℕ × Text) → Type 0
Falls [] = Unit
Falls (x ∷ xs) = All (λ y. y.0 ≤ x.0) xs × Falls xs

insert_ranked-All :
    (P : ℕ × Text → Type 0) (x : ℕ × Text) (xs : List (ℕ × Text))
    → P x
    → All P xs
    → All P (insert_ranked x xs)
unfolding insert_ranked
insert_ranked-All P x [] p h = (p, tt)
insert_ranked-All P x (y ∷ ys) p h = elim (Bool-cases (leb y.0 x.0)) [
  | inl e ↦ rw e (p, h)
  | inr e ↦ rw e (h.0, insert_ranked-All P x ys p h.1)
]

All-below : (m n : ℕ) (xs : List (ℕ × Text)) → m ≤ n → All (λ y. y.0 ≤ m) xs → All (λ y. y.0 ≤ n) xs
All-below m n [] l h = tt
All-below m n (x ∷ xs) l h = (omega (arith, l, h.0), All-below m n xs l h.1)

insert_ranked-Falls : (x : ℕ × Text) (xs : List (ℕ × Text)) → Falls xs → Falls (insert_ranked x xs)
unfolding insert_ranked
insert_ranked-Falls x [] f = (tt, tt)
insert_ranked-Falls x (y ∷ ys) f = elim (Bool-cases (leb y.0 x.0)) [
  | inl e ↦
      let below : y.0 ≤ x.0 = ground arith in rw e ((below, All-below y.0 x.0 ys below f.0), f)
  | inr e ↦
      let above : x.0 ≤ y.0 = ground arith in
      rw e (insert_ranked-All (λ z. z.0 ≤ y.0) x ys above f.0, insert_ranked-Falls x ys f.1)
]

filter-insert_ranked :
    (q : ℕ) (x : ℕ × Text) (xs : List (ℕ × Text))
    → filter (λ y. y.0 == q) (insert_ranked x xs) ≡ filter (λ y. y.0 == q) (x ∷ xs)
unfolding insert_ranked filter
filter-insert_ranked q x [] = refl
filter-insert_ranked q x (y ∷ ys) = ground (arith, filter-insert_ranked q x ys)

-- The languages of a header are tried in the order of their weights, the greatest first, and those
-- of one weight in the order of the header.
pub sort_ranked-Falls :
    (xs : List (ℕ × Text))
    → Falls (sort_ranked xs)
      × ((q : ℕ) → filter (λ x. x.0 == q) (sort_ranked xs) ≡ filter (λ x. x.0 == q) xs)
unfolding sort_ranked filter
sort_ranked-Falls [] = (tt, λ q. refl)
sort_ranked-Falls (x ∷ xs) =
    let (f, same) = sort_ranked-Falls xs in
    (
      insert_ranked-Falls x (sort_ranked xs) f,
      λ q. filter-insert_ranked q x (sort_ranked xs) ∙ ground (arith, same q),
    )
