-- ===== src/Session/Query.antt =====
-- Queries for at most one row, and what they tell of the rows.
use mathlib.Core.List.Memᴰ
use orchestract.Common.{
  ◌≤◌, ◌≡◌, refl, sym, ◌∙◌, subst, ◌⊎◌, inl, inr, Bool, true, false, Option, none, some, List, Memᴰ,
  arith, List-cases, filter, mem-filter, filter-eq-nil, ok,
}
use orchestract.Session.{count, scalar_one_or_none}

-- What a query for one row at most says of the number of rows.
pub scalar-count {ℓ} :
    {A : Type ℓ} (p : A → Bool) (xs : List A) (o : Option A)
    → scalar_one_or_none (filter p xs) ≡ ok o
    → ((o ≡ none) × (count p xs ≡ 0))
      ⊎ ((a : A) × (o ≡ some a) × (count p xs ≡ 1) × Memᴰ a xs × (p a ≡ true))
unfolding scalar_one_or_none count
scalar-count p xs o h = elim (List-cases (filter p xs)) [
  | inl e ↦ inl (ground arith, rw e)
  | inr (a, rest, e) ↦ elim (List-cases rest) [
    | inr (b, more, e') ↦ absurd (ground arith)
    | inl e' ↦
        let (m, q) = (mem-filter p a xs).0 (subst (Memᴰ a) (sym e) (Memᴰ.head refl)) in
        inr (a, ground arith, rw (e, e'), m, q)
  ]
]

-- No row that passes is among none.
pub zero-count {ℓ} :
    {A : Type ℓ} (p : A → Bool) {a : A} {xs : List A} → Memᴰ a xs → count p xs ≡ 0 → p a ≡ false
unfolding count
zero-count p {a} {xs} m z = elim (List-cases (filter p xs)) [
  | inl e ↦ (filter-eq-nil p xs).0 e a m
  | inr (b, rest, e) ↦ absurd (ground arith)
]

-- Where a query for one row succeeds, any row that passes the test is that row.
pub scalar-same {ℓ} :
    {A : Type ℓ} (p : A → Bool) (xs : List A) (a b : A)
    → scalar_one_or_none (filter p xs) ≡ ok (some b)
    → Memᴰ a xs
    → p a ≡ true
    → a ≡ b
unfolding scalar_one_or_none
scalar-same p xs a b h m q = elim (List-cases (filter p xs)) [
  | inl e ↦ absurd (ground arith)
  | inr (c, rest, e) ↦ elim (List-cases rest) [
    | inr (d, more, f) ↦ absurd (ground arith)
    | inl f ↦
        let kept = subst (Memᴰ a) e ((mem-filter p a xs).1 (m, q)) in
        let is_b : c ≡ b = ground arith in
        elim (Memᴰ.cases_cons kept) [
          | inl g ↦ g ∙ is_b
          | inr k ↦ absurd (Memᴰ.not-nil (subst (Memᴰ a) f k))
        ]
  ]
]

-- A row that passes is found if it is the only one.
pub scalar-one {ℓ} :
    {A : Type ℓ} (p : A → Bool) (xs : List A) (a : A)
    → count p xs ≡ 1
    → Memᴰ a xs
    → p a ≡ true
    → scalar_one_or_none (filter p xs) ≡ ok (some a)
unfolding scalar_one_or_none count
scalar-one p xs a one m q = elim (List-cases (filter p xs)) [
  | inl e ↦ absurd (ground arith)
  | inr (b, rest, e) ↦ elim (List-cases rest) [
    | inr (d, more, f) ↦ absurd (ground arith)
    | inl f ↦
        let kept = subst (Memᴰ a) e ((mem-filter p a xs).1 (m, q)) in
        elim (Memᴰ.cases_cons kept) [
          | inl g ↦ ground arith
          | inr k ↦ absurd (Memᴰ.not-nil (subst (Memᴰ a) f k))
        ]
  ]
]

-- No row is found if none passes.
pub scalar-none {ℓ} :
    {A : Type ℓ} (p : A → Bool) (xs : List A)
    → count p xs ≡ 0
    → scalar_one_or_none (filter p xs) ≡ ok none
unfolding scalar_one_or_none count
scalar-none p xs z = elim (List-cases (filter p xs)) [
  | inl e ↦ rw e
  | inr (b, rest, e) ↦ absurd (ground arith)
]

-- Where some row passes, at least one is counted.
pub mem-count {ℓ} :
    {A : Type ℓ} (p : A → Bool) {a : A} {xs : List A} → Memᴰ a xs → p a ≡ true → 1 ≤ count p xs
unfolding count
mem-count p {a} {xs} m q = elim (List-cases (filter p xs)) [
  | inl e ↦ absurd (ground (arith, (filter-eq-nil p xs).0 e a m))
  | inr (b, rest, e) ↦ rw e (ground arith)
]

-- A query for one row at most succeeds if no more pass.
pub scalar-total {ℓ} :
    {A : Type ℓ} (p : A → Bool) (xs : List A)
    → count p xs ≤ 1
    → (o : Option A) × (scalar_one_or_none (filter p xs) ≡ ok o)
unfolding scalar_one_or_none count
scalar-total p xs h = elim (List-cases (filter p xs)) [
  | inl e ↦ (none, rw e)
  | inr (b, rest, e) ↦ elim (List-cases rest) [
    | inl f ↦ (some b, ground arith)
    | inr (d, more, f) ↦ absurd (ground arith)
  ]
]
