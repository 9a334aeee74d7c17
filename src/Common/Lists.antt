-- ===== src/Common/Lists.antt =====
-- Lists under Boolean tests: Python's comprehensions, `any`, `len` and `next`.
use Prim.Native.Nat.{ℕ, suc, ◌+◌}
use mathlib.Core.Path.{◌≡◌, refl, sym, ap, ◌∙◌, subst}
use mathlib.Core.Logic.{inl, inr, ◌↔◌}
use mathlib.Core.Bool.{Bool, true, false, ◌||◌, false≢true}
use mathlib.Core.Option.{Option, none, some}
use mathlib.Core.List.{List, [], ◌∷◌, ◌++◌, Memᴰ}
use mathlib.Core.List.Memᴰ
use native.Mathlib.Omega.{arith}
use orchestract.Common.Tests.{Bool-cases, List-cases, if◌then◌else◌}

module _ {ℓ} {A : Type ℓ} where
  abbrev pub length : List A → ℕ
  length [] = 0
  length (_ ∷ xs) = suc (length xs)

  -- any(p(x) for x in xs)
  unfoldable pub any : (A → Bool) → List A → Bool
  any p [] = false
  any p (x ∷ xs) = p x || any p xs

  -- [x for x in xs if p(x)]
  unfoldable pub filter : (A → Bool) → List A → List A
  filter p [] = []
  filter p (x ∷ xs) = let rest = filter p xs in if p x then x ∷ rest else rest

  -- next((x for x in xs if p(x)), None)
  unfoldable pub find : (A → Bool) → List A → Option A
  find p [] = none
  find p (x ∷ xs) = if p x then some x else find p xs

  -- xs[-1] if xs else None
  unfoldable pub last : List A → Option A
  last [] = none
  last (x ∷ []) = some x
  last (x ∷ y ∷ xs) = last (y ∷ xs)

  abbrev pub All {κ} : (A → Type κ) → List A → Type κ
  All P [] = Unit
  All P (x ∷ xs) = P x × All P xs

  pub length-append : (xs ys : List A) → length (xs ++ ys) ≡ length xs + length ys
  length-append [] ys = omega arith
  length-append (x ∷ xs) ys = omega (arith, length-append xs ys)

  pub last-append : (xs : List A) (x : A) → last (xs ++ x ∷ []) ≡ some x
  unfolding last
  last-append [] x = refl
  last-append (y ∷ []) x = refl
  last-append (y ∷ z ∷ xs) x = last-append (z ∷ xs) x

  pub any-append : (p : A → Bool) (xs ys : List A) → any p (xs ++ ys) ≡ (any p xs || any p ys)
  unfolding any
  any-append p [] ys = refl
  any-append p (x ∷ xs) ys = ground (arith, any-append p xs ys)

  pub filter-append :
      (p : A → Bool) (xs ys : List A) → filter p (xs ++ ys) ≡ filter p xs ++ filter p ys
  unfolding filter
  filter-append p [] ys = refl
  filter-append p (x ∷ xs) ys = ground (arith, filter-append p xs ys)

  pub any_of_mem : (p : A → Bool) {x : A} {xs : List A} → Memᴰ x xs → p x ≡ true → any p xs ≡ true
  unfolding any
  any_of_mem p {xs = []} m h = absurd (Memᴰ.not-nil m)
  any_of_mem p {xs = y ∷ ys} (Memᴰ.head e) h = rw (← e, h)
  any_of_mem p {xs = y ∷ ys} (Memᴰ.tail m) h = ground (arith, any_of_mem p m h)

  pub mem_of_any :
      (p : A → Bool) (xs : List A) → any p xs ≡ true → (x : A) × Memᴰ x xs × (p x ≡ true)
  unfolding any
  mem_of_any p [] h = absurd (ground arith)
  mem_of_any p (x ∷ xs) h = elim (Bool-cases (p x)) [
    | inl e ↦ (x, Memᴰ.head refl, e)
    | inr e ↦ let (y, m, q) = mem_of_any p xs (ground arith) in (y, Memᴰ.tail m, q)
  ]

  pub find-some :
      (p : A → Bool) (xs : List A) {x : A} → find p xs ≡ some x → Memᴰ x xs × (p x ≡ true)
  unfolding find
  find-some p [] h = absurd (ground arith)
  find-some p (y ∷ xs) {x} h = elim (Bool-cases (p y)) [
    | inl e ↦ (Memᴰ.head (ground arith), ground arith)
    | inr e ↦ let (m, q) = find-some p xs {x = x} (ground arith) in (Memᴰ.tail m, q)
  ]

  -- A search that finds nothing has no match to find, and the other way round.
  pub find-none : (p : A → Bool) (xs : List A) → any p xs ≡ false → find p xs ≡ none
  unfolding any find
  find-none p [] h = refl
  find-none p (x ∷ xs) h = ground (arith, find-none p xs)

  pub find-any : (p : A → Bool) (xs : List A) → any p xs ≡ true → (x : A) × (find p xs ≡ some x)
  unfolding any find
  find-any p [] h = absurd (ground arith)
  find-any p (x ∷ xs) h = elim (Bool-cases (p x)) [
    | inl e ↦ (x, rw e)
    | inr e ↦ let (y, q) = find-any p xs (ground arith) in (y, rw e q)
  ]

  pub mem-filter :
      (p : A → Bool) (x : A) (xs : List A) → Memᴰ x (filter p xs) ↔ (Memᴰ x xs × (p x ≡ true))
  unfolding filter
  mem-filter p x [] = (λ m. absurd (Memᴰ.not-nil m), λ h. absurd (Memᴰ.not-nil h.0))
  mem-filter p x (y ∷ ys) =
      let ih = mem-filter p x ys in
      elim (Bool-cases (p y)) [
        | inl e ↦ rw e (
          λ m. elim (Memᴰ.cases_cons m) [
            | inl q ↦ (Memᴰ.head q, rw q e)
            | inr m' ↦ (Memᴰ.tail (ih.0 m').0, (ih.0 m').1)
          ],
          λ h. elim (Memᴰ.cases_cons h.0) [
            | inl q ↦ Memᴰ.head q
            | inr m' ↦ Memᴰ.tail (ih.1 (m', h.1))
          ],
        )
        | inr e ↦ rw e (
          λ m. (Memᴰ.tail (ih.0 m).0, (ih.0 m).1),
          λ h. elim (Memᴰ.cases_cons h.0) [
            | inl q ↦ absurd (false≢true (rw (← e, ← q) h.1))
            | inr m' ↦ ih.1 (m', h.1)
          ],
        )
      ]

  -- A filtered list is empty exactly if nothing passes the test.
  pub filter-eq-nil :
      (p : A → Bool) (xs : List A) → (filter p xs ≡ []) ↔ ((x : A) → Memᴰ x xs → p x ≡ false)
  filter-eq-nil p xs = (
    λ e x m. elim (Bool-cases (p x)) [
      | inl h ↦ absurd (Memᴰ.not-nil (subst (Memᴰ x) e ((mem-filter p x xs).1 (m, h))))
      | inr h ↦ h
    ],
    λ h. elim (List-cases (filter p xs)) [
      | inl e ↦ e
      | inr (x, rest, e) ↦
          let (m, q) = (mem-filter p x xs).0 (subst (Memᴰ x) (sym e) (Memᴰ.head refl)) in
          absurd (false≢true (sym (h x m) ∙ q))
    ],
  )

  pub append-eq-nil : (xs ys : List A) → (xs ++ ys ≡ []) ↔ ((xs ≡ []) × (ys ≡ []))
  append-eq-nil [] ys = (λ e. (refl, e), λ h. h.1)
  append-eq-nil (x ∷ xs) ys = ground arith

  -- The first match is the head of all matches.
  pub find-filter :
      (p : A → Bool) (xs : List A) (y : A) (ys : List A) → filter p xs ≡ y ∷ ys → find p xs ≡ some y
  unfolding filter find
  find-filter p [] y ys h = absurd (ground arith)
  find-filter p (x ∷ xs) y ys h = ground (arith, find-filter p xs y ys)

pub append_assoc {ℓ} : {A : Type ℓ} (a b c : List A) → (a ++ b) ++ c ≡ a ++ (b ++ c)
append_assoc [] b c = refl
append_assoc (x ∷ a) b c = ap (λ r. x ∷ r) (append_assoc a b c)

pub append-nil {ℓ} : {A : Type ℓ} (a : List A) → a ++ [] ≡ a
append-nil [] = refl
append-nil (x ∷ a) = ap (λ r. x ∷ r) (append-nil a)
