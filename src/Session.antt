-- ===== src/Session.antt =====
-- What the repositories of app/infrastructure/db/repositories use of SQLAlchemy's session: one
-- table, with a state of its own. SQLAlchemy and the database are not of this repository, so a
-- table is a parameter of the services, and the laws are what they rely on.
-- A unit of work is a function from the state to a result with the new state: an exception rolls
-- back (UnitOfWork.__aexit__), so an error comes without a state.
pub mod Query
pub mod Log
pub mod Memory
pub mod Part
use orchestract.Common.{
  ℕ, ◌+◌, ◌≡◌, ◌≢◌, Bool, not, Option, none, some, List, [], ◌∷◌, Memᴰ, if◌then◌else◌, length,
  filter, Result, ok, err, multiple_results_found,
}

pub record Table (S A : Type 0) : Type 0 where
  -- session.get(Model, id)
  pub get : ℕ → S → Option A
  -- the rows that select(Model) goes through
  pub rows : S → List A
  -- session.add(object) and flush(): the id given, or none where a constraint is violated
  pub add : A → S → Option (ℕ × S)
  -- what a commit writes after the object of this id was changed to the given one
  pub save : ℕ → A → S → S

-- 1 if the row passes.
abbrev pub one_if : Bool → ℕ
one_if b = if b then 1 else 0

-- How many rows pass a test; it does not depend on their order.
unfoldable pub count {ℓ} : {A : Type ℓ} → (A → Bool) → List A → ℕ
unfolding filter
count p xs = length (filter p xs)

module _ {S A : Type 0} (t : Table S A) where
  open t use {get, rows, add, save}

  -- `id_of` reads the primary key of an object, and `with_id` is the object once it has one.
  pub record IsLawful (id_of : A → Option ℕ) (with_id : ℕ → A → A) : Type 0 where
    pub get-rows : (n : ℕ) (s : S) (a : A) → get n s ≡ some a → Memᴰ a (rows s) × (id_of a ≡ some n)
    pub rows-get :
        (s : S) (a : A) → Memᴰ a (rows s) → (n : ℕ) × (id_of a ≡ some n) × (get n s ≡ some a)
    pub get-save_self :
        (n : ℕ) (s : S) (old a : A)
        → get n s ≡ some old
        → id_of a ≡ some n
        → get n (save n a s) ≡ some a
    pub get-save_ne : (n m : ℕ) (s : S) (a : A) → n ≢ m → get m (save n a s) ≡ get m s
    pub count-save :
        (p : A → Bool) (n : ℕ) (s : S) (old a : A)
        → get n s ≡ some old
        → id_of a ≡ some n
        → count p (rows (save n a s)) + one_if (p old) ≡ count p (rows s) + one_if (p a)
    pub get-add :
        (s s' : S) (a : A) (n : ℕ) → add a s ≡ some (n, s') → get n s' ≡ some (with_id n a)
    pub get-add_fresh : (s s' : S) (a : A) (n : ℕ) → add a s ≡ some (n, s') → get n s ≡ none
    pub get-add_ne :
        (s s' : S) (a : A) (n m : ℕ) → add a s ≡ some (n, s') → n ≢ m → get m s' ≡ get m s
    pub count-add :
        (p : A → Bool) (s s' : S) (a : A) (n : ℕ)
        → add a s ≡ some (n, s')
        → count p (rows s') ≡ count p (rows s) + one_if (p (with_id n a))

-- The writes to one table leave another one as it is.
pub record IsSeparate {S A B : Type 0} (t : Table S A) (u : Table S B) : Type 0 where
  pub get-save : (n m : ℕ) (a : A) (s : S) → u.get m (t.save n a s) ≡ u.get m s
  pub rows-save : (n : ℕ) (a : A) (s : S) → u.rows (t.save n a s) ≡ u.rows s
  pub get-add : (n m : ℕ) (a : A) (s s' : S) → t.add a s ≡ some (n, s') → u.get m s' ≡ u.get m s
  pub rows-add : (n : ℕ) (a : A) (s s' : S) → t.add a s ≡ some (n, s') → u.rows s' ≡ u.rows s

-- result.scalar_one_or_none()
unfoldable pub scalar_one_or_none {ℓ} : {A : Type ℓ} → List A → Result (Option A)
scalar_one_or_none [] = ok none
scalar_one_or_none (a ∷ []) = ok (some a)
scalar_one_or_none (a ∷ b ∷ l) = err multiple_results_found

-- select(Model).where(p)
unfoldable pub select_where : {S A : Type 0} → Table S A → (A → Bool) → S → List A
select_where t p s = filter p (t.rows s)
