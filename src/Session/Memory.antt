-- ===== src/Session/Memory.antt =====
-- A table in memory, which shows that the laws can hold: the row at place n has the id n.
use mathlib.Core.List.Memᴰ
use orchestract.Common.{
  ℕ, zero, suc, ◌+◌, ◌≡◌, refl, ap, ◌≢◌, inl, inr, Bool, Option, none, some, List, [], ◌∷◌, ◌++◌,
  Memᴰ, arith, length,
}
use orchestract.Session.{Table, IsLawful, count, one_if}

module _ {A : Type 0} (id_of : A → Option ℕ) (with_id : ℕ → A → A) where
  get_from : ℕ → ℕ → List A → Option A
  get_from k n [] = none
  get_from k zero (a ∷ s) = some (with_id k a)
  get_from k (suc n) (a ∷ s) = get_from (suc k) n s

  rows_from : ℕ → List A → List A
  rows_from k [] = []
  rows_from k (a ∷ s) = with_id k a ∷ rows_from (suc k) s

  set : ℕ → A → List A → List A
  set n a [] = []
  set zero a (x ∷ s) = a ∷ s
  set (suc n) a (x ∷ s) = x ∷ set n a s

  unfoldable pub memory : Table (List A) A
  unfolding get_from rows_from set
  memory = record {
    get = get_from 0;
    rows = rows_from 0;
    add = λ a s. some (length s, s ++ a ∷ []);
    save = set;
  }

  module _ (id_of-with_id : (n : ℕ) (a : A) → id_of (with_id n a) ≡ some n)
      (with_id_self : (n : ℕ) (a : A) → id_of a ≡ some n → with_id n a ≡ a) where
    get_from-rows :
        (k n : ℕ) (s : List A) (a : A)
        → get_from k n s ≡ some a
        → Memᴰ a (rows_from k s) × (id_of a ≡ some (n + k))
    unfolding get_from rows_from
    get_from-rows k n [] a h = absurd (ground arith)
    get_from-rows k zero (x ∷ s) a h = (Memᴰ.head (ground arith), ground (arith, id_of-with_id k x))
    get_from-rows k (suc n) (x ∷ s) a h =
        let (m, e) = get_from-rows (suc k) n s a h in (Memᴰ.tail m, ground arith)

    rows_from-get :
        (k : ℕ) (s : List A) (a : A)
        → Memᴰ a (rows_from k s)
        → (n : ℕ) × (id_of a ≡ some (n + k)) × (get_from k n s ≡ some a)
    unfolding get_from rows_from
    rows_from-get k [] a m = absurd (Memᴰ.not-nil m)
    rows_from-get k (x ∷ s) a m = elim (Memᴰ.cases_cons m) [
      | inl e ↦ (0, ground (arith, id_of-with_id k x), ground arith)
      | inr m' ↦ let (n, e, g) = rows_from-get (suc k) s a m' in (suc n, ground arith, g)
    ]

    get_from-set_self :
        (k n : ℕ) (s : List A) (old a : A)
        → get_from k n s ≡ some old
        → id_of a ≡ some (n + k)
        → get_from k n (set n a s) ≡ some a
    unfolding get_from set
    get_from-set_self k n [] old a h e = absurd (ground arith)
    get_from-set_self k zero (x ∷ s) old a h e = ground (arith, with_id_self k a)
    get_from-set_self k (suc n) (x ∷ s) old a h e =
        get_from-set_self (suc k) n s old a h (ground arith)

    get_from-set_ne :
        (k n m : ℕ) (s : List A) (a : A) → n ≢ m → get_from k m (set n a s) ≡ get_from k m s
    unfolding get_from set
    get_from-set_ne k n m [] a h = refl
    get_from-set_ne k zero zero (x ∷ s) a h = absurd (h refl)
    get_from-set_ne k zero (suc m) (x ∷ s) a h = refl
    get_from-set_ne k (suc n) zero (x ∷ s) a h = refl
    get_from-set_ne k (suc n) (suc m) (x ∷ s) a h =
        get_from-set_ne (suc k) n m s a (λ e. h (ap suc e))

    count-set :
        (p : A → Bool) (k n : ℕ) (s : List A) (old a : A)
        → get_from k n s ≡ some old
        → id_of a ≡ some (n + k)
        → count p (rows_from k (set n a s)) + one_if (p old)
          ≡ count p (rows_from k s) + one_if (p a)
    unfolding get_from set rows_from count
    count-set p k n [] old a h e = absurd (ground arith)
    count-set p k zero (x ∷ s) old a h e = ground (arith, with_id_self k a)
    count-set p k (suc n) (x ∷ s) old a h e = ground (arith, count-set p (suc k) n s old a h)

    get_from-append :
        (k : ℕ) (s : List A) (a : A)
        → get_from k (length s) (s ++ a ∷ []) ≡ some (with_id (length s + k) a)
    unfolding get_from
    get_from-append k [] a = ground arith
    get_from-append k (x ∷ s) a = ground (arith, get_from-append (suc k) s a)

    get_from-length : (k : ℕ) (s : List A) → get_from k (length s) s ≡ none
    unfolding get_from
    get_from-length k [] = refl
    get_from-length k (x ∷ s) = get_from-length (suc k) s

    get_from-append_ne :
        (k m : ℕ) (s : List A) (a : A) → length s ≢ m → get_from k m (s ++ a ∷ []) ≡ get_from k m s
    unfolding get_from
    get_from-append_ne k zero [] a h = absurd (h refl)
    get_from-append_ne k (suc m) [] a h = refl
    get_from-append_ne k zero (x ∷ s) a h = refl
    get_from-append_ne k (suc m) (x ∷ s) a h = get_from-append_ne (suc k) m s a (λ e. h (ap suc e))

    count-append :
        (p : A → Bool) (k : ℕ) (s : List A) (a : A)
        → count p (rows_from k (s ++ a ∷ []))
          ≡ count p (rows_from k s) + one_if (p (with_id (length s + k) a))
    unfolding rows_from count
    count-append p k [] a = ground arith
    count-append p k (x ∷ s) a = ground (arith, count-append p (suc k) s a)

    pub memory-IsLawful : IsLawful memory id_of with_id
    unfolding memory
    memory-IsLawful = record {
      get-rows = λ n s a h. let (m, e) = get_from-rows 0 n s a h in (m, ground arith);
      rows-get = λ s a m. let (n, e, g) = rows_from-get 0 s a m in (n, ground arith, g);
      get-save_self = λ n s old a h e. get_from-set_self 0 n s old a h (ground arith);
      get-save_ne = λ n m s a h. get_from-set_ne 0 n m s a h;
      count-save = λ p n s old a h e. count-set p 0 n s old a h (ground arith);
      get-add = λ s s' a n h. ground (arith, get_from-append 0 s a);
      get-add_fresh = λ s s' a n h. ground (arith, get_from-length 0 s);
      get-add_ne =
          λ s s' a n m h ne. ground (arith, get_from-append_ne 0 m s a (λ e. ne (ground arith)));
      count-add = λ p s s' a n h. ground (arith, count-append p 0 s a);
    }
