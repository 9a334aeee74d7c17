-- ===== src/Session/Log.antt =====
-- A table whose rows are only added, found and deleted: sessions, mailed tokens and consents.
use orchestract.Common.{
  ◌+◌, ◌≡◌, refl, sym, ap, ◌∙◌, subst, Bool, not, ◌&&◌, Option, some, List, [], ◌∷◌, Memᴰ, arith,
  filter,
}
use orchestract.Session.{count, one_if}

pub record Log (S A : Type 0) : Type 0 where
  pub rows : S → List A
  -- session.add(object) and flush(); none where a constraint is violated
  pub add : A → S → Option S
  -- delete(Model).where(p)
  pub delete : (A → Bool) → S → S

module _ {S A : Type 0} (t : Log S A) where
  open t use {rows, add, delete}

  pub record IsLawfulLog : Type 0 where
    pub mem-add : (s s' : S) (a : A) → add a s ≡ some s' → Memᴰ a (rows s')
    pub count-add :
        (p : A → Bool) (s s' : S) (a : A)
        → add a s ≡ some s'
        → count p (rows s') ≡ count p (rows s) + one_if (p a)
    pub count-delete :
        (p q : A → Bool) (s : S)
        → count p (rows (delete q s)) ≡ count (λ a. p a && not (q a)) (rows s)

module _ {S A : Type 0} (view : S → List A) (put : List A → S → S) where
  -- A list of the state, to which rows are added in front.
  unfoldable pub log : Log S A
  log = record {
    rows = view;
    add = λ a s. some (put (a ∷ view s) s);
    delete = λ q s. put (filter (λ a. not (q a)) (view s)) s;
  }

  count-filter :
      (p q : A → Bool) (xs : List A)
      → count p (filter (λ a. not (q a)) xs) ≡ count (λ a. p a && not (q a)) xs
  unfolding count filter
  count-filter p q [] = refl
  count-filter p q (x ∷ xs) = ground (arith, count-filter p q xs)

  pub log-IsLawfulLog : ((l : List A) (s : S) → view (put l s) ≡ l) → IsLawfulLog log
  unfolding log count filter
  log-IsLawfulLog h = record {
    mem-add = λ s s' a e.
        subst (Memᴰ a)
          (sym (ap view (let q : s' ≡ put (a ∷ view s) s = ground arith in q) ∙ h (a ∷ view s) s))
          (Memᴰ.head refl);
    count-add = λ p s s' a e.
        let q : s' ≡ put (a ∷ view s) s = ground arith in
        ap (λ x. count p (view x)) q ∙ ap (count p) (h (a ∷ view s) s) ∙ ground arith;
    count-delete =
        λ p q s. ap (count p) (h (filter (λ a. not (q a)) (view s)) s) ∙ count-filter p q (view s);
  }
