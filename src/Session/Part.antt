-- ===== src/Session/Part.antt =====
-- A table that is one part of a larger state, as the tables of a database are.
use orchestract.Common.{ℕ, ◌+◌, ◌≡◌, ap, ◌∙◌, inl, inr, Option, none, some, arith, Option-cases}
use orchestract.Session.{Table, IsLawful, IsSeparate, count, one_if}

module _ {S T A : Type 0} (view : T → S) (put : S → T → T) (t : Table S A) where
  unfoldable pub part : Table T A
  part = record {
    get = λ n s. t.get n (view s);
    rows = λ s. t.rows (view s);
    add = λ a s. elim (t.add a (view s)) [ none ↦ none | some (n, u) ↦ some (n, put u s) ];
    save = λ n a s. put (t.save n a (view s)) s;
  }

  -- What adding a row to the part did to the part.
  added :
      (a : A) (s s' : T) (n : ℕ)
      → part.add a s ≡ some (n, s')
      → (u : S) × (t.add a (view s) ≡ some (n, u)) × (s' ≡ put u s)
  unfolding part
  added a s s' n h = elim (Option-cases (t.add a (view s))) [
    | inl e ↦ absurd (ground arith)
    | inr ((m, u), e) ↦ (u, ground arith, ground arith)
  ]

  module _ (view-put : (u : S) (s : T) → view (put u s) ≡ u) (id_of : A → Option ℕ)
      (with_id : ℕ → A → A) (laws : IsLawful t id_of with_id) where
    pub part-IsLawful : IsLawful part id_of with_id
    unfolding part
    part-IsLawful = record {
      get-rows = λ n s a h. laws.get-rows n (view s) a h;
      rows-get = λ s a m. laws.rows-get (view s) a m;
      get-save_self = λ n s old a h e.
          ap (t.get n) (view-put (t.save n a (view s)) s) ∙ laws.get-save_self n (view s) old a h e;
      get-save_ne = λ n m s a ne.
          ap (t.get m) (view-put (t.save n a (view s)) s) ∙ laws.get-save_ne n m (view s) a ne;
      count-save = λ p n s old a h e.
          ap (λ u. count p (t.rows u) + one_if (p old)) (view-put (t.save n a (view s)) s)
          ∙ laws.count-save p n (view s) old a h e;
      get-add = λ s s' a n h.
          let (u, e, q) = added a s s' n h in
          ap (λ x. t.get n (view x)) q
          ∙ ap (t.get n) (view-put u s)
          ∙ laws.get-add (view s) u a n e;
      get-add_fresh =
          λ s s' a n h. let (u, e, q) = added a s s' n h in laws.get-add_fresh (view s) u a n e;
      get-add_ne = λ s s' a n m h ne.
          let (u, e, q) = added a s s' n h in
          ap (λ x. t.get m (view x)) q
          ∙ ap (t.get m) (view-put u s)
          ∙ laws.get-add_ne (view s) u a n m e ne;
      count-add = λ p s s' a n h.
          let (u, e, q) = added a s s' n h in
          ap (λ x. count p (t.rows (view x))) q
          ∙ ap (λ x. count p (t.rows x)) (view-put u s)
          ∙ laws.count-add p (view s) u a n e;
    }

-- Two parts where a write to the first leaves the second alone.
module _ {S S' T A B : Type 0} (view : T → S) (put : S → T → T) (t : Table S A) (view' : T → S')
    (put' : S' → T → T) (t' : Table S' B)
    (apart : (u : S) (s : T) → view' (put u s) ≡ view' s) where
  pub part-IsSeparate : IsSeparate (part view put t) (part view' put' t')
  unfolding part
  part-IsSeparate = record {
    get-save = λ n m a s. ap (t'.get m) (apart (t.save n a (view s)) s);
    rows-save = λ n a s. ap t'.rows (apart (t.save n a (view s)) s);
    get-add = λ n m a s s' h.
        let (u, e, q) = added view put t a s s' n h in
        ap (λ x. t'.get m (view' x)) q ∙ ap (t'.get m) (apart u s);
    rows-add = λ n a s s' h.
        let (u, e, q) = added view put t a s s' n h in
        ap (λ x. t'.rows (view' x)) q ∙ ap t'.rows (apart u s);
  }
