-- ===== src/Storage/Primary.antt =====
-- The primary connections of an organization, and `set_primary`.
use orchestract.Common.{
  ℕ, ◌≡◌, refl, sym, ap, ◌∙◌, subst, ◌≢◌, inl, inr, true, false, Option, some, arith, ◌==◌,
  Bool-cases, Option-cases, ok, Result-cases,
}
use orchestract.Session.Query.{scalar-count, zero-count}
use orchestract.Session.{Table, IsLawful, count, one_if}
use orchestract.Storage.{
  StorageConnection, is_read_only, is_write_capable, mark_primary, unmark_primary,
}
use orchestract.Storage.Service.{
  is_primary_of, get_primary_for_organization, unmark_other, promote, set_primary,
}

abbrev pub id_of : StorageConnection → Option ℕ
id_of c = c.id

abbrev pub with_id : ℕ → StorageConnection → StorageConnection
with_id n c = record c { id = some n }

module _ {S : Type 0} (t : Table S StorageConnection) where
  -- How many primary connections an organization has.
  abbrev pub primaries : ℕ → S → ℕ
  primaries org s = count (is_primary_of org) (t.rows s)

module _ {S : Type 0} (t : Table S StorageConnection) (laws : IsLawful t id_of with_id) where
  pub promote-ok :
      (c : StorageConnection) (s : S) (c' : StorageConnection) (s' : S)
      → promote t c s ≡ ok (c', s')
      → (o : Option StorageConnection) × (get_primary_for_organization t c.organization_id s ≡ ok o)
        × (c' ≡ record c { is_primary = true })
        × (is_read_only c.provider ≡ false)
        × (s' ≡ unmark_other t o c s)
  unfolding promote mark_primary is_write_capable
  promote-ok c s c' s' e =
      elim (Result-cases (get_primary_for_organization t c.organization_id s)) [
        | inr (x, g) ↦ absurd (ground arith)
        | inl (o, g) ↦ (o, g, ground arith, ground arith, ground arith)
      ]

  -- Without a primary connection no stored connection is one.
  not_primary :
      (n : ℕ) (s : S) (c : StorageConnection)
      → t.get n s ≡ some c
      → primaries t c.organization_id s ≡ 0
      → c.is_primary ≡ false
  not_primary n s c h z =
      let (m, _) = laws.get-rows n s c h in
      ground (arith, zero-count (is_primary_of c.organization_id) m z)

  record Unmarked (n : ℕ) (s : S) (c : StorageConnection) (s' : S) : Type 0 where
    stored : t.get n s' ≡ some c
    own : primaries t c.organization_id s' ≡ one_if c.is_primary
    others : (org : ℕ) → org ≢ c.organization_id → primaries t org s' ≡ primaries t org s

  save-Unmarked :
      (n m : ℕ) (s : S) (c cur : StorageConnection)
      → t.get n s ≡ some c
      → t.get m s ≡ some cur
      → cur.id ≡ some m
      → m ≢ n
      → is_primary_of c.organization_id cur ≡ true
      → primaries t c.organization_id s ≡ 1
      → Unmarked n s c (t.save m (unmark_primary cur) s)
  unfolding unmark_primary
  save-Unmarked n m s c cur h g i ne p one =
      let got = laws.get-save_ne m n s (unmark_primary cur) ne ∙ h in
      let counted =
        λ (org : ℕ). laws.count-save (is_primary_of org) m s cur (unmark_primary cur) g i in
      let none_left : primaries t c.organization_id (t.save m (unmark_primary cur) s) ≡ 0 =
        ground (arith, counted c.organization_id) in
      record {
        stored = got;
        own = ground (arith, not_primary n (t.save m (unmark_primary cur) s) c got none_left);
        others = λ org other. ground (arith, counted org);
      }

  unmark_other-Unmarked :
      (n : ℕ) (s : S) (c : StorageConnection) (o : Option StorageConnection)
      → t.get n s ≡ some c
      → get_primary_for_organization t c.organization_id s ≡ ok o
      → Unmarked n s c (unmark_other t o c s)
  unfolding get_primary_for_organization unmark_other
  unmark_other-Unmarked n s c o h e =
      let (cm, ci) = laws.get-rows n s c h in
      elim (scalar-count (is_primary_of c.organization_id) (t.rows s) o e) [
        | inl (q, z) ↦ rw q (record {
          stored = h;
          own = ground (arith, not_primary n s c h z);
          others = λ org other. refl;
        })
        | inr (cur, q, one, m, p) ↦
            let (k, ki, kg) = laws.rows-get s cur m in
            elim (Bool-cases (k == n)) [
              | inl same ↦
                  let is_c : cur ≡ c = ground (arith) in
                  let stays : unmark_other t o c s ≡ s = ground (arith) in
                  subst (Unmarked n s c) (sym stays)
                    (record { stored = h; own = ground arith; others = λ org other. refl })
              | inr differ ↦
                  let saved : unmark_other t o c s ≡ t.save k (unmark_primary cur) s =
                    ground arith in
                  subst (Unmarked n s c) (sym saved)
                    (save-Unmarked n k s c cur h kg ki (ground arith) p one)
            ]
      ]

  -- What a promotion and the save after it have done.
  record Promoted (n : ℕ) (s : S) (c : StorageConnection) (t' : S) : Type 0 where
    stored : t.get n t' ≡ some (record c { is_primary = true })
    own : primaries t c.organization_id t' ≡ 1
    others : (org : ℕ) → org ≢ c.organization_id → primaries t org t' ≡ primaries t org s
    writable : is_read_only c.provider ≡ false

  promote-Promoted :
      (n : ℕ) (s : S) (c c' : StorageConnection) (s' : S)
      → t.get n s ≡ some c
      → promote t c s ≡ ok (c', s')
      → Promoted n s c (t.save n c' s')
  promote-Promoted n s c c' s' h e =
      let (o, g, q, w, r) = promote-ok c s c' s' e in
      let u : Unmarked n s c s' =
        subst (Unmarked n s c) (sym r) (unmark_other-Unmarked n s c o h g) in
      let (_, i) = laws.get-rows n s c h in
      let i' : c'.id ≡ some n = ground arith in
      let counted = λ (org : ℕ). laws.count-save (is_primary_of org) n s' c c' u.stored i' in
      record {
        stored = laws.get-save_self n s' c c' u.stored i' ∙ ap some q;
        own = ground (arith, counted c.organization_id, u.own);
        others = λ org other. ground (arith, counted org, u.others org other);
        writable = w;
      }

  -- Over a table of connections that obeys its laws: if `set_primary` succeeds, the connection is
  -- stored as primary, it is the only primary one of its organization and not of a read-only
  -- provider, and every other organization has as many primary connections as before.
  pub set_primary-only :
      (n : ℕ) (s : S) (c' : StorageConnection) (s' : S)
      → set_primary t n s ≡ ok (c', s')
      → (t.get n s' ≡ some c')
        × (c'.is_primary ≡ true)
        × (primaries t c'.organization_id s' ≡ 1)
        × (is_read_only c'.provider ≡ false)
        × ((org : ℕ) → org ≢ c'.organization_id → primaries t org s' ≡ primaries t org s)
  unfolding set_primary
  set_primary-only n s c' s' e = elim (Option-cases (t.get n s)) [
    | inl g ↦ absurd (ground arith)
    | inr (c, g) ↦ elim (Result-cases (promote t c s)) [
      | inr (x, f) ↦ absurd (ground arith)
      | inl ((d, s''), f) ↦
          let done = promote-Promoted n s c d s'' g f in
          let (_, _, q, _, _) = promote-ok c s d s'' f in
          let saved : s' ≡ t.save n d s'' = ground arith in
          let same : c' ≡ record c { is_primary = true } = ground arith in
          (
            subst (λ u. t.get n u ≡ some c') (sym saved) (done.stored ∙ ap some (sym same)),
            ground arith,
            ground (arith, done.own),
            ground (arith, done.writable),
            λ org other. ground (arith, done.others org),
          )
    ]
  ]
