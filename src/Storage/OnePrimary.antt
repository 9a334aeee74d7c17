-- ===== src/Storage/OnePrimary.antt =====
-- Sequences of calls of StorageService, and the primary connections of an organization.
use orchestract.Common.{
  ℕ, ◌≤◌, ◌≡◌, refl, sym, subst, inl, inr, true, none, some, List, [], ◌∷◌, arith, ◌==◌, Bool-cases,
  Option-cases, Text, Result, ok, err, Result-cases,
}
use orchestract.Session.Query.{scalar-count}
use orchestract.Session.{Table, IsLawful, select_where}
use orchestract.Storage.{
  StorageProvider, StorageConnection, Json, value, create, set_credential, mark_connected,
  unmark_primary, disconnect,
}
use orchestract.Storage.Service.{
  is_primary_of, get_primary_for_organization, get_by_org_and_provider, unmark_other, promote,
  set_primary, connect_bucket, disconnect_connection, connect_with, complete_oauth_connection,
  title, is_of_provider,
}
use orchestract.Storage.Primary.{id_of, with_id, primaries, promote-ok, set_primary-only}

-- The calls that write.
pub data Call : Type 0 where
  connect : ℕ → StorageProvider → Text → Json → Json → Call
  complete_oauth : ℕ → StorageProvider → Json → Call
  make_primary make_disconnected : ℕ → Call

module _ {S : Type 0} (t : Table S StorageConnection) where
  unfoldable pub call : Call → S → Result (StorageConnection × S)
  call (connect org provider name config credentials) =
      connect_bucket t org provider name config credentials
  call (complete_oauth org provider secrets) = complete_oauth_connection t org provider secrets
  call (make_primary n) = set_primary t n
  call (make_disconnected n) = disconnect_connection t n

  -- One call after the other; one that raises is rolled back.
  unfoldable pub serve : List Call → S → S
  serve [] s = s
  serve (c ∷ cs) s = serve cs (elim (call c s) [ ok (_, s') ↦ s' | err _ ↦ s ])

  module _ (laws : IsLawful t id_of with_id) where
    pub record OnePrimary (s : S) : Type 0 where
      pub at_most_one : (org : ℕ) → primaries t org s ≤ 1

    -- A promotion of a connection that is not stored yet leaves its organization without one.
    fresh_promoted :
        (c c' : StorageConnection) (s s' : S) (org : ℕ)
        → c.id ≡ none
        → promote t c s ≡ ok (c', s')
        → OnePrimary s
        → (primaries t c.organization_id s' ≡ 0) × (primaries t org s' ≤ 1)
    unfolding unmark_other unmark_primary get_primary_for_organization
    fresh_promoted c c' s s' org no_id e v =
        let (o, g, q, w, r) = promote-ok t laws c s c' s' e in
        elim (scalar-count (is_primary_of c.organization_id) (t.rows s) o g) [
          | inl (p, z) ↦ let stays : s' ≡ s = ground arith in ground (arith, v.at_most_one org)
          | inr (cur, p, one, m, is) ↦
              let (k, ki, kg) = laws.rows-get s cur m in
              let saved : s' ≡ t.save k (unmark_primary cur) s = ground arith in
              let counted =
                λ (x : ℕ). laws.count-save (is_primary_of x) k s cur (unmark_primary cur) kg ki in
              ground (arith, counted c.organization_id, counted org, v.at_most_one org)
        ]

    save_open :
        (n : ℕ) (s : S) (old c : StorageConnection) (org : ℕ)
        → t.get n s ≡ some old
        → c.id ≡ some n
        → (is_primary_of org c ≡ true → is_primary_of org old ≡ true)
        → primaries t org s ≤ 1
        → primaries t org (t.save n c s) ≤ 1
    save_open n s old c org h i f v =
        ground (arith, laws.count-save (is_primary_of org) n s old c h i)

    disconnect-OnePrimary :
        (n : ℕ) (s : S) (c : StorageConnection) (s' : S)
        → disconnect_connection t n s ≡ ok (c, s')
        → OnePrimary s
        → OnePrimary s'
    unfolding disconnect_connection disconnect
    disconnect-OnePrimary n s c s' e v = elim (Option-cases (t.get n s)) [
      | inl g ↦ absurd (ground arith)
      | inr (old, g) ↦
          let (_, i) = laws.get-rows n s old g in
          let saved : s' ≡ t.save n (disconnect old) s = ground arith in
          record {
            at_most_one = λ org.
                subst (λ u. primaries t org u ≤ 1) (sym saved)
                  (save_open n s old (disconnect old) org g i (λ h. ground arith)
                    (v.at_most_one org));
          }
    ]

    set_primary-OnePrimary :
        (n : ℕ) (s : S) (c : StorageConnection) (s' : S)
        → set_primary t n s ≡ ok (c, s')
        → OnePrimary s
        → OnePrimary s'
    set_primary-OnePrimary n s c s' e v =
        let (_, _, one, _, others) = set_primary-only t laws n s c s' e in
        record {
          at_most_one = λ org. elim (Bool-cases (org == c.organization_id)) [
            | inl same ↦ ground arith
            | inr other ↦ ground (arith, others org, v.at_most_one org)
          ];
        }

    -- The connection that `connect_bucket` makes.
    abbrev fresh : ℕ → StorageProvider → Text → Json → Json → StorageConnection
    fresh org provider name config credentials =
        mark_connected (set_credential credentials (create org provider name config))

    add-OnePrimary :
        (c d : StorageConnection) (s u s' : S) (n : ℕ)
        → c.id ≡ none
        → promote t c s ≡ ok (d, u)
        → t.add d u ≡ some (n, s')
        → OnePrimary s
        → OnePrimary s'
    add-OnePrimary c d s u s' n i f g v =
        let (_, _, q, _, _) = promote-ok t laws c s d u f in
        record {
          at_most_one = λ org.
              let (z, l) = fresh_promoted c d s u org i f v in
              let counted = laws.count-add (is_primary_of org) u s' d n g in
              elim (Bool-cases (org == c.organization_id)) [
                | inl same ↦ ground arith
                | inr other ↦ ground arith
              ];
        }

    connect-OnePrimary :
        (org : ℕ) (provider : StorageProvider) (name : Text) (config credentials : Json) (s : S)
        (c : StorageConnection) (s' : S)
        → connect_bucket t org provider name config credentials s ≡ ok (c, s')
        → OnePrimary s
        → OnePrimary s'
    unfolding connect_bucket mark_connected set_credential create
    connect-OnePrimary org provider name config credentials s c s' e v =
        elim (Result-cases (get_by_org_and_provider t org provider s)) [
          | inr (x, f) ↦ absurd (ground arith)
          | inl (some old, f) ↦ absurd (ground arith)
          | inl (none, f) ↦
              let new = fresh org provider name config credentials in
              elim (Result-cases (promote t new s)) [
                | inr (x, h) ↦ absurd (ground arith)
                | inl ((d, u), h) ↦ elim (Option-cases (t.add d u)) [
                  | inl g ↦ absurd (ground arith)
                  | inr ((n, w), g) ↦
                      let last : s' ≡ w = ground arith in
                      subst OnePrimary (sym last) (add-OnePrimary new d s u w n refl h g v)
                ]
              ]
        ]

    connect_with-OnePrimary :
        (secrets : Json) (n : ℕ) (old : StorageConnection) (s : S)
        → t.get n s ≡ some old
        → OnePrimary s
        → OnePrimary (connect_with t secrets n old s).1
    unfolding connect_with set_credential mark_connected
    connect_with-OnePrimary secrets n old s g v =
        let (_, i) = laws.get-rows n s old g in
        record {
          at_most_one = λ org.
              save_open n s old (mark_connected (set_credential secrets old)) org g i (λ h. h)
                (v.at_most_one org);
        }

    oauth-OnePrimary :
        (org : ℕ) (provider : StorageProvider) (secrets : Json) (s : S) (c : StorageConnection)
        (s' : S)
        → complete_oauth_connection t org provider secrets s ≡ ok (c, s')
        → OnePrimary s
        → OnePrimary s'
    unfolding complete_oauth_connection get_by_org_and_provider select_where create
    oauth-OnePrimary org provider secrets s c s' e v =
        elim (Result-cases (get_by_org_and_provider t org provider s)) [
          | inr (x, f) ↦ absurd (ground arith)
          | inl (none, f) ↦
              let new = create org provider (title (value provider)) [] in
              elim (Option-cases (t.add new s)) [
                | inl g ↦ absurd (ground arith)
                | inr ((n, u), g) ↦
                    let last : s' ≡ (connect_with t secrets n (record new { id = some n }) u).1 =
                      ground arith in
                    let added : OnePrimary u = record {
                      at_most_one = λ x.
                          ground
                            (arith, laws.count-add (is_primary_of x) s u new n g, v.at_most_one x);
                    } in
                    subst OnePrimary (sym last) (
                      connect_with-OnePrimary secrets n (record new { id = some n }) u
                        (laws.get-add s u new n g) added)
              ]
          | inl (some old, f) ↦
              elim (scalar-count (is_of_provider org provider) (t.rows s) (some old) f) [
                | inl (q, _) ↦ absurd (ground arith)
                | inr (a, q, _, m, _) ↦
                    let (n, i, g) = laws.rows-get s a m in
                    let same : old ≡ a = ground arith in
                    let last : s' ≡ (connect_with t secrets n old s).1 = ground arith in
                    subst OnePrimary (sym last) (
                      connect_with-OnePrimary secrets n old s
                        (subst (λ z. t.get n s ≡ some z) (sym same) g) v)
              ]
        ]

    call-OnePrimary :
        (r : Call) (s : S) (c : StorageConnection) (s' : S)
        → call r s ≡ ok (c, s')
        → OnePrimary s
        → OnePrimary s'
    unfolding call
    call-OnePrimary (connect org provider name config credentials) s c s' e v =
        connect-OnePrimary org provider name config credentials s c s' e v
    call-OnePrimary (complete_oauth org provider secrets) s c s' e v =
        oauth-OnePrimary org provider secrets s c s' e v
    call-OnePrimary (make_primary n) s c s' e v = set_primary-OnePrimary n s c s' e v
    call-OnePrimary (make_disconnected n) s c s' e v = disconnect-OnePrimary n s c s' e v

    -- Over a table of connections that obeys its laws, whatever calls of StorageService are served,
    -- one after the other, and whichever of them fail: if no organization has two primary
    -- connections before them, none has after them.
    pub serve-OnePrimary : (cs : List Call) (s : S) → OnePrimary s → OnePrimary (serve cs s)
    unfolding serve
    serve-OnePrimary [] s v = v
    serve-OnePrimary (r ∷ cs) s v = elim (Result-cases (call r s)) [
      | inl ((c, s'), e) ↦ rw e (serve-OnePrimary cs s' (call-OnePrimary r s c s' e v))
      | inr (x, e) ↦ rw e (serve-OnePrimary cs s v)
    ]
