-- ===== src/Services/Revocation.antt =====
-- What a created link shows, and what becomes of a revoked one.
use mathlib.Core.Path.{subst₂}
use orchestract.Common.{
  ℕ, ◌*◌, ◌≡◌, sym, ap, ◌∙◌, ◌↔◌, ◌⊎◌, inl, inr, Bool, true, false, ◌&&◌, Option, none, some, List,
  [], ◌∷◌, arith, Option-cases, any, filter, Text, text_eq_refl, ok, Result-cases,
}
use orchestract.Session.Query.{scalar-same}
use orchestract.Session.{IsLawful, select_where}
use orchestract.Passwords.{Bytes, Scrypt}
use orchestract.Sharing as Sharing
use orchestract.Sharing.{
  ShareScope, ShareLink, is_documents, issue, is_active, allows_document, member, revoke,
}
use orchestract.Sharing.Access.{allows_document-issue}
use orchestract.Documents.{Contract}
use orchestract.Services.{Store}
use orchestract.Services.Contracts.{get_contract}
use orchestract.Services.Sharing.{
  has_token, owns, kept_ids, create_link, revoke_link, get_by_token, get_active_link,
}

abbrev pub id_of_link : ShareLink → Option ℕ
id_of_link l = l.id

abbrev pub link_with_id : ℕ → ShareLink → ShareLink
link_with_id n l = record l { id = some n }

-- A test that holds of the items that a filter lets through.
member-filter : (p : ℕ → Bool) (n : ℕ) (ns : List ℕ) → member n (filter p ns) ≡ (p n && member n ns)
unfolding any filter
member-filter p n [] = ground arith
member-filter p n (m ∷ ns) = ground (arith, member-filter p n ns)

revoke-facts :
    (now later : ℕ) (l : ShareLink)
    → ((revoke now l).id ≡ l.id)
      × ((revoke now l).token ≡ l.token)
      × (is_active later (revoke now l) ≡ false)
unfolding revoke is_active
revoke-facts now later l = (ground arith, ground arith, ground arith)

module _ {S : Type 0} (store : Store S) where
  -- If `create_link` succeeds, its contract is stored, and the link shows a document exactly if it
  -- is for the whole contract, or the document is one of the contract's and was asked for.
  pub create_link-allows :
      (scrypt : Scrypt) (contract_id : ℕ) (scope : ShareScope) (allow_download : Bool) (hours : ℕ)
      (created_by : Text) (ids : List ℕ) (raw : Option Text) (salt : Bytes) (token : Text) (now : ℕ)
      (s s' : S) (l : ShareLink)
      → create_link store scrypt contract_id scope allow_download hours created_by ids raw salt
          token now s
        ≡ ok (l, s')
      → (c : Contract) × (store.contracts.get contract_id s ≡ some c)
        × ((n : ℕ)
            → (allows_document n l ≡ true)
              ↔ ((scope ≡ Sharing.contract) ⊎ ((owns c n && member n ids) ≡ true)))
  unfolding create_link kept_ids get_contract allows_document
  create_link-allows scrypt contract_id scope allow_download hours created_by ids raw salt token now
        s s' l h =
      elim (Option-cases (store.contracts.get contract_id s)) [
        | inl e ↦ absurd (ground arith)
        | inr (c, e) ↦
            elim (Result-cases (
              issue scrypt salt token now contract_id scope allow_download (3600 * hours) created_by
                (kept_ids scope c ids) raw)) [
                  | inr (x, f) ↦ absurd (ground arith)
                  | inl (new, f) ↦ elim (Option-cases (store.share_links.add new s)) [
                    | inl g ↦ absurd (ground arith)
                    | inr ((k, u), g) ↦ (
                      c,
                      e,
                      λ n. ground (
                        arith,
                        allows_document-issue scrypt salt token now contract_id scope allow_download
                            (3600 * hours) created_by (kept_ids scope c ids) raw new f n,
                        member-filter (owns c) n ids,
                      ),
                    )
                  ]
                ]
      ]

  -- Over a table of links that obeys its laws: in the state that a successful `revoke` leaves, a
  -- request with the token of the link gets no link, whatever the time.
  pub revoke_link-inactive :
      IsLawful store.share_links id_of_link link_with_id
      → (contract_id n now later : ℕ) (s s' : S) (l l' : ShareLink)
      → revoke_link store contract_id n now s ≡ ok (l, s')
      → ¬ (get_active_link store l.token later s' ≡ ok l')
  unfolding revoke_link get_active_link get_by_token select_where
  revoke_link-inactive laws contract_id n now later s s' l l' h k =
      elim (Option-cases (store.share_links.get n s)) [
        | inl e ↦ absurd (ground arith)
        | inr (old, e) ↦
            let (same_id, same_token, inactive) = revoke-facts now later old in
            let (_, i) = laws.get-rows n s old e in
            let last : s' ≡ store.share_links.save n (revoke now old) s = ground arith in
            let is_l : l ≡ revoke now old = ground arith in
            let there : store.share_links.get n s' ≡ some l =
              subst₂ (λ x y. store.share_links.get n x ≡ some y) (sym last) (sym is_l)
                (laws.get-save_self n s old (revoke now old) e (same_id ∙ i)) in
            let (m, _) = laws.get-rows n s' l there in
            elim (Result-cases (get_by_token store l.token s')) [
              | inr (x, f) ↦ absurd (ground arith)
              | inl (none, f) ↦ absurd (ground arith)
              | inl (some x, f) ↦
                  let same =
                    scalar-same (has_token l.token) (store.share_links.rows s') l x f m
                      (text_eq_refl l.token) in
                  let off : is_active later x ≡ false =
                    ap (is_active later) (sym same ∙ is_l) ∙ inactive in
                  absurd (ground arith)
            ]
      ]
