-- ===== src/Services/Sharing.antt =====
-- app/application/sharing_service.py, with the query get_by_token of
-- app/infrastructure/db/repositories/share_links.py. The bytes of a shared file come from the
-- storage backend, so get_shared_version stops at the document.
use orchestract.Common.{
  ℕ, ◌*◌, Bool, true, false, not, Option, none, some, List, [], ◌==◌, if◌then◌else◌, any, filter,
  Text, text_eq, Result, ok, err, ◌>>=◌, ◌>>◌, raise_if, or_raise, not_found, share_link,
  integrity_error, share_link_not_active,
}
use orchestract.Session.{select_where, scalar_one_or_none}
use orchestract.Passwords.{Bytes, Scrypt}
use orchestract.Sharing.{
  ShareScope, ShareLink, is_documents, issue, is_active, allowed_document_ids, member, revoke,
  record_access,
}
use orchestract.Documents.{Contract, Document}
use orchestract.Services.{Store}
use orchestract.Services.Contracts.{get_contract}

abbrev pub has_token : Text → ShareLink → Bool
has_token token l = text_eq l.token token

-- n in {d.id for d in contract.documents}
abbrev pub owns : Contract → ℕ → Bool
owns c n = any (λ d. elim d.id [ none ↦ false | some m ↦ m == n ]) c.documents

-- The ids that `create_link` keeps; None is the empty list, as `issue` takes it.
unfoldable pub kept_ids : ShareScope → Contract → List ℕ → List ℕ
kept_ids scope c document_ids = if is_documents scope then filter (owns c) document_ids else []

module _ {S : Type 0} (store : Store S) (scrypt : Scrypt) where
  -- `salt`, `token` and `now` are what the operating system gives.
  unfoldable pub create_link :
      ℕ
      → ShareScope
      → Bool
      → ℕ
      → Text
      → List ℕ
      → Option Text
      → Bytes
      → Text
      → ℕ
      → S
      → Result (ShareLink × S)
  unfolding kept_ids
  create_link contract_id scope allow_download expires_in_hours created_by document_ids raw_password
        salt token now s =
      do
        c ← get_contract store contract_id s
        l ←
            issue scrypt salt token now contract_id scope allow_download (3600 * expires_in_hours)
              created_by (kept_ids scope c document_ids) raw_password
        (n, s') ← or_raise (store.share_links.add l s) integrity_error
        ok (record l { id = some n }, s')

module _ {S : Type 0} (store : Store S) where
  -- SharingService.revoke
  unfoldable pub revoke_link : ℕ → ℕ → ℕ → S → Result (ShareLink × S)
  revoke_link contract_id link_id now s = do
    l ← or_raise (store.share_links.get link_id s) (not_found share_link link_id)
    raise_if (not (l.contract_id == contract_id)) (not_found share_link link_id)
    ok (revoke now l, store.share_links.save link_id (revoke now l) s)

  unfoldable pub get_by_token : Text → S → Result (Option ShareLink)
  get_by_token token s = scalar_one_or_none (select_where store.share_links (has_token token) s)

  unfoldable pub get_active_link : Text → ℕ → S → Result ShareLink
  get_active_link token now s = do
    found ← get_by_token token s
    l ← or_raise found share_link_not_active
    raise_if (not (is_active now l)) share_link_not_active
    ok l

  unfoldable pub mark_accessed : Text → ℕ → S → Result S
  mark_accessed token now s = do
    found ← get_by_token token s
    elim found [
      | none ↦ ok s
      | some l ↦ elim l.id [
        | none ↦ err integrity_error
        | some n ↦ ok (store.share_links.save n (record_access now l) s)
      ]
    ]

  -- allowed is None or d.id in allowed
  abbrev is_shown : ShareLink → Document → Bool
  is_shown l d = elim (allowed_document_ids l) [
    | none ↦ true
    | some ids ↦ elim d.id [ none ↦ false | some n ↦ member n ids ]
  ]

  unfoldable pub resolve_shared_documents : ShareLink → S → Result (Contract × List Document)
  resolve_shared_documents l s = do
    c ← get_contract store l.contract_id s
    ok (c, filter (is_shown l) c.documents)
