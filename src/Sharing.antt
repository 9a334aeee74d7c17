-- ===== src/Sharing.antt =====
-- app/domain/sharing/models.py: links that let an outsider see documents of a contract. Times are
-- seconds, `now` is the value of utcnow(), and `token` that of secrets.token_urlsafe(32).
pub mod Access
mod Examples
use orchestract.Common.{
  ◌>>◌, ℕ, ◌+◌, Bool, true, false, not, ◌&&◌, Option, none, some, List, [], ◌∷◌, ltb, ◌==◌,
  if◌then◌else◌, any, filter, Text, text, is_empty, Result, ok, raise_if, no_shared_documents,
}
use orchestract.Passwords
use orchestract.Passwords.{Bytes, Scrypt, hash_password}

pub data ShareScope : Type 0 where
  contract documents : ShareScope

-- The rows of ShareLinkDocument are the document ids that they name.
pub record ShareLink : Type 0 where
  pub id : Option ℕ
  pub contract_id : ℕ
  pub token : Text
  pub scope : ShareScope
  pub password_hash : Option Text
  pub allow_download : Bool
  pub created_by : Text
  pub expires_at : ℕ
  pub revoked_at : Option ℕ
  pub last_accessed_at : Option ℕ
  pub document_ids : List ℕ

abbrev pub member : ℕ → List ℕ → Bool
member n = any (λ m. m == n)

-- list(dict.fromkeys(ids)): each id once, at its first place
unfoldable pub unique : List ℕ → List ℕ
unique [] = []
unique (n ∷ ns) = n ∷ filter (λ m. not (m == n)) (unique ns)

abbrev pub is_documents : ShareScope → Bool
is_documents contract = false
is_documents documents = true

-- not ids
abbrev pub no_ids : List ℕ → Bool
no_ids [] = true
no_ids (_ ∷ _) = false

-- `raw_password` is none for Python's None; the empty text sets no password either.
unfoldable pub hash_of : Scrypt → Bytes → Option Text → Option Text
hash_of scrypt salt none = none
hash_of scrypt salt (some raw) = if is_empty raw then none else some (hash_password scrypt salt raw)

-- ShareLink.issue
unfoldable pub issue :
    Scrypt
    → Bytes
    → Text
    → ℕ
    → ℕ
    → ShareScope
    → Bool
    → ℕ
    → Text
    → List ℕ
    → Option Text
    → Result ShareLink
unfolding unique hash_of
issue scrypt salt token now contract_id scope allow_download ttl created_by document_ids
      raw_password =
    let ids = unique document_ids in
    do
      raise_if (is_documents scope && no_ids ids) no_shared_documents
      ok (record {
        id = none;
        contract_id = contract_id;
        token = token;
        scope = scope;
        password_hash = hash_of scrypt salt raw_password;
        allow_download = allow_download;
        created_by = created_by;
        expires_at = now + ttl;
        revoked_at = none;
        last_accessed_at = none;
        document_ids = if is_documents scope then ids else [];
      })

abbrev pub has_password : ShareLink → Bool
has_password l = elim l.password_hash [ none ↦ false | some _ ↦ true ]

unfoldable pub is_active : ℕ → ShareLink → Bool
is_active now l = elim l.revoked_at [ none ↦ true | some _ ↦ false ] && ltb now l.expires_at

unfoldable pub verify_password : Scrypt → Text → ShareLink → Bool
verify_password scrypt raw_password l = elim l.password_hash [
  | none ↦ true
  | some encoded ↦ Passwords.verify_password scrypt raw_password encoded
]

-- None stands for every document of the contract.
unfoldable pub allowed_document_ids : ShareLink → Option (List ℕ)
allowed_document_ids l = if is_documents l.scope then some l.document_ids else none

unfoldable pub allows_document : ℕ → ShareLink → Bool
unfolding allowed_document_ids
allows_document document_id l = elim (allowed_document_ids l) [
  | none ↦ true
  | some ids ↦ member document_id ids
]

unfoldable pub revoke : ℕ → ShareLink → ShareLink
revoke now l = elim l.revoked_at [ none ↦ record l { revoked_at = some now } | some _ ↦ l ]

unfoldable pub record_access : ℕ → ShareLink → ShareLink
record_access now l = record l { last_accessed_at = some now }
