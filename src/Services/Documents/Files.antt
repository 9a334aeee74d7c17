-- ===== src/Services/Documents/Files.antt =====
-- The names of stored files, and what comes back from the storage.
use orchestract.Common.{
  length, refl, ok-injective, ◌+◌, ◌++◌, ℕ, ◌≡◌, refl, inl, inr, Bool, true, false, ◌&&◌, [], ◌∷◌,
  map, ◌==◌, if◌then◌else◌, Bool-cases, All, Text, text, is_empty, strip_left, strip_right,
  strip_chars, Option, some, Result, ok, ◌∙◌, arith, sym, bind-ok, ap, subst, bound, or_raise,
  not_found, contract, no_primary_storage_connection, integrity_error, or_raise-ok,
}
use orchestract.Session.Query.{scalar-count}
use orchestract.Storage.Service.{get_primary_for_organization, is_primary_of}
use orchestract.Passwords.{Bytes}
use orchestract.Services.{Store}
use orchestract.Storage.{StorageConnection}
use orchestract.Documents.{Upload, add_version, DocumentVersion, Document, Contract}
use orchestract.Session.{IsLawful, IsSeparate, select_where}
use orchestract.Services.Documents.{
  primary_connection, replace_document, is_filename_char, safe_filename, download_version,
  upload_version, save_document, StorageProvider, get_document, key_prefix,
}

shown : ℕ → ℕ
shown c = if is_filename_char c then c else b'_'

is_underscore : ℕ → Bool
is_underscore c = c == b'_'

-- Every character is one that a stored file's name may have.
abbrev pub AllSafe : Text → Type 0
AllSafe = All (λ c. is_filename_char c ≡ true)

underscore-is_filename_char : is_filename_char b'_' ≡ true
unfolding is_filename_char
underscore-is_filename_char = refl

file-safe : AllSafe (text "file")
unfolding is_filename_char
file-safe = (refl, (refl, (refl, (refl, tt))))

shown-is_filename_char : (c : ℕ) → is_filename_char (shown c) ≡ true
unfolding shown
shown-is_filename_char c = elim (Bool-cases (is_filename_char c)) [
  | inl e ↦ rw e e
  | inr e ↦ rw e (underscore-is_filename_char)
]

AllSafe-shown : (s : Text) → AllSafe (map shown s)
AllSafe-shown [] = tt
AllSafe-shown (c ∷ s) = (shown-is_filename_char c, AllSafe-shown s)

AllSafe-strip_right : (p : ℕ → Bool) (s : Text) → AllSafe s → AllSafe (strip_right p s)
unfolding strip_right
AllSafe-strip_right p [] h = tt
AllSafe-strip_right p (c ∷ s) h = elim (Bool-cases (p c && is_empty (strip_right p s))) [
  | inl e ↦ rw e tt
  | inr e ↦ rw e (h.0, AllSafe-strip_right p s h.1)
]

AllSafe-strip_left : (p : ℕ → Bool) (s : Text) → AllSafe s → AllSafe (strip_left p s)
unfolding strip_left
AllSafe-strip_left p [] h = tt
AllSafe-strip_left p (c ∷ s) h = elim (Bool-cases (p c)) [
  | inl e ↦ rw e (AllSafe-strip_left p s h.1)
  | inr e ↦ rw e h
]

-- The name under which a file is stored is never empty, and has only letters, digits, `_`, `.` and
-- `-`, so no separator of paths.
pub safe_filename-safe :
    (name : Text)
    → (is_empty (safe_filename name) ≡ false)
      × All (λ c. is_filename_char c ≡ true) (safe_filename name)
unfolding safe_filename strip_chars shown is_underscore
safe_filename-safe name =
    let stripped = strip_right is_underscore (strip_left is_underscore (map shown name)) in
    elim (Bool-cases (is_empty stripped)) [
      | inl e ↦ rw e (refl, file-safe)
      | inr e ↦ rw e (
        e,
        AllSafe-strip_right is_underscore (strip_left is_underscore (map shown name))
            (AllSafe-strip_left is_underscore (map shown name) (AllSafe-shown name)),
      )
    ]

id_of_connection : StorageConnection → Option ℕ
id_of_connection c = c.id

connection_with_id : ℕ → StorageConnection → StorageConnection
connection_with_id n c = record c { id = some n }

-- What `upload_version` records.
sent_upload :
    ℕ
    → Bytes
    → Text
    → Text
    → Text
    → Option Text
    → Option StorageProvider
    → Option Text
    → ℕ
    → ℕ
    → Document
    → ℕ
    → Upload
sent_upload document_id file filename content_type by notes provider external_id org n d
      connection_id =
    record {
      storage_connection_id = connection_id;
      storage_key =
          key_prefix org n document_id (d.current_version_no + 1) ++ safe_filename filename;
      original_filename = filename;
      content_type = content_type;
      size_bytes = length file;
      uploaded_by = by;
      notes = notes;
      source_provider = provider;
      source_external_id = external_id;
    }

module _ {S : Type 0} (store : Store S)
    (upload : StorageConnection → Text → Bytes → Text → S → Result S)
    (download : StorageConnection → Text → S → Result Bytes) where
  -- A storage gives back what was put under a key, and is not part of the database.
  pub record IsLawfulFiles : Type 0 where
    pub connections :
        IsLawful store.storage_connections (λ c. c.id) (λ n c. record c { id = some n })
    pub contract_write : IsSeparate store.contracts store.storage_connections
    pub upload_connections :
        (c : StorageConnection) (key : Text) (file : Bytes) (content_type : Text) (s s' : S)
        → upload c key file content_type s ≡ ok s'
        → (n : ℕ) → store.storage_connections.get n s' ≡ store.storage_connections.get n s
    pub download-upload :
        (c : StorageConnection) (key : Text) (file : Bytes) (content_type : Text) (s s' : S)
        → upload c key file content_type s ≡ ok s'
        → download c key s' ≡ ok file
    pub contract_files :
        (c : StorageConnection) (key : Text) (n : ℕ) (x : Contract) (s : S)
        → download c key (store.contracts.save n x s) ≡ download c key s

  module _ (laws : IsLawfulFiles) where
    primary-stored :
        (org : ℕ) (s : S) (c : StorageConnection) (n : ℕ)
        → get_primary_for_organization store.storage_connections org s ≡ ok (some c)
        → c.id ≡ some n
        → store.storage_connections.get n s ≡ some c
    unfolding get_primary_for_organization select_where
    primary-stored org s c n h i =
        elim (scalar-count (is_primary_of org) (store.storage_connections.rows s) (some c) h) [
          | inl (z, q) ↦ absurd (ground arith)
          | inr (x, is_x, one, m, p) ↦
              let (k, j, stored) = laws.connections.rows-get s x m in
              let same : x ≡ c = ground arith in
              let numbers = sym j ∙ ap (λ y. y.id) same ∙ i in
              let same_key : k ≡ n = ground (arith, numbers) in
              subst (λ y. store.storage_connections.get y s ≡ some c) same_key
                (stored ∙ ap some same)
        ]

    primary_connection-stored :
        (org : ℕ) (s : S) (c : StorageConnection) (n : ℕ)
        → primary_connection store org s ≡ ok (n, c)
        → store.storage_connections.get n s ≡ some c
    unfolding primary_connection
    primary_connection-stored org s c n h =
        elim (bind-ok (get_primary_for_organization store.storage_connections org s) _ h) [
          | bound primary e₀ h₀ ↦
              elim (bind-ok (or_raise primary (no_primary_storage_connection org)) _ h₀) [
                | bound x e₁ h₁ ↦ elim (bind-ok (or_raise x.id integrity_error) _ h₁) [
                  | bound m e₂ h₂ ↦
                      subst (λ y. store.storage_connections.get y.0 s ≡ some y.1) (ok-injective h₂)
                        (primary-stored org s x m (e₀ ∙ ap ok (or_raise-ok _ _ e₁))
                          (or_raise-ok _ _ e₂))
                ]
              ]
        ]

    saved-download :
        (c : StorageConnection) (connection_id n document_id : ℕ) (v : DocumentVersion)
        (d : Document) (x : Contract) (file : Bytes) (content_type : Text) (s s' : S)
        → store.storage_connections.get connection_id s ≡ some c
        → v.storage_connection_id ≡ connection_id
        → upload c v.storage_key file content_type s ≡ ok s'
        → download_version store upload download v (save_document store n document_id d x s')
          ≡ ok file
    unfolding download_version save_document
    saved-download c connection_id n document_id v d x file content_type s s' g same sent =
        let y = record x { documents = replace_document document_id d x.documents } in
        let found =
          laws.contract_write.get-save n connection_id y s'
          ∙ laws.upload_connections c v.storage_key file content_type s s' sent connection_id
          ∙ g in
        let back =
          laws.contract_files c v.storage_key n y s'
          ∙ laws.download-upload c v.storage_key file content_type s s' sent in
        rw same (ground (arith, found, back))

    -- Over a database and a storage that obey their laws: what a successful `upload_version` stores,
    -- `download_version` gives back for the version that it returned.
    pub download_version-upload_version :
        (document_id : ℕ) (file : Bytes) (filename content_type by : Text) (notes : Option Text)
        (provider : Option StorageProvider) (external_id : Option Text) (now : ℕ) (s s' : S)
        (v : DocumentVersion)
        → upload_version store upload download document_id file filename content_type by notes
            provider external_id now s
          ≡ ok (v, s')
        → download_version store upload download v s' ≡ ok file
    unfolding upload_version add_version sent_upload
    download_version-upload_version document_id file filename content_type by notes provider
          external_id now s s' v h =
        let sent =
          sent_upload document_id file filename content_type by notes provider external_id in
        elim (bind-ok (get_document store document_id s) _ h) [
          | bound (n, x, d) e₀ h₀ ↦
              elim (bind-ok (or_raise (store.contracts.get n s) (not_found contract n)) _ h₀) [
                | bound c e₁ h₁ ↦
                    elim (bind-ok (primary_connection store c.organization_id s) _ h₁) [
                      | bound (connection_id, connection) e₂ h₂ ↦
                          let u = sent c.organization_id n d connection_id in
                          elim (bind-ok (upload connection u.storage_key file content_type s) _
                            h₂) [
                              | bound s₁ e₃ h₃ ↦
                                  let (version, d') = add_version u now d in
                                  subst
                                    (λ y. download_version store upload download y.0 y.1 ≡ ok file)
                                    (ok-injective h₃)
                                    (saved-download connection connection_id n document_id version
                                      d' c file content_type s s₁
                                      (primary_connection-stored c.organization_id s connection
                                        connection_id e₂)
                                      refl e₃)
                            ]
                    ]
              ]
        ]
