-- ===== src/Services/Documents.antt =====
-- app/application/document_service.py. A document is stored with its contract, so it is found
-- through the table of contracts. `now` is the value of utcnow(). `upload` and `download` stand for
-- the adapter that build_file_storage gives for a connection, which calls the client library of the
-- provider, and `import_file` for import_external_file with the connector of a drive.
pub mod Files
use orchestract.Common.{
  ℕ, ◌+◌, Bool, false, ◌&&◌, ◌||◌, Option, none, some, List, [], ◌∷◌, ◌++◌, map, leb, ◌==◌,
  if◌then◌else◌, length, any, find, Text, text, is_empty, Result, ok, ◌>>=◌, or_raise, show_nat,
  not_found, document, contract, storage_connection, integrity_error, no_primary_storage_connection,
  strip_chars,
}
use orchestract.Documents.{Document, Contract, DocumentVersion, add_version, set_document_summary}
use orchestract.Storage.{StorageConnection, StorageProvider}
use orchestract.Storage.Service.{get_primary_for_organization}
use orchestract.Passwords.{Bytes}
use orchestract.Services.{Store}

-- The class [A-Za-z0-9_.-], which _UNSAFE_FILENAME_CHARS is the complement of.
unfoldable pub is_filename_char : ℕ → Bool
is_filename_char c =
    leb b'A' c && leb c b'Z'
    || leb b'a' c && leb c b'z'
    || leb b'0' c && leb c b'9'
    || c == b'_'
    || c == b'.'
    || c == b'-'

unfoldable pub safe_filename : Text → Text
unfolding is_filename_char strip_chars
safe_filename name =
    let stripped =
      strip_chars (λ c. c == b'_') (map (λ c. if is_filename_char c then c else b'_') name) in
    if is_empty stripped then text "file" else stripped

-- The prefix of a storage key, up to the name of the file.
unfoldable pub key_prefix : ℕ → ℕ → ℕ → ℕ → Text
key_prefix organization_id contract_id document_id version_no =
    text "org-"
    ++ show_nat organization_id
    ++ text "/contract-"
    ++ show_nat contract_id
    ++ text "/doc-"
    ++ show_nat document_id
    ++ text "/v"
    ++ show_nat version_no
    ++ text "-"

-- document.id == document_id
abbrev pub has_document_id : ℕ → Document → Bool
has_document_id n d = elim d.id [ none ↦ false | some m ↦ m == n ]

abbrev pub owns_document : ℕ → Contract → Bool
owns_document n c = any (has_document_id n) c.documents

-- The contract after one of its documents was changed.
unfoldable pub replace_document : ℕ → Document → List Document → List Document
replace_document n d [] = []
replace_document n d (x ∷ xs) =
    let rest = replace_document n d xs in if has_document_id n x then d ∷ rest else x ∷ rest

module _ {S : Type 0} (store : Store S) where
  -- uow.documents.get, with the contract of the document and its id.
  unfoldable pub find_document : ℕ → S → Option (ℕ × Contract × Document)
  find_document document_id s = elim (find (owns_document document_id) (store.contracts.rows s)) [
    | none ↦ none
    | some c ↦ elim c.id [
      | none ↦ none
      | some n ↦ elim (find (has_document_id document_id) c.documents) [
        | none ↦ none
        | some d ↦ some (n, c, d)
      ]
    ]
  ]

  -- DocumentService.get
  unfoldable pub get_document : ℕ → S → Result (ℕ × Contract × Document)
  unfolding find_document
  get_document document_id s =
      or_raise (find_document document_id s) (not_found document document_id)

  -- What a commit writes after a document of the contract was changed.
  unfoldable pub save_document : ℕ → ℕ → Document → Contract → S → S
  unfolding replace_document
  save_document n document_id d c s =
      store.contracts.save n (record c { documents = replace_document document_id d c.documents }) s

  -- DocumentService.set_summary
  unfoldable pub summarize : ℕ → Text → ℕ → S → Result (Document × S)
  unfolding save_document
  summarize document_id summary now s = do
    (n, c, d) ← get_document document_id s
    let d' = set_document_summary summary now d
    ok (d', save_document n document_id d' c s)

  -- The storage that the files of the organization go to, with its id.
  unfoldable pub primary_connection : ℕ → S → Result (ℕ × StorageConnection)
  primary_connection organization_id s = do
    primary ← get_primary_for_organization store.storage_connections organization_id s
    connection ← or_raise primary (no_primary_storage_connection organization_id)
    n ← or_raise connection.id integrity_error
    ok (n, connection)

  module _ (upload : StorageConnection → Text → Bytes → Text → S → Result S)
      (download : StorageConnection → Text → S → Result Bytes) where
    unfoldable pub download_version : DocumentVersion → S → Result Bytes
    download_version v s = do
      connection ←
          or_raise (store.storage_connections.get v.storage_connection_id s)
            (not_found storage_connection v.storage_connection_id)
      download connection v.storage_key s

    unfoldable pub upload_version :
        ℕ
        → Bytes
        → Text
        → Text
        → Text
        → Option Text
        → Option StorageProvider
        → Option Text
        → ℕ
        → S
        → Result (DocumentVersion × S)
    unfolding get_document safe_filename key_prefix save_document primary_connection
    upload_version document_id file_bytes filename content_type uploaded_by notes source_provider
          source_external_id now s =
        do
          (n, _, d) ← get_document document_id s
          c ← or_raise (store.contracts.get n s) (not_found contract n)
          (connection_id, connection) ← primary_connection c.organization_id s
          let key =
              key_prefix c.organization_id n document_id (d.current_version_no + 1)
              ++ safe_filename filename
          s' ← upload connection key file_bytes content_type s
          let (version, d') =
              add_version
                (record {
                  storage_connection_id = connection_id;
                  storage_key = key;
                  original_filename = filename;
                  content_type = content_type;
                  size_bytes = length file_bytes;
                  uploaded_by = uploaded_by;
                  notes = notes;
                  source_provider = source_provider;
                  source_external_id = source_external_id;
                })
                now d
          ok (version, save_document n document_id d' c s')

    unfoldable pub import_version_from_external :
        (StorageConnection → Text → S → Result (Bytes × Text × Text))
        → ℕ
        → ℕ
        → Text
        → Text
        → Option Text
        → ℕ
        → S
        → Result (DocumentVersion × S)
    unfolding upload_version
    import_version_from_external import_file document_id connection_id external_file_id uploaded_by
          notes now s =
        do
          connection ←
              or_raise (store.storage_connections.get connection_id s)
                (not_found storage_connection connection_id)
          (content, filename, content_type) ← import_file connection external_file_id s
          upload_version document_id content filename content_type uploaded_by notes
              (some connection.provider) (some external_file_id) now s
