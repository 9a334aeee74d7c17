-- ===== src/Services/FileExamples.antt =====
-- A file of a contract, in the database in memory with a storage beside it.
use orchestract.Common.{
  ◌≡◌, refl, ap, ◌∙◌, true, false, none, some, List, [], ◌∷◌, arith, if◌then◌else◌, any, filter,
  find, All, Text, text, text_eq, text_eq_refl, is_empty, Result, ok, err, show_nat,
  integrity_error,
}
use orchestract.Storage.Service.{get_primary_for_organization}
use orchestract.Session.{IsLawful, IsSeparate}
use orchestract.Passwords.{Bytes}
use orchestract.Storage.{StorageConnection, local, connected}
use orchestract.Documents.{Document, DocumentVersion, Contract, add_version}
use orchestract.Session.Part.{part-IsLawful, part-IsSeparate, part}
use orchestract.Session.Memory.{memory-IsLawful, memory}
use orchestract.Services.Documents.{
  upload_version, download_version, is_filename_char, safe_filename,
}
use orchestract.Services.Documents.Files.{
  IsLawfulFiles, download_version-upload_version, safe_filename-safe,
}
use orchestract.Services.Db.{Db, empty_db, db_store}

safe_filename-safe_example :
    (is_empty (safe_filename (text "../a b.pdf")) ≡ false)
    × All (λ c. is_filename_char c ≡ true) (safe_filename (text "../a b.pdf"))
safe_filename-safe_example = safe_filename-safe (text "../a b.pdf")

abbrev pub lease_file : Contract
lease_file = record {
  id = some 0;
  organization_id = 0;
  title = text "Lease";
  description = none;
  contract_type = text "rent";
  summary = none;
  summary_generated_at = none;
  ai_config = none;
  updated_at = none;
  documents = [];
}

abbrev pub lease_db : Db
lease_db = record empty_db { contracts = lease_file ∷ [] }

-- A storage that keeps the last file under a key.
abbrev pub put_file : StorageConnection → Text → Bytes → Text → Db → Result Db
put_file c key file content_type s = ok (record s { files = (key, file) ∷ s.files })

abbrev stored_under : Text → List (Text × Bytes) → Result Bytes
stored_under key [] = err integrity_error
stored_under key ((k, file) ∷ rest) = if text_eq k key then ok file else stored_under key rest

abbrev pub get_file : StorageConnection → Text → Db → Result Bytes
get_file c key s = stored_under key s.files

connections-IsLawful :
    IsLawful db_store.storage_connections (λ c. c.id) (λ n c. record c { id = some n })
connections-IsLawful =
    part-IsLawful (λ s. s.connections) (λ l s. record s { connections = l })
      (memory (λ c. c.id) (λ n c. record c { id = some n })) (λ u s. refl) (λ c. c.id)
      (λ n c. record c { id = some n })
      (memory-IsLawful (λ c. c.id) (λ n c. record c { id = some n }) (λ n c. refl)
        (λ n c h. ground arith))

contracts-connections : IsSeparate db_store.contracts db_store.storage_connections
contracts-connections = part-IsSeparate _ _ _ _ _ _ (λ u s. refl)

files-IsLawfulFiles : IsLawfulFiles db_store put_file get_file
unfolding part
files-IsLawfulFiles = record {
  connections = connections-IsLawful;
  contract_write = contracts-connections;
  upload_connections = λ c key file t s s' h n.
      let q : s' ≡ record s { files = (key, file) ∷ s.files } = ground arith in
      ap (db_store.storage_connections.get n) q;
  download-upload = λ c key file t s s' h.
      let q : s' ≡ record s { files = (key, file) ∷ s.files } = ground arith in
      ap (λ x. stored_under key x.files) q ∙ rw (text_eq_refl key);
  contract_files = λ c key n x s. refl;
}

abbrev disk : StorageConnection
disk = record {
  id = some 0;
  organization_id = 0;
  provider = local;
  status = connected;
  is_primary = true;
  display_name = text "Disk";
  config = [];
  credential = none;
}

abbrev main_document : Document
main_document = record {
  id = some 4;
  name = text "Main Document";
  current_version_no = 0;
  summary = none;
  summary_generated_at = none;
  updated_at = none;
  versions = [];
}

abbrev file_db : Db
file_db = record empty_db {
  contracts = record lease_file { documents = main_document ∷ [] } ∷ [];
  connections = disk ∷ [];
}

abbrev first_version : DocumentVersion
first_version = record {
  version_no = 1;
  storage_connection_id = 0;
  storage_key = text "org-0/contract-0/doc-4/v1-a_b.pdf";
  original_filename = text "a b.pdf";
  content_type = text "application/pdf";
  size_bytes = 2;
  source_provider = none;
  source_external_id = none;
  uploaded_by = text "eva";
  notes = none;
}

abbrev uploaded_db : Db
uploaded_db = record file_db {
  contracts =
      record lease_file {
        documents =
            record main_document {
              current_version_no = 1;
              versions = first_version ∷ [];
              updated_at = some 70;
            }
            ∷ [];
      }
      ∷ [];
  files = (text "org-0/contract-0/doc-4/v1-a_b.pdf", 37 ∷ 80 ∷ []) ∷ [];
}

file_uploaded :
    upload_version db_store put_file get_file 4
      (37 ∷ 80 ∷ [])
      (text "a b.pdf")
      (text "application/pdf")
      (text "eva")
      none
      none
      none
      70
      file_db
    ≡ ok (first_version, uploaded_db)
unfolding upload_version find part memory any get_primary_for_organization filter add_version
    show_nat
file_uploaded = refl

download_version-upload_version_example :
    download_version db_store put_file get_file first_version uploaded_db ≡ ok (37 ∷ 80 ∷ [])
download_version-upload_version_example =
    download_version-upload_version db_store put_file get_file files-IsLawfulFiles 4 (37 ∷ 80 ∷ [])
      (text "a b.pdf") (text "application/pdf") (text "eva") none none none 70 file_db uploaded_db
      first_version file_uploaded
