-- ===== src/Documents.antt =====
-- app/domain/documents/models.py and app/domain/contracts/models.py: a contract owns documents,
-- and each of these its versions. `now` is the value of utcnow(). created_at is left out.
pub mod Versions
mod Examples
use orchestract.Common.{
  ◌>>◌, ◌>>=◌, ℕ, ◌+◌, Bool, Option, none, some, List, [], ◌∷◌, ◌++◌, last, Text, is_empty, strip,
  Result, ok, raise_if, empty_document_name, empty_contract_title,
}
use orchestract.Storage.{StorageProvider}

pub record DocumentVersion : Type 0 where
  pub version_no : ℕ
  pub storage_connection_id : ℕ
  pub storage_key : Text
  pub original_filename : Text
  pub content_type : Text
  pub size_bytes : ℕ
  pub source_provider : Option StorageProvider
  pub source_external_id : Option Text
  pub uploaded_by : Text
  pub notes : Option Text

pub record Document : Type 0 where
  pub id : Option ℕ
  pub name : Text
  pub current_version_no : ℕ
  pub summary : Option Text
  pub summary_generated_at : Option ℕ
  pub updated_at : Option ℕ
  pub versions : List DocumentVersion

-- Document.create
unfoldable pub create_document : Text → Result Document
create_document name = do
  raise_if (is_empty (strip name)) empty_document_name
  ok (record {
    id = none;
    name = strip name;
    current_version_no = 0;
    summary = none;
    summary_generated_at = none;
    updated_at = none;
    versions = [];
  })

-- The arguments of Document.add_version.
pub record Upload : Type 0 where
  pub storage_connection_id : ℕ
  pub storage_key : Text
  pub original_filename : Text
  pub content_type : Text
  pub size_bytes : ℕ
  pub uploaded_by : Text
  pub notes : Option Text
  pub source_provider : Option StorageProvider
  pub source_external_id : Option Text

-- Document.add_version: the version and the document that has it.
unfoldable pub add_version : Upload → ℕ → Document → DocumentVersion × Document
add_version u now d =
    let next = d.current_version_no + 1 in
    let version : DocumentVersion = record {
      version_no = next;
      storage_connection_id = u.storage_connection_id;
      storage_key = u.storage_key;
      original_filename = u.original_filename;
      content_type = u.content_type;
      size_bytes = u.size_bytes;
      source_provider = u.source_provider;
      source_external_id = u.source_external_id;
      uploaded_by = u.uploaded_by;
      notes = u.notes;
    } in
    (
      version,
      record d {
        current_version_no = next;
        versions = d.versions ++ version ∷ [];
        updated_at = some now;
      },
    )

unfoldable pub latest_version : Document → Option DocumentVersion
latest_version d = last d.versions

-- Document.set_summary
unfoldable pub set_document_summary : Text → ℕ → Document → Document
set_document_summary summary now d = record d {
  summary = some summary;
  summary_generated_at = some now;
}

-- The override of the AI settings that a contract stores; `{}` is none.
pub record AiConfig : Type 0 where
  pub enabled : Option Bool
  pub model : Option Text
  pub instructions : Option Text
  pub allowed_tools : Option (List Text)

pub record Contract : Type 0 where
  pub id : Option ℕ
  pub organization_id : ℕ
  pub title : Text
  pub description : Option Text
  pub contract_type : Text
  pub summary : Option Text
  pub summary_generated_at : Option ℕ
  pub ai_config : Option AiConfig
  pub updated_at : Option ℕ
  pub documents : List Document

-- Contract.create
unfoldable pub create_contract : ℕ → Text → Text → Option Text → Result Contract
create_contract organization_id title contract_type description = do
  raise_if (is_empty (strip title)) empty_contract_title
  ok (record {
    id = none;
    organization_id = organization_id;
    title = strip title;
    description = description;
    contract_type = contract_type;
    summary = none;
    summary_generated_at = none;
    ai_config = none;
    updated_at = none;
    documents = [];
  })

-- Contract.add_document
unfoldable pub add_document : Text → ℕ → Contract → Result Contract
add_document name now c = do
  document ← create_document name
  ok (record c { documents = c.documents ++ document ∷ []; updated_at = some now })

-- Contract.set_summary
unfoldable pub set_contract_summary : Text → ℕ → Contract → Contract
set_contract_summary summary now c = record c {
  summary = some summary;
  summary_generated_at = some now;
}

unfoldable pub set_ai_config : AiConfig → ℕ → Contract → Contract
set_ai_config config now c = record c { ai_config = some config; updated_at = some now }
