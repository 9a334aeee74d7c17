-- ===== src/Storage.antt =====
-- app/domain/storage/models.py: the storage backends and drive connections of an organization.
-- The JSON objects `config` and `secrets` are kept as lists of entries.
pub mod Service
pub mod Primary
pub mod OnePrimary
mod Examples
use orchestract.Common.{
  ◌>>◌, ℕ, Bool, true, false, not, Option, none, some, List, [], ◌∷◌, if◌then◌else◌, Text, text,
  text_eq, Result, ok, raise_if, read_only_provider_cannot_be_primary,
}

pub data StorageProvider : Type 0 where
  s3 gcs minio google_drive onedrive local : StorageProvider

pub data ConnectionStatus : Type 0 where
  pending connected error disconnected : ConnectionStatus

-- StorageProvider.value
unfoldable pub value : StorageProvider → Text
value s3 = text "s3"
value gcs = text "gcs"
value minio = text "minio"
value google_drive = text "google_drive"
value onedrive = text "onedrive"
value local = text "local"

-- provider in READ_ONLY_PROVIDERS
unfoldable pub is_read_only : StorageProvider → Bool
is_read_only google_drive = true
is_read_only onedrive = true
is_read_only _ = false

abbrev pub Json : Type 0
Json = List (Text × Text)

pub record StorageConnection : Type 0 where
  pub id : Option ℕ
  pub organization_id : ℕ
  pub provider : StorageProvider
  pub status : ConnectionStatus
  pub is_primary : Bool
  pub display_name : Text
  pub config : Json
  pub credential : Option Json

-- d[k] = v
unfoldable pub put : Text → Text → Json → Json
put k v [] = (k, v) ∷ []
put k v ((j, w) ∷ d) = let rest = put k v d in if text_eq j k then (j, v) ∷ d else (j, w) ∷ rest

unfoldable pub is_write_capable : StorageConnection → Bool
unfolding is_read_only
is_write_capable c = not (is_read_only c.provider)

-- StorageConnection.create
unfoldable pub create : ℕ → StorageProvider → Text → Json → StorageConnection
create organization_id provider display_name config = record {
  id = none;
  organization_id = organization_id;
  provider = provider;
  status = pending;
  is_primary = false;
  display_name = display_name;
  config = config;
  credential = none;
}

unfoldable pub set_credential : Json → StorageConnection → StorageConnection
set_credential secrets c = record c { credential = some secrets }

unfoldable pub mark_connected : StorageConnection → StorageConnection
mark_connected c = record c { status = connected }

unfoldable pub mark_error : Text → StorageConnection → StorageConnection
mark_error message c = record c {
  status = error;
  config = put (text "last_error") message c.config;
}

unfoldable pub disconnect : StorageConnection → StorageConnection
disconnect c = record c { status = disconnected; is_primary = false }

unfoldable pub mark_primary : StorageConnection → Result StorageConnection
unfolding value is_write_capable
mark_primary c = do
  raise_if (not (is_write_capable c)) (read_only_provider_cannot_be_primary (value c.provider))
  ok (record c { is_primary = true })

unfoldable pub unmark_primary : StorageConnection → StorageConnection
unmark_primary c = record c { is_primary = false }
