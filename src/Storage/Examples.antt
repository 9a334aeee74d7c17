-- ===== src/Storage/Examples.antt =====
-- Connections of one organization, in a table in memory.
use orchestract.Common.{
  ℕ, ◌≡◌, refl, ◌≢◌, true, false, none, some, List, [], ◌∷◌, arith, filter, text, ok,
}
use orchestract.Session.{Table, IsLawful, scalar_one_or_none, select_where, count}
use orchestract.Session.Memory.{memory, memory-IsLawful}
use orchestract.Storage.{
  StorageConnection, s3, gcs, pending, is_read_only, is_write_capable, mark_primary,
}
use orchestract.Storage.Service.{set_primary, promote, get_primary_for_organization, unmark_other}
use orchestract.Storage.Primary.{id_of, with_id, primaries, set_primary-only}
use orchestract.Storage.OnePrimary.{
  Call, connect, make_primary, make_disconnected, serve, OnePrimary, serve-OnePrimary,
}

abbrev table : Table (List StorageConnection) StorageConnection
table = memory id_of with_id

with_id_self : (n : ℕ) (c : StorageConnection) → id_of c ≡ some n → with_id n c ≡ c
with_id_self n c h = ground arith

table-IsLawful : IsLawful table id_of with_id
table-IsLawful = memory-IsLawful id_of with_id (λ n c. refl) with_id_self

abbrev bucket : StorageConnection
bucket = record {
  id = some 0;
  organization_id = 1;
  provider = s3;
  status = pending;
  is_primary = false;
  display_name = text "Bucket";
  config = [];
  credential = none;
}

abbrev main_bucket : StorageConnection
main_bucket = record bucket { is_primary = true }

bucket_made_primary : set_primary table 0 (bucket ∷ []) ≡ ok (main_bucket, main_bucket ∷ [])
unfolding set_primary promote memory get_primary_for_organization scalar_one_or_none select_where
    filter mark_primary is_write_capable unmark_other
bucket_made_primary = refl

set_primary-only_example :
    (table.get 0 (main_bucket ∷ []) ≡ some main_bucket)
    × (main_bucket.is_primary ≡ true)
    × (primaries table 1 (main_bucket ∷ []) ≡ 1)
    × (is_read_only s3 ≡ false)
    × ((org : ℕ)
        → org ≢ 1
        → primaries table org (main_bucket ∷ []) ≡ primaries table org (bucket ∷ []))
set_primary-only_example =
    set_primary-only table table-IsLawful 0 (bucket ∷ []) main_bucket (main_bucket ∷ [])
      bucket_made_primary

abbrev calls : List Call
calls = connect 1 gcs (text "Archive") [] [] ∷ make_primary 0 ∷ make_disconnected 3 ∷ []

bucket-OnePrimary : OnePrimary table table-IsLawful (bucket ∷ [])
unfolding memory count filter
bucket-OnePrimary = record { at_most_one = λ org. ground arith }

serve-OnePrimary_example : OnePrimary table table-IsLawful (serve table calls (bucket ∷ []))
serve-OnePrimary_example =
    serve-OnePrimary table table-IsLawful calls (bucket ∷ []) bucket-OnePrimary
