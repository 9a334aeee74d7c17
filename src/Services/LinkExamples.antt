-- ===== src/Services/LinkExamples.antt =====
-- A share link of a contract with one document, in the database in memory.
use orchestract.Common.{
  ℕ, ◌≡◌, refl, ◌↔◌, ◌⊎◌, true, ◌&&◌, none, some, List, [], ◌∷◌, arith, any, filter, text, ok,
}
use orchestract.Session.Memory.{memory, memory-IsLawful}
use orchestract.Session.Part.{part, part-IsLawful}
use orchestract.Documents.{Contract}
use orchestract.Passwords.{Scrypt}
use orchestract.Sharing as Sharing
use orchestract.Sharing.{ShareLink, documents, issue, revoke, unique, allows_document, member}
use orchestract.Services.Sharing.{owns, create_link, revoke_link, get_active_link, kept_ids}
use orchestract.Services.Revocation.{
  id_of_link, link_with_id, create_link-allows, revoke_link-inactive,
}
use orchestract.Session.{IsLawful}
use orchestract.Services.Contracts.{get_contract}
use orchestract.Services.Db.{Db, db_store}
use orchestract.Services.Examples.{fresh_db}

abbrev lease : Contract
lease = record {
  id = some 0;
  organization_id = 0;
  title = text "Lease";
  description = none;
  contract_type = text "rent";
  summary = none;
  summary_generated_at = none;
  ai_config = none;
  updated_at = none;
  documents =
      record {
        id = some 4;
        name = text "Main Document";
        current_version_no = 0;
        summary = none;
        summary_generated_at = none;
        updated_at = none;
        versions = [];
      }
      ∷ [];
}

abbrev link : ShareLink
link = record {
  id = some 0;
  contract_id = 0;
  token = text "t";
  scope = documents;
  password_hash = none;
  allow_download = true;
  created_by = text "eva";
  expires_at = 8200;
  revoked_at = none;
  last_accessed_at = none;
  document_ids = 4 ∷ [];
}

abbrev no_scrypt : Scrypt
no_scrypt raw salt n r p = []

abbrev with_lease : List ShareLink → Db
with_lease links = record fresh_db { contracts = lease ∷ []; share_links = links }

link_created :
    create_link db_store no_scrypt 0 documents true 2
      (text "eva")
      (9 ∷ 4 ∷ [])
      none
      []
      (text "t")
      1000
      (with_lease [])
    ≡ ok (link, with_lease (record link { id = none } ∷ []))
unfolding create_link kept_ids get_contract issue unique part memory filter any
link_created = refl

create_link-allows_example :
    (c : Contract) × (db_store.contracts.get 0 (with_lease []) ≡ some c)
    × ((n : ℕ)
        → (allows_document n link ≡ true)
          ↔ ((documents ≡ Sharing.contract) ⊎ ((owns c n && member n (9 ∷ 4 ∷ [])) ≡ true)))
create_link-allows_example =
    create_link-allows db_store no_scrypt 0 documents true 2 (text "eva") (9 ∷ 4 ∷ []) none []
      (text "t") 1000 (with_lease []) (with_lease (record link { id = none } ∷ [])) link
      link_created

links-IsLawful : IsLawful db_store.share_links id_of_link link_with_id
links-IsLawful =
    part-IsLawful (λ s. s.share_links) (λ l s. record s { share_links = l })
      (memory id_of_link link_with_id) (λ u s. refl) id_of_link link_with_id
      (memory-IsLawful id_of_link link_with_id (λ n l. refl) (λ n l h. ground arith))

abbrev revoked_link : ShareLink
revoked_link = record link { revoked_at = some 1500 }

link_revoked :
    revoke_link db_store 0 0 1500 (with_lease (link ∷ []))
    ≡ ok (revoked_link, with_lease (revoked_link ∷ []))
unfolding revoke_link revoke part memory
link_revoked = refl

revoke_link-inactive_example :
    ¬ (get_active_link db_store (text "t") 1600 (with_lease (revoked_link ∷ [])) ≡ ok link)
revoke_link-inactive_example =
    revoke_link-inactive db_store links-IsLawful 0 0 1500 1600 (with_lease (link ∷ []))
      (with_lease (revoked_link ∷ [])) revoked_link link link_revoked
