-- ===== src/Sharing/Examples.antt =====
-- A link to two documents of a contract.
use orchestract.Common.{◌≡◌, refl, true, none, [], ◌∷◌, filter, text, ok}
use orchestract.Sharing.{ShareLink, documents, issue}
use orchestract.Passwords.{Scrypt}

abbrev no_scrypt : Scrypt
no_scrypt raw salt n r p = []

abbrev link : ShareLink
link = record {
  id = none;
  contract_id = 7;
  token = text "t";
  scope = documents;
  password_hash = none;
  allow_download = true;
  created_by = text "eva";
  expires_at = 4600;
  revoked_at = none;
  last_accessed_at = none;
  document_ids = 2 ∷ 5 ∷ [];
}

link_issued :
    issue no_scrypt [] (text "t") 1000 7 documents true 3600 (text "eva") (2 ∷ 5 ∷ 2 ∷ []) none
    ≡ ok link
unfolding issue filter
link_issued = refl
