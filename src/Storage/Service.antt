-- ===== src/Storage/Service.antt =====
-- app/application/storage_service.py, over the table of storage connections, with the queries of
-- app/infrastructure/db/repositories/storage_connections.py. The OAuth exchange with the provider
-- is done before the transaction, so `complete_oauth_connection` takes its outcome.
use orchestract.Common.{
  ℕ, ◌+◌, ◌-◌, ◌≡◌, refl, Bool, true, false, not, ◌&&◌, ◌||◌, Option, none, some, [], ◌∷◌, leb,
  ◌==◌, if◌then◌else◌, Text, text, text_eq, Result, ok, err, ◌>>=◌, ◌>>◌, raise_if, or_raise,
  not_found, storage_connection, duplicate_provider_connection, integrity_error,
}
use orchestract.Session.{Table, scalar_one_or_none, select_where}
use orchestract.Storage.{
  StorageProvider, StorageConnection, Json, value, create, set_credential, mark_connected,
  mark_primary, unmark_primary, disconnect,
}

abbrev pub same_id : Option ℕ → Option ℕ → Bool
same_id none none = true
same_id none (some m) = false
same_id (some n) none = false
same_id (some n) (some m) = n == m

abbrev pub is_primary_of : ℕ → StorageConnection → Bool
is_primary_of organization_id c = c.organization_id == organization_id && c.is_primary

abbrev pub is_of_provider : ℕ → StorageProvider → StorageConnection → Bool
is_of_provider organization_id provider c =
    c.organization_id == organization_id && text_eq (value c.provider) (value provider)

is_letter : ℕ → Bool
is_letter c = leb b'a' c && leb c b'z' || leb b'A' c && leb c b'Z'

-- s.replace("_", " ").title(), on ASCII: `inside` says that a letter came just before
title_words : Bool → Text → Text
title_words inside [] = []
title_words inside (c ∷ s) =
    let shown = if c == b'_' then b' ' else c in
    let rest = title_words (is_letter shown) s in
    if leb b'a' shown && leb shown b'z' && not inside
    then (shown - 32) ∷ rest
    else if leb b'A' shown && leb shown b'Z' && inside
    then (shown + 32) ∷ rest
    else shown ∷ rest

unfoldable pub title : Text → Text
unfolding title_words is_letter
title = title_words false

title_google_drive : title (text "google_drive") ≡ text "Google Drive"
unfolding title
title_google_drive = refl

module _ {S : Type 0} (t : Table S StorageConnection) where
  unfoldable pub get_by_org_and_provider :
      ℕ → StorageProvider → S → Result (Option StorageConnection)
  unfolding scalar_one_or_none select_where
  get_by_org_and_provider organization_id provider s =
      scalar_one_or_none (select_where t (is_of_provider organization_id provider) s)

  unfoldable pub get_primary_for_organization : ℕ → S → Result (Option StorageConnection)
  unfolding scalar_one_or_none select_where
  get_primary_for_organization organization_id s =
      scalar_one_or_none (select_where t (is_primary_of organization_id) s)

  -- The write of `current_primary.unmark_primary()`, if it is another connection.
  unfoldable pub unmark_other : Option StorageConnection → StorageConnection → S → S
  unmark_other none connection s = s
  unmark_other (some current) connection s =
      if same_id current.id connection.id
      then s
      else elim current.id [ none ↦ s | some n ↦ t.save n (unmark_primary current) s ]

  -- _promote
  unfoldable pub promote : StorageConnection → S → Result (StorageConnection × S)
  unfolding unmark_other
  promote connection s = do
    current ← get_primary_for_organization connection.organization_id s
    connection' ← mark_primary connection
    ok (connection', unmark_other current connection s)

  unfoldable pub set_primary : ℕ → S → Result (StorageConnection × S)
  set_primary connection_id s = do
    connection ← or_raise (t.get connection_id s) (not_found storage_connection connection_id)
    (connection', s') ← promote connection s
    ok (connection', t.save connection_id connection' s')

  unfoldable pub connect_bucket :
      ℕ → StorageProvider → Text → Json → Json → S → Result (StorageConnection × S)
  connect_bucket organization_id provider display_name config credentials s = do
    existing ← get_by_org_and_provider organization_id provider s
    raise_if (elim existing [ none ↦ false | some _ ↦ true ])
        (duplicate_provider_connection (value provider))
    let connection =
        mark_connected
          (set_credential credentials (create organization_id provider display_name config))
    (connection', s') ← promote connection s
    (n, s'') ← or_raise (t.add connection' s') integrity_error
    ok (record connection' { id = some n }, s'')

  -- StorageService.disconnect
  unfoldable pub disconnect_connection : ℕ → S → Result (StorageConnection × S)
  disconnect_connection connection_id s = do
    connection ← or_raise (t.get connection_id s) (not_found storage_connection connection_id)
    ok (disconnect connection, t.save connection_id (disconnect connection) s)

  -- The writes of `complete_oauth_connection` to a connection of the given id.
  unfoldable pub connect_with : Json → ℕ → StorageConnection → S → StorageConnection × S
  connect_with secrets n connection s =
      let connected = mark_connected (set_credential secrets connection) in
      (connected, t.save n connected s)

  -- complete_oauth_connection, from the transaction on: `secrets` are the tokens of the exchange.
  unfoldable pub complete_oauth_connection :
      ℕ → StorageProvider → Json → S → Result (StorageConnection × S)
  unfolding connect_with title
  complete_oauth_connection organization_id provider secrets s = do
    existing ← get_by_org_and_provider organization_id provider s
    elim existing [
      | none ↦ (do
        let fresh = create organization_id provider (title (value provider)) []
        (n, s') ← or_raise (t.add fresh s) integrity_error
        ok (connect_with secrets n (record fresh { id = some n }) s'))
      | some connection ↦ elim connection.id [
        | none ↦ err integrity_error
        | some n ↦ ok (connect_with secrets n connection s)
      ]
    ]
