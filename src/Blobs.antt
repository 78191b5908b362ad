-- ===== src/Blobs.antt =====
-- The blob ledger and the files behind it: internal/blobs/blobs.go. The files are the operating
-- system's, so writing and removing one are parameters.
pub mod Ownership
use futo_notes_server.Auth.Session.{user_has_id}
use futo_notes_server.Store.Sql.{select_row, delete_where}
use futo_notes_server.Objects.Steps.{is_row}
use futo_notes_server.Store.Rows.{LedgerRow, staged, is_staged}
use futo_notes_server.Store.Monad.{
  ◌>>=◌, ◌>>◌, M, Db, new_uuid, commit, time_now, pure, db_exec, begin_tx, tx_query, tx_exec,
}
use futo_notes_server.Prelude.{
  ◌≡◌, refl, [], ◌∷◌, true, false, none, some, zero, suc, Text, ℕ, Bool, text_eq, ◌==◌, ◌==◌,
  if◌then◌else◌, Option, ◌++◌, ◌++◌, ◌&&◌, ◌&&◌, length, not,
}

abbrev pub ledger_has_key : Text → LedgerRow → Bool
ledger_has_key key l = text_eq l.blob_key key

-- INSERT INTO blob_ledger, with its primary key and the foreign key on users.
unfoldable pub insert_ledger : LedgerRow → Db → Option (Unit {0} × Db)
insert_ledger l d =
    if is_row (select_row (user_has_id l.user_id) d.users)
      && not (is_row (select_row (ledger_has_key l.blob_key) d.ledger))
    then some (tt, record d { ledger = l ∷ d.ledger })
    else none

unfoldable pub staged_row : Text → Text → ℕ → ℕ → LedgerRow
staged_row key user_id size now = record {
  blob_key = key;
  user_id = user_id;
  size_bytes = size;
  state = staged;
  collection_id = none;
  object_id = none;
  object_version = none;
  created_at = now;
  state_changed_at = now;
}

unfoldable pub has_prefix : Text → Text → Bool
has_prefix s [] = true
has_prefix [] (b ∷ p) = false
has_prefix (a ∷ s) (b ∷ p) = a == b && has_prefix s p

module _ (put_file : Text → Text → M (Unit {0})) where
  unfoldable pub stage : Text → Text → M Text
  stage user_id data_bytes = do
    id ← new_uuid
    now ← time_now
    let key = user_id ++ (b'/' ∷ id)
    db_exec (insert_ledger (staged_row key user_id (length data_bytes) now))
    put_file key data_bytes
    pure key

module _ (remove_file : Text → M (Unit {0})) where
  unfoldable pub remove_row : Text → Option LedgerRow → M Bool
  remove_row key none = do commit; remove_file key; pure true
  remove_row key (some l) =
      if is_staged l.state
      then (do
        tx_exec (λ d. some (tt, record d { ledger = delete_where (ledger_has_key key) d.ledger }))
        commit
        remove_file key
        pure true)
      else pure false

  unfoldable pub delete_blob : Text → Text → M Bool
  delete_blob user_id key =
      if has_prefix key (user_id ++ b'/' ∷ [])
      then (do
        begin_tx
        row ← tx_query (λ d. select_row (ledger_has_key key) d.ledger)
        remove_row key row)
      else pure false
