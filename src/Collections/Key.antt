-- ===== src/Collections/Key.antt =====
-- The key material of a vault: internal/collections/key.go. A revision token is the text that
-- the time package writes for a key_updated_at, so its format is a parameter.
pub mod Rotation
pub mod Told
use futo_notes_server.Store.Sql.{select_row, update_where}
use futo_notes_server.Ids.{valid_uuid}
use futo_notes_server.Objects.Steps.{is_row, owns_collection}
use futo_notes_server.Store.Rows.{CollectionRow, KeyMaterial}
use futo_notes_server.Store.Monad.{
  ◌>>=◌, ◌>>◌, M, commit, Db, time_now, pure, tx_exec, begin_tx, db_query, tx_query,
}
use futo_notes_server.Prelude.{
  ◌≡◌, refl, [], ◌∷◌, true, false, none, some, zero, suc, ℕ, Text, Option, if◌then◌else◌, ◌+◌, Bool,
  ◌+◌, ltb, text_eq,
}

pub record KeyInput : Type 0 where
  pub key_salt : Text
  pub key_kdf : Text
  pub encrypted_vault_key : Text

pub data PutKeyOutcome : Type 0 where
  put_key_ok put_key_not_found put_key_conflict put_key_no_current_key : PutKeyOutcome

unfoldable pub get_key : Text → Text → M (Bool × Option KeyMaterial)
get_key user_id id =
    if valid_uuid id
    then (do
      row ← db_query (λ d. select_row (owns_collection user_id id) d.collections)
      elim row [ none ↦ pure (false, none) | some c ↦ pure (true, c.key) ])
    else pure (false, none)

-- nextRevision, from the clock.
unfoldable pub next_revision : ℕ → Option KeyMaterial → ℕ
next_revision now none = now
next_revision now (some current) =
    let earliest = current.key_updated_at + 1 in if ltb now earliest then earliest else now

unfoldable pub key_from : KeyInput → ℕ → KeyMaterial
key_from input revision = record {
  key_salt = input.key_salt;
  key_kdf = input.key_kdf;
  encrypted_vault_key = input.encrypted_vault_key;
  key_updated_at = revision;
}

abbrev pub collection_has_id : Text → CollectionRow → Bool
collection_has_id id c = text_eq c.id id

-- UPDATE collections ... WHERE id RETURNING the key columns.
unfoldable pub set_key : Text → KeyMaterial → Db → Option (KeyMaterial × Db)
set_key id key d =
    if is_row (select_row (collection_has_id id) d.collections)
    then some (
      key,
      record d {
        collections =
            update_where (collection_has_id id) (λ c. record c { key = some key }) d.collections;
      },
    )
    else none

unfoldable pub store_key :
    Text → KeyInput → Option KeyMaterial → M (PutKeyOutcome × Option KeyMaterial)
store_key id input current = do
  now ← time_now
  stored ← tx_exec (set_key id (key_from input (next_revision now current)))
  commit
  pure (put_key_ok, some stored)

module _ (revision_token : ℕ → Text) where
  unfoldable pub put_found :
      Text → KeyInput → Option Text → Option KeyMaterial → M (PutKeyOutcome × Option KeyMaterial)
  put_found id input none (some current) = do commit; pure (put_key_ok, some current)
  put_found id input none none = store_key id input none
  put_found id input (some token) none = pure (put_key_no_current_key, none)
  put_found id input (some token) (some current) =
      if text_eq (revision_token current.key_updated_at) token
      then store_key id input (some current)
      else (do commit; pure (put_key_conflict, some current))

  unfoldable pub put_row :
      Text → KeyInput → Option Text → Option CollectionRow → M (PutKeyOutcome × Option KeyMaterial)
  put_row id input token none = pure (put_key_not_found, none)
  put_row id input token (some c) = put_found id input token c.key

  unfoldable pub put_key :
      Text → Text → KeyInput → Option Text → M (PutKeyOutcome × Option KeyMaterial)
  put_key user_id id input token =
      if valid_uuid id
      then (do
        begin_tx
        row ← tx_query (λ d. select_row (owns_collection user_id id) d.collections)
        put_row id input token row)
      else pure (put_key_not_found, none)
