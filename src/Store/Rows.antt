-- ===== src/Store/Rows.antt =====
-- The tables of internal/db/migrations: one record for each row that the Go code reads or writes.
-- A timestamp is its count of milliseconds, in which the fixed-width text of db.Timestamp orders.
use futo_notes_server.Prelude.{ℕ, Bool, Option, Text, true, false}

pub record UserRow : Type 0 where
  pub id : Text
  pub sub : Text
  pub email : Text
  pub name : Text

pub record SessionRow : Type 0 where
  pub id : Text
  pub user_id : Text
  pub access_token_hash : Text
  pub expires_at : ℕ

-- The four key columns, which are set together.
pub record KeyMaterial : Type 0 where
  pub key_salt : Text
  pub key_kdf : Text
  pub encrypted_vault_key : Text
  pub key_updated_at : ℕ

pub record CollectionRow : Type 0 where
  pub id : Text
  pub user_id : Text
  pub created_at : ℕ
  pub current_version : ℕ
  pub key : Option KeyMaterial

pub record ObjectRow : Type 0 where
  pub id : Text
  pub collection_id : Text
  pub user_id : Text
  pub version : ℕ
  pub change_seq : ℕ
  pub deleted : Bool
  pub blob_key : Option Text
  pub size_bytes : Option ℕ
  pub created_at : ℕ
  pub updated_at : ℕ

pub data LedgerState : Type 0 where
  staged claimed retained purgeable legacy_shared : LedgerState

abbrev pub is_staged : LedgerState → Bool
is_staged staged = true
is_staged _ = false

abbrev pub is_claimed : LedgerState → Bool
is_claimed claimed = true
is_claimed _ = false

abbrev pub is_retained : LedgerState → Bool
is_retained retained = true
is_retained _ = false

abbrev pub is_purgeable : LedgerState → Bool
is_purgeable purgeable = true
is_purgeable _ = false

pub record LedgerRow : Type 0 where
  pub blob_key : Text
  pub user_id : Text
  pub size_bytes : ℕ
  pub state : LedgerState
  pub collection_id : Option Text
  pub object_id : Option Text
  pub object_version : Option ℕ
  pub created_at : ℕ
  pub state_changed_at : ℕ
