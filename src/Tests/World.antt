-- ===== src/Tests/World.antt =====
-- A small server for the examples: one user, one collection, one staged blob.
use futo_notes_server.Store.Monad.{Db, Env, World, sqlite}
use futo_notes_server.Store.Rows.{LedgerRow, CollectionRow, ObjectRow, claimed, staged}
use futo_notes_server.Prelude.{[], ◌∷◌, none, some, false, ◌+◌, ◌++◌, Text, codes}

abbrev pub ann : Text
ann = codes "01890000-0000-7000-8000-0000000000aa"

abbrev pub vault : Text
vault = codes "01890000-0000-7000-8000-0000000000bb"

abbrev pub blob_id : Text
blob_id = codes "01890000-0000-7000-8000-0000000000cc"

abbrev pub note : Text
note = codes "01890000-0000-7000-8000-0000000000dd"

abbrev pub blob : Text
blob = ann ++ b'/' ∷ blob_id

abbrev pub old_blob : Text
old_blob = ann ++ b'/' ∷ note

-- Nothing fails, the clock starts a day after 1970 and every new UUID is `note`.
abbrev pub calm : Env
calm = record { engine = sqlite; fails = λ _. false; now = λ n. 86400000 + n; uuid = λ _. note }

abbrev pub vault_row : CollectionRow
vault_row = record { id = vault; user_id = ann; created_at = 0; current_version = 4; key = none }

abbrev pub staged_row : LedgerRow
staged_row = record {
  blob_key = blob;
  user_id = ann;
  size_bytes = 3;
  state = staged;
  collection_id = none;
  object_id = none;
  object_version = none;
  created_at = 86400000;
  state_changed_at = 86400000;
}

abbrev pub empty_db : Db
empty_db = record {
  users = [];
  sessions = [];
  collections = vault_row ∷ [];
  objects = [];
  ledger = staged_row ∷ [];
  mutations = [];
}

abbrev pub note_row : ObjectRow
note_row = record {
  id = note;
  collection_id = vault;
  user_id = ann;
  version = 2;
  change_seq = 4;
  deleted = false;
  blob_key = some old_blob;
  size_bytes = some 9;
  created_at = 5;
  updated_at = 6;
}

abbrev pub claimed_row : LedgerRow
claimed_row = record staged_row {
  blob_key = old_blob;
  size_bytes = 9;
  state = claimed;
  collection_id = some vault;
  object_id = some note;
  object_version = some 2;
}

abbrev pub note_db : Db
note_db = record empty_db { objects = note_row ∷ []; ledger = claimed_row ∷ staged_row ∷ [] }

abbrev pub start : Db → World
start d = record { env = calm; step = 0; stored = d; work = d; doorbells = []; delivered = [] }
