-- ===== src/Tests/Services.antt =====
-- Login attempts, sessions, notifications, vaults, blobs and the clean-up at concrete inputs.
use futo_notes_server.Objects.Read.Recovery.{TellsSettled, recover_create-Recovered}
use futo_notes_server.Objects.Read.{recover_create, recorded_for}
use futo_notes_server.Collections.Vault.{delete_collection}
use futo_notes_server.Collections.Vault.Deletion.{Deleted, delete_collection-Deleted}
use futo_notes_server.Store.Documents.{create, wrapped, unrelated}
use futo_notes_server.Blobs.{delete_blob}
use futo_notes_server.Jobs.{purge_blob_row}
use futo_notes_server.Auth.Session.{validate_session}
use futo_notes_server.Store.Sql.{delete_where, select_row}
use futo_notes_server.Auth.RateLimit.Window.{attempts, allow-attempts}
use futo_notes_server.Tests.World.{staged_row, note, ann, note_db, blob, vault, start}
use futo_notes_server.Auth.RateLimit.{
  allow, RateWindow, count_attempt, login_rate_limit, allowed, Attempt,
}
use futo_notes_server.Collections.Key.Rotation.{KeyEffect, put_key-effect}
use futo_notes_server.Events.{Subscription, Change}
use futo_notes_server.Collections.Key.{KeyInput, put_key}
use futo_notes_server.Blobs.Ownership.{DeletesStaged, delete_blob-DeletesStaged}
use futo_notes_server.Auth.Session.Presented.{Presented, validate_session-Presented}
use futo_notes_server.Jobs.Collector.Due.{Collects, purge_blob_row-Collects}
use futo_notes_server.Events.Pending.{enqueue_all, waiting, highest, waiting-enqueue_all}
use futo_notes_server.Store.Monad.{Db, M, ok}
use futo_notes_server.Store.Rows.{SessionRow, UserRow, purgeable}
use futo_notes_server.Prelude.{
  ◌≡◌, refl, [], ◌∷◌, true, false, none, some, List, ℕ, Text, ltb, codes, text_eq, ◌⊎◌, ◌⊎◌, ◌<◌,
  ◌<◌, ◌+◌, ◌+◌,
}

abbrev client : Text
client = codes "10.0.0.7"

abbrev tenth : List RateWindow
tenth = record { key = client; start = 0; count = 10 } ∷ []

allow_runs :
    ((allow client 59999 tenth).0 ≡ Attempt.refused 1) × ((allow client 60000 tenth).0 ≡ allowed)
unfolding allow count_attempt delete_where select_row text_eq
allow_runs = (refl, refl)

allow-attempts_example :
    ((ltb (attempts client 5 tenth) login_rate_limit ≡ true) × ((allow client 5 tenth).0 ≡ allowed)
      ⊎ (ltb (attempts client 5 tenth) login_rate_limit ≡ false)
        × ((t : ℕ) × ((allow client 5 tenth).0 ≡ Attempt.refused t) × (0 < t)))
    × (attempts client 5 (allow client 5 tenth).1 ≡ attempts client 5 tenth + 1)
    × ((other : Text)
        → text_eq client other ≡ false
        → attempts other 5 (allow client 5 tenth).1 ≡ attempts other 5 tenth)
allow-attempts_example = allow-attempts client 5 tenth

abbrev listening : Subscription
listening = record {
  address = 1;
  user_id = ann;
  pending = [];
  wake = false;
  closed = false;
  registered = true;
}

abbrev announced : List Change
announced =
    record { collection_id = vault; current_version = 5 }
    ∷ record { collection_id = note; current_version = 9 }
    ∷ record { collection_id = vault; current_version = 7 }
    ∷ []

waiting-enqueue_all_example :
    ((enqueue_all announced listening).closed ≡ false)
    × (waiting vault (enqueue_all announced listening).pending ≡ highest vault announced)
waiting-enqueue_all_example = waiting-enqueue_all vault announced listening refl refl

abbrev user_row : UserRow
user_row = record { id = ann; sub = codes "local"; email = []; name = [] }

abbrev session_row : SessionRow
session_row = record {
  id = note;
  user_id = ann;
  access_token_hash = codes "t";
  expires_at = 90000000;
}

abbrev signed_in : Db
signed_in = record note_db { users = user_row ∷ []; sessions = session_row ∷ [] }

abbrev same_text : Text → Text
same_text s = s

validate_session-Presented_example :
    Presented same_text
      (codes "t")
      (start signed_in)
      (validate_session same_text (codes "t") (start signed_in))
validate_session-Presented_example =
    validate_session-Presented same_text (codes "t") (start signed_in)

abbrev token_of : ℕ → Text
token_of n = n ∷ []

abbrev new_key : KeyInput
new_key = record { key_salt = []; key_kdf = []; encrypted_vault_key = codes "k" }

put_key-effect_example :
    KeyEffect token_of ann vault none
      (start note_db)
      (put_key token_of ann vault new_key none (start note_db))
put_key-effect_example = put_key-effect token_of ann vault new_key none (start note_db)

delete_collection-Deleted_example :
    Deleted ann vault (start note_db) (delete_collection ann vault (start note_db))
delete_collection-Deleted_example = delete_collection-Deleted ann vault (start note_db)

abbrev no_files : Text → M (Unit {0})
no_files key w = (ok tt, w)

delete_blob-DeletesStaged_example :
    DeletesStaged ann blob note_db (delete_blob no_files ann blob (start note_db)).1.stored
delete_blob-DeletesStaged_example =
    delete_blob-DeletesStaged no_files (λ key w. refl) ann blob (start note_db)

abbrev freed_db : Db
freed_db = record note_db {
  ledger = record staged_row { state = purgeable } ∷ [];
  mutations =
      record {
        user_id = ann;
        mutation_id = codes "m-1";
        kind = create;
        collection_id = vault;
        object_id = some note;
        requested_version = none;
        result = wrapped 201 unrelated;
        created_at = 0;
      }
      ∷ [];
}

purge_blob_row-Collects_example :
    Collects blob (start freed_db) (purge_blob_row blob (start freed_db))
purge_blob_row-Collects_example = purge_blob_row-Collects blob (start freed_db)

recover_create-Recovered_example :
    ((recover_create ann vault (codes "m-1") (start freed_db)).1.stored ≡ freed_db)
    × TellsSettled
        (select_row (recorded_for ann (codes "m-1") vault) freed_db.mutations)
        (recover_create ann vault (codes "m-1") (start freed_db)).0
recover_create-Recovered_example = recover_create-Recovered ann vault (codes "m-1") (start freed_db)
