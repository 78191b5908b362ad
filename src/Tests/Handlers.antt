-- ===== src/Tests/Handlers.antt =====
-- Logins, the blob and key handlers and the listener at concrete inputs.
use futo_notes_server.Server.Login.Opened.{LogsIn, handle_password_login-LogsIn}
use futo_notes_server.Server.Login.Retry.{retry_seconds-allow}
use futo_notes_server.Store.Sql.{delete_where, select_row}
use futo_notes_server.Events.Listener.{
  Connection, initial_reconnect_delay, max_reconnect_delay, listen, IsDropped, listen-bounds,
}
use futo_notes_server.Server.Vaults.{KeyBody, handle_put_collection_key}
use futo_notes_server.Server.Login.Guard.{Guarded, require_auth-Guarded}
use futo_notes_server.Server.Reply.{Reply, write_json, error_text, reply}
use futo_notes_server.Events.{Hub}
use futo_notes_server.Server.BlobRoutes.Fetched.{Fetched, handle_batch_fetch_blobs-Fetched}
use futo_notes_server.Store.Rows.{UserRow}
use futo_notes_server.Server.Login.{Request, retry_seconds, handle_password_login, require_auth}
use futo_notes_server.Server.Vaults.Refusals.{PutsKey, handle_put_collection_key-PutsKey}
use futo_notes_server.Prelude.{
  ◌≡◌, refl, [], ◌∷◌, true, false, none, some, All, ◌≤◌, ℕ, Text, List, ◌≤◌, ◌+◌, ◌+◌, length,
  Option, codes, ◌*◌, ◌*◌, arith, text_eq,
}
use futo_notes_server.Tests.World.{note_db, start, ann, blob, vault}
use futo_notes_server.Tests.Transfers.{stored_file}
use futo_notes_server.Store.Monad.{Db, World}
use futo_notes_server.Server.BlobRoutes.{KeysRead, keys_of, handle_batch_fetch_blobs}
use futo_notes_server.Auth.RateLimit.{allowed, refused, allow, RateWindow, count_attempt}

abbrev same_text : Text → Text
same_text s = s

abbrev visitor : Request
visitor = record {
  path = codes "/api/collections";
  session_cookie = none;
  authorization = codes "Bearer secret";
}

abbrev ok_reply : Reply
ok_reply = write_json 200 (error_text [])

abbrev ann_row : UserRow
ann_row = record {
  id = ann;
  sub = codes "local";
  email = codes "ann@example.org";
  name = codes "Ann";
}

abbrev session_db : Db
session_db = record note_db {
  users = ann_row ∷ [];
  sessions =
      record {
        id = codes "s-1";
        user_id = ann;
        access_token_hash = codes "secret";
        expires_at = 99999999999;
      }
      ∷ [];
}

require_auth-Guarded_example :
    Guarded same_text same_text
      (codes "password")
      (reply ok_reply)
      (λ s. reply ok_reply)
      visitor
      (start session_db)
      (require_auth same_text same_text
        (codes "password")
        (reply ok_reply)
        (λ s. reply ok_reply)
        visitor
        (start session_db))
require_auth-Guarded_example =
    require_auth-Guarded same_text same_text (codes "password") (reply ok_reply)
      (λ s. reply ok_reply) visitor (start session_db)

abbrev no_hex : Text → Option Text
no_hex s = none

abbrev no_scrypt : Text → Text → Option Text
no_scrypt password salt = none

abbrev login : Reply × World
login =
    handle_password_login same_text same_text no_hex no_scrypt (codes "hunter2") [] (codes "token")
      (some (codes "hunter2")) (start session_db)

handle_password_login-LogsIn_example :
    LogsIn same_text same_text no_hex no_scrypt
      (codes "hunter2")
      []
      (codes "token")
      (some (codes "hunter2"))
      (start session_db)
      login
handle_password_login-LogsIn_example =
    handle_password_login-LogsIn same_text same_text no_hex no_scrypt (codes "hunter2") []
      (codes "token") (some (codes "hunter2")) (start session_db)

abbrev guesses : List RateWindow
guesses = record { key = codes "10.0.0.7"; start = 1000; count = 10 } ∷ []

refused_runs : (allow (codes "10.0.0.7") 2500 guesses).0 ≡ refused 58500
unfolding allow count_attempt delete_where select_row text_eq
refused_runs = refl

waited : 2500 + retry_seconds 58500 * 1000 ≤ 61500
unfolding retry_seconds
waited = omega arith

retry_seconds-allow_example :
    (1 ≤ retry_seconds 58500)
    × ((allow (codes "10.0.0.7") 61500 (allow (codes "10.0.0.7") 2500 guesses).1).0 ≡ allowed)
retry_seconds-allow_example =
    retry_seconds-allow (codes "10.0.0.7") 2500 61500 58500 guesses (tt, tt) refused_runs waited

abbrev rune_bytes : Text → ℕ
rune_bytes s = length s

rune_bytes-fit : (s : Text) → length s ≤ 4 * rune_bytes s
rune_bytes-fit s = omega arith

abbrev wanted : KeysRead
wanted = keys_of (some blob ∷ some (codes "x") ∷ [])

handle_batch_fetch_blobs-Fetched_example :
    Fetched rune_bytes stored_file ann wanted
      (handle_batch_fetch_blobs rune_bytes stored_file ann wanted)
handle_batch_fetch_blobs-Fetched_example =
    handle_batch_fetch_blobs-Fetched rune_bytes rune_bytes-fit stored_file ann wanted

abbrev day_token : ℕ → Text
day_token n = n ∷ []

abbrev key_body : KeyBody
key_body = record {
  key_salt = some (codes "salt");
  key_kdf = some (codes "{}");
  encrypted_vault_key = some (codes "wrapped");
  previous_key_updated_at = none;
}

handle_put_collection_key-PutsKey_example :
    PutsKey day_token ann vault
      (some key_body)
      (start note_db)
      (handle_put_collection_key day_token ann vault (some key_body) (start note_db))
handle_put_collection_key-PutsKey_example =
    handle_put_collection_key-PutsKey day_token ann vault (some key_body) (start note_db)

abbrev attempts_made : List Connection
attempts_made =
    record { connected = false; heard = [] } ∷ record { connected = true; heard = none ∷ [] } ∷ []

abbrev one_device : Hub
one_device =
    record {
      address = 1;
      user_id = ann;
      pending = [];
      wake = false;
      closed = false;
      registered = true;
    }
    ∷ []

listen-bounds_example :
    All
      (λ d. (initial_reconnect_delay ≤ d) × (d ≤ max_reconnect_delay))
      (listen 1000 attempts_made one_device).0
    × All IsDropped (listen 1000 attempts_made one_device).1
listen-bounds_example = listen-bounds 1000 attempts_made one_device (omega arith) (omega arith)
