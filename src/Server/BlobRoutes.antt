-- ===== src/Server/BlobRoutes.antt =====
-- The handlers of cmd/server/blobs.go. What opening a file gives is a parameter, and so is the
-- counting of the characters of a key; a body of keys is what encoding/json reads of it.
pub mod Fetched
use futo_notes_server.Blobs.{delete_blob, stage}
use futo_notes_server.Ids.{valid_blob_key}
use futo_notes_server.Prelude.{
  ◌≡◌, refl, [], ◌∷◌, true, false, none, some, zero, suc, Text, List, Bool, ℕ, if◌then◌else◌,
  Option, ◌++◌, ◌++◌, codes, length, ltb, ◌==◌, ◌==◌,
}
use futo_notes_server.Store.Monad.{ok, err, M}
use futo_notes_server.Wire.Transfer.{Opened, no_file, open_error, file, Streamed, stream_blob_batch}
use futo_notes_server.Server.Reply.{
  blob_key, blob_bytes, no_content, Reply, write_error, write_json, H, server_error, reply, answer,
}

-- What io.ReadAll gives of a body with a limit.
pub data BodyRead : Type 0 where
  too_large unreadable : BodyRead
  read_body : Text → BodyRead

-- readBlobBody: the bytes, or the answer that refuses them.
unfoldable pub read_blob_body : BodyRead → Text × Option Reply
read_blob_body too_large = ([], some (write_error 413 (codes "blob too large")))
read_blob_body unreadable = ([], some (write_error 400 (codes "could not read body")))
read_blob_body (read_body []) = ([], some (write_error 400 (codes "empty body")))
read_blob_body (read_body (c ∷ s)) = (c ∷ s, none)

abbrev pub max_batch_fetch_keys : ℕ
max_batch_fetch_keys = 200

abbrev pub max_batch_key_chars : ℕ
max_batch_key_chars = 128

-- What encoding/json reads: an error, or the keys, of which a null is `none`.
pub data KeysRead : Type 0 where
  too_long unread invalid_json : KeysRead
  keys_of : List (Option Text) → KeysRead

-- The answer to a batch: one that refuses it, or the stream.
pub data FetchAnswer : Type 0 where
  refuses : Reply → FetchAnswer
  streams : Streamed → FetchAnswer

-- The loop over the keys: the keys, or what is wrong with one.
abbrev pub add_key : Text → Option (List Text) × Text → Option (List Text) × Text
add_key key (none, problem) = (none, problem)
add_key key (some keys, problem) = (some (key ∷ keys), problem)

module _ (rune_count : Text → ℕ) where
  unfoldable pub check_keys : List (Option Text) → Option (List Text) × Text
  check_keys [] = (some [], [])
  check_keys (none ∷ keys) = (none, codes "keys must be strings")
  check_keys (some key ∷ keys) =
      let rest = check_keys keys in
      if ltb max_batch_key_chars (rune_count key)
      then (none, codes "key too long (max 128 chars)")
      else add_key key rest

  module _ (open_file : Text → Opened) (user_id : Text) where
    abbrev pub fetch_checked : Option (List Text) × Text → FetchAnswer
    fetch_checked (none, problem) = refuses (write_error 400 problem)
    fetch_checked (some keys, problem) = streams (stream_blob_batch open_file user_id keys)

    unfoldable pub handle_batch_fetch_blobs : KeysRead → FetchAnswer
    handle_batch_fetch_blobs too_long = refuses (write_error 413 (codes "request too large"))
    handle_batch_fetch_blobs unread = refuses (write_error 400 (codes "could not read body"))
    handle_batch_fetch_blobs invalid_json = refuses (write_error 400 (codes "invalid json"))
    handle_batch_fetch_blobs (keys_of keys) =
        if length keys == 0
        then refuses (write_error 400 (codes "keys must not be empty"))
        else (if ltb max_batch_fetch_keys (length keys)
            then refuses (write_error 400 (codes "too many keys (max 200)"))
            else fetch_checked (check_keys keys))

unfoldable pub handle_upload_blob : (Text → Text → M (Unit {0})) → Text → BodyRead → H
handle_upload_blob put_file user_id b =
    let (body, refusal) = read_blob_body b in
    elim refusal [
      | some r ↦ reply r
      | none ↦ answer (stage put_file user_id body) λ key. reply (write_json 201 (blob_key key))
    ]

-- blobKeyFrom: the key of the path, when it is the caller's own.
unfoldable pub blob_key_from : Text → Text → Text → Option Text
blob_key_from user_id path_user path_blob =
    let key = path_user ++ (b'/' ∷ path_blob) in
    if valid_blob_key user_id key then some key else none

-- ServeContent may answer with a part of the bytes, if the request asks for one.
abbrev pub download_opened : Opened → Reply
download_opened no_file = write_error 404 (codes "not found")
download_opened open_error = server_error
download_opened (file size content) = write_json 200 (blob_bytes content)

unfoldable pub handle_download_blob : (Text → Opened) → Text → Text → Text → Reply
handle_download_blob open_file user_id path_user path_blob =
    elim (blob_key_from user_id path_user path_blob) [
      | none ↦ write_error 404 (codes "not found")
      | some key ↦ download_opened (open_file key)
    ]

abbrev pub deleted_reply : Bool → Reply
deleted_reply deleted =
    if deleted then write_json 204 no_content else write_error 409 (codes "blob is in use")

unfoldable pub handle_delete_blob : (Text → M (Unit {0})) → Text → Text → Text → H
handle_delete_blob remove_file user_id path_user path_blob =
    elim (blob_key_from user_id path_user path_blob) [
      | none ↦ reply (write_error 404 (codes "not found"))
      | some key ↦
          answer (delete_blob remove_file user_id key) λ deleted. reply (deleted_reply deleted)
    ]
