-- ===== src/Wire/Transfer.antt =====
-- The answer to a fetch of many blobs: streamBlobBatch and writeFrameHeader of cmd/server/blobs.go,
-- and decodeDownloadFrames of cmd/compare/frames.go, which reads it. The files are the operating
-- system's, so what opening one gives is a parameter. A write to the connection that fails ends
-- the response like any other error, and is left out.
pub mod Decoded
pub mod Answered
pub mod Size
pub mod Stream
pub mod Whole
use futo_notes_server.Ids.{valid_blob_key}
use futo_notes_server.Wire.Numbers.{be16, be32, split_uint16, split_uint32, split_bytes}
use futo_notes_server.Prelude.{
  ◌≡◌, refl, [], ◌∷◌, true, false, none, some, zero, suc, Text, ℕ, List, ◌++◌, Option, ◌++◌, Bool,
  if◌then◌else◌, length, ◌+◌, ◌+◌, ◌%◌, ltb, ◌%◌, ◌&&◌, ◌&&◌, ◌==◌, ◌==◌,
}

abbrev pub max_blob_bytes : ℕ
max_blob_bytes = 104857600

abbrev pub max_batch_bytes : ℕ
max_batch_bytes = 33554432

-- u16 key length, u8 status and u32 blob length.
abbrev pub frame_overhead : ℕ
frame_overhead = 7

abbrev pub frame_ok : ℕ
frame_ok = 0

abbrev pub frame_missing : ℕ
frame_missing = 1

abbrev pub frame_omitted : ℕ
frame_omitted = 2

pub record DownloadFrame : Type 0 where
  pub key : Text
  pub status : ℕ
  pub blob : Text

-- writeFrameHeader.
unfoldable pub frame_header : Text → ℕ → ℕ → Text
frame_header key status blob_length =
    be16 (length key % 65536) ++ (key ++ (status ∷ be32 (blob_length % 4294967296)))

-- What opening a key gives: no file, an error of Open or Stat, or the size that Stat tells and the
-- bytes that are copied.
pub data Opened : Type 0 where
  no_file open_error : Opened
  file : ℕ → Text → Opened

-- What becomes of a key: its bytes, the new `written` and `shipped`, or the end of the response
-- with what was sent before it.
pub data Sent : Type 0 where
  send : Text → ℕ → Bool → Sent
  stop : Text → Sent

unfoldable pub send_empty : Text → ℕ → ℕ → Bool → Sent
send_empty key status written shipped =
    send (frame_header key status 0) (written + (frame_overhead + length key)) shipped

unfoldable pub send_file : Text → ℕ → Text → ℕ → Bool → Sent
send_file key size copied written shipped =
    if ltb max_blob_bytes size
    then send_empty key frame_missing written shipped
    else (if shipped && ltb max_batch_bytes (written + (frame_overhead + length key) + size)
        then send_empty key frame_omitted written shipped
        else (if length copied == size
            then send (frame_header key frame_ok size ++ copied)
                (written + (frame_overhead + length key + size)) true
            else stop (frame_header key frame_ok size ++ copied)))

unfoldable pub send_opened : Text → Opened → ℕ → Bool → Sent
send_opened key no_file written shipped = send_empty key frame_missing written shipped
send_opened key open_error written shipped = stop []
send_opened key (file size copied) written shipped = send_file key size copied written shipped

-- The whole body, or what went out before the connection is dropped.
pub data Streamed : Type 0 where
  complete aborted : Text → Streamed

abbrev pub after : Text → Streamed → Streamed
after out (complete rest) = complete (out ++ rest)
after out (aborted rest) = aborted (out ++ rest)

-- What is sent for a key, and then what `rest` streams.
abbrev pub send_then : (ℕ → Bool → Streamed) → Sent → Streamed
send_then rest (stop out) = aborted out
send_then rest (send out written shipped) = after out (rest written shipped)

module _ (open_file : Text → Opened) (user_id : Text) where
  unfoldable pub send_key : Text → ℕ → Bool → Sent
  send_key key written shipped =
      if valid_blob_key user_id key
      then send_opened key (open_file key) written shipped
      else send_empty key frame_missing written shipped

  unfoldable pub stream_keys : List Text → ℕ → Bool → Streamed
  stream_keys [] written shipped = complete []
  stream_keys (key ∷ keys) written shipped =
      send_then (stream_keys keys) (send_key key written shipped)

  unfoldable pub stream_blob_batch : List Text → Streamed
  stream_blob_batch keys = stream_keys keys 0 false

infixl 5 ◌>>=◌
abbrev pub ◌>>=◌ {ℓ κ} : {A : Type ℓ} {B : Type κ} → Option A → (A → Option B) → Option B
none >>= f = none
some a >>= f = f a

-- One round of the reader's loop; `none` is one of its errors.
unfoldable pub decode_blob : Text → Text → Option (DownloadFrame × Text)
decode_blob key [] = none
decode_blob key (status ∷ s) = do
  (blob_length, s) ← split_uint32 s
  (blob, s) ← split_bytes blob_length s
  some (record { key = key; status = status; blob = blob }, s)

unfoldable pub decode_frame : Text → Option (DownloadFrame × Text)
decode_frame s = do
  (key_length, s) ← split_uint16 s
  if ltb (length s) (key_length + 5)
      then none
      else do (key, s) ← split_bytes key_length s; decode_blob key s

-- The loop: the outer `none` means that the rounds ran out, the inner one is an error.
unfoldable pub decode_frames : ℕ → Text → Option (Option (List DownloadFrame))
decode_frames zero s = none
decode_frames (suc fuel) [] = some (some [])
decode_frames (suc fuel) (c ∷ s) = elim (decode_frame (c ∷ s)) [
  | none ↦ some none
  | some (frame, rest) ↦ elim (decode_frames fuel rest) [
    | none ↦ none
    | some none ↦ some none
    | some (some frames) ↦ some (some (frame ∷ frames))
  ]
]

unfoldable pub decode_download_frames : Text → Option (Option (List DownloadFrame))
decode_download_frames body = decode_frames (length body + 1) body
