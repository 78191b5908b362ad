-- ===== src/Tests/Transfers.antt =====
-- The answer to a fetch of many blobs at concrete inputs.
use futo_notes_server.Ids.{valid_blob_key}
use futo_notes_server.Wire.Transfer.Stream.{decode_download_frames-stream_blob_batch}
use futo_notes_server.Wire.Transfer.Answered.{AllAnswer}
use futo_notes_server.Wire.Transfer.Size.{headers, length-stream_blob_batch}
use futo_notes_server.Prelude.{
  ◌≡◌, refl, [], ◌∷◌, some, false, length, List, Text, ◌≤◌, codes, ◌≤◌, ◌++◌, if◌then◌else◌, ◌++◌,
  ◌+◌, text_eq, ◌+◌, arith,
}
use futo_notes_server.Tests.World.{ann, blob}
use futo_notes_server.Wire.Transfer.{
  file, no_file, complete, stream_blob_batch, frame_header, Opened, stream_keys, DownloadFrame,
  decode_download_frames, send_key, send_opened, send_file, max_blob_bytes, send_empty,
}

abbrev pub stored_file : Text → Opened
stored_file key = if text_eq key blob then file 3 (1 ∷ 2 ∷ 3 ∷ []) else no_file

abbrev pub asked : List Text
asked = blob ∷ codes "x" ∷ []

abbrev answer : Text
answer = frame_header blob 0 3 ++ (1 ∷ 2 ∷ 3 ∷ []) ++ (frame_header (codes "x") 1 0 ++ [])

asked_streams : stream_blob_batch stored_file ann asked ≡ complete answer
unfolding stream_blob_batch stream_keys send_key send_opened send_file send_empty valid_blob_key
    text_eq
asked_streams = refl

length-stream_blob_batch_example : length answer ≤ headers asked + max_blob_bytes
length-stream_blob_batch_example =
    length-stream_blob_batch stored_file ann asked answer asked_streams

decode_download_frames-stream_blob_batch_example :
    (fs : List DownloadFrame) × (decode_download_frames answer ≡ some (some fs))
    × AllAnswer stored_file ann 0 false asked fs
decode_download_frames-stream_blob_batch_example =
    decode_download_frames-stream_blob_batch stored_file ann asked answer
      (omega arith, (omega arith, tt)) asked_streams
