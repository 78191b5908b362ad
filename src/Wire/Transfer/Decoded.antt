-- ===== src/Wire/Transfer/Decoded.antt =====
-- What is streamed is read back: one frame for each key.
use futo_notes_server.Wire.Numbers.{
  be32, be16, split_uint16-be16, split_bytes-append, split_uint32-be32, split_uint16,
}
use futo_notes_server.Wire.Transfer.{
  decode_frames, decode_frame, DownloadFrame, frame_header, decode_blob, frame_overhead,
}
use futo_notes_server.Prelude.{
  ◌≡◌, refl, [], ◌∷◌, false, some, zero, suc, List, ℕ, length, Text, ◌++◌, ◌<◌, ◌%◌, All,
  append_assoc, arith, ltb, ◌+◌, length-append,
}

unfoldable pub frame_bytes : DownloadFrame → Text
frame_bytes f = frame_header f.key f.status (length f.blob) ++ f.blob

unfoldable pub frames_bytes : List DownloadFrame → Text
frames_bytes [] = []
frames_bytes (f ∷ fs) = frame_bytes f ++ frames_bytes fs

frame_bytes-append :
    (f : DownloadFrame) (s : Text)
    → frame_bytes f ++ s
      ≡ be16 (length f.key % 65536)
        ++ (f.key ++ (f.status ∷ (be32 (length f.blob % 4294967296) ++ (f.blob ++ s))))
unfolding frame_bytes frame_header be16 be32
frame_bytes-append f s = simp append_assoc

length-be32 : (n : ℕ) → length (be32 n) ≡ 4
unfolding be32
length-be32 n = refl

decode_frame-frame_bytes :
    (f : DownloadFrame) (s : Text)
    → length f.key < 65536
    → length f.blob < 4294967296
    → decode_frame (frame_bytes f ++ s) ≡ some (f, s)
unfolding decode_frame decode_blob
decode_frame-frame_bytes f s short fits =
    let key_fits : length f.key % 65536 ≡ length f.key = omega (arith, short) in
    let blob_fits : length f.blob % 4294967296 ≡ length f.blob = omega (arith, fits) in
    let tail = f.status ∷ (be32 (length f.blob) ++ (f.blob ++ s)) in
    let long : ltb (length (f.key ++ tail)) (length f.key + 5) ≡ false = ground (
      arith,
      length-append f.key tail,
      length-append (be32 (length f.blob)) (f.blob ++ s),
      length-be32 (length f.blob),
    ) in
    rw (
      frame_bytes-append f s,
      key_fits,
      blob_fits,
      split_uint16-be16 (length f.key) (f.key ++ tail) short,
      long,
      split_bytes-append f.key tail,
      split_uint32-be32 (length f.blob) (f.blob ++ s) fits,
      split_bytes-append f.blob s,
    )

pub length-frame_bytes :
    (f : DownloadFrame) → length (frame_bytes f) ≡ frame_overhead + length f.key + length f.blob
unfolding frame_bytes frame_header be16
length-frame_bytes f = omega (
  arith,
  length-append (frame_header f.key f.status (length f.blob)) f.blob,
  length-append f.key (f.status ∷ be32 (length f.blob % 4294967296)),
  length-be32 (length f.blob % 4294967296),
)

decode_frames-step :
    (fuel : ℕ) (s r : Text) (f : DownloadFrame) (fs : List DownloadFrame)
    → decode_frame s ≡ some (f, r)
    → decode_frames fuel r ≡ some (some fs)
    → decode_frames (suc fuel) s ≡ some (some (f ∷ fs))
unfolding decode_frames
decode_frames-step fuel [] r f fs e h = absurd (unfold decode_frame split_uint16 in cc)
decode_frames-step fuel (c ∷ s) r f fs e h = rw (e, decode_frames) (rw (h, decode_frames) refl)

abbrev pub Fits : DownloadFrame → Type 0
Fits f = (length f.key < 65536) × (length f.blob < 4294967296)

-- The rounds that are needed: one more than the body has bytes.
pub decode_frames-frames_bytes :
    (fuel : ℕ) (fs : List DownloadFrame)
    → length (frames_bytes fs) < fuel
    → All Fits fs
    → decode_frames fuel (frames_bytes fs) ≡ some (some fs)
unfolding decode_frames frames_bytes
decode_frames-frames_bytes zero fs enough v = absurd (omega arith)
decode_frames-frames_bytes (suc fuel) [] enough v = refl
decode_frames-frames_bytes (suc fuel) (f ∷ fs) enough v =
    decode_frames-step fuel (frame_bytes f ++ frames_bytes fs) (frames_bytes fs) f fs
      (decode_frame-frame_bytes f (frames_bytes fs) v.0.0 v.0.1)
      (decode_frames-frames_bytes fuel fs
        (omega (arith, length-append (frame_bytes f) (frames_bytes fs), length-frame_bytes f)) v.1)
