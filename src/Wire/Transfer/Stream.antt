-- ===== src/Wire/Transfer/Stream.antt =====
-- The reader of an answer gets what the files hold, key by key.
use futo_notes_server.Wire.Transfer.Size.{after-inv}
use futo_notes_server.Wire.Transfer.Answered.{
  missing, omitted, AllAnswer, SendsAnswer, Answers, send_key-SendsAnswer, shipped,
}
use futo_notes_server.Wire.Transfer.Decoded.{frames_bytes, Fits, decode_frames-frames_bytes}
use futo_notes_server.Wire.Transfer.{
  Opened, DownloadFrame, stream_keys, stream_blob_batch, decode_download_frames, Sent, complete,
  send_key, send_then, stop, send,
}
use futo_notes_server.Prelude.{
  ◌≡◌, [], ◌∷◌, false, some, Text, List, ℕ, length, All, ◌<◌, ◌<◌, Bool, ◌+◌, arith, ◌∙◌, ◌∙◌, ap₂,
  ◌++◌, sym, subst₂,
}

complete-inj : (a b : Text) → complete a ≡ complete b → a ≡ b
complete-inj a b e = cc

module _ (open_file : Text → Opened) (user_id : Text) where
  -- Some frames that answer the keys make up the body.
  abbrev Framed : ℕ → Bool → List Text → Text → Type 0
  Framed before sent keys body =
      (fs : List DownloadFrame) × (body ≡ frames_bytes fs)
      × AllAnswer open_file user_id before sent keys fs

  send_then-Framed :
      (key : Text) (keys : List Text) (before : ℕ) (sent : Bool) (r : Sent) (body : Text)
      → SendsAnswer open_file user_id key before sent r
      → ((w : ℕ) (c : Bool) (rest : Text)
          → stream_keys open_file user_id keys w c ≡ complete rest
          → Framed w c keys rest)
      → send_then (stream_keys open_file user_id keys) r ≡ complete body
      → Framed before sent (key ∷ keys) body
  unfolding frames_bytes
  send_then-Framed key keys before sent (stop out) body s ih e = absurd (cc)
  send_then-Framed key keys before sent (send out w c) body (f, bytes, answer, counts, told) ih e =
      let (rest, h, split) = after-inv out (stream_keys open_file user_id keys w c) body e in
      let (fs, more, answers) = ih w c rest h in
      (
        f ∷ fs,
        split ∙ ap₂ ◌++◌ bytes more,
        (answer, subst₂ (λ n b. AllAnswer open_file user_id n b keys fs) counts told answers),
      )

  stream_keys-Framed :
      (keys : List Text) (before : ℕ) (b : Bool) (body : Text)
      → stream_keys open_file user_id keys before b ≡ complete body
      → Framed before b keys body
  unfolding stream_keys frames_bytes
  stream_keys-Framed [] before b body e = ([], sym (complete-inj [] body e), tt)
  stream_keys-Framed (key ∷ keys) before b body e =
      send_then-Framed key keys before b (send_key open_file user_id key before b) body
        (send_key-SendsAnswer open_file user_id key before b) (stream_keys-Framed keys) e

  Answers-Fits :
      (key : Text) (before : ℕ) (b : Bool) (f : DownloadFrame)
      → length key < 65536
      → Answers open_file user_id key before b f
      → Fits f
  Answers-Fits key before b f short (shipped k s v o small room) =
      rw k (short, omega (arith, small))
  Answers-Fits key before b f short (missing k s e why) = rw (k, e) (short, omega arith)
  Answers-Fits key before b f short (omitted size content k s e v o c l) =
      rw (k, e) (short, omega arith)

  AllAnswer-Fits :
      (keys : List Text) (fs : List DownloadFrame) (before : ℕ) (b : Bool)
      → All (λ k. length k < 65536) keys
      → AllAnswer open_file user_id before b keys fs
      → All Fits fs
  AllAnswer-Fits [] [] before b short a = tt
  AllAnswer-Fits [] (f ∷ fs) before b short a = absurd a
  AllAnswer-Fits (k ∷ ks) [] before b short a = absurd a
  AllAnswer-Fits (k ∷ ks) (f ∷ fs) before b short a =
      (Answers-Fits k before b f short.0 a.0, AllAnswer-Fits ks fs _ _ short.1 a.1)

  -- A client that reads a whole answer gets one frame for each key, in the order in which it asked.
  -- A frame with bytes has those of the user's own file. An empty one tells that the key is missing
  -- only for a key that is not the user's or has no file of at most 100 MiB, and that it is left out
  -- only for a file of the user by which the answer, with a file in it already, would pass 32 MiB;
  -- nor does an answer with a file in it pass 32 MiB by another file. The keys are shorter than 64
  -- KiB, as the handler's limit of 128 characters makes them.
  pub decode_download_frames-stream_blob_batch :
      (keys : List Text) (body : Text)
      → All (λ k. length k < 65536) keys
      → stream_blob_batch open_file user_id keys ≡ complete body
      → (fs : List DownloadFrame) × (decode_download_frames body ≡ some (some fs))
        × AllAnswer open_file user_id 0 false keys fs
  unfolding stream_blob_batch decode_download_frames
  decode_download_frames-stream_blob_batch keys body short e =
      let (fs, bytes, answers) = stream_keys-Framed keys 0 false body e in
      (
        fs,
        rw bytes (
            decode_frames-frames_bytes (length (frames_bytes fs) + 1) fs (omega arith)
              (AllAnswer-Fits keys fs 0 false short answers)),
        answers,
      )
