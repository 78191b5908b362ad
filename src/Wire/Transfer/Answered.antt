-- ===== src/Wire/Transfer/Answered.antt =====
-- What the frame of each key tells, and when.
use futo_notes_server.Wire.Transfer.Decoded.{frame_bytes, length-frame_bytes}
use futo_notes_server.Ids.{valid_blob_key}
use futo_notes_server.Wire.Transfer.{
  DownloadFrame, frame_header, Opened, frame_overhead, Sent, send_file, send_key, frame_ok, stop,
  send_empty, send, file, send_opened, max_blob_bytes, frame_missing, no_file, frame_omitted,
  max_batch_bytes, open_error,
}
use futo_notes_server.Prelude.{
  ◌≡◌, refl, [], ◌∷◌, true, false, List, ℕ, length, Text, ◌++◌, ◌<◌, arith, ltb, ◌+◌, sym,
  append-nil, Bool, ◌≤◌, if-elim, ◌&&◌, ◌==◌, ==_iff, ◌⊎◌, inl, inr, ◌||◌, ltb→lt, &&-left,
  &&-right, Bool-cases,
}

module _ (open_file : Text → Opened) (user_id : Text) where
  -- When a key has no bytes to send: it is not one of the user's, there is no file, or one that is
  -- larger than a blob may be.
  abbrev pub IsMissing : Text → Type 0
  IsMissing key =
      (valid_blob_key user_id key ≡ false)
      ⊎ (open_file key ≡ no_file)
      ⊎ ((size : ℕ) × (content : Text) × (open_file key ≡ file size content)
          × (max_blob_bytes < size))

  -- The frame of a key after so many bytes of the body, with a file among them or not: it tells the
  -- file, or that there is none for the user, or that the answer would get too long by it.
  pub data Answers (key : Text) (before : ℕ) (some_sent : Bool) (f : DownloadFrame) : Type 0 where
    shipped :
        f.key ≡ key
        → f.status ≡ frame_ok
        → valid_blob_key user_id key ≡ true
        → open_file key ≡ file (length f.blob) f.blob
        → length f.blob ≤ max_blob_bytes
        → (some_sent ≡ false)
          ⊎ (before + (frame_overhead + length key) + length f.blob ≤ max_batch_bytes)
        → Answers key before some_sent f
    missing :
        f.key ≡ key
        → f.status ≡ frame_missing
        → f.blob ≡ []
        → IsMissing key
        → Answers key before some_sent f
    omitted :
        (size : ℕ) (content : Text)
        → f.key ≡ key
        → f.status ≡ frame_omitted
        → f.blob ≡ []
        → valid_blob_key user_id key ≡ true
        → open_file key ≡ file size content
        → some_sent ≡ true
        → max_batch_bytes < before + (frame_overhead + length key) + size
        → Answers key before some_sent f

  -- Each key has its frame, by what the frames before it hold.
  abbrev pub AllAnswer : ℕ → Bool → List Text → List DownloadFrame → Type 0
  AllAnswer before some_sent [] [] = Unit
  AllAnswer before some_sent (key ∷ keys) (f ∷ fs) =
      Answers key before some_sent f
      × AllAnswer (before + length (frame_bytes f)) (some_sent || f.status == frame_ok) keys fs
  AllAnswer before some_sent _ _ = ⊥

  abbrev pub SendsAnswer : Text → ℕ → Bool → Sent → Type 0
  SendsAnswer key before some_sent (stop out) = Unit
  SendsAnswer key before some_sent (send out written sent) =
      (f : DownloadFrame) × (out ≡ frame_bytes f)
      × Answers key before some_sent f
      × (written ≡ before + length (frame_bytes f))
      × (sent ≡ (some_sent || f.status == frame_ok))

  empty_frame : Text → ℕ → DownloadFrame
  empty_frame key status = record { key = key; status = status; blob = [] }

  send_empty-bytes :
      (key : Text) (status : ℕ) → frame_header key status 0 ≡ frame_bytes (empty_frame key status)
  unfolding empty_frame frame_bytes
  send_empty-bytes key status = sym (append-nil (frame_header key status 0))

  length-empty_frame :
      (key : Text) (status : ℕ)
      → length (frame_bytes (empty_frame key status)) ≡ frame_overhead + length key
  unfolding empty_frame
  length-empty_frame key status =
      omega (arith, length-frame_bytes (record { key = key; status = status; blob = [] }))

  send_empty-missing :
      (key : Text) (before : ℕ) (sent : Bool)
      → IsMissing key
      → SendsAnswer key before sent (send_empty key frame_missing before sent)
  unfolding send_empty empty_frame
  send_empty-missing key before sent why = (
    empty_frame key frame_missing,
    send_empty-bytes key frame_missing,
    missing refl refl refl why,
    omega (arith, length-empty_frame key frame_missing),
    ground arith,
  )

  send_empty-omitted :
      (key : Text) (size : ℕ) (content : Text) (before : ℕ) (sent : Bool)
      → valid_blob_key user_id key ≡ true
      → open_file key ≡ file size content
      → sent ≡ true
      → max_batch_bytes < before + (frame_overhead + length key) + size
      → SendsAnswer key before sent (send_empty key frame_omitted before sent)
  unfolding send_empty empty_frame
  send_empty-omitted key size content before sent valid opened some_sent long = (
    empty_frame key frame_omitted,
    send_empty-bytes key frame_omitted,
    omitted size content refl refl refl valid opened some_sent long,
    omega (arith, length-empty_frame key frame_omitted),
    ground arith,
  )

  send_whole :
      (key : Text) (size : ℕ) (copied : Text) (before : ℕ) (sent : Bool)
      → valid_blob_key user_id key ≡ true
      → open_file key ≡ file size copied
      → length copied ≡ size
      → size ≤ max_blob_bytes
      → (sent ≡ false) ⊎ (before + (frame_overhead + length key) + size ≤ max_batch_bytes)
      → SendsAnswer key before sent (
          send
            (frame_header key frame_ok size ++ copied)
            (before + (frame_overhead + length key + size))
            true)
  send_whole key size copied before sent valid opened same small room = (
    record { key = key; status = frame_ok; blob = copied },
    unfold frame_bytes in rw same refl,
    shipped refl refl valid (rw same opened) (omega arith) (rw same room),
    omega
        (arith, same, length-frame_bytes (record { key = key; status = frame_ok; blob = copied })),
    ground arith,
  )

  send_file-SendsAnswer :
      (key : Text) (size : ℕ) (copied : Text) (before : ℕ) (sent : Bool)
      → valid_blob_key user_id key ≡ true
      → open_file key ≡ file size copied
      → SendsAnswer key before sent (send_file key size copied before sent)
  unfolding send_file
  send_file-SendsAnswer key size copied before sent valid opened =
      if-elim (SendsAnswer key before sent) (ltb max_blob_bytes size) _ _
        (λ large.
          send_empty-missing key before sent (inr (inr (size, copied, opened, ltb→lt _ _ large))))
        (λ small.
          if-elim (SendsAnswer key before sent)
            (sent && ltb max_batch_bytes (before + (frame_overhead + length key) + size)) _ _
            (λ long.
              send_empty-omitted key size copied before sent valid opened (&&-left _ _ long)
                (ltb→lt _ _ (&&-right sent _ long)))
            (λ room.
              if-elim (SendsAnswer key before sent) (length copied == size) _ _
                (λ whole.
                  send_whole key size copied before sent valid opened
                    ((==_iff (length copied) size).0 whole) (ground (arith, small))
                    (elim (Bool-cases sent) [
                      | inl yet ↦ inr (ground (arith, room, yet))
                      | inr first ↦ inl first
                    ]))
                (λ _. tt)))

  pub send_key-SendsAnswer :
      (key : Text) (before : ℕ) (sent : Bool)
      → SendsAnswer key before sent (send_key open_file user_id key before sent)
  unfolding send_key
  send_key-SendsAnswer key before sent =
      if-elim (SendsAnswer key before sent) (valid_blob_key user_id key) _ _
        (λ valid. opened valid (open_file key) refl)
        (λ foreign. send_empty-missing key before sent (inl foreign))
    where
      opened :
          valid_blob_key user_id key ≡ true
          → (o : Opened) → open_file key ≡ o
          → SendsAnswer key before sent (send_opened key o before sent)
      opened valid no_file e =
          unfold send_opened in send_empty-missing key before sent (inr (inl e))
      opened valid open_error e = unfold send_opened in tt
      opened valid (file size copied) e =
          unfold send_opened in send_file-SendsAnswer key size copied before sent valid e
