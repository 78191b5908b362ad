-- ===== src/Wire/Transfer/Whole.antt =====
-- When an answer goes out whole.
use futo_notes_server.Ids.{valid_blob_key}
use futo_notes_server.Wire.Transfer.{
  Opened, no_file, open_error, file, Sent, send, Streamed, complete, aborted, after, send_key,
  send_opened, send_file, send_empty, stream_keys, stream_blob_batch, max_blob_bytes,
  max_batch_bytes, frame_overhead,
}
use futo_notes_server.Prelude.{
  ◌≡◌, refl, [], ◌∷◌, false, List, Text, ℕ, length, All, Bool, if-elim, ltb, ◌&&◌, ◌+◌, ◌==◌, arith,
  ◌⊎◌, inl, inr,
}

-- Opening tells no error, and a file has the bytes that its size tells.
abbrev pub IsWhole : Opened → Type 0
IsWhole no_file = Unit
IsWhole open_error = ⊥
IsWhole (file size content) = length content ≡ size

abbrev Sends : Sent → Type 0
Sends r = (out : Text) × (written : ℕ) × (sent : Bool) × (r ≡ send out written sent)

send_file-Sends :
    (key : Text) (size : ℕ) (content : Text) (before : ℕ) (sent : Bool)
    → length content ≡ size
    → Sends (send_file key size content before sent)
unfolding send_file send_empty
send_file-Sends key size content before sent whole =
    if-elim Sends (ltb max_blob_bytes size) _ _ (λ _. (_, _, _, refl))
      (λ _.
        if-elim Sends (sent && ltb max_batch_bytes (before + (frame_overhead + length key) + size))
          _ _ (λ _. (_, _, _, refl))
          (λ _.
            if-elim Sends (length content == size) _ _ (λ _. (_, _, _, refl))
              (λ short. absurd (ground (arith, whole, short)))))

send_opened-Sends :
    (key : Text) (o : Opened) (before : ℕ) (sent : Bool)
    → IsWhole o
    → Sends (send_opened key o before sent)
unfolding send_opened send_empty
send_opened-Sends key no_file before sent h = (_, _, _, refl)
send_opened-Sends key open_error before sent h = absurd h
send_opened-Sends key (file size content) before sent h =
    send_file-Sends key size content before sent h

abbrev pub IsComplete : Streamed → Type 0
IsComplete s = (body : Text) × (s ≡ complete body)

after-IsComplete : (out : Text) (s : Streamed) → IsComplete s → IsComplete (after out s)
after-IsComplete out s (body, e) = rw e (_, refl)

module _ (open_file : Text → Opened) (user_id : Text) where
  send_key-Sends :
      (key : Text) (before : ℕ) (sent : Bool)
      → IsWhole (open_file key)
      → Sends (send_key open_file user_id key before sent)
  unfolding send_key send_empty
  send_key-Sends key before sent h =
      if-elim Sends (valid_blob_key user_id key) _ _
        (λ _. send_opened-Sends key (open_file key) before sent h) (λ _. (_, _, _, refl))

  stream_keys-IsComplete :
      (keys : List Text) (before : ℕ) (sent : Bool)
      → All (λ k. IsWhole (open_file k)) keys
      → IsComplete (stream_keys open_file user_id keys before sent)
  unfolding stream_keys
  stream_keys-IsComplete [] before sent h = ([], refl)
  stream_keys-IsComplete (key ∷ keys) before sent h =
      let (out, written, told, e) = send_key-Sends key before sent h.0 in
      rw e (after-IsComplete out _ (stream_keys-IsComplete keys written told h.1))

  -- An answer goes out whole, unless a file cannot be opened or is not as long as its size.
  pub stream_blob_batch-IsComplete :
      (keys : List Text) (s : Streamed)
      → stream_blob_batch open_file user_id keys ≡ s
      → IsComplete s ⊎ (¬ All (λ k. IsWhole (open_file k)) keys)
  unfolding stream_blob_batch
  stream_blob_batch-IsComplete keys (complete body) e = inl (body, refl)
  stream_blob_batch-IsComplete keys (aborted out) e =
      inr λ h. let (body, whole) = stream_keys-IsComplete keys 0 false h in cc
