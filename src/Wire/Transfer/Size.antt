-- ===== src/Wire/Transfer/Size.antt =====
-- How much of a whole answer is streamed.
use futo_notes_server.Ids.{valid_blob_key}
use futo_notes_server.Wire.Numbers.{be16, be32}
use futo_notes_server.Wire.Transfer.{
  send_file, frame_header, send_empty, send_opened, Streamed, frame_overhead, Opened, after,
  stream_keys, stream_blob_batch, send_key, Sent, frame_missing, max_batch_bytes, complete, stop,
  file, max_blob_bytes, aborted, no_file, send, open_error, frame_ok, frame_omitted, send_then,
}
use futo_notes_server.Prelude.{
  ◌≡◌, refl, [], ◌∷◌, true, false, List, Text, ℕ, Bool, if-elim, ◌+◌, arith, ltb, ◌-◌, length, ◌-◌,
  ◌≤◌, ◌≤◌, length-append, ◌&&◌, ◌++◌, ap, ◌%◌, ◌==◌, ==_iff,
}

-- What the headers of the keys take.
unfoldable pub headers : List Text → ℕ
headers [] = 0
headers (key ∷ keys) = frame_overhead + length key + headers keys

-- What may still be shipped.
abbrev room : ℕ → Bool → ℕ
room written true = max_batch_bytes - written
room written false = max_blob_bytes

abbrev SendsWithin : Text → ℕ → Bool → Sent → Type 0
SendsWithin key written shipped (stop out) = Unit
SendsWithin key written shipped (send out written' shipped') =
    length out + room written' shipped' ≤ frame_overhead + length key + room written shipped

pub length-frame_header :
    (key : Text) (status n : ℕ) → length (frame_header key status n) ≡ frame_overhead + length key
unfolding frame_header be16 be32
length-frame_header key status n = omega (arith, length-append key (status ∷ be32 (n % 4294967296)))

room_mono : (w n : ℕ) (b : Bool) → room (w + n) b ≤ room w b
room_mono w n true = omega arith
room_mono w n false = omega arith

send_empty-SendsWithin :
    (key : Text) (status written : ℕ) (b : Bool)
    → SendsWithin key written b (send_empty key status written b)
unfolding send_empty
send_empty-SendsWithin key status written b =
    omega
      (arith, length-frame_header key status 0, room_mono written (frame_overhead + length key) b)

shipped-SendsWithin :
    (key : Text) (size : ℕ) (copied : Text) (written : ℕ) (b : Bool)
    → ltb max_blob_bytes size ≡ false
    → (b && ltb max_batch_bytes (written + (frame_overhead + length key) + size)) ≡ false
    → length copied ≡ size
    → SendsWithin key written b (
        send
          (frame_header key frame_ok size ++ copied)
          (written + (frame_overhead + length key + size))
          true)
shipped-SendsWithin key size copied written true small fits whole = ground (
  arith,
  length-append (frame_header key frame_ok size) copied,
  length-frame_header key frame_ok size,
)
shipped-SendsWithin key size copied written false small fits whole = ground (
  arith,
  length-append (frame_header key frame_ok size) copied,
  length-frame_header key frame_ok size,
)

send_file-SendsWithin :
    (key : Text) (size : ℕ) (copied : Text) (written : ℕ) (b : Bool)
    → SendsWithin key written b (send_file key size copied written b)
unfolding send_file
send_file-SendsWithin key size copied written b =
    if-elim (SendsWithin key written b) (ltb max_blob_bytes size) _ _
      (λ _. send_empty-SendsWithin key frame_missing written b)
      (λ small.
        if-elim (SendsWithin key written b)
          (b && ltb max_batch_bytes (written + (frame_overhead + length key) + size)) _ _
          (λ _. send_empty-SendsWithin key frame_omitted written b)
          (λ fits.
            if-elim (SendsWithin key written b) (length copied == size) _ _
              (λ whole.
                shipped-SendsWithin key size copied written b small fits
                  ((==_iff (length copied) size).0 whole))
              (λ _. tt)))

send_opened-SendsWithin :
    (key : Text) (o : Opened) (written : ℕ) (b : Bool)
    → SendsWithin key written b (send_opened key o written b)
unfolding send_opened
send_opened-SendsWithin key no_file written b = send_empty-SendsWithin key frame_missing written b
send_opened-SendsWithin key open_error written b = tt
send_opened-SendsWithin key (file size copied) written b =
    send_file-SendsWithin key size copied written b

-- A whole answer that went on from a key.
pub after-inv :
    (out : Text) (r : Streamed) (body : Text)
    → after out r ≡ complete body
    → (rest : Text) × (r ≡ complete rest) × (body ≡ out ++ rest)
after-inv out (complete rest) body e = (rest, refl, ground arith)
after-inv out (aborted rest) body e = absurd (cc)

module _ (open_file : Text → Opened) (user_id : Text) where
  send_key-SendsWithin :
      (key : Text) (written : ℕ) (b : Bool)
      → SendsWithin key written b (send_key open_file user_id key written b)
  unfolding send_key
  send_key-SendsWithin key written b =
      if-elim (SendsWithin key written b) (valid_blob_key user_id key) _ _
        (λ _. send_opened-SendsWithin key (open_file key) written b)
        (λ _. send_empty-SendsWithin key frame_missing written b)

  send_then-bounds :
      (key : Text) (keys : List Text) (written : ℕ) (b : Bool) (r : Sent) (body : Text)
      → SendsWithin key written b r
      → ((w : ℕ) (c : Bool) (rest : Text)
          → stream_keys open_file user_id keys w c ≡ complete rest
          → length rest ≤ headers keys + room w c)
      → send_then (stream_keys open_file user_id keys) r ≡ complete body
      → length body ≤ headers (key ∷ keys) + room written b
  unfolding headers
  send_then-bounds key keys written b (stop out) body s ih e = absurd (cc)
  send_then-bounds key keys written b (send out w c) body s ih e =
      let (rest, h, split) = after-inv out (stream_keys open_file user_id keys w c) body e in
      omega (arith, s, ih w c rest h, ap length split, length-append out rest)

  stream_keys-bounds :
      (keys : List Text) (written : ℕ) (b : Bool) (body : Text)
      → stream_keys open_file user_id keys written b ≡ complete body
      → length body ≤ headers keys + room written b
  unfolding stream_keys headers
  stream_keys-bounds [] written b body e =
      let empty : [] ≡ body = ground arith in omega (arith, ap length empty)
  stream_keys-bounds (key ∷ keys) written b body e =
      send_then-bounds key keys written b (send_key open_file user_id key written b) body
        (send_key-SendsWithin key written b) (stream_keys-bounds keys) e

  -- A whole answer is at most a blob of 100 MiB longer than the headers of its keys, however many
  -- blobs were asked for: after the first blob, one that would take the answer past 32 MiB is
  -- left out.
  pub length-stream_blob_batch :
      (keys : List Text) (body : Text)
      → stream_blob_batch open_file user_id keys ≡ complete body
      → length body ≤ headers keys + max_blob_bytes
  unfolding stream_blob_batch
  length-stream_blob_batch keys body e = stream_keys-bounds keys 0 false body e
