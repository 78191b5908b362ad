-- ===== src/Server/BlobRoutes/Fetched.antt =====
-- What a client that fetches many blobs gets.
use futo_notes_server.Wire.Transfer.Answered.{AllAnswer}
use futo_notes_server.Wire.Transfer.Stream.{decode_download_frames-stream_blob_batch}
use futo_notes_server.Wire.Transfer.Whole.{IsComplete, IsWhole, stream_blob_batch-IsComplete}
use futo_notes_server.Wire.Transfer.Size.{headers, length-stream_blob_batch}
use futo_notes_server.Prelude.{
  ◌≡◌, refl, [], ◌∷◌, none, some, Text, ℕ, length, List, ◌≤◌, ◌≤◌, Option, ◌*◌, All, Bool-cases,
  ◌*◌, ltb, ◌<◌, ◌<◌, inl, arith, ◌⊎◌, ◌⊎◌, inr, ◌==◌, ◌+◌, ◌+◌, All-mono, some, map, false, ap,
  ◌∙◌, suc,
}
use futo_notes_server.Server.BlobRoutes.{
  too_long, unread, invalid_json, keys_of, refuses, streams, check_keys, max_batch_key_chars,
  add_key, handle_batch_fetch_blobs, FetchAnswer, KeysRead, max_batch_fetch_keys, fetch_checked,
}
use futo_notes_server.Wire.Transfer.{
  complete, Opened, max_blob_bytes, DownloadFrame, decode_download_frames,
}

-- A request that may be answered: its keys are strings, 1 to 200 of them, and none is long.
abbrev pub IsAllowed : (Text → ℕ) → KeysRead → List Text → Type 0
IsAllowed rune_count request keys =
    (request ≡ keys_of (map some keys))
    × (0 < length keys)
    × (length keys ≤ max_batch_fetch_keys)
    × All (λ k. rune_count k ≤ max_batch_key_chars) keys

-- The keys that the check lets pass are those of the request, and none is long.
abbrev Checked : (Text → ℕ) → List (Option Text) → Option (List Text) × Text → Type 0
Checked rune_count asked (none, problem) = ¬ (
    (keys : List Text) × (asked ≡ map some keys)
    × All (λ k. rune_count k ≤ max_batch_key_chars) keys)
Checked rune_count asked (some keys, problem) =
    (asked ≡ map some keys) × All (λ k. rune_count k ≤ max_batch_key_chars) keys

length-map-some : (keys : List Text) → length (map some keys) ≡ length keys
length-map-some [] = refl
length-map-some (k ∷ keys) = ap suc (length-map-some keys)

abbrev keys_in : KeysRead → List (Option Text)
keys_in (keys_of asked) = asked
keys_in _ = []

abbrev first_key : List (Option Text) → Option Text
first_key [] = none
first_key (k ∷ ks) = k

abbrev other_keys : List (Option Text) → List (Option Text)
other_keys [] = []
other_keys (k ∷ ks) = ks

-- A first key that is a string and not long is the first of the keys.
tail_of :
    (rune_count : Text → ℕ) (key : Option Text) (asked : List (Option Text)) (keys : List Text)
    → key ∷ asked ≡ map some keys
    → All (λ k. rune_count k ≤ max_batch_key_chars) keys
    → ((k : Text) × (key ≡ some k) × (rune_count k ≤ max_batch_key_chars))
      × ((rest : List Text) × (asked ≡ map some rest)
          × All (λ k. rune_count k ≤ max_batch_key_chars) rest)
tail_of rune_count key asked [] e short = absurd (cc)
tail_of rune_count key asked (k ∷ keys) e short =
    ((k, ap first_key e, short.0), (keys, ap other_keys e, short.1))

add_key-Checked :
    (rune_count : Text → ℕ) (key : Text) (asked : List (Option Text))
    (r : Option (List Text) × Text)
    → rune_count key ≤ max_batch_key_chars
    → Checked rune_count asked r
    → Checked rune_count (some key ∷ asked) (add_key key r)
add_key-Checked rune_count key asked (none, problem) short h =
    λ given. let (keys, e, all) = given in h (tail_of rune_count (some key) asked keys e all).1
add_key-Checked rune_count key asked (some keys, problem) short h =
    (ap (λ l. some key ∷ l) h.0, (short, h.1))

check_keys-Checked :
    (rune_count : Text → ℕ) (asked : List (Option Text))
    → Checked rune_count asked (check_keys rune_count asked)
unfolding check_keys
check_keys-Checked rune_count [] = (refl, tt)
check_keys-Checked rune_count (none ∷ asked) = λ given.
    let (keys, e, all) = given in
    let ((k, same, short), rest) = tail_of rune_count none asked keys e all in cc
check_keys-Checked rune_count (some key ∷ asked) =
    elim (Bool-cases (ltb max_batch_key_chars (rune_count key))) [
      | inl long ↦ rw long (λ given.
          let (keys, e, all) = given in
          let ((k, same, short), rest) = tail_of rune_count (some key) asked keys e all in
          ground arith)
      | inr short ↦ rw short (
          add_key-Checked rune_count key asked _ (ground arith)
            (check_keys-Checked rune_count asked))
    ]

module _ (rune_count : Text → ℕ) (open_file : Text → Opened) (user_id : Text) where
  -- A refusal is a client's error, of a request that may not be answered. A stream answers the keys
  -- of the request, and one that goes out whole is read as one frame for each of them.
  abbrev pub Fetched : KeysRead → FetchAnswer → Type 0
  Fetched request (refuses r) =
      ((r.status ≡ 400) ⊎ (r.status ≡ 413))
      × (¬ ((keys : List Text) × IsAllowed rune_count request keys))
  Fetched request (streams s) =
      (keys : List Text) × IsAllowed rune_count request keys
      × (IsComplete s ⊎ (¬ All (λ k. IsWhole (open_file k)) keys))
      × ((body : Text)
          → s ≡ complete body
          → (length body ≤ headers keys + max_blob_bytes)
            × ((fs : List DownloadFrame) × (decode_download_frames body ≡ some (some fs))
                × AllAnswer open_file user_id 0 false keys fs))

  refuses_count :
      (asked : List (Option Text))
      → (length asked ≡ 0) ⊎ (max_batch_fetch_keys < length asked)
      → ¬ ((keys : List Text) × IsAllowed rune_count (keys_of asked) keys)
  refuses_count asked wrong given =
      let (keys, (e, some_key, few, short)) = given in
      let count : length asked ≡ length keys =
        ap (λ r. length (keys_in r)) e ∙ length-map-some keys in
      elim wrong [ inl bare ↦ omega arith | inr many ↦ omega arith ]

module _ (rune_count : Text → ℕ) (bytes_of_runes : (s : Text) → length s ≤ 4 * rune_count s)
    (open_file : Text → Opened) (user_id : Text) where
  fetch_checked-Fetched :
      (asked : List (Option Text)) (r : Option (List Text) × Text)
      → 0 < length asked
      → length asked ≤ max_batch_fetch_keys
      → Checked rune_count asked r
      → Fetched rune_count open_file user_id
          (keys_of asked)
          (fetch_checked rune_count open_file user_id r)
  fetch_checked-Fetched asked (none, problem) some_key few h =
      (inl refl, λ given. let (keys, (e, _, _, short)) = given in h (keys, ap keys_in e, short))
  fetch_checked-Fetched asked (some keys, problem) some_key few h =
      let count : length asked ≡ length keys = ap length h.0 ∙ length-map-some keys in
      (
        keys,
        (ap keys_of h.0, omega arith, omega arith, h.1),
        stream_blob_batch-IsComplete open_file user_id keys _ refl,
        λ body e. (
          length-stream_blob_batch open_file user_id keys body e,
          decode_download_frames-stream_blob_batch open_file user_id keys body
              (All-mono (λ k. rune_count k ≤ max_batch_key_chars) (λ k. length k < 65536) keys
                (λ k short. let fits = bytes_of_runes k in omega arith) h.1)
              e,
        ),
      )

  -- A request for many blobs is answered with a stream exactly when its keys are 1 to 200 strings of
  -- at most 128 characters; any other is refused with 400 or 413. The stream goes out whole, unless a
  -- file of a key cannot be opened or is not as long as its size tells. When it goes out whole, it
  -- is at most 100 MiB longer than the headers of its frames, and the client reads from it one frame
  -- for each key of the request, in order: the bytes of the caller's own file, or an empty frame of a
  -- key that is missing or was left out. A character has at most four bytes.
  pub handle_batch_fetch_blobs-Fetched :
      (request : KeysRead)
      → Fetched rune_count open_file user_id request
          (handle_batch_fetch_blobs rune_count open_file user_id request)
  unfolding handle_batch_fetch_blobs
  handle_batch_fetch_blobs-Fetched too_long = (inr refl, λ given. absurd (ground arith))
  handle_batch_fetch_blobs-Fetched unread = (inl refl, λ given. absurd (ground arith))
  handle_batch_fetch_blobs-Fetched invalid_json = (inl refl, λ given. absurd (ground arith))
  handle_batch_fetch_blobs-Fetched (keys_of keys) = elim (Bool-cases (length keys == 0)) [
    | inl bare ↦
        rw bare (inl refl, refuses_count rune_count open_file user_id keys (inl (ground arith)))
    | inr given ↦ elim (Bool-cases (ltb max_batch_fetch_keys (length keys))) [
      | inl many ↦
          rw (given, many)
            (inl refl, refuses_count rune_count open_file user_id keys (inr (ground arith)))
      | inr few ↦
          rw (given, few)
            (fetch_checked-Fetched keys (check_keys rune_count keys) (ground arith) (ground arith)
              (check_keys-Checked rune_count keys))
    ]
  ]
