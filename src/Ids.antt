-- ===== src/Ids.antt =====
-- The identifiers that clients send: internal/objects/objects.go (ValidMutationID, ValidUUID,
-- ValidBlobKey), and the copies of the UUID test in internal/collections/collections.go (isUUID)
-- and internal/jobs/jobs.go (validUUID).
use futo_notes_server.Prelude.{
  ℕ, ◌+◌, Bool, true, false, ◌&&◌, ◌||◌, [], ◌∷◌, Text, text_eq, length, take, drop, ltb, leb, ◌==◌,
  if◌then◌else◌,
}

abbrev pub in_range : ℕ → ℕ → ℕ → Bool
in_range lo hi c = leb lo c && leb c hi

unfoldable pub is_hex : ℕ → Bool
is_hex c = in_range b'0' b'9' c || in_range b'a' b'f' c || in_range b'A' b'F' c

unfoldable pub is_dash_position : ℕ → Bool
is_dash_position i = i == 8 || i == 13 || i == 18 || i == 23

-- The body of the loop at index `i`, and the rounds after it.
unfoldable pub uuid_bytes : ℕ → Text → Bool
unfolding is_hex is_dash_position
uuid_bytes i [] = true
uuid_bytes i (c ∷ s) =
    let rest = uuid_bytes (i + 1) s in
    if is_dash_position i
    then (if c == b'-' then rest else false)
    else (if is_hex c then rest else false)

unfoldable pub valid_uuid : Text → Bool
unfolding uuid_bytes
valid_uuid s = if length s == 36 then uuid_bytes 0 s else false

-- key[:36] == userID && key[36] == '/' && ValidUUID(key[37:])
unfoldable pub slash_uuid : Text → Bool
unfolding valid_uuid
slash_uuid [] = false
slash_uuid (c ∷ s) = c == b'/' && valid_uuid s

unfoldable pub valid_blob_key : Text → Text → Bool
unfolding slash_uuid
valid_blob_key user_id key =
    length user_id == 36
    && (length key == 73 && (text_eq (take 36 key) user_id && slash_uuid (drop 36 key)))

-- The class [A-Za-z0-9._~-].
unfoldable pub is_mutation_id_byte : ℕ → Bool
is_mutation_id_byte c =
    in_range b'A' b'Z' c
    || in_range b'a' b'z' c
    || in_range b'0' b'9' c
    || c == b'.'
    || c == b'_'
    || c == b'~'
    || c == b'-'

unfoldable pub mutation_id_bytes : Text → Bool
unfolding is_mutation_id_byte
mutation_id_bytes [] = true
mutation_id_bytes (c ∷ s) = is_mutation_id_byte c && mutation_id_bytes s

-- ^[A-Za-z0-9._~-]{1,128}$
unfoldable pub valid_mutation_id : Text → Bool
unfolding mutation_id_bytes
valid_mutation_id s = ltb 0 (length s) && (leb (length s) 128 && mutation_id_bytes s)
