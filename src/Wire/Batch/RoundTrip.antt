-- ===== src/Wire/Batch/RoundTrip.antt =====
-- The batch parser accepts exactly what the frame writer writes.
use futo_notes_server.Ids.{valid_mutation_id, valid_uuid}
use futo_notes_server.Wire.Numbers.{
  split_uint16, be16, be32, split_uint32, split_uint16-be16, split_uint32-be32, split_bytes-append,
}
use futo_notes_server.Wire.Batch.{
  BatchEntry, parse_entry, parsed, parse_entries, parse_batch, batch_entry_frame, batch_frames,
  max_batch_entries,
}
use futo_notes_server.Prelude.{
  ◌≡◌, refl, [], ◌∷◌, ◌++◌, zero, suc, true, false, some, Text, Bool, length, ◌<◌, ◌<◌, ◌%◌, ◌⊎◌,
  ◌⊎◌, arith, ltb, not, ◌==◌, ◌&&◌, append_assoc, List, ◌≤◌, ◌≤◌, ℕ, ◌+◌, All, length-append, ap,
}

shorter-append : (x : ℕ) (xs ys : Text) → length ys < length ((x ∷ xs) ++ ys)
shorter-append x xs ys = omega (arith, length-append xs ys)

frame-longer : (e : BatchEntry) (s : Text) → length s < length (batch_entry_frame e ++ s)
unfolding batch_entry_frame
frame-longer e s =
    shorter-append e.operation
      (be16 (length e.identifier % 65536)
        ++ (e.identifier ++ (be32 e.version ++ (be32 (length e.blob % 4294967296) ++ e.blob))))
      s

pub frame-append :
    (e : BatchEntry) (s : Text)
    → batch_entry_frame e ++ s
      ≡ e.operation
        ∷ (be16 (length e.identifier % 65536)
            ++ (e.identifier
                ++ (be32 e.version ++ (be32 (length e.blob % 4294967296) ++ (e.blob ++ s)))))
unfolding batch_entry_frame be16 be32
frame-append e s = simp append_assoc

module _ (utf8_valid : Text → Bool) where
  -- An entry that a client may send.
  pub record IsEntry (e : BatchEntry) : Type 0 where
    pub readable : utf8_valid e.identifier ≡ true
    pub short : length e.identifier < 65536
    pub versioned : e.version < 4294967296
    pub blob_fits : length e.blob < 4294967296
    pub blob_there : 0 < length e.blob
    pub operation :
        ((e.operation ≡ 0) × (valid_mutation_id e.identifier ≡ true) × (e.version ≡ 0))
        ⊎ ((e.operation ≡ 1) × (valid_uuid e.identifier ≡ true) × (0 < e.version))

  split_entry :
      (e : BatchEntry) (s : Text)
      → IsEntry e
      → (split_uint16 (
            be16 (length e.identifier % 65536)
            ++ (e.identifier
                ++ (be32 e.version ++ (be32 (length e.blob % 4294967296) ++ (e.blob ++ s)))))
          ≡ some (
            length e.identifier,
            e.identifier
                ++ (be32 e.version ++ (be32 (length e.blob % 4294967296) ++ (e.blob ++ s))),
          ))
        × (split_uint32 (be32 (length e.blob % 4294967296) ++ (e.blob ++ s))
            ≡ some (length e.blob, e.blob ++ s))
  split_entry e s v =
      let short : length e.identifier % 65536 ≡ length e.identifier = omega (arith, v.short) in
      let fits : length e.blob % 4294967296 ≡ length e.blob = omega (arith, v.blob_fits) in
      (rw short (split_uint16-be16 _ _ v.short), rw fits (split_uint32-be32 _ _ v.blob_fits))

  -- No test of the parser fires on such an entry.
  no_refusal :
      (e : BatchEntry)
      → IsEntry e
      → (ltb 1 e.operation ≡ false)
        × (not (utf8_valid e.identifier) ≡ false)
        × (e.operation == 0 && not (valid_mutation_id e.identifier) ≡ false)
        × (e.operation == 1 && not (valid_uuid e.identifier) ≡ false)
        × (e.operation == 0 && not (e.version == 0) ≡ false)
        × (e.operation == 1 && e.version == 0 ≡ false)
        × ((length e.blob == 0) ≡ false)
  no_refusal e v = ground (arith, v)

  -- An entry that is written is read back, and what follows it is left.
  pub parse_entry-frame :
      (e : BatchEntry) (s : Text)
      → IsEntry e
      → parse_entry utf8_valid e.operation (
          be16 (length e.identifier % 65536)
          ++ (e.identifier
              ++ (be32 e.version ++ (be32 (length e.blob % 4294967296) ++ (e.blob ++ s)))))
        ≡ parsed (e, s)
  unfolding parse_entry
  parse_entry-frame e s v =
      let (first, last) = split_entry e s v in
      let (f₁, f₂, f₃, f₄, f₅, f₆, f₇) = no_refusal e v in
      let after_id = be32 e.version ++ (be32 (length e.blob % 4294967296) ++ (e.blob ++ s)) in
      rw (
        f₁,
        first,
        split_bytes-append e.identifier after_id,
        f₂,
        f₃,
        f₄,
        split_uint32-be32 e.version (be32 (length e.blob % 4294967296) ++ (e.blob ++ s))
            v.versioned,
        f₅,
        f₆,
        last,
        f₇,
        split_bytes-append e.blob s,
      )

  -- A frame, with what follows it, in the shape that the parser takes apart.

  parse_entries-frames :
      (fuel count : ℕ) (es : List BatchEntry)
      → length (batch_frames es) < fuel
      → count + length es ≤ max_batch_entries
      → All IsEntry es
      → parse_entries utf8_valid fuel count (batch_frames es) ≡ some (parsed es)
  unfolding parse_entries batch_frames
  parse_entries-frames zero count es enough few v = absurd (omega arith)
  parse_entries-frames (suc fuel) count [] enough few v = refl
  parse_entries-frames (suc fuel) count (e ∷ es) enough few v =
      let rest =
        parse_entries-frames fuel (count + 1) es
          (omega (arith, ap length (frame-append e (batch_frames es)), shorter)) (omega arith)
          v.1 in
      rw (frame-append e (batch_frames es), below, parse_entry-frame e (batch_frames es) v.0, rest)
    where
      shorter : length (batch_frames es) < length (batch_entry_frame e ++ batch_frames es)
      shorter = frame-longer e (batch_frames es)

      below : (count == max_batch_entries) ≡ false
      below = ground arith

  -- Any batch of 1 to 200 well-formed entries is parsed back as it was written.
  pub parse_batch-frames :
      (e : BatchEntry) (es : List BatchEntry)
      → length (e ∷ es) ≤ max_batch_entries
      → All IsEntry (e ∷ es)
      → parse_batch utf8_valid (batch_frames (e ∷ es)) ≡ some (parsed (e ∷ es))
  unfolding parse_batch
  parse_batch-frames e es few v = rw (
      parse_entries-frames (length (batch_frames (e ∷ es)) + 1) 0 (e ∷ es) (omega arith)
        (omega arith) v)
