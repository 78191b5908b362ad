-- ===== src/Wire/Batch.antt =====
-- The upload batch: parseBatch of cmd/server/objects.go, and batchEntryFrame of
-- cmd/compare/frames.go, which writes what it reads.
pub mod RoundTrip
pub mod Total
use futo_notes_server.Ids.{valid_mutation_id, valid_uuid}
use futo_notes_server.Wire.Numbers.{be16, be32, split_uint16, split_bytes, split_uint32}
use mathlib.Core.Option
use futo_notes_server.Prelude.{
  ℕ, zero, suc, ◌+◌, ◌%◌, ◌^◌, ◌≡◌, refl, [], ◌∷◌, ◌++◌, none, some, true, false, Option, Bool,
  Text, List, if◌then◌else◌, length, ltb, ◌==◌, ◌==◌, not, ◌&&◌, ◌&&◌,
}

pub record BatchEntry : Type 0 where
  pub operation : ℕ
  pub identifier : Text
  pub version : ℕ
  pub blob : Text

-- The texts of the refusals.
pub data BatchError : Type 0 where
  too_many_entries invalid_operation truncated_id_length truncated_identifier : BatchError
  invalid_identifier invalid_create_id invalid_update_id truncated_version : BatchError
  create_version_not_zero update_version_not_positive truncated_blob_length : BatchError
  empty_blob truncated_blob no_entries : BatchError

pub data Parsed {ℓ} (A : Type ℓ) : Type ℓ where
  parsed : A → Parsed A
  refused : BatchError → Parsed A

infixl 5 ◌>>=◌ ◌>>◌
abbrev pub ◌>>=◌ {ℓ κ} : {A : Type ℓ} {B : Type κ} → Parsed A → (A → Parsed B) → Parsed B
parsed a >>= f = f a
refused e >>= f = refused e

abbrev pub ◌>>◌ {ℓ} : {B : Type ℓ} → Parsed (Unit {0}) → Parsed B → Parsed B
m >> k = m >>= λ _. k

-- A condition under which the parser returns an error.
abbrev pub refuse_if : Bool → BatchError → Parsed (Unit {0})
refuse_if true e = refused e
refuse_if false e = parsed tt

abbrev pub or_refuse {ℓ} : {A : Type ℓ} → Option A → BatchError → Parsed A
or_refuse none e = refused e
or_refuse (some a) e = parsed a

abbrev pub max_batch_entries : ℕ
max_batch_entries = 200

-- utf8.Valid is the standard library's.
module _ (utf8_valid : Text → Bool) where
  -- One round of the loop: `op` is body[offset], `s` what follows it.
  unfoldable pub parse_entry : ℕ → Text → Parsed (BatchEntry × Text)
  parse_entry op s = do
    refuse_if (ltb 1 op) invalid_operation
    (id_length, s) ← or_refuse (split_uint16 s) truncated_id_length
    (identifier, s) ← or_refuse (split_bytes id_length s) truncated_identifier
    refuse_if (not (utf8_valid identifier)) invalid_identifier
    refuse_if (op == 0 && not (valid_mutation_id identifier)) invalid_create_id
    refuse_if (op == 1 && not (valid_uuid identifier)) invalid_update_id
    (version, s) ← or_refuse (split_uint32 s) truncated_version
    refuse_if (op == 0 && not (version == 0)) create_version_not_zero
    refuse_if (op == 1 && version == 0) update_version_not_positive
    (blob_length, s) ← or_refuse (split_uint32 s) truncated_blob_length
    refuse_if (blob_length == 0) empty_blob
    (blob, s) ← or_refuse (split_bytes blob_length s) truncated_blob
    parsed (record { operation = op; identifier = identifier; version = version; blob = blob }, s)

  -- The loop, with the number of entries read so far; each round reads a byte or more.
  unfoldable pub parse_entries : ℕ → ℕ → Text → Option (Parsed (List BatchEntry))
  parse_entries zero count s = none
  parse_entries (suc fuel) count [] = some (parsed [])
  parse_entries (suc fuel) count (op ∷ s) =
      if count == max_batch_entries
      then some (refused too_many_entries)
      else elim (parse_entry op s) [
        | refused e ↦ some (refused e)
        | parsed (entry, rest) ↦ elim (parse_entries fuel (count + 1) rest) [
          | none ↦ none
          | some (refused e) ↦ some (refused e)
          | some (parsed entries) ↦ some (parsed (entry ∷ entries))
        ]
      ]

  abbrev pub refuse_empty : List BatchEntry → Parsed (List BatchEntry)
  refuse_empty [] = refused no_entries
  refuse_empty (e ∷ es) = parsed (e ∷ es)

  unfoldable pub parse_batch : Text → Option (Parsed (List BatchEntry))
  parse_batch body =
      Option.map (λ (r : Parsed (List BatchEntry)). r >>= refuse_empty)
        (parse_entries (length body + 1) 0 body)

-- batchEntryFrame: the lengths are cut to uint16 and uint32.
unfoldable pub batch_entry_frame : BatchEntry → Text
batch_entry_frame e =
    e.operation
    ∷ (be16 (length e.identifier % 65536)
        ++ (e.identifier ++ (be32 e.version ++ (be32 (length e.blob % 4294967296) ++ e.blob))))

unfoldable pub batch_frames : List BatchEntry → Text
batch_frames [] = []
batch_frames (e ∷ es) = batch_entry_frame e ++ batch_frames es
