-- ===== src/Tests/Protocol.antt =====
-- The batch format and the paging at concrete inputs.
use futo_notes_server.Wire.Batch.Total.{parse_batch-Answered}
use futo_notes_server.Objects.Pull.Paging.{pull-all_changes}
use futo_notes_server.Store.Sql.{select_where}
use futo_notes_server.Wire.Batch.RoundTrip.{IsEntry, parse_batch-frames}
use futo_notes_server.Tests.World.{note, ann, vault, note_db}
use futo_notes_server.Ids.{
  valid_uuid, valid_mutation_id, mutation_id_bytes, uuid_bytes, is_mutation_id_byte,
}
use futo_notes_server.Wire.Batch.{BatchEntry, parse_batch, batch_frames, parsed, Parsed}
use futo_notes_server.Objects.Pull.{pull, all_changes, order_by_seq, insert_ordered, changed_since}
use futo_notes_server.Prelude.{
  ◌≡◌, refl, [], ◌∷◌, true, some, inl, inr, Text, Bool, codes, arith, text_eq, length, ◌<◌, ◌<◌,
  List,
}

abbrev ascii : Text → Bool
ascii s = true

abbrev first_entry : BatchEntry
first_entry = record { operation = 0; identifier = codes "m-1"; version = 0; blob = 1 ∷ 2 ∷ [] }

abbrev second_entry : BatchEntry
second_entry = record { operation = 1; identifier = note; version = 3; blob = 9 ∷ [] }

first_entry-IsEntry : IsEntry ascii first_entry
unfolding valid_mutation_id mutation_id_bytes is_mutation_id_byte
first_entry-IsEntry = record {
  readable = refl;
  short = omega arith;
  versioned = omega arith;
  blob_fits = omega arith;
  blob_there = omega arith;
  operation = inl (refl, refl, refl);
}

second_entry-IsEntry : IsEntry ascii second_entry
unfolding valid_uuid uuid_bytes
second_entry-IsEntry = record {
  readable = refl;
  short = omega arith;
  versioned = omega arith;
  blob_fits = omega arith;
  blob_there = omega arith;
  operation = inr (refl, refl, omega arith);
}

parse_batch-frames_example :
    parse_batch ascii (batch_frames (first_entry ∷ second_entry ∷ []))
    ≡ some (parsed (first_entry ∷ second_entry ∷ []))
parse_batch-frames_example =
    parse_batch-frames ascii first_entry (second_entry ∷ []) (omega arith)
      (first_entry-IsEntry, (second_entry-IsEntry, tt))

pull_enough : length (all_changes ann vault 0 note_db) < 2
unfolding all_changes order_by_seq insert_ordered select_where changed_since text_eq
pull_enough = omega arith

pull-all_changes_example : pull 2 ann vault 1 0 note_db ≡ some (all_changes ann vault 0 note_db)
pull-all_changes_example =
    pull-all_changes 2 ann vault 1 0 note_db (omega arith) (tt, tt) pull_enough

parse_batch-Answered_example :
    (r : Parsed (List BatchEntry)) × (parse_batch ascii (2 ∷ 0 ∷ 9 ∷ []) ≡ some r)
parse_batch-Answered_example = parse_batch-Answered ascii (2 ∷ 0 ∷ 9 ∷ [])
