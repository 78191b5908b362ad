-- ===== src/Tests/Objects.antt =====
-- Runs of the object mutations, and their theorems at concrete inputs.
use futo_notes_server.Ids.{valid_uuid, uuid_bytes}
use futo_notes_server.Store.Documents.{scan_object}
use futo_notes_server.Objects.Steps.{
  lock_mutation, replay, replay_row, intent_matches, nullable_text_eq, nullable_int_eq,
  prepare_mutation, insert_pending, records_nothing, save_result, upsert_result, lock_collection,
  staged_blob_size, bump_version, select_object, claim_blob, retain_blob, release_blob, publish,
}
use futo_notes_server.Store.Sql.{select_row, update_where}
use futo_notes_server.Objects.Update.Atomic.{update_prepared-effect}
use futo_notes_server.Objects.Delete.Atomic.{delete_prepared-effect}
use futo_notes_server.Objects.Stored.{
  MutationOutcome, ResultCode, version_conflict, decode_stored_result, legacy_status,
  mutation_outcome_from_stored, conflict_outcome, decode_mutation_response, result_code,
}
use futo_notes_server.Objects.Create.Atomic.{create_reserved-effect}
use futo_notes_server.Store.Rows.{ObjectRow}
use futo_notes_server.Objects.Update.Effect.{UpdateEffect}
use futo_notes_server.Objects.Delete.Effect.{DeleteEffect}
use futo_notes_server.Objects.Create.Effect.{CreateEffect}
use futo_notes_server.Objects.SequenceKept.{
  Sequenced, create_reserved-IsSequenced, update_prepared-IsSequenced, delete_prepared-IsSequenced,
}
use futo_notes_server.Store.Monad.{
  ok, err, Result, World, attempt, begin_tx, commit, tx_query, tx_exec, db_exec, lift, time_now,
  new_uuid,
}
use futo_notes_server.Objects.Delete.{
  delete_prepared, delete_replayed, delete_stored, delete_locked, delete_found, delete_again,
  delete_object, finish_delete, delete_with, tombstone, row_version,
}
use futo_notes_server.Objects.Update.{
  update_prepared, update_replayed, update_locked, update_found, update_staged, update_object,
  update_with, set_object,
}
use futo_notes_server.Tests.World.{ann, vault, blob, start, empty_db, note, note_db}
use futo_notes_server.Objects.Create.{
  create_with, create_reserved, create_replayed, create_locked, create_staged, create_object,
  finish, answer_stored, reserve_create, reserve_prepared, reserve_replayed, create_unsettled,
  insert_object,
}
use futo_notes_server.Prelude.{
  ◌≡◌, refl, [], false, true, Text, codes, some, List, ◌∷◌, Option, ◌∷◌, ℕ, none, arith, Bool,
  text_eq, length,
}

program : Unit {0}
unfolding create_reserved create_replayed create_locked create_staged create_object finish
    answer_stored update_prepared update_replayed update_locked update_found update_staged
    update_object delete_prepared delete_replayed delete_stored delete_locked delete_found
    delete_again delete_object finish_delete reserve_create reserve_prepared reserve_replayed
    create_unsettled create_with update_with delete_with tombstone set_object insert_object
    lock_mutation replay replay_row intent_matches nullable_text_eq nullable_int_eq prepare_mutation
    insert_pending records_nothing save_result upsert_result lock_collection staged_blob_size
    bump_version select_object claim_blob retain_blob release_blob publish decode_stored_result
    legacy_status mutation_outcome_from_stored conflict_outcome decode_mutation_response result_code
    attempt begin_tx commit tx_query tx_exec db_exec lift time_now new_uuid select_row update_where
    scan_object text_eq valid_uuid uuid_bytes
program = tt

abbrev mid : Text
mid = codes "m-1"

abbrev versions : List ObjectRow → List ℕ
versions [] = []
versions (o ∷ os) = o.version ∷ versions os

-- The version of the vault, the versions of the objects, and how often the doorbell rang.
abbrev summary : World → Option ℕ × List ℕ × ℕ
summary w = (
  row_version (select_row (λ r. text_eq r.id vault) w.stored.collections),
  versions w.stored.objects,
  length w.delivered,
)

abbrev code_of : Result MutationOutcome → Option (ResultCode × Option Bool)
code_of (ok o) = some (o.code, o.response.replayed)
code_of (err e) = none

-- A create, the same request again, an update of the object and a delete.
create_runs :
    let (r, w) = create_with ann vault mid blob (start empty_db) in
    let (r', w') = create_with ann vault mid blob w in
    (summary w ≡ (some 5, 1 ∷ [], 1))
    × (summary w' ≡ (some 5, 1 ∷ [], 1))
    × (code_of r ≡ some (ResultCode.ok, some false))
    × (code_of r' ≡ some (ResultCode.ok, some true))
unfolding program
create_runs = (refl, refl, refl, refl)

update_runs :
    let (r, w) = update_with ann vault note mid blob 3 (start note_db) in
    let (r', w') = update_with ann vault note [] blob 3 w in
    let (r'', w'') = delete_with ann vault note [] (some 3) w' in
    (summary w ≡ (some 5, 3 ∷ [], 1))
    × (summary w' ≡ (some 5, 3 ∷ [], 1))
    × (summary w'' ≡ (some 6, 4 ∷ [], 2))
    × (code_of r ≡ some (ResultCode.ok, none))
    × (code_of r' ≡ some (version_conflict, none))
unfolding program
update_runs = (refl, refl, refl, refl, refl)

create_reserved-effect_example :
    CreateEffect ann vault mid blob
      (start empty_db)
      (create_reserved ann vault mid blob false (start empty_db))
create_reserved-effect_example = create_reserved-effect ann vault mid blob false (start empty_db)

update_prepared-effect_example :
    UpdateEffect ann vault note mid blob 3
      (start note_db)
      (update_prepared ann vault note mid blob 3 false (start note_db))
update_prepared-effect_example =
    update_prepared-effect ann vault note mid blob 3 false (start note_db)

delete_prepared-effect_example :
    DeleteEffect ann vault note mid
      (some 2)
      (start note_db)
      (delete_prepared ann vault note mid (some 2) false (start note_db))
delete_prepared-effect_example =
    delete_prepared-effect ann vault note mid (some 2) false (start note_db)

note_db-Sequenced : Sequenced (start note_db)
note_db-Sequenced = record {
  collection_keys = (tt, tt);
  object_keys = (tt, tt);
  bounded = (((λ _. omega arith), tt), tt);
  distinct = (tt, tt);
}

create_reserved-IsSequenced_example :
    Sequenced (create_reserved ann vault mid blob false (start note_db)).1
create_reserved-IsSequenced_example =
    create_reserved-IsSequenced ann vault note mid blob false (start note_db) note_db-Sequenced

update_prepared-IsSequenced_example :
    Sequenced (update_prepared ann vault note mid blob 3 false (start note_db)).1
update_prepared-IsSequenced_example =
    update_prepared-IsSequenced ann vault note mid blob 3 false (start note_db) note_db-Sequenced

delete_prepared-IsSequenced_example :
    Sequenced (delete_prepared ann vault note mid none false (start note_db)).1
delete_prepared-IsSequenced_example =
    delete_prepared-IsSequenced ann vault note mid blob none false (start note_db) note_db-Sequenced
