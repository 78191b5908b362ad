-- ===== src/Objects/Delete.antt =====
-- Delete of internal/objects/objects.go.
pub mod Effect
pub mod Atomic
use futo_notes_server.Prelude.{
  ℕ, Bool, true, false, not, ◌||◌, Option, none, some, Text, text_eq, ◌==◌, if◌then◌else◌,
}
use futo_notes_server.Ids.{valid_uuid}
use futo_notes_server.Store.Rows.{ObjectRow, CollectionRow}
use futo_notes_server.Store.Sql.{select_row, update_where}
use futo_notes_server.Store.Documents.{
  Object, DeletedObject, DeleteResponse, Conflict, Body, message, deletion, conflict, delete,
  zero_deletion, zero_conflict, as_conflict, as_deletion,
}
use futo_notes_server.Store.Monad.{
  Db, M, pure, ◌>>=◌, ◌>>◌, time_now, begin_tx, commit, tx_query, tx_exec, lift,
}
use futo_notes_server.Objects.Stored.{
  ResultCode, not_found, version_conflict, mutation_mismatch, mutation_pending, not_found_message,
  StoredResult, result_code,
}
use futo_notes_server.Objects.Steps.{
  MutationIntent, Replay, fresh, mismatch, found, lock_mutation, replay, own_claim,
  prepare_mutation, save_result, lock_collection, bump_version, release_blob, publish,
  select_object, inc_int64,
}
use futo_notes_server.Objects.Update.{conflict_of}

pub record DeleteOutcome : Type 0 where
  pub code : ResultCode
  pub response : DeleteResponse
  pub conflict : Conflict

abbrev pub deleted_of : ResultCode → DeleteOutcome
deleted_of c = record { code = c; response = zero_deletion; conflict = zero_conflict }

abbrev pub delete_intent : Text → Text → Option ℕ → MutationIntent
delete_intent collection_id object_id expected = record {
  kind = delete;
  collection_id = collection_id;
  object_id = some object_id;
  requested_version = expected;
}

abbrev pub deleted_row : ObjectRow → DeletedObject
deleted_row r = record {
  id = r.id;
  version = r.version;
  change_seq = r.change_seq;
  deleted = r.deleted;
}

-- UPDATE objects SET deleted = true, ... WHERE id = $1 RETURNING. The blob key and size stay.
unfoldable pub tombstone : Text → ℕ → ℕ → ℕ → Db → Option (DeletedObject × Db)
tombstone object_id version change_seq now d =
    let f = λ (r : ObjectRow). record r {
      deleted = true;
      version = version;
      change_seq = change_seq;
      updated_at = now;
    } in
    elim (select_row (λ (r : ObjectRow). text_eq r.id object_id) d.objects) [
      | none ↦ none
      | some r ↦ some (
        deleted_row (f r),
        record d { objects = update_where (λ r. text_eq r.id object_id) f d.objects },
      )
    ]

abbrev pub row_version : Option CollectionRow → Option ℕ
row_version none = none
row_version (some c) = some c.current_version

-- expectedVersion != nil && *expectedVersion != currentVersion
abbrev pub is_stale : Option ℕ → ℕ → Bool
is_stale none current = false
is_stale (some v) current = not (v == current)

abbrev pub outcome_with : ResultCode → DeleteResponse → DeleteOutcome
outcome_with c r = record { code = c; response = r; conflict = zero_conflict }

module _ (user_id collection_id object_id mutation_id : Text) (expected : Option ℕ) where
  abbrev pub this_delete : MutationIntent
  this_delete = delete_intent collection_id object_id expected

  unfoldable pub finish_delete : ℕ → Body → DeleteOutcome → M DeleteOutcome
  finish_delete status body outcome = do
    save_result user_id mutation_id this_delete status body none
    commit
    pure outcome

  unfoldable pub delete_object : Object → M DeleteOutcome
  delete_object current = do
    seq ← tx_exec (bump_version collection_id)
    now ← time_now
    deleted ← tx_exec (tombstone object_id (inc_int64 current.version) seq now)
    release_blob current.blob_key now
    let response : DeleteResponse = record { object = deleted; collection_version = seq }
    save_result user_id mutation_id this_delete 200 (deletion response) none
    publish (record { user_id = user_id; collection_id = collection_id; current_version = seq })
    commit
    pure (outcome_with ResultCode.ok response)

  -- A second delete of a tombstone answers with it and changes no object.
  unfoldable pub delete_again : Object → M DeleteOutcome
  delete_again current = do
    row ← tx_query (λ d. row_version (select_row (λ r. text_eq r.id collection_id) d.collections))
    seq ← lift row
    let response : DeleteResponse = record {
      object = record {
        id = current.id;
        version = current.version;
        change_seq = current.change_seq;
        deleted = true;
      };
      collection_version = seq;
    }
    finish_delete 200 (deletion response) (outcome_with ResultCode.ok response)

  unfoldable pub delete_found : Option Object → M DeleteOutcome
  delete_found none = finish_delete 404 (message not_found_message) (deleted_of not_found)
  delete_found (some current) =
      if is_stale expected current.version
      then finish_delete 409 (conflict (conflict_of current))
          (record (deleted_of version_conflict) { conflict = conflict_of current })
      else (if current.deleted then delete_again current else delete_object current)

  unfoldable pub delete_locked : Bool → M DeleteOutcome
  delete_locked locked =
      if not locked || not (valid_uuid object_id)
      then finish_delete 404 (message not_found_message) (deleted_of not_found)
      else do
        current ← tx_query (select_object user_id collection_id object_id)
        delete_found current

  -- Unlike a create or an update, a delete reads every stored 409 as a version conflict.
  unfoldable pub delete_stored : StoredResult → M DeleteOutcome
  delete_stored s =
      if s.status == 102
      then (do commit; pure (deleted_of mutation_pending))
      else (if s.status == 409
          then (do
            c ← lift (as_conflict s.body)
            commit
            pure (record (deleted_of version_conflict) { conflict = c }))
          else (do
            r ← lift (as_deletion s.body)
            commit
            pure (outcome_with (result_code s.status) r)))

  unfoldable pub delete_replayed : Replay → M DeleteOutcome
  delete_replayed mismatch = pure (deleted_of mutation_mismatch)
  delete_replayed (found s) = delete_stored s
  delete_replayed fresh = do locked ← lock_collection user_id collection_id; delete_locked locked

  unfoldable pub delete_prepared : Bool → M DeleteOutcome
  delete_prepared prepared = do
    begin_tx
    lock_mutation mutation_id
    carried ← replay user_id mutation_id this_delete
    delete_replayed (own_claim prepared carried)

  unfoldable pub delete_with : M DeleteOutcome
  delete_with = do
    prepared ← prepare_mutation user_id mutation_id this_delete
    delete_prepared prepared
