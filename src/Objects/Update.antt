-- ===== src/Objects/Update.antt =====
-- Update of internal/objects/objects.go.
pub mod Effect
pub mod Atomic
use futo_notes_server.Prelude.{
  ℕ, Bool, true, false, Option, none, some, Text, text_eq, ◌==◌, if◌then◌else◌,
}
use futo_notes_server.Ids.{valid_uuid}
use futo_notes_server.Store.Rows.{ObjectRow}
use futo_notes_server.Store.Sql.{select_row, update_where}
use futo_notes_server.Store.Documents.{
  Object, MutationResponse, Conflict, message, mutation, conflict, update, scan_object,
}
use futo_notes_server.Store.Monad.{
  Db, M, pure, ◌>>=◌, ◌>>◌, time_now, begin_tx, commit, tx_query, tx_exec,
}
use futo_notes_server.Objects.Stored.{
  ResultCode, not_found, version_conflict, blob_not_staged, mutation_mismatch, MutationOutcome,
  outcome_of, not_found_message, version_conflict_message, blob_not_staged_message,
}
use futo_notes_server.Objects.Steps.{
  MutationIntent, Replay, fresh, mismatch, found, lock_mutation, replay, own_claim,
  prepare_mutation, save_result, lock_collection, staged_blob_size, bump_version, claim_blob,
  release_blob, publish, select_object, inc_int64,
}
use futo_notes_server.Objects.Create.{finish, answer_stored}

abbrev pub update_intent : Text → Text → ℕ → MutationIntent
update_intent collection_id object_id version = record {
  kind = update;
  collection_id = collection_id;
  object_id = some object_id;
  requested_version = some version;
}

-- UPDATE objects SET ... WHERE id = $1 RETURNING.
unfoldable pub set_object : Text → ℕ → ℕ → Text → ℕ → ℕ → Db → Option (Object × Db)
set_object object_id version change_seq blob_key size now d =
    let f = λ (r : ObjectRow). record r {
      version = version;
      change_seq = change_seq;
      blob_key = some blob_key;
      size_bytes = some size;
      updated_at = now;
    } in
    elim (select_row (λ (r : ObjectRow). text_eq r.id object_id) d.objects) [
      | none ↦ none
      | some r ↦ some (
        scan_object (f r),
        record d { objects = update_where (λ r. text_eq r.id object_id) f d.objects },
      )
    ]

abbrev pub conflict_of : Object → Conflict
conflict_of current = record {
  error = version_conflict_message;
  current_version = current.version;
  current_blob_key = current.blob_key;
}

module _ (user_id collection_id object_id mutation_id blob_key : Text) (version : ℕ) where
  abbrev pub this_update : MutationIntent
  this_update = update_intent collection_id object_id version

  unfoldable pub update_object : Object → ℕ → M MutationOutcome
  update_object current size = do
    seq ← tx_exec (bump_version collection_id)
    now ← time_now
    o ← tx_exec (set_object object_id version seq blob_key size now)
    release_blob current.blob_key now
    tx_exec (λ d. some (tt, claim_blob blob_key collection_id object_id version now d))
    let response : MutationResponse = record {
      object = o;
      collection_version = seq;
      replayed = none;
    }
    save_result user_id mutation_id this_update 200 (mutation response) none
    publish (record { user_id = user_id; collection_id = collection_id; current_version = seq })
    commit
    pure (record (outcome_of ResultCode.ok) { response = response })

  unfoldable pub update_staged : Object → Option ℕ → M MutationOutcome
  update_staged current none =
      finish user_id mutation_id this_update 409 (message blob_not_staged_message)
        (outcome_of blob_not_staged)
  update_staged current (some size) = update_object current size

  unfoldable pub update_found : Option Object → M MutationOutcome
  update_found none =
      finish user_id mutation_id this_update 404 (message not_found_message) (outcome_of not_found)
  update_found (some current) =
      if version == inc_int64 current.version
      then (do size ← staged_blob_size user_id blob_key; update_staged current size)
      else finish user_id mutation_id this_update 409 (conflict (conflict_of current))
          (record (outcome_of version_conflict) { conflict = conflict_of current })

  unfoldable pub update_locked : Bool → M MutationOutcome
  update_locked false =
      finish user_id mutation_id this_update 404 (message not_found_message) (outcome_of not_found)
  update_locked true =
      if valid_uuid object_id
      then (do
        current ← tx_query (select_object user_id collection_id object_id)
        update_found current)
      else finish user_id mutation_id this_update 404 (message not_found_message)
          (outcome_of not_found)

  unfoldable pub update_replayed : Replay → M MutationOutcome
  update_replayed mismatch = pure (outcome_of mutation_mismatch)
  update_replayed (found s) = answer_stored user_id collection_id mutation_id s false
  update_replayed fresh = do locked ← lock_collection user_id collection_id; update_locked locked

  unfoldable pub update_prepared : Bool → M MutationOutcome
  update_prepared prepared = do
    begin_tx
    lock_mutation mutation_id
    carried ← replay user_id mutation_id this_update
    update_replayed (own_claim prepared carried)

  unfoldable pub update_with : M MutationOutcome
  update_with = do
    prepared ← prepare_mutation user_id mutation_id this_update
    update_prepared prepared
