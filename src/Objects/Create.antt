-- ===== src/Objects/Create.antt =====
-- ReserveCreate, Create, CreateReserved and RecoverCreate of internal/objects/objects.go.
pub mod Effect
pub mod Atomic
use futo_notes_server.Prelude.{
  ℕ, Bool, true, false, ◌||◌, not, Option, none, some, ◌∷◌, Text, text_eq, if◌then◌else◌,
}
use futo_notes_server.Ids.{valid_uuid}
use futo_notes_server.Store.Rows.{ObjectRow}
use futo_notes_server.Store.Sql.{select_row}
use futo_notes_server.Store.Documents.{
  Object, MutationResponse, Body, message, mutation, create, scan_object,
}
use futo_notes_server.Store.Monad.{
  Db, M, pure, ◌>>=◌, ◌>>◌, time_now, new_uuid, begin_tx, commit, tx_exec, lift,
}
use futo_notes_server.Objects.Stored.{
  ResultCode, not_found, blob_not_staged, mutation_mismatch, MutationOutcome, outcome_of,
  StoredResult, not_found_message, blob_not_staged_message, mutation_outcome_from_stored,
}
use futo_notes_server.Objects.Steps.{
  MutationIntent, Replay, fresh, mismatch, found, is_empty, is_row, lock_mutation, replay,
  own_claim, prepare_mutation, save_result, lock_collection, staged_blob_size, bump_version,
  claim_blob, publish,
}

abbrev pub create_intent : Text → MutationIntent
create_intent collection_id = record {
  kind = create;
  collection_id = collection_id;
  object_id = none;
  requested_version = none;
}

-- Record the outcome under the Mutation ID, commit, and answer with it.
unfoldable pub finish :
    Text → Text → MutationIntent → ℕ → Body → MutationOutcome → M MutationOutcome
finish user_id mutation_id intent status body outcome = do
  save_result user_id mutation_id intent status body none
  commit
  pure outcome

-- INSERT INTO objects ... RETURNING: version 1, at the collection's new version.
unfoldable pub insert_object : Text → Text → Text → ℕ → Text → ℕ → ℕ → Db → Option (Object × Db)
insert_object object_id collection_id user_id change_seq blob_key size now d =
    let row : ObjectRow = record {
      id = object_id;
      collection_id = collection_id;
      user_id = user_id;
      version = 1;
      change_seq = change_seq;
      deleted = false;
      blob_key = some blob_key;
      size_bytes = some size;
      created_at = now;
      updated_at = now;
    } in
    if is_row (select_row (λ (r : ObjectRow). text_eq r.id object_id) d.objects)
    then none
    else some (scan_object row, record d { objects = row ∷ d.objects })

-- Reservation: an unsettled one says whether this request took the claim.
pub data Reservation : Type 0 where
  settled : MutationOutcome → Reservation
  unsettled : Bool → Reservation

module _ (user_id collection_id mutation_id : Text) where
  -- The insertion itself, once the staged blob is found.
  unfoldable pub create_object : Text → ℕ → M MutationOutcome
  create_object blob_key size = do
    version ← tx_exec (bump_version collection_id)
    object_id ← new_uuid
    now ← time_now
    o ← tx_exec (insert_object object_id collection_id user_id version blob_key size now)
    tx_exec (λ d. some (tt, claim_blob blob_key collection_id object_id 1 now d))
    let response : MutationResponse = record {
      object = o;
      collection_version = version;
      replayed = some false;
    }
    save_result user_id mutation_id (create_intent collection_id) 201 (mutation response)
        (some object_id)
    publish (record { user_id = user_id; collection_id = collection_id; current_version = version })
    commit
    pure (record (outcome_of ResultCode.ok) { response = response })

  unfoldable pub create_staged : Text → Option ℕ → M MutationOutcome
  create_staged blob_key none =
      finish user_id mutation_id (create_intent collection_id) 409 (message blob_not_staged_message)
        (outcome_of blob_not_staged)
  create_staged blob_key (some size) = create_object blob_key size

  unfoldable pub create_locked : Text → Bool → M MutationOutcome
  create_locked blob_key false =
      finish user_id mutation_id (create_intent collection_id) 404 (message not_found_message)
        (outcome_of not_found)
  create_locked blob_key true = do
    size ← staged_blob_size user_id blob_key
    create_staged blob_key size

  -- An outcome that the ID already carries is the answer.
  unfoldable pub answer_stored : StoredResult → Bool → M MutationOutcome
  answer_stored s is_create = do
    outcome ← lift (mutation_outcome_from_stored s is_create)
    commit
    pure outcome

  unfoldable pub create_replayed : Text → Replay → M MutationOutcome
  create_replayed blob_key mismatch = pure (outcome_of mutation_mismatch)
  create_replayed blob_key (found s) = answer_stored s true
  create_replayed blob_key fresh = do
    locked ← lock_collection user_id collection_id
    create_locked blob_key locked

  unfoldable pub create_reserved : Text → Bool → M MutationOutcome
  create_reserved blob_key prepared = do
    begin_tx
    lock_mutation mutation_id
    carried ← replay user_id mutation_id (create_intent collection_id)
    create_replayed blob_key (own_claim prepared carried)

  unfoldable pub reserve_replayed : Replay → M Reservation
  reserve_replayed mismatch = pure (settled (outcome_of mutation_mismatch))
  reserve_replayed fresh = pure (unsettled false)
  reserve_replayed (found s) = do outcome ← answer_stored s true; pure (settled outcome)

  unfoldable pub reserve_prepared : Bool → M Reservation
  reserve_prepared prepared =
      if prepared || (is_empty mutation_id || not (valid_uuid collection_id))
      then pure (unsettled prepared)
      else do
        begin_tx
        lock_mutation mutation_id
        carried ← replay user_id mutation_id (create_intent collection_id)
        reserve_replayed carried

  unfoldable pub reserve_create : M Reservation
  reserve_create = do
    prepared ← prepare_mutation user_id mutation_id (create_intent collection_id)
    reserve_prepared prepared

  unfoldable pub create_unsettled : Text → Reservation → M MutationOutcome
  create_unsettled blob_key (settled outcome) = pure outcome
  create_unsettled blob_key (unsettled prepared) = create_reserved blob_key prepared

  unfoldable pub create_with : Text → M MutationOutcome
  create_with blob_key = do reservation ← reserve_create; create_unsettled blob_key reservation
