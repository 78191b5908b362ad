-- ===== src/Server/Reads.antt =====
-- The handlers that read objects or need no upload: handleListObjects, handleGetObject,
-- handleDeleteObject and handleRecoverCreate. A number of the query is what strconv reads, and
-- `invalid` when that fails or it is out of range.
use futo_notes_server.Objects.Read.{get, recover_create}
use futo_notes_server.Ids.{valid_mutation_id}
use futo_notes_server.Store.Rows.{ObjectRow}
use futo_notes_server.Objects.Delete.{delete_with}
use futo_notes_server.Objects.Pull.{list, clamp_limit, next_cursor}
use futo_notes_server.Store.Documents.{Object}
use futo_notes_server.Store.Monad.{internal, Result, err, ok, err_not_found}
use futo_notes_server.Server.Reply.{
  H, answer, reply, Reply, mutation_id_of, write_error, write_json, write_delete_outcome, mutation,
  one_object, server_error, objects,
}
use futo_notes_server.Objects.Stored.{
  ResultCode, MutationOutcome, not_found_message, mismatch_message, pending_message,
}
use futo_notes_server.Prelude.{none, some, ℕ, Text, Option, List, if◌then◌else◌, codes, Bool}

pub data QueryNumber : Type 0 where
  missing invalid : QueryNumber
  number : ℕ → QueryNumber

module _ (user_id collection_id : Text) where
  unfoldable pub list_reply : ℕ → Option ℕ → Result (List ObjectRow × Bool) → Reply
  list_reply since limit (err err_not_found) = write_error 404 not_found_message
  list_reply since limit (err internal) = server_error
  list_reply since none (ok (rows, has_more)) = write_json 200 (objects rows none)
  list_reply since (some limit) (ok (rows, has_more)) =
      write_json 200 (objects rows (some (has_more, next_cursor since rows)))

  abbrev pub list_from : ℕ → Option ℕ → H
  list_from since limit w =
      let (r, w') = list user_id collection_id since limit w in (list_reply since limit r, w')

  unfoldable pub list_limited : ℕ → QueryNumber → H
  list_limited since missing = list_from since none
  list_limited since invalid = reply (write_error 400 (codes "invalid limit"))
  list_limited since (number n) = list_from since (some (clamp_limit n))

  unfoldable pub handle_list_objects : QueryNumber → QueryNumber → H
  handle_list_objects missing limit = list_limited 0 limit
  handle_list_objects invalid limit = reply (write_error 400 (codes "invalid sinceVersion"))
  handle_list_objects (number since) limit = list_limited since limit

  abbrev pub object_reply : Option Object → Reply
  object_reply none = write_error 404 not_found_message
  object_reply (some o) = write_json 200 (one_object o)

  unfoldable pub handle_get_object : Text → H
  handle_get_object object_id =
      answer (get user_id collection_id object_id) λ o. reply (object_reply o)

  abbrev pub delete_expecting : Text → Text → Option ℕ → H
  delete_expecting object_id mutation_id expected =
      answer (delete_with user_id collection_id object_id mutation_id expected)
        λ outcome. reply (write_delete_outcome outcome)

  unfoldable pub delete_checked : Text → Text → QueryNumber → H
  delete_checked object_id mutation_id missing = delete_expecting object_id mutation_id none
  delete_checked object_id mutation_id invalid = reply (write_error 400 (codes "invalid version"))
  delete_checked object_id mutation_id (number v) = delete_expecting object_id mutation_id (some v)

  unfoldable pub handle_delete_object : Text → Option (List Text) → QueryNumber → H
  handle_delete_object object_id header version = elim (mutation_id_of header) [
    | none ↦ reply (write_error 400 (codes "invalid Mutation-Id"))
    | some mutation_id ↦ delete_checked object_id mutation_id version
  ]

  unfoldable pub write_recovered : MutationOutcome → Reply
  write_recovered o = elim o.code [
    | ResultCode.ok ↦ write_json 200 (mutation o.response)
    | ResultCode.mutation_mismatch ↦ write_error 409 mismatch_message
    | ResultCode.mutation_pending ↦ write_error 409 pending_message
    | _ ↦ write_error 404 not_found_message
  ]

  unfoldable pub handle_recover_create : Text → H
  handle_recover_create mutation_id =
      if valid_mutation_id mutation_id
      then answer (recover_create user_id collection_id mutation_id)
          (λ outcome. reply (write_recovered outcome))
      else reply (write_error 400 (codes "invalid Mutation-Id"))
