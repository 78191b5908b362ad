-- ===== src/Server/Uploads.antt =====
-- The handlers that upload blobs inline: handleCreateBlobObject, handleUpdateBlobObject and
-- handleBatchBlobObjects. A body is what was read of the request, within its size limit.
use futo_notes_server.Wire.Transfer.{max_blob_bytes}
use futo_notes_server.Objects.Pull.{exists}
use futo_notes_server.Objects.Steps.{is_empty}
use futo_notes_server.Objects.Stored.{not_found_message}
use futo_notes_server.Objects.Update.{update_with}
use futo_notes_server.Blobs.{stage}
use futo_notes_server.Server.Reply.{
  BatchResult, H, write_error, mutation_id_of, reply, batch_result, write_mutation_outcome,
  server_error, plain, write_json, failed, results, answer,
}
use futo_notes_server.Objects.Create.{
  Reservation, settled, unsettled, create_reserved, reserve_create,
}
use futo_notes_server.Wire.Batch.{refused, BatchEntry, BatchError, parse_batch, parsed}
use futo_notes_server.Store.Monad.{M, World, Result, ok, err}
use futo_notes_server.Prelude.{
  [], ◌∷◌, true, false, none, some, Text, ℕ, Option, List, Bool, length, if◌then◌else◌, ltb, codes,
  ◌==◌, ◌==◌,
}

module _ (put_file : Text → Text → M (Unit {0})) (user_id collection_id : Text) where
  -- The reservation comes first, then the blob, then the mutation.
  unfoldable pub create_uploaded : Text → Text → Reservation → H
  create_uploaded mutation_id body (settled outcome) = reply (write_mutation_outcome 201 outcome)
  create_uploaded mutation_id body (unsettled prepared) =
      answer (stage put_file user_id body) λ key.
        answer (create_reserved user_id collection_id mutation_id key prepared)
          λ outcome. reply (write_mutation_outcome 201 outcome)

  unfoldable pub handle_create_blob_object : Option (List Text) → Text → H
  handle_create_blob_object header body = elim (mutation_id_of header) [
    | none ↦ reply (write_error 400 (codes "invalid Mutation-Id"))
    | some mutation_id ↦
        if is_empty body
        then reply (write_error 400 (codes "empty body"))
        else answer (reserve_create user_id collection_id mutation_id)
            (create_uploaded mutation_id body)
  ]

  -- The version of the query, when it is a positive int64.
  unfoldable pub handle_update_blob_object : Text → Option (List Text) → Option ℕ → Text → H
  handle_update_blob_object object_id header version body = elim (mutation_id_of header) [
    | none ↦ reply (write_error 400 (codes "invalid Mutation-Id"))
    | some mutation_id ↦ elim version [
      | none ↦ reply (write_error 400 (codes "invalid version"))
      | some v ↦
          if is_empty body
          then reply (write_error 400 (codes "empty body"))
          else answer (stage put_file user_id body) λ key.
            answer (update_with user_id collection_id object_id mutation_id key v)
              λ outcome. reply (write_mutation_outcome 200 outcome)
    ]
  ]

  -- A call of the batch: its error is the entry's own result.
  abbrev pub or_internal_result :
      {A : Type 0} → Result A → (A → World → BatchResult × World) → World → BatchResult × World
  or_internal_result (ok a) f w = f a w
  or_internal_result (err e) f w = (failed (codes "internal server error"), w)

  abbrev pub or_internal :
      {A : Type 0} → M A → (A → World → BatchResult × World) → World → BatchResult × World
  or_internal m f w = let (r, w') = m w in or_internal_result r f w'

  unfoldable pub create_entry : BatchEntry → Reservation → World → BatchResult × World
  create_entry e (settled outcome) w = (batch_result e.operation outcome, w)
  create_entry e (unsettled prepared) w =
      or_internal (stage put_file user_id e.blob)
        (λ key.
          or_internal (create_reserved user_id collection_id e.identifier key prepared)
            (λ outcome v. (batch_result e.operation outcome, v)))
        w

  unfoldable pub update_entry : BatchEntry → World → BatchResult × World
  update_entry e w =
      or_internal (stage put_file user_id e.blob)
        (λ key.
          or_internal (update_with user_id collection_id e.identifier [] key e.version)
            (λ outcome v. (batch_result e.operation outcome, v)))
        w

  unfoldable pub apply_entry : BatchEntry → World → BatchResult × World
  apply_entry e w =
      if ltb max_blob_bytes (length e.blob)
      then (plain (codes "too_large"), w)
      else (if e.operation == 0
          then or_internal (reserve_create user_id collection_id e.identifier) (create_entry e) w
          else update_entry e w)

  unfoldable pub apply_entries : List BatchEntry → World → List BatchResult × World
  apply_entries [] w = ([], w)
  apply_entries (e ∷ es) w =
      let (r, w₁) = apply_entry e w in let (rs, w₂) = apply_entries es w₁ in (r ∷ rs, w₂)

  unfoldable pub apply_batch : List BatchEntry → Bool → H
  apply_batch entries false w = (write_error 404 not_found_message, w)
  apply_batch entries true w =
      let (rs, w') = apply_entries entries w in (write_json 200 (results rs), w')

  -- `refusal_text` gives the message of a refusal.
  unfoldable pub handle_batch_blob_objects : (Text → Bool) → (BatchError → Text) → Text → H
  handle_batch_blob_objects utf8_valid refusal_text body = elim (parse_batch utf8_valid body) [
    | none ↦ reply server_error
    | some (refused e) ↦ reply (write_error 400 (refusal_text e))
    | some (parsed entries) ↦ answer (exists user_id collection_id) (apply_batch entries)
  ]
