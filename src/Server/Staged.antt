-- ===== src/Server/Staged.antt =====
-- The handlers of cmd/server/objects.go that create and update an object from a blob uploaded
-- before: handleCreateObject and handleUpdateObject. A body is what encoding/json reads of it.
use futo_notes_server.Objects.Update.{update_with}
use futo_notes_server.Objects.Create.{create_with}
use futo_notes_server.Ids.{valid_blob_key}
use futo_notes_server.Server.Reply.{
  H, reply, mutation_id_of, write_error, answer, write_mutation_outcome,
}
use futo_notes_server.Prelude.{
  true, false, none, some, suc, Bool, Option, ℕ, Text, List, if◌then◌else◌, codes,
}

-- A *int64 of a body.
pub data JsonInt : Type 0 where
  absent negative : JsonInt
  natural : ℕ → JsonInt

pub record ObjectBody : Type 0 where
  pub version : JsonInt
  pub blob_key : Option Text
  pub size_bytes : JsonInt

abbrev positive : JsonInt → Option ℕ
positive (natural (suc n)) = some (suc n)
positive _ = none

abbrev is_natural : JsonInt → Bool
is_natural (natural n) = true
is_natural _ = false

abbrev own_key : Text → Option Text → Option Text
own_key user_id none = none
own_key user_id (some key) = if valid_blob_key user_id key then some key else none

module _ (user_id collection_id : Text) where
  -- The checks of the blob that both share, and then `next` with its key.
  unfoldable pub with_blob : ObjectBody → (Text → H) → H
  with_blob body next = elim (own_key user_id body.blob_key) [
    | none ↦ reply (write_error 400 (codes "invalid blob_key"))
    | some key ↦
        if is_natural body.size_bytes
        then next key
        else reply (write_error 400 (codes "invalid size_bytes"))
  ]

  unfoldable pub handle_create_object : Option (List Text) → Option ObjectBody → H
  handle_create_object header request = elim (mutation_id_of header) [
    | none ↦ reply (write_error 400 (codes "invalid Mutation-Id"))
    | some mutation_id ↦ elim request [
      | none ↦ reply (write_error 400 (codes "invalid json"))
      | some body ↦ with_blob body λ key.
          answer (create_with user_id collection_id mutation_id key)
            λ outcome. reply (write_mutation_outcome 201 outcome)
    ]
  ]

  unfoldable pub handle_update_object : Text → Option (List Text) → Option ObjectBody → H
  handle_update_object object_id header request = elim (mutation_id_of header) [
    | none ↦ reply (write_error 400 (codes "invalid Mutation-Id"))
    | some mutation_id ↦ elim request [
      | none ↦ reply (write_error 400 (codes "invalid json"))
      | some body ↦ elim (positive body.version) [
        | none ↦ reply (write_error 400 (codes "invalid version"))
        | some version ↦ with_blob body λ key.
            answer (update_with user_id collection_id object_id mutation_id key version)
              λ outcome. reply (write_mutation_outcome 200 outcome)
      ]
    ]
  ]
