-- ===== src/Server/Reply.antt =====
-- Requests and answers: mutationID, the numbers of a query, writeMutationOutcome, batchResult.
use futo_notes_server.Ids.{valid_mutation_id}
use futo_notes_server.Store.Rows.{ObjectRow, UserRow, CollectionRow, KeyMaterial}
use futo_notes_server.Objects.Stored.{
  ResultCode, MutationOutcome, not_found_message, pending_message, blob_not_staged_message,
  mismatch_message,
}
use futo_notes_server.Store.Documents.{MutationResponse, Object, DeleteResponse, Conflict}
use futo_notes_server.Objects.Delete.{DeleteOutcome}
use futo_notes_server.Store.Monad.{M, World, Result, ok, err}
use futo_notes_server.Prelude.{
  [], ◌∷◌, false, none, some, Option, codes, ℕ, Text, List, Bool, if◌then◌else◌, ◌==◌, ◌==◌,
}

pub data BatchResult : Type 0 where
  changed : Text → Object → ℕ → BatchResult
  conflicting : ℕ → Option Text → BatchResult
  plain : Text → BatchResult
  failed : Text → BatchResult

-- What an answer carries.
pub data Payload : Type 0 where
  error_text : Text → Payload
  coded_error : Text → Text → Payload
  current_user : UserRow → Payload
  logged_in : UserRow → Text → Payload
  blob_key : Text → Payload
  no_content : Payload
  blob_bytes : Text → Payload
  one_collection : CollectionRow → Payload
  all_collections : List CollectionRow → Payload
  vault_key : Option KeyMaterial → Payload
  key_conflict : Option KeyMaterial → Payload
  one_object : Object → Payload
  objects : List ObjectRow → Option (Bool × ℕ) → Payload
  mutation : MutationResponse → Payload
  deletion : DeleteResponse → Payload
  conflict : Conflict → Payload
  results : List BatchResult → Payload

-- What an answer does to the session cookie.
pub data SessionCookie : Type 0 where
  untouched cleared : SessionCookie
  set_to : Text → SessionCookie

-- Retry-After is the one header whose value a function computes.
pub record Reply : Type 0 where
  pub status : ℕ
  pub payload : Payload
  pub session_cookie : SessionCookie
  pub retry_after : Option ℕ

abbrev pub write_error : ℕ → Text → Reply
write_error s e = record {
  status = s;
  payload = error_text e;
  session_cookie = untouched;
  retry_after = none;
}

abbrev pub server_error : Reply
server_error = write_error 500 (codes "internal server error")

abbrev pub write_json : ℕ → Payload → Reply
write_json s p = record { status = s; payload = p; session_cookie = untouched; retry_after = none }

abbrev pub H : Type 0
H = World → Reply × World

-- A call whose error is answered by serverError.
abbrev pub answer_result : {A : Type 0} → Result A → (A → H) → H
answer_result (ok a) f w = f a w
answer_result (err e) f w = (server_error, w)

abbrev pub answer : {A : Type 0} → M A → (A → H) → H
answer m f w = let (r, w') = m w in answer_result r f w'

abbrev pub reply : Reply → H
reply r w = (r, w)

-- The values of the Mutation-Id header, `none` when it is absent.
unfoldable pub mutation_id_of : Option (List Text) → Option Text
mutation_id_of none = some []
mutation_id_of (some (v ∷ [])) = if valid_mutation_id v then some v else none
mutation_id_of (some _) = none

unfoldable pub write_mutation_outcome : ℕ → MutationOutcome → Reply
write_mutation_outcome success o = elim o.code [
  | ResultCode.ok ↦ write_json success (mutation o.response)
  | ResultCode.not_found ↦ write_error 404 not_found_message
  | ResultCode.version_conflict ↦ write_json 409 (conflict o.conflict)
  | ResultCode.blob_not_staged ↦ write_error 409 blob_not_staged_message
  | ResultCode.mutation_mismatch ↦ write_error 409 mismatch_message
  | ResultCode.mutation_pending ↦ write_error 409 pending_message
]

unfoldable pub write_delete_outcome : DeleteOutcome → Reply
write_delete_outcome o = elim o.code [
  | ResultCode.ok ↦ write_json 200 (deletion o.response)
  | ResultCode.not_found ↦ write_error 404 not_found_message
  | ResultCode.version_conflict ↦ write_json 409 (conflict o.conflict)
  | ResultCode.mutation_mismatch ↦ write_error 409 mismatch_message
  | ResultCode.mutation_pending ↦ write_error 409 pending_message
  | ResultCode.blob_not_staged ↦ server_error
]

abbrev pub was_replayed : Option Bool → Bool
was_replayed none = false
was_replayed (some b) = b

unfoldable pub success_status : ℕ → MutationResponse → Text
success_status operation r =
    if operation == 0
    then (if was_replayed r.replayed then codes "replayed" else codes "created")
    else codes "updated"

unfoldable pub batch_result : ℕ → MutationOutcome → BatchResult
batch_result operation o = elim o.code [
  | ResultCode.ok ↦
      changed (success_status operation o.response) o.response.object o.response.collection_version
  | ResultCode.not_found ↦ plain (codes "not_found")
  | ResultCode.version_conflict ↦ conflicting o.conflict.current_version o.conflict.current_blob_key
  | ResultCode.mutation_mismatch ↦ failed (codes "mutation id reused for different intent")
  | ResultCode.mutation_pending ↦ failed pending_message
  | ResultCode.blob_not_staged ↦ failed (codes "internal server error")
]
