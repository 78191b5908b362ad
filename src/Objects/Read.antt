-- ===== src/Objects/Read.antt =====
-- The reads of internal/objects/objects.go: Get and RecoverCreate.
pub mod Recovery
use futo_notes_server.Store.Sql.{select_row}
use futo_notes_server.Ids.{valid_uuid}
use futo_notes_server.Store.Documents.{Object, kind_eq, create}
use futo_notes_server.Objects.Pull.{exists}
use futo_notes_server.Objects.Steps.{has_mutation, select_object}
use futo_notes_server.Objects.Stored.{
  ResultCode, MutationOutcome, outcome_of, StoredResult, decode_stored_result, result_code,
  decode_mutation_response,
}
use futo_notes_server.Store.Monad.{
  ◌>>=◌, ◌>>◌, M, MutationRow, pure, Result, err, db_query, internal,
}
use futo_notes_server.Prelude.{
  ◌≡◌, refl, [], ◌∷◌, true, false, none, some, zero, suc, Text, Option, Bool, ◌&&◌, if◌then◌else◌,
  ◌&&◌, text_eq, ◌==◌, ◌==◌, ltb, ◌||◌, ◌||◌, leb,
}

unfoldable pub get : Text → Text → Text → M (Option Object)
get user_id collection_id object_id =
    if valid_uuid collection_id && valid_uuid object_id
    then db_query (select_object user_id collection_id object_id)
    else pure none

-- user_id = $1 AND mutation_id = $2 AND collection_id = $3.
abbrev pub recorded_for : Text → Text → Text → MutationRow → Bool
recorded_for user_id mutation_id collection_id m =
    has_mutation user_id mutation_id m && text_eq m.collection_id collection_id

unfoldable pub recover_decoded : Option StoredResult → Result MutationOutcome
recover_decoded none = err internal
recover_decoded (some s) =
    if s.status == 102
    then Result.ok (outcome_of ResultCode.mutation_pending)
    else (if ltb s.status 200 || leb 300 s.status
        then Result.ok (outcome_of (result_code s.status))
        else elim (decode_mutation_response s.body true) [
          | none ↦ err internal
          | some r ↦ Result.ok (record (outcome_of ResultCode.ok) { response = r })
        ])

unfoldable pub recover_row : Option MutationRow → Result MutationOutcome
recover_row none = Result.ok (outcome_of ResultCode.not_found)
recover_row (some m) =
    if kind_eq m.kind create
    then recover_decoded (decode_stored_result m.result)
    else Result.ok (outcome_of ResultCode.not_found)

unfoldable pub recover_found : Text → Text → Text → Bool → M MutationOutcome
recover_found user_id collection_id mutation_id false = pure (outcome_of ResultCode.not_found)
recover_found user_id collection_id mutation_id true = do
  row ← db_query (λ d. select_row (recorded_for user_id mutation_id collection_id) d.mutations)
  λ w. (recover_row row, w)

unfoldable pub recover_create : Text → Text → Text → M MutationOutcome
recover_create user_id collection_id mutation_id = do
  found ← exists user_id collection_id
  recover_found user_id collection_id mutation_id found
