-- ===== src/Objects/Stored.antt =====
-- Stored outcomes of internal/objects/objects.go: decodeStoredResult, mutationOutcomeFromStored,
-- resultCode, decodeMutationResponse.
use futo_notes_server.Prelude.{
  ℕ, zero, Bool, true, false, ◌||◌, Option, none, some, Text, codes, text_eq, ◌==◌, if◌then◌else◌,
}
use mathlib.Core.Option
use futo_notes_server.Store.Documents.{
  MutationResponse, Conflict, Body, Document, message, unrelated, wrapped, pending_text, bare,
  unreadable, as_error, as_conflict, as_mutation, zero_mutation, zero_conflict,
}

pub data ResultCode : Type 0 where
  ok not_found version_conflict blob_not_staged mutation_mismatch mutation_pending : ResultCode

pub record MutationOutcome : Type 0 where
  pub code : ResultCode
  pub response : MutationResponse
  pub conflict : Conflict

-- MutationOutcome{Code: code}
abbrev pub outcome_of : ResultCode → MutationOutcome
outcome_of c = record { code = c; response = zero_mutation; conflict = zero_conflict }

pub record StoredResult : Type 0 where
  pub status : ℕ
  pub body : Body

abbrev pub not_found_message : Text
not_found_message = codes "not found"

abbrev pub version_conflict_message : Text
version_conflict_message = codes "version conflict"

abbrev pub blob_not_staged_message : Text
blob_not_staged_message = codes "blob is not staged"

abbrev pub mismatch_message : Text
mismatch_message = codes "Mutation-Id reused for different intent"

abbrev pub pending_message : Text
pending_message = codes "mutation still in progress"

-- The status that an unwrapped body stands for.
unfoldable pub legacy_status : Text → ℕ
legacy_status e =
    if text_eq e not_found_message
    then 404
    else (if text_eq e version_conflict_message
          || (text_eq e blob_not_staged_message || text_eq e mismatch_message)
        then 409
        else 200)

unfoldable pub decode_stored_result : Document → Option StoredResult
unfolding legacy_status
decode_stored_result (wrapped zero b) = some (record { status = 200; body = unrelated })
decode_stored_result (wrapped s b) = some (record { status = s; body = b })
decode_stored_result pending_text = some (record { status = 102; body = message pending_message })
decode_stored_result (bare b) =
    Option.map (λ e. record { status = legacy_status e; body = b }) (as_error b)
decode_stored_result unreadable = none

-- json.Unmarshal, and `replayed` for a create.
unfoldable pub decode_mutation_response : Body → Bool → Option MutationResponse
decode_mutation_response b true =
    Option.map (λ (r : MutationResponse). record r { replayed = some true }) (as_mutation b)
decode_mutation_response b false = as_mutation b

unfoldable pub conflict_outcome : Body → Option MutationOutcome
conflict_outcome b = elim (as_error b) [
  | none ↦ none
  | some e ↦
      if text_eq e blob_not_staged_message
      then some (outcome_of blob_not_staged)
      else Option.map (λ c. record (outcome_of version_conflict) { conflict = c }) (as_conflict b)
]

unfoldable pub mutation_outcome_from_stored : StoredResult → Bool → Option MutationOutcome
unfolding conflict_outcome decode_mutation_response
mutation_outcome_from_stored s create =
    if s.status == 404
    then some (outcome_of not_found)
    else (if s.status == 409
        then conflict_outcome s.body
        else (if s.status == 102
            then some (outcome_of mutation_pending)
            else Option.map (λ r. record (outcome_of ok) { response = r })
                (decode_mutation_response s.body create)))

unfoldable pub result_code : ℕ → ResultCode
result_code status =
    if status == 404 then not_found else (if status == 409 then version_conflict else ok)
