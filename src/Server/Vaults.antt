-- ===== src/Server/Vaults.antt =====
-- The handlers of cmd/server/collections.go. A body is what encoding/json reads of it, in which a
-- string that is missing or null is `none`.
pub mod Refusals
use futo_notes_server.Collections.Vault.{
  delete_collection, get_collection, claim_collection, list_collections,
}
use futo_notes_server.Objects.Steps.{is_empty}
use futo_notes_server.Store.Rows.{CollectionRow, KeyMaterial}
use futo_notes_server.Prelude.{
  ◌≡◌, refl, [], ◌∷◌, true, false, none, some, zero, suc, ℕ, Bool, Option, Text, ◌==◌,
  if◌then◌else◌, ◌==◌, codes, ◌||◌, ◌||◌, not,
}
use futo_notes_server.Store.Monad.{ok, err}
use futo_notes_server.Server.Reply.{
  one_collection, all_collections, vault_key, key_conflict, no_content, H, Payload, Reply, answer,
  reply, write_error, write_json,
}
use futo_notes_server.Collections.Key.{
  put_key_ok, put_key_not_found, put_key_conflict, put_key_no_current_key, PutKeyOutcome, KeyInput,
  get_key, put_key,
}

unfoldable pub handle_claim_collection : Text → H
handle_claim_collection user_id =
    answer (claim_collection user_id)
      λ claim. reply (write_json (if claim.1 then 201 else 200) (one_collection claim.0))

unfoldable pub handle_list_collections : Text → H
handle_list_collections user_id =
    answer (list_collections user_id) λ cs. reply (write_json 200 (all_collections cs))

abbrev collection_reply : Option CollectionRow → Reply
collection_reply none = write_error 404 (codes "not found")
collection_reply (some c) = write_json 200 (one_collection c)

unfoldable pub handle_get_collection : Text → Text → H
handle_get_collection user_id id =
    answer (get_collection user_id id) λ c. reply (collection_reply c)

abbrev found_reply : Bool → Payload → ℕ → Reply
found_reply found payload status =
    if found then write_json status payload else write_error 404 (codes "not found")

unfoldable pub handle_delete_collection : Text → Text → H
handle_delete_collection user_id id =
    answer (delete_collection user_id id) λ found. reply (found_reply found no_content 204)

unfoldable pub handle_get_collection_key : Text → Text → H
handle_get_collection_key user_id id =
    answer (get_key user_id id) λ told. reply (found_reply told.0 (vault_key told.1) 200)

abbrev is_json_space : ℕ → Bool
is_json_space c = c == b' ' || c == 9 || c == 13 || c == 10

unfoldable pub is_json_object : Text → Bool
is_json_object [] = false
is_json_object (c ∷ s) = let rest = is_json_object s in if is_json_space c then rest else c == b'{'

pub record KeyBody : Type 0 where
  pub key_salt : Option Text
  pub key_kdf : Option Text
  pub encrypted_vault_key : Option Text
  pub previous_key_updated_at : Option Text

abbrev is_missing : Option Text → Bool
is_missing none = true
is_missing (some s) = is_empty s

abbrev is_object : Option Text → Bool
is_object none = false
is_object (some raw) = is_json_object raw

abbrev is_blank : Option Text → Bool
is_blank none = false
is_blank (some s) = is_empty s

abbrev text_or_empty : Option Text → Text
text_or_empty none = []
text_or_empty (some s) = s

-- The checks in their order: what is wrong with the first part that is.
unfoldable pub key_body_problem : KeyBody → Option Text
key_body_problem b =
    if is_missing b.key_salt
    then some (codes "key_salt is required")
    else (if is_missing b.encrypted_vault_key
        then some (codes "encrypted_vault_key is required")
        else (if not (is_object b.key_kdf)
            then some (codes "key_kdf must be an object")
            else (if is_blank b.previous_key_updated_at
                then some (codes "previous_key_updated_at must be non-empty when present")
                else none)))

abbrev pub key_input_of : KeyBody → KeyInput
key_input_of b = record {
  key_salt = text_or_empty b.key_salt;
  key_kdf = text_or_empty b.key_kdf;
  encrypted_vault_key = text_or_empty b.encrypted_vault_key;
}

unfoldable pub put_key_reply : PutKeyOutcome × Option KeyMaterial → Reply
put_key_reply (put_key_ok, key) = write_json 200 (vault_key key)
put_key_reply (put_key_not_found, key) = write_error 404 (codes "not found")
put_key_reply (put_key_no_current_key, key) = write_error 400 (codes "no existing key to rotate")
put_key_reply (put_key_conflict, key) = write_json 409 (key_conflict key)

module _ (revision_token : ℕ → Text) where
  -- The rest of the handler, once the body is checked.
  unfoldable pub put_checked : Text → Text → KeyBody → Option Text → H
  put_checked user_id id b (some problem) = reply (write_error 400 problem)
  put_checked user_id id b none =
      answer (put_key revision_token user_id id (key_input_of b) b.previous_key_updated_at)
        λ told. reply (put_key_reply told)

  unfoldable pub handle_put_collection_key : Text → Text → Option KeyBody → H
  handle_put_collection_key user_id id none = reply (write_error 400 (codes "invalid json"))
  handle_put_collection_key user_id id (some b) = put_checked user_id id b (key_body_problem b)
