-- ===== src/Collections/Vault.antt =====
-- Claiming, reading, listing and deleting collections: internal/collections/collections.go.
pub mod Deletion
pub mod Claim
use futo_notes_server.Events.{text_less}
use futo_notes_server.Auth.Session.{user_has_id}
use futo_notes_server.Store.Sql.{delete_where, select_where, select_row, update_where}
use futo_notes_server.Objects.Steps.{nullable_text_eq, is_row, owns_collection}
use futo_notes_server.Ids.{valid_uuid}
use futo_notes_server.Store.Rows.{
  CollectionRow, ObjectRow, LedgerRow, purgeable, is_claimed, is_retained,
}
use futo_notes_server.Store.Monad.{
  ◌>>=◌, ◌>>◌, MutationRow, Db, M, db_query, pure, begin_tx, tx_query, time_now, new_uuid, tx_exec,
  lift, commit,
}
use futo_notes_server.Prelude.{
  ◌≡◌, refl, [], ◌∷◌, true, false, none, some, zero, suc, List, Text, ℕ, Option, Bool,
  if◌then◌else◌, ltb, text_eq, ◌||◌, ◌&&◌, ◌||◌, ◌&&◌, ◌==◌, ◌==◌,
}

abbrev pub owned_by : Text → CollectionRow → Bool
owned_by user_id c = text_eq c.user_id user_id

-- ORDER BY created_at, id.
abbrev pub is_older : CollectionRow → CollectionRow → Bool
is_older c d =
    ltb c.created_at d.created_at || (c.created_at == d.created_at && text_less c.id d.id)

unfoldable pub insert_by_age : CollectionRow → List CollectionRow → List CollectionRow
insert_by_age c [] = c ∷ []
insert_by_age c (d ∷ ds) = if is_older d c then d ∷ insert_by_age c ds else c ∷ d ∷ ds

unfoldable pub by_age : List CollectionRow → List CollectionRow
by_age [] = []
by_age (c ∷ cs) = insert_by_age c (by_age cs)

unfoldable pub list_collections : Text → M (List CollectionRow)
list_collections user_id = db_query (λ d. by_age (select_where (owned_by user_id) d.collections))

abbrev pub first {ℓ} : {R : Type ℓ} → List R → Option R
first [] = none
first (r ∷ rs) = some r

-- The primary key on id.
unfoldable pub insert_collection : CollectionRow → Db → Option (CollectionRow × Db)
insert_collection c d =
    if is_row (select_row (λ (r : CollectionRow). text_eq r.id c.id) d.collections)
    then none
    else some (c, record d { collections = c ∷ d.collections })

unfoldable pub claim_oldest : Text → Option CollectionRow → M (CollectionRow × Bool)
claim_oldest user_id (some c) = pure (c, false)
claim_oldest user_id none = do
  id ← new_uuid
  now ← time_now
  c ← tx_exec (
      insert_collection
        (record { id = id; user_id = user_id; created_at = now; current_version = 0; key = none }))
  pure (c, true)

unfoldable pub claim_collection : Text → M (CollectionRow × Bool)
claim_collection user_id = do
  begin_tx
  user ← tx_query (λ d. select_row (user_has_id user_id) d.users)
  _ ← lift user
  oldest ← tx_query (λ d. first (by_age (select_where (owned_by user_id) d.collections)))
  (c, created) ← claim_oldest user_id oldest
  commit
  pure (c, created)

unfoldable pub get_collection : Text → Text → M (Option CollectionRow)
get_collection user_id id =
    if valid_uuid id
    then db_query (λ d. select_row (owns_collection user_id id) d.collections)
    else pure none

-- collection_id = $1 AND state IN ('claimed', 'retained').
abbrev pub is_kept_by : Text → LedgerRow → Bool
is_kept_by id l =
    nullable_text_eq l.collection_id (some id) && (is_claimed l.state || is_retained l.state)

abbrev pub scoped_to : Text → Text → MutationRow → Bool
scoped_to user_id id m = text_eq m.collection_id id && text_eq m.user_id user_id

abbrev pub in_collection : Text → ObjectRow → Bool
in_collection id o = text_eq o.collection_id id

abbrev pub mark_purgeable : ℕ → LedgerRow → LedgerRow
mark_purgeable now l = record l { state = purgeable; state_changed_at = now }

-- The ledger's reference to an object of the collection, ON DELETE SET NULL.
unfoldable pub points_into : Text → List ObjectRow → LedgerRow → Bool
points_into id os l = elim l.object_id [
  | none ↦ false
  | some o ↦ is_row (select_row (λ (r : ObjectRow). text_eq r.id o && in_collection id r) os)
]

abbrev pub forget_object : LedgerRow → LedgerRow
forget_object l = record l { object_id = none }

-- DELETE FROM collections, with what the foreign keys do to objects and the ledger.
unfoldable pub drop_collection : Text → Db → Db
drop_collection id d = record d {
  collections = delete_where (λ (c : CollectionRow). text_eq c.id id) d.collections;
  objects = delete_where (in_collection id) d.objects;
  ledger = update_where (points_into id d.objects) forget_object d.ledger;
}

unfoldable pub delete_owned : Text → Text → Bool → M Bool
delete_owned user_id id false = pure false
delete_owned user_id id true = do
  now ← time_now
  tx_exec (λ d.
      some (tt, record d { ledger = update_where (is_kept_by id) (mark_purgeable now) d.ledger }))
  tx_exec (λ d. some (tt, record d { mutations = delete_where (scoped_to user_id id) d.mutations }))
  tx_exec (λ d. some (tt, drop_collection id d))
  commit
  pure true

unfoldable pub delete_collection : Text → Text → M Bool
delete_collection user_id id =
    if valid_uuid id
    then (do
      begin_tx
      found ← tx_query (λ d. is_row (select_row (owns_collection user_id id) d.collections))
      delete_owned user_id id found)
    else pure false
