-- ===== src/Objects/Steps.antt =====
-- The database steps that create, update and delete share (internal/objects/objects.go): the
-- ledger of Mutation IDs, the locks, the staged blob, and the statements on the tables.
use futo_notes_server.Prelude.{
  ℕ, ◌+◌, Bool, true, false, not, ◌&&◌, ◌||◌, Option, none, some, [], ◌∷◌, ◌++◌, Text, text_eq, ltb,
  ◌==◌, if◌then◌else◌,
}
use futo_notes_server.Ids.{valid_uuid}
use futo_notes_server.Store.Rows.{
  CollectionRow, ObjectRow, LedgerRow, claimed, retained, is_staged, is_claimed,
}
use futo_notes_server.Store.Sql.{select_row, update_where}
use futo_notes_server.Store.Documents.{
  Object, Body, Document, Kind, create, message, wrapped, kind_eq, scan_object,
}
use futo_notes_server.Store.Monad.{
  MutationRow, Db, Engine, postgres, sqlite, Notification, M, ok, pure, ◌>>=◌, time_now, attempt,
  tx_query, tx_exec, db_exec, lift,
}
use futo_notes_server.Objects.Stored.{StoredResult, decode_stored_result, pending_message}

pub record MutationIntent : Type 0 where
  pub kind : Kind
  pub collection_id : Text
  pub object_id : Option Text
  pub requested_version : Option ℕ

abbrev pub is_empty : Text → Bool
is_empty [] = true
is_empty (c ∷ s) = false

-- nullableStringEqual and nullableIntEqual.
unfoldable pub nullable_text_eq : Option Text → Option Text → Bool
nullable_text_eq none none = true
nullable_text_eq (some s) (some t) = text_eq s t
nullable_text_eq _ _ = false

unfoldable pub nullable_int_eq : Option ℕ → Option ℕ → Bool
nullable_int_eq none none = true
nullable_int_eq (some a) (some b) = a == b
nullable_int_eq _ _ = false

abbrev pub valid_or_nil : Option Text → Bool
valid_or_nil none = true
valid_or_nil (some s) = valid_uuid s

abbrev pub has_mutation : Text → Text → MutationRow → Bool
has_mutation user_id mutation_id r = text_eq r.user_id user_id && text_eq r.mutation_id mutation_id

-- The early return of prepareMutation and saveResult.
unfoldable pub records_nothing : Text → MutationIntent → Bool
records_nothing mutation_id intent =
    is_empty mutation_id
    || (not (valid_uuid intent.collection_id) || not (valid_or_nil intent.object_id))

-- A statement that only Postgres executes.
abbrev pub attempt_on : Engine → M (Unit {0})
attempt_on postgres = attempt
attempt_on sqlite = pure tt

unfoldable pub lock_mutation : Text → M (Unit {0})
lock_mutation mutation_id =
    if is_empty mutation_id then pure tt else (λ w. attempt_on w.env.engine w)

unfoldable pub intent_matches : MutationIntent → MutationRow → Bool
intent_matches intent r =
    kind_eq r.kind intent.kind
    && text_eq r.collection_id intent.collection_id
    && (if kind_eq intent.kind create
        then true
        else (nullable_text_eq r.object_id intent.object_id
            && nullable_int_eq r.requested_version intent.requested_version))

-- What a Mutation ID already carries: nothing, another intent, or an outcome.
pub data Replay : Type 0 where
  fresh mismatch : Replay
  found : StoredResult → Replay

unfoldable pub replay_row : MutationIntent → Option MutationRow → Option Replay
replay_row intent none = some fresh
replay_row intent (some r) =
    if intent_matches intent r
    then (elim (decode_stored_result r.result) [ none ↦ none | some s ↦ some (found s) ])
    else some mismatch

unfoldable pub replay : Text → Text → MutationIntent → M Replay
replay user_id mutation_id intent = if is_empty mutation_id then pure fresh else do
  row ← tx_query (λ d. select_row (has_mutation user_id mutation_id) d.mutations)
  lift (replay_row intent row)

-- A pending claim that this request took is its own.
abbrev pub own_claim : Bool → Replay → Replay
own_claim prepared (found s) = if prepared && s.status == 102 then fresh else found s
own_claim prepared r = r

abbrev pub pending_document : Document
pending_document = wrapped 102 (message pending_message)

-- INSERT ... ON CONFLICT (user_id, mutation_id) DO NOTHING RETURNING 1.
unfoldable pub insert_pending : Text → Text → MutationIntent → ℕ → Db → Option (Bool × Db)
insert_pending user_id mutation_id intent now d =
    elim (select_row (has_mutation user_id mutation_id) d.mutations) [
      | some _ ↦ some (false, d)
      | none ↦ some (
        true,
        record d {
          mutations =
              record {
                user_id = user_id;
                mutation_id = mutation_id;
                kind = intent.kind;
                collection_id = intent.collection_id;
                object_id = intent.object_id;
                requested_version = intent.requested_version;
                result = pending_document;
                created_at = now;
              }
              ∷ d.mutations;
        },
      )
    ]

unfoldable pub prepare_mutation : Text → Text → MutationIntent → M Bool
prepare_mutation user_id mutation_id intent =
    if records_nothing mutation_id intent
    then pure false
    else do now ← time_now; db_exec (insert_pending user_id mutation_id intent now)

-- INSERT ... ON CONFLICT DO UPDATE SET object_id, requested_version, result.
unfoldable pub upsert_result : Text → Text → MutationIntent → Document → Option Text → ℕ → Db → Db
upsert_result user_id mutation_id intent result object_id now d =
    elim (select_row (has_mutation user_id mutation_id) d.mutations) [
      | some _ ↦ record d {
        mutations =
            update_where (has_mutation user_id mutation_id)
              (λ r. record r {
                object_id = object_id;
                requested_version = intent.requested_version;
                result = result;
              })
              d.mutations;
      }
      | none ↦ record d {
        mutations =
            record {
              user_id = user_id;
              mutation_id = mutation_id;
              kind = intent.kind;
              collection_id = intent.collection_id;
              object_id = object_id;
              requested_version = intent.requested_version;
              result = result;
              created_at = now;
            }
            ∷ d.mutations;
      }
    ]

unfoldable pub save_result : Text → Text → MutationIntent → ℕ → Body → Option Text → M (Unit {0})
save_result user_id mutation_id intent status body resulting =
    if records_nothing mutation_id intent then pure tt else do
      now ← time_now
      tx_exec λ d. some (
        tt,
        upsert_result user_id mutation_id intent (wrapped status body)
            (if kind_eq intent.kind create then resulting else intent.object_id) now d,
      )

abbrev pub owns_collection : Text → Text → CollectionRow → Bool
owns_collection user_id collection_id r = text_eq r.id collection_id && text_eq r.user_id user_id

abbrev pub is_row {ℓ} : {R : Type ℓ} → Option R → Bool
is_row none = false
is_row (some _) = true

unfoldable pub lock_collection : Text → Text → M Bool
lock_collection user_id collection_id =
    if valid_uuid collection_id
    then tx_query (λ d. is_row (select_row (owns_collection user_id collection_id) d.collections))
    else pure false

abbrev pub day_ms : ℕ
day_ms = 86400000

abbrev pub staged_for : Text → Text → ℕ → LedgerRow → Bool
staged_for user_id blob_key now r =
    text_eq r.blob_key blob_key
    && text_eq r.user_id user_id
    && is_staged r.state
    && ltb now (r.created_at + day_ms)

abbrev pub row_size : Option LedgerRow → Option ℕ
row_size none = none
row_size (some r) = some r.size_bytes

unfoldable pub staged_blob_size : Text → Text → M (Option ℕ)
staged_blob_size user_id blob_key = do
  now ← time_now
  tx_query (λ d. row_size (select_row (staged_for user_id blob_key now) d.ledger))

abbrev pub max_int64 : ℕ
max_int64 = 9223372036854775807

-- currentVersion + 1 in int64, as its bit pattern.
abbrev pub inc_int64 : ℕ → ℕ
inc_int64 v = if v == 18446744073709551615 then 0 else v + 1

-- UPDATE collections SET current_version = current_version + 1 WHERE id = $1 RETURNING
-- current_version. The engines report a sum out of range, and Scan a missing row.
unfoldable pub bump_version : Text → Db → Option (ℕ × Db)
bump_version collection_id d = elim (select_row (λ r. text_eq r.id collection_id) d.collections) [
  | none ↦ none
  | some c ↦
      if ltb c.current_version max_int64
      then some (
        c.current_version + 1,
        record d {
          collections =
              update_where (λ r. text_eq r.id collection_id)
                (λ r. record r { current_version = r.current_version + 1 }) d.collections;
        },
      )
      else none
]

abbrev pub owned_object : Text → Text → Text → ObjectRow → Bool
owned_object user_id collection_id object_id r =
    text_eq r.id object_id && text_eq r.collection_id collection_id && text_eq r.user_id user_id

abbrev pub scan_row : Option ObjectRow → Option Object
scan_row none = none
scan_row (some r) = some (scan_object r)

unfoldable pub select_object : Text → Text → Text → Db → Option Object
select_object user_id collection_id object_id d =
    scan_row (select_row (owned_object user_id collection_id object_id) d.objects)

-- UPDATE blob_ledger SET state = 'claimed', ... WHERE blob_key = $1.
unfoldable pub claim_blob : Text → Text → Text → ℕ → ℕ → Db → Db
claim_blob blob_key collection_id object_id version now d = record d {
  ledger =
      update_where (λ r. text_eq r.blob_key blob_key)
        (λ r. record r {
          state = claimed;
          collection_id = some collection_id;
          object_id = some object_id;
          object_version = some version;
          state_changed_at = now;
        })
        d.ledger;
}

-- UPDATE blob_ledger SET state = 'retained', ... WHERE blob_key = $1 AND state = 'claimed'.
unfoldable pub retain_blob : Option Text → ℕ → Db → Db
retain_blob none now d = d
retain_blob (some blob_key) now d = record d {
  ledger =
      update_where (λ r. text_eq r.blob_key blob_key && is_claimed r.state)
        (λ r. record r {
          state = retained;
          object_id = none;
          object_version = none;
          state_changed_at = now;
        })
        d.ledger;
}

-- The statement runs only if the object has a blob.
unfoldable pub release_blob : Option Text → ℕ → M (Unit {0})
release_blob none now = pure tt
release_blob (some blob_key) now = tx_exec (λ d. some (tt, retain_blob (some blob_key) now d))

-- Publisher.Publish of internal/events: pg_notify is a statement of the transaction, and the
-- SQLite publisher registers a callback. Both ring once the transaction has committed.
unfoldable pub publish : Notification → M (Unit {0})
publish n = do
  _ ← (λ w. attempt_on w.env.engine w)
  λ w. (ok tt, record w { doorbells = w.doorbells ++ n ∷ [] })
