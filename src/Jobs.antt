-- ===== src/Jobs.antt =====
-- The clean-up of internal/jobs/jobs.go.
pub mod Expiry
pub mod Collector
pub mod Garbage
pub mod Reconcile
use futo_notes_server.Objects.Stored.{
  not_found_message, version_conflict_message, blob_not_staged_message, mismatch_message,
}
use futo_notes_server.Store.Sql.{delete_where, select_row, select_where}
use futo_notes_server.Events.{text_less}
use futo_notes_server.Blobs.{ledger_has_key}
use futo_notes_server.Objects.Steps.{day_ms, is_row}
use futo_notes_server.Store.Rows.{LedgerRow, is_staged, is_retained, is_purgeable}
use futo_notes_server.Store.Documents.{
  unreadable, Document, Body, wrapped, as_error, kind_eq, create, bare, pending_text,
}
use futo_notes_server.Store.Monad.{
  ◌>>=◌, ◌>>◌, M, MutationRow, pure, Db, begin_tx, time_now, db_query, db_exec, tx_query, tx_exec,
  commit,
}
use futo_notes_server.Prelude.{
  ◌≡◌, refl, [], ◌∷◌, true, false, none, some, zero, suc, List, Text, ℕ, Bool, ltb, if◌then◌else◌,
  ◌/◌, ◌/◌, ◌*◌, ◌*◌, ◌==◌, ◌==◌, ◌&&◌, text_eq, ◌+◌, ◌+◌, ◌&&◌, Option, ◌||◌, ◌||◌, not, take,
  length,
}

-- The first decimal digit of a status, for LIKE '2%'; a number has fewer digits than the fuel.
unfoldable pub leading_digit : ℕ → ℕ → ℕ
leading_digit zero n = n
leading_digit (suc fuel) n = let rest = leading_digit fuel (n / 10) in if ltb n 10 then n else rest

-- result->>'status' IN ('102', 'pending').
unfoldable pub is_pending : Document → Bool
is_pending (wrapped s b) = s == 102
is_pending pending_text = true
is_pending (bare b) = false
is_pending unreadable = false

unfoldable pub is_known_error : Body → Bool
is_known_error b = elim (as_error b) [
  | none ↦ false
  | some e ↦
      text_eq e not_found_message
      || (text_eq e version_conflict_message
          || (text_eq e blob_not_staged_message || text_eq e mismatch_message))
]

-- The result of a create that went through, or may have.
unfoldable pub tells_creation : Document → Bool
tells_creation (wrapped s b) = leading_digit s s == 2
tells_creation pending_text = false
tells_creation (bare b) = not (is_known_error b)
tells_creation unreadable = true

-- created_at < now - age, on a clock past its first `age`.
abbrev pub is_older_than : ℕ → ℕ → ℕ → Bool
is_older_than age now t = ltb (t + age) now

abbrev pub pending_expired : ℕ → MutationRow → Bool
pending_expired now m = is_older_than day_ms now m.created_at && is_pending m.result

abbrev pub other_expired : ℕ → MutationRow → Bool
other_expired now m =
    is_older_than (30 * day_ms) now m.created_at
    && (not (is_pending m.result) && not (kind_eq m.kind create && tells_creation m.result))

unfoldable pub delete_mutations : (MutationRow → Bool) → Db → Option (ℕ × Db)
delete_mutations p d =
    some (length (select_where p d.mutations), record d { mutations = delete_where p d.mutations })

unfoldable pub expire_mutation_results : M (ℕ × ℕ)
expire_mutation_results = do
  now ← time_now
  pending ← db_exec (delete_mutations (pending_expired now))
  other ← db_exec (delete_mutations (other_expired now))
  pure (pending, other)

-- The rows that the collector may take.
unfoldable pub is_eligible : ℕ → LedgerRow → Bool
is_eligible now l =
    (is_staged l.state && is_older_than day_ms now l.state_changed_at)
    || ((is_retained l.state && is_older_than (365 * day_ms) now l.state_changed_at)
        || is_purgeable l.state)

abbrev pub garbage_collection_batch_size : ℕ
garbage_collection_batch_size = 500

unfoldable pub insert_key : Text → List Text → List Text
insert_key k [] = k ∷ []
insert_key k (l ∷ ls) = if text_less l k then l ∷ insert_key k ls else k ∷ l ∷ ls

unfoldable pub sorted_keys : List LedgerRow → List Text
sorted_keys [] = []
sorted_keys (l ∷ ls) = insert_key l.blob_key (sorted_keys ls)

unfoldable pub eligible_blob_keys : M (List Text)
eligible_blob_keys = do
  now ← time_now
  db_query (λ d.
      take garbage_collection_batch_size (sorted_keys (select_where (is_eligible now) d.ledger)))

abbrev pub eligible_key : Text → ℕ → LedgerRow → Bool
eligible_key key now l = ledger_has_key key l && is_eligible now l

unfoldable pub purge_found : Bool → Text → M Bool
purge_found false key = pure false
purge_found true key = do
  tx_exec (λ d. some (tt, record d { ledger = delete_where (ledger_has_key key) d.ledger }))
  commit
  pure true

-- One transaction; FOR UPDATE SKIP LOCKED is asked when no other transaction holds the row.
unfoldable pub purge_blob_row : Text → M Bool
purge_blob_row key = do
  begin_tx
  now ← time_now
  found ← tx_query (λ d. is_row (select_row (eligible_key key now) d.ledger))
  purge_found found key
