-- ===== src/Jobs/Collector.antt =====
-- What the collector takes from the ledger.
pub mod Due
use futo_notes_server.Store.Rules.{
  tx_write-bind, commit-bind, begin_tx-bind, time_now-bind, tx_query-bind,
}
use futo_notes_server.Objects.Steps.{is_row}
use futo_notes_server.Blobs.{ledger_has_key}
use futo_notes_server.Jobs.{eligible_key, is_eligible, purge_blob_row, purge_found}
use futo_notes_server.Store.Sql.{select_row, delete_where, select_row-test}
use futo_notes_server.Store.Rows.{LedgerRow, is_claimed}
use futo_notes_server.Store.Monad.{World, Result, ok}
use futo_notes_server.Prelude.{
  ◌≡◌, refl, [], true, false, none, some, Text, ℕ, Bool, ◌⊎◌, ◌⊎◌, inl, arith, inr, Option-cases,
}

-- Nothing has changed, or the rows of one key are gone, of which one could be taken.
abbrev pub Purged : Text → World → Result Bool × World → Type 0
Purged key w (r, w') =
    (¬ (r ≡ ok true)) × (w'.stored ≡ w.stored)
    ⊎ ((now : ℕ) × (l : LedgerRow) × (select_row (eligible_key key now) w.stored.ledger ≡ some l)
        × (is_claimed l.state ≡ false)
        × (w'.stored
            ≡ record w.stored { ledger = delete_where (ledger_has_key key) w.stored.ledger })
        × (r ≡ ok true))

eligible-claimed :
    (key : Text) (now : ℕ) (l : LedgerRow)
    → eligible_key key now l ≡ true
    → is_claimed l.state ≡ false
unfolding is_eligible
eligible-claimed key now l h = ground arith

-- Purging a key leaves the database as it was, or takes the key's rows where one of them could be
-- taken at some time, and reports it; that one was not claimed by an object.
pub purge_blob_row-Purged : (key : Text) (w : World) → Purged key w (purge_blob_row key w)
unfolding purge_blob_row purge_found
purge_blob_row-Purged key w =
    begin_tx-bind (Purged key w) _ w (λ m. inl (λ e. absurd (cc), refl))
      λ n₁. time_now-bind (Purged key w) _ _ λ n₂ now.
        tx_query-bind (Purged key w) (λ d. is_row (select_row (eligible_key key now) d.ledger)) _ _
          (λ m. inl (λ e. absurd (cc), refl))
          λ n₃. found now n₃ (Option-cases (select_row (eligible_key key now) w.stored.ledger))
  where
    found :
        (now n : ℕ)
        → (select_row (eligible_key key now) w.stored.ledger ≡ none)
          ⊎ ((l : LedgerRow) × (select_row (eligible_key key now) w.stored.ledger ≡ some l))
        → Purged key w (
            purge_found
              (is_row (select_row (eligible_key key now) w.stored.ledger))
              key
              (record w { step = n; work = w.stored; doorbells = [] }))
    found now n (inl e) = rw e (inl (λ e. absurd (cc), refl))
    found now n (inr (l, e)) = rw e (
        tx_write-bind (Purged key w)
          (λ d. record d { ledger = delete_where (ledger_has_key key) d.ledger }) _ _
          (λ m. inl (λ e. absurd (cc), refl))
          λ n₁.
            commit-bind (Purged key w) _ _ (λ m. inl (λ e. absurd (cc), refl))
              λ n₂.
                inr (now, l, e, eligible-claimed key now l (select_row-test _ _ l e), refl, refl))
