-- ===== src/Jobs/Collector/Due.antt =====
-- When the collector takes a row from the ledger, by the clock.
use futo_notes_server.Store.Steps.{
  begin_tx-next, time_now-next, tx_query-next, tx_write-next, commit-next,
}
use futo_notes_server.Objects.Steps.{is_row, day_ms}
use futo_notes_server.Blobs.{ledger_has_key}
use futo_notes_server.Jobs.{eligible_key, is_eligible, purge_blob_row, purge_found}
use futo_notes_server.Store.Sql.{select_row, delete_where}
use futo_notes_server.Store.Rows.{
  LedgerRow, LedgerState, staged, retained, purgeable, claimed, legacy_shared,
}
use futo_notes_server.Store.Monad.{World, Result, ok, err, internal}
use futo_notes_server.Prelude.{
  ◌≡◌, refl, [], ◌∷◌, true, false, none, some, Text, ℕ, Bool, List, ◌⊎◌, inl, arith, inr, All,
  Option, Bool-cases, text_eq→≡, text_eq_refl, ◌+◌, ◌*◌, ◌<◌, &&-left, &&-right, text_eq,
}

-- A row may be taken when it has been staged for more than a day, retained for more than 365, or has
-- been given up.
abbrev pub IsDue : ℕ → LedgerRow → Type 0
IsDue now l =
    (l.state ≡ staged) × (l.state_changed_at + day_ms < now)
    ⊎ (l.state ≡ retained) × (l.state_changed_at + 365 * day_ms < now)
    ⊎ (l.state ≡ purgeable)

eligible-IsDue : (now : ℕ) (l : LedgerRow) → is_eligible now l ≡ true → IsDue now l
unfolding is_eligible
eligible-IsDue now l h = due l.state refl
  where
    due : (s : LedgerState) → l.state ≡ s → IsDue now l
    due staged e = inl (e, ground (arith, e, h))
    due claimed e = absurd (ground (arith, e, h))
    due retained e = inr (inl (e, ground (arith, e, h)))
    due purgeable e = inr (inr e)
    due legacy_shared e = absurd (ground (arith, e, h))

IsDue-eligible : (now : ℕ) (l : LedgerRow) → IsDue now l → is_eligible now l ≡ true
unfolding is_eligible
IsDue-eligible now l (inl (e, old)) = rw e (ground arith)
IsDue-eligible now l (inr (inl (e, old))) = rw e (ground arith)
IsDue-eligible now l (inr (inr e)) = rw e (ground arith)

-- No row of the key may be taken.
abbrev pub NoneDue : Text → ℕ → List LedgerRow → Type 0
NoneDue key now rows = All (λ l. ¬ ((l.blob_key ≡ key) × IsDue now l)) rows

select_row-NoneDue :
    (key : Text) (now : ℕ) (rows : List LedgerRow)
    → select_row (eligible_key key now) rows ≡ none
    → NoneDue key now rows
unfolding select_row
select_row-NoneDue key now [] e = tt
select_row-NoneDue key now (l ∷ rows) e = elim (Bool-cases (eligible_key key now l)) [
  | inl there ↦ absurd (ground arith)
  | inr gone ↦ (
    λ given.
        let own : text_eq l.blob_key key ≡ true = rw given.0 (text_eq_refl key) in
        let due = IsDue-eligible now l given.1 in ground (arith, own, due, gone),
    select_row-NoneDue key now rows (ground arith),
  )
]

-- A row of the key may be taken.
abbrev pub SomeDue : Text → ℕ → List LedgerRow → Type 0
SomeDue key now [] = ⊥
SomeDue key now (l ∷ rows) = (l.blob_key ≡ key) × IsDue now l ⊎ SomeDue key now rows

select_row-SomeDue :
    (key : Text) (now : ℕ) (rows : List LedgerRow) (l : LedgerRow)
    → select_row (eligible_key key now) rows ≡ some l
    → SomeDue key now rows
unfolding select_row
select_row-SomeDue key now [] l e = cc
select_row-SomeDue key now (x ∷ rows) l e = elim (Bool-cases (eligible_key key now x)) [
  | inl there ↦ inl (
    text_eq→≡ _ _ (&&-left _ _ there),
    eligible-IsDue now x (&&-right (ledger_has_key key x) _ there),
  )
  | inr gone ↦ inr (select_row-SomeDue key now rows l (ground arith))
]

-- The time is read once the transaction has begun.
abbrev pub time_of : World → ℕ
time_of w = w.env.now (w.step + 1)

abbrev pub Collects : Text → World → Result Bool × World → Type 0
Collects key w (r, w') =
    ((n : ℕ) × (w.env.fails n ≡ true) × (r ≡ err internal) × (w'.stored ≡ w.stored))
    ⊎ (NoneDue key (time_of w) w.stored.ledger × (r ≡ ok false) × (w'.stored ≡ w.stored))
    ⊎ (SomeDue key (time_of w) w.stored.ledger
        × (r ≡ ok true)
        × (w'.stored
            ≡ record w.stored { ledger = delete_where (ledger_has_key key) w.stored.ledger }))

module _ (key : Text) (w : World) where
  reading : World
  reading = record w { step = w.step + 1 + 1 + 1; work = w.stored; doorbells = [] }

  found :
      (o : Option LedgerRow)
      → select_row (eligible_key key (time_of w)) w.stored.ledger ≡ o
      → Collects key w (purge_found (is_row o) key reading)
  unfolding purge_found reading
  found none e = inr (inl (select_row-NoneDue key (time_of w) w.stored.ledger e, refl, refl))
  found (some l) e =
      tx_write-next (Collects key w)
        (λ d. record d { ledger = delete_where (ledger_has_key key) d.ledger }) _ reading
        (λ f. inl (_, f, refl, refl))
        (commit-next (Collects key w) _ _ (λ f. inl (_, f, refl, refl))
          (inr (inr (select_row-SomeDue key (time_of w) w.stored.ledger l e, refl, refl))))

  -- Purging a key has one of three outcomes: a statement fails and the database is as it was; no row
  -- of the key may be taken at the time at which the transaction reads the clock, none is reported
  -- and the database is as it was; or a row of the key may be taken at that time, all rows of the key
  -- are gone, nothing else has changed and it is reported. A row may be taken when it has been staged
  -- for more than a day, retained for more than 365, or given up, so never when an object claims it.
  pub purge_blob_row-Collects : Collects key w (purge_blob_row key w)
  unfolding purge_blob_row reading
  purge_blob_row-Collects =
      begin_tx-next (Collects key w) _ w (λ f. inl (_, f, refl, refl))
        (time_now-next (Collects key w) _ _ (
          tx_query-next (Collects key w)
            (λ d. is_row (select_row (eligible_key key (time_of w)) d.ledger)) _ _
            (λ f. inl (_, f, refl, refl)) (found _ refl)))
