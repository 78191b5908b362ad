-- ===== src/System/Swept.antt =====
-- Staging a blob, deleting one, and the collector keep what the ledger owes to the objects.
use futo_notes_server.Objects.Steps.{is_row}
use futo_notes_server.Store.Sql.{delete_where, select_row-test, All-select_row, select_row}
use futo_notes_server.Jobs.Collector.{purge_blob_row-Purged}
use futo_notes_server.Store.Rules.{time_now-bind, db_exec-bind}
use futo_notes_server.Store.Rows.{LedgerRow, ObjectRow, is_claimed}
use futo_notes_server.Blobs.Ownership.{RemovesOnly, delete_blob-DeletesStaged}
use futo_notes_server.Jobs.{is_eligible, purge_blob_row, eligible_key}
use futo_notes_server.Prelude.{
  ◌≡◌, refl, ◌∷◌, true, false, some, Text, ℕ, List, ◌++◌, ◌⊎◌, ◌++◌, ◌⊎◌, ◌≢◌, arith, ◌≢◌, length,
  inl, text_eq, subst, ◌||◌, sym, ◌||◌, All-mono, inr, ◌∙◌, ◌∙◌, ap, text_eq→≡, All, Bool, All-and,
}
use futo_notes_server.System.Held.{
  Held, Shelf, IsShelved, Holds, delete_where-Shelf, is_legacy_shared,
}
use futo_notes_server.System.Shelved.{Shelved}
use futo_notes_server.Store.Monad.{
  ◌>>=◌, World, M, Db, Result, continue, pure, ok, err, new_uuid, tick,
}
use futo_notes_server.Blobs.{staged_row, insert_ledger, stage, delete_blob, ledger_has_key}

-- The rows of a key go that is no live object's.
swept :
    (key : Text) (os : List ObjectRow) (ls : List LedgerRow)
    → ((o : ObjectRow) → Shelf ls o → o.deleted ≡ false → o.blob_key ≢ some key)
    → IsShelved os ls
    → IsShelved os (delete_where (ledger_has_key key) ls)
swept key os ls other s = record {
  keys = s.keys;
  shelves =
      All-mono (Shelf ls) (Shelf (delete_where (ledger_has_key key) ls)) os
        (λ o h. delete_where-Shelf o ls key (other o h) h) s.shelves;
}

-- A row that an object holds is not eligible while the object lives.
pub eligible-free :
    (key : Text) (now : ℕ) (l : LedgerRow)
    → eligible_key key now l ≡ true
    → (text_eq l.blob_key key ≡ true) × ((is_claimed l.state || is_legacy_shared l.state) ≡ false)
unfolding is_eligible
eligible-free key now l e = ground arith

-- The collector keeps what the ledger owes to the objects.
pub purge_blob_row-IsShelved :
    (key : Text) (w : World) → Shelved w → Shelved (purge_blob_row key w).1
purge_blob_row-IsShelved key w s = elim (purge_blob_row-Purged key w) [
  | inl (_, same) ↦ subst (λ d. IsShelved d.objects d.ledger) (sym same) s
  | inr (now, l, found, _, gone, _) ↦
      subst (λ d. IsShelved d.objects d.ledger) (sym gone)
        (swept key w.stored.objects w.stored.ledger
          (λ o h live e.
            let (has, free) =
              eligible-free key now l
                (select_row-test (eligible_key key now) w.stored.ledger l found) in
            let holds : Holds o l =
              All-select_row (Held o) (eligible_key key now) w.stored.ledger l found h.0
                (e ∙ ap some (sym (text_eq→≡ l.blob_key key has))) in
            let no = sym (holds.kept live) ∙ free in absurd (cc))
          s)
]

module _ (remove_file : Text → M (Unit {0})) (only : RemovesOnly remove_file) where
  -- So does a client that deletes a blob.
  pub delete_blob-IsShelved :
      (user_id key : Text) (w : World)
      → Shelved w
      → Shelved (delete_blob remove_file user_id key w).1
  delete_blob-IsShelved user_id key w s =
      elim (delete_blob-DeletesStaged remove_file only user_id key w) [
        | inl same ↦ subst (λ d. IsShelved d.objects d.ledger) (sym same) s
        | inr (l, found, state, _, gone) ↦
            subst (λ d. IsShelved d.objects d.ledger) (sym gone)
              (swept key w.stored.objects w.stored.ledger
                (λ o h live e.
                  let holds : Holds o l =
                    All-select_row (Held o) (ledger_has_key key) w.stored.ledger l found h.0 (
                      e
                      ∙ ap some (
                          sym (
                            text_eq→≡ l.blob_key key
                              (select_row-test (ledger_has_key key) w.stored.ledger l found)))) in
                  let no = sym state ∙ holds.not_staged in absurd (cc))
                s)
      ]

is_row-cons :
    {R : Type 0} (p : R → Bool) (r : R) (rs : List R)
    → is_row (select_row p rs) ≡ true
    → is_row (select_row p (r ∷ rs)) ≡ true
unfolding select_row
is_row-cons p r rs h = ground arith

-- Writing a file changes no table.
abbrev pub PutsOnly : (Text → Text → M (Unit {0})) → Type 0
PutsOnly put_file =
    (key data_bytes : Text) (w : World) → (put_file key data_bytes w).1.stored ≡ w.stored

module _ (put_file : Text → Text → M (Unit {0})) (only : PutsOnly put_file)
    (user_id data_bytes : Text) (w : World) where
  -- The key that Stage mints.
  abbrev pub stage_key : Text
  stage_key = user_id ++ (b'/' ∷ w.env.uuid w.step)

  -- The tables are as they were, or there is one more row, staged under the minted key.
  abbrev pub StagedAt : Db → Type 0
  StagedAt d' =
      (d' ≡ w.stored)
      ⊎ ((now : ℕ) × (d' ≡ record w.stored {
        ledger = staged_row stage_key user_id (length data_bytes) now ∷ w.stored.ledger;
      }))

  abbrev StagedBy : Result Text × World → Type 0
  StagedBy (r, v) = StagedAt v.stored

  insert_ledger-inv :
      (l : LedgerRow) (d d' : Db) (u : Unit {0})
      → insert_ledger l d ≡ some (u, d')
      → d' ≡ record d { ledger = l ∷ d.ledger }
  unfolding insert_ledger
  insert_ledger-inv l d d' u e = ground arith

  told-StagedBy :
      (r : Result (Unit {0})) (v : World)
      → StagedAt v.stored
      → StagedBy (continue r (λ _. pure stage_key) v)
  told-StagedBy (ok u) v h = h
  told-StagedBy (err e) v h = h

  put_file-StagedBy :
      (v : World)
      → StagedAt v.stored
      → StagedBy ((put_file stage_key data_bytes >>= λ _. pure stage_key) v)
  put_file-StagedBy v h =
      told-StagedBy _ (put_file stage_key data_bytes v).1
        (subst StagedAt (sym (only stage_key data_bytes v)) h)

  pub stage-StagedAt : StagedAt (stage put_file user_id data_bytes w).1.stored
  unfolding stage new_uuid
  stage-StagedAt = time_now-bind StagedBy _ (tick w) λ n now.
      db_exec-bind StagedBy (insert_ledger (staged_row stage_key user_id (length data_bytes) now)) _
        _ (λ m. inl refl)
        λ m u d e. put_file-StagedBy _ (inr (now, insert_ledger-inv _ w.stored d u e))

  -- Staging a blob keeps what the ledger owes to the objects, if the minted key is no object's.
  pub stage-IsShelved :
      All (λ (o : ObjectRow). o.blob_key ≢ some stage_key) w.stored.objects
      → Shelved w
      → Shelved (stage put_file user_id data_bytes w).1
  unfolding staged_row
  stage-IsShelved fresh s = elim stage-StagedAt [
    | inl same ↦ subst (λ d. IsShelved d.objects d.ledger) (sym same) s
    | inr (now, grown) ↦
        subst (λ d. IsShelved d.objects d.ledger) (sym grown)
          (record {
            keys = s.keys;
            shelves =
                All-mono
                  (λ (o : ObjectRow). (o.blob_key ≢ some stage_key) × Shelf w.stored.ledger o)
                  (Shelf (staged_row stage_key user_id (length data_bytes) now ∷ w.stored.ledger))
                  w.stored.objects (λ o h. grown_shelf now o h.0 h.1)
                  (All-and _ _ w.stored.objects fresh s.shelves);
          })
  ]
    where
      grown_shelf :
          (now : ℕ) (o : ObjectRow)
          → o.blob_key ≢ some stage_key
          → Shelf w.stored.ledger o
          → Shelf (staged_row stage_key user_id (length data_bytes) now ∷ w.stored.ledger) o
      grown_shelf now o apart h = (
        ((λ e. absurd (apart e)), h.0),
        λ k live e. is_row-cons (ledger_has_key k) _ w.stored.ledger (h.1 k live e),
      )
