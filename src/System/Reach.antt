-- ===== src/System/Reach.antt =====
-- Every sequence of the transactions that write objects or the blob ledger.
use futo_notes_server.Store.Rules.{time_now-bind, db_exec-end}
use futo_notes_server.Collections.Vault.{delete_collection}
use futo_notes_server.System.Emptied.{delete_collection-IsShelved}
use futo_notes_server.Objects.Delete.{delete_prepared}
use futo_notes_server.Jobs.Collector.{purge_blob_row-Purged}
use futo_notes_server.Objects.Update.{update_prepared}
use futo_notes_server.Blobs.{delete_blob, ledger_has_key, stage}
use futo_notes_server.Jobs.{purge_blob_row, eligible_key}
use futo_notes_server.Store.Sql.{select_row, select_row-test, All-select_row}
use futo_notes_server.Objects.Create.{create_reserved}
use futo_notes_server.Store.Rows.{ObjectRow, LedgerRow, is_claimed}
use futo_notes_server.Objects.Steps.{
  is_row, MutationIntent, insert_pending, prepare_mutation, records_nothing,
}
use futo_notes_server.Blobs.Ownership.{RemovesOnly, delete_blob-DeletesStaged}
use futo_notes_server.System.Swept.{
  PutsOnly, eligible-free, stage-IsShelved, delete_blob-IsShelved, purge_blob_row-IsShelved,
}
use futo_notes_server.Prelude.{
  ◌≡◌, refl, [], ◌∷◌, true, false, some, Bool, Text, List, ℕ, subst, All, Option-cases, All-mono,
  text_eq, sym, inl, ◌||◌, Option, ◌||◌, ◌∙◌, arith, ◌∙◌, inr, ap, ◌≢◌, text_eq→≡, ◌≢◌, ◌++◌, ◌++◌,
  subst₂, Bool-cases,
}
use futo_notes_server.System.Held.{Held, Shelf, IsShelved, Holds, is_legacy_shared}
use futo_notes_server.System.Shelved.{
  Shelved, create_reserved-IsShelved, update_prepared-IsShelved, delete_prepared-IsShelved,
}
use futo_notes_server.Store.Monad.{World, M, Result, Db}

-- What else a request does: neither table changes. Its failures, clock and UUIDs are its own.
pub record Elsewhere (w w' : World) : Type 0 where
  pub objects : w'.stored.objects ≡ w.stored.objects
  pub ledger : w'.stored.ledger ≡ w.stored.ledger

module _ (put_file : Text → Text → M (Unit {0})) (remove_file : Text → M (Unit {0})) where
  -- One transaction of a request or of the clean-up, whichever of its statements fails.
  pub data Step (w : World) : World → Type 0 where
    creates :
        (user_id collection_id mutation_id blob_key : Text) (prepared : Bool)
        → Step w (create_reserved user_id collection_id mutation_id blob_key prepared w).1
    updates :
        (user_id collection_id object_id mutation_id blob_key : Text) (version : ℕ)
        (prepared : Bool)
        → Step w
            (update_prepared user_id collection_id object_id mutation_id blob_key version prepared
              w).1
    deletes :
        (user_id collection_id object_id mutation_id : Text) (expected : Option ℕ) (prepared : Bool)
        → Step w (delete_prepared user_id collection_id object_id mutation_id expected prepared w).1
    deletes_collection : (user_id id : Text) → Step w (delete_collection user_id id w).1
    stages :
        (user_id data_bytes : Text)
        → All
            (λ (o : ObjectRow). o.blob_key ≢ some (user_id ++ (b'/' ∷ w.env.uuid w.step)))
            w.stored.objects
        → Step w (stage put_file user_id data_bytes w).1
    deletes_blob : (user_id key : Text) → Step w (delete_blob remove_file user_id key w).1
    purges : (key : Text) → Step w (purge_blob_row key w).1
    elsewhere : (w' : World) → Elsewhere w w' → Step w w'

  pub data Reach : World → Type 0 where
    empty : (w : World) → w.stored.objects ≡ [] → Reach w
    next : {v w : World} → Reach v → Step v w → Reach w

  -- Recording a Mutation ID ahead of the transaction is a step elsewhere.
  module _ (user_id mutation_id : Text) (intent : MutationIntent) (w : World) where
    abbrev Recorded : Result Bool × World → Type 0
    Recorded (r, v) = Elsewhere w v

    insert_pending-inv :
        (now : ℕ) (d d' : Db) (b : Bool)
        → insert_pending user_id mutation_id intent now d ≡ some (b, d')
        → (d'.objects ≡ d.objects) × (d'.ledger ≡ d.ledger)
    unfolding insert_pending
    insert_pending-inv now d d' b e = ground arith

    pub prepare_mutation-Elsewhere : Elsewhere w (prepare_mutation user_id mutation_id intent w).1
    unfolding prepare_mutation
    prepare_mutation-Elsewhere = elim (Bool-cases (records_nothing mutation_id intent)) [
      | inl e ↦ rw e (record { objects = refl; ledger = refl })
      | inr e ↦ rw e (
          time_now-bind Recorded _ w λ n now.
            db_exec-end Recorded (insert_pending user_id mutation_id intent now) _
              (λ m. record { objects = refl; ledger = refl })
              λ m b d h.
                let (o, l) = insert_pending-inv now w.stored d b h in
                record { objects = o; ledger = l })
    ]

  module _ (puts : PutsOnly put_file) (removes : RemovesOnly remove_file) where
    Step-Shelved : {v w : World} → Step v w → Shelved v → Shelved w
    Step-Shelved {v} (creates u c m k p) s = create_reserved-IsShelved u c m k p v s
    Step-Shelved {v} (updates u c o m k n p) s = update_prepared-IsShelved u c o m p v s k n
    Step-Shelved {v} (deletes u c o m e p) s = delete_prepared-IsShelved u c o m p v s e
    Step-Shelved {v} (deletes_collection u c) s = delete_collection-IsShelved u c v s
    Step-Shelved {v} (stages u d fresh) s = stage-IsShelved put_file puts u d v fresh s
    Step-Shelved {v} (deletes_blob u k) s = delete_blob-IsShelved remove_file removes u k v s
    Step-Shelved {v} (purges k) s = purge_blob_row-IsShelved k v s
    Step-Shelved {v} (elsewhere w' e) s = subst₂ IsShelved (sym e.objects) (sym e.ledger) s

    pub Reach-Shelved : {w : World} → Reach w → Shelved w
    Reach-Shelved (empty w e) =
        subst (λ os. IsShelved os w.stored.ledger) (sym e) (record { keys = tt; shelves = tt })
    Reach-Shelved (next r s) = Step-Shelved s (Reach-Shelved r)

-- The row of a blob that a live object has, and what the collector and a client can do to it.
pub record Kept (remove_file : Text → M (Unit {0})) (w : World) (o : ObjectRow) (key : Text)
    : Type 0 where
  pub row : LedgerRow
  pub there : select_row (ledger_has_key key) w.stored.ledger ≡ some row
  pub claim :
      is_claimed row.state ≡ true
      → (row.object_id ≡ some o.id) × (row.collection_id ≡ some o.collection_id)
  pub claimed_or_legacy : (is_claimed row.state || is_legacy_shared row.state) ≡ true
  pub no_purge : (purge_blob_row key w).1.stored ≡ w.stored
  pub no_deletion : (user_id : Text) → (delete_blob remove_file user_id key w).1.stored ≡ w.stored

is_row-inv :
    {R : Type 0} (p : R → Bool) (rs : List R)
    → is_row (select_row p rs) ≡ true
    → (r : R) × (select_row p rs ≡ some r)
is_row-inv p rs h = elim (Option-cases (select_row p rs)) [
  | inl gone ↦ absurd (ground arith)
  | inr (r, e) ↦ (r, e)
]

module _ (remove_file : Text → M (Unit {0})) (removes : RemovesOnly remove_file) (w : World)
    (o : ObjectRow) (key : Text) (s : Shelf w.stored.ledger o) (live : o.deleted ≡ false)
    (mine : o.blob_key ≡ some key) where
  held_row :
      (p : LedgerRow → Bool) (l : LedgerRow)
      → select_row p w.stored.ledger ≡ some l
      → text_eq l.blob_key key ≡ true
      → Holds o l
  held_row p l found has =
      All-select_row (Held o) p w.stored.ledger l found s.0
        (mine ∙ ap some (sym (text_eq→≡ l.blob_key key has)))

  unpurged : (purge_blob_row key w).1.stored ≡ w.stored
  unpurged = elim (purge_blob_row-Purged key w) [
    | inl (_, same) ↦ same
    | inr (now, l, found, _, _, _) ↦
        let (has, free) =
          eligible-free key now l
            (select_row-test (eligible_key key now) w.stored.ledger l found) in
        let no = sym ((held_row (eligible_key key now) l found has).kept live) ∙ free in absurd (cc)
  ]

  undeleted : (user_id : Text) → (delete_blob remove_file user_id key w).1.stored ≡ w.stored
  undeleted user_id = elim (delete_blob-DeletesStaged remove_file removes user_id key w) [
    | inl same ↦ same
    | inr (l, found, state, _, _) ↦
        let has = select_row-test (ledger_has_key key) w.stored.ledger l found in
        let no = sym state ∙ (held_row (ledger_has_key key) l found has).not_staged in absurd (cc)
  ]

  Shelf-Kept : Kept remove_file w o key
  Shelf-Kept =
      let (l, found) = is_row-inv (ledger_has_key key) w.stored.ledger (s.1 key live mine) in
      let holds =
        held_row (ledger_has_key key) l found
          (select_row-test (ledger_has_key key) w.stored.ledger l found) in
      record {
        row = l;
        there = found;
        claim = λ c. (holds.own_object c, holds.own_collection c);
        claimed_or_legacy = holds.kept live;
        no_purge = unpurged;
        no_deletion = undeleted;
      }

-- In every state that any sequence of these transactions leads to from a database without objects,
-- if the files are kept apart from the tables and a minted key is no object's: the blob of every
-- object that is not deleted has its row in the ledger, claimed, if at all, for this very object in
-- its collection, and claimed or shared from before the ledger; neither the collector nor any
-- client's deletion of the blob changes a table.
pub reachable-Kept :
    (put_file : Text → Text → M (Unit {0})) (remove_file : Text → M (Unit {0}))
    → PutsOnly put_file
    → RemovesOnly remove_file
    → (w : World) → Reach put_file remove_file w
    → All
        (λ (o : ObjectRow).
          o.deleted ≡ false → (key : Text) → o.blob_key ≡ some key → Kept remove_file w o key)
        w.stored.objects
reachable-Kept put_file remove_file puts removes w r =
    All-mono (Shelf w.stored.ledger) _ w.stored.objects
      (λ o s live key mine. Shelf-Kept remove_file removes w o key s live mine)
      (Reach-Shelved put_file remove_file puts removes r).shelves
