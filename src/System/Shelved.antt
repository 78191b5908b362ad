-- ===== src/System/Shelved.antt =====
-- Every transaction of internal/objects/objects.go, and the clean-up, keep what the ledger owes.
use futo_notes_server.Objects.Delete.Effect.{Deleted, tombstone_row}
use futo_notes_server.Objects.SequenceKept.{owned-by_id}
use futo_notes_server.Objects.Update.Atomic.{update_prepared-effect}
use futo_notes_server.Objects.Delete.Atomic.{delete_prepared-effect}
use futo_notes_server.Objects.Update.Effect.{Updated, updated_row}
use futo_notes_server.Objects.Update.{update_prepared}
use futo_notes_server.Objects.Delete.{delete_prepared, DeleteOutcome}
use futo_notes_server.Store.Sql.{select_row, update_where, All-select_row, All-update_where}
use futo_notes_server.Store.Keys.{select_row-none, HasKey-update_where, HasKey-select_row}
use futo_notes_server.System.Claimed.{
  claim_rows-other, staged-unheld, claim_rows-own, staged-is_row, claim_rows, retain_blob-is_row,
  retain_blob-other, retain_blob-deleted,
}
use futo_notes_server.Objects.Create.Effect.{Created, created_row}
use futo_notes_server.Objects.Create.Atomic.{create_reserved-effect}
use futo_notes_server.Objects.Stored.{MutationOutcome}
use futo_notes_server.Objects.Steps.{claim_blob, owned_object, retain_blob, inc_int64}
use futo_notes_server.Objects.Create.{create_reserved}
use futo_notes_server.Objects.Outcome.{Aborted}
use futo_notes_server.Store.Monad.{World}
use futo_notes_server.Store.Rows.{ObjectRow, LedgerRow}
use futo_notes_server.Prelude.{
  ◌≡◌, refl, some, Text, List, Bool, All, subst₂, All-mono, inl, subst, inr, sym, ◌+◌, ◌+◌, ◌≢◌,
  ◌≢◌, ℕ, Option, text_eq, ◌∙◌, ◌∙◌, text_eq→≡, arith, text_eq_iff, All-and,
}
use futo_notes_server.System.Held.{Held, Shelf, IsShelved}

abbrev pub Shelved : World → Type 0
Shelved w = IsShelved w.stored.objects w.stored.ledger

Aborted-Shelved : (w w' : World) → Aborted w w' → Shelved w → Shelved w'
Aborted-Shelved w w' a s = subst₂ IsShelved a.same_data.objects a.same_data.ledger s

abbrev id_of : ObjectRow → Text
id_of o = o.id

abbrev all_held :
    (os : List ObjectRow) (ls : List LedgerRow) → IsShelved os ls → All (λ o. All (Held o) ls) os
all_held os ls s = All-mono (Shelf ls) (λ o. All (Held o) ls) os (λ o h. h.0) s.shelves

-- Changing the one row of an object: that row, and the others, with what the ledger owes them.
touched-IsShelved :
    (user_id collection_id object_id : Text) (os : List ObjectRow) (ls ls' : List LedgerRow)
    (before row : ObjectRow) (f : ObjectRow → ObjectRow)
    → IsShelved os ls
    → select_row (owned_object user_id collection_id object_id) os ≡ some before
    → select_row (λ r. text_eq r.id object_id) os ≡ some row
    → ((r : ObjectRow) → (f r).id ≡ r.id)
    → (before.id ≡ object_id
        → before.collection_id ≡ collection_id
        → Shelf ls before
        → Shelf ls' (f before))
    → ((o : ObjectRow) → o.id ≢ before.id → All (Held before) ls → Shelf ls o → Shelf ls' o)
    → IsShelved (update_where (λ r. text_eq r.id object_id) f os) ls'
touched-IsShelved user_id collection_id object_id os ls ls' before row f s current by_id same_id
      mine other =
    let (same, id, here, _) =
      owned-by_id user_id collection_id os before row object_id s.keys current by_id in
    let shelf =
      All-select_row (Shelf ls) (owned_object user_id collection_id object_id) os before current
        s.shelves in
    record {
      keys = HasKey-update_where id_of (λ r. text_eq r.id object_id) f os same_id s.keys;
      shelves =
          All-update_where (λ o. Shelf ls o × (o.id ≡ object_id → o ≡ row)) (Shelf ls')
            (λ r. text_eq r.id object_id) f os
            (λ o h e.
              subst (λ x. Shelf ls' (f x)) (same ∙ sym (h.1 (text_eq→≡ o.id object_id e)))
                (mine id here shelf))
            (λ o h e.
              other o (λ q. absurd (ground (arith, text_eq_iff o.id object_id))) shelf.0 h.0)
            (All-and (Shelf ls) (λ o. o.id ≡ object_id → o ≡ row) os s.shelves
              (HasKey-select_row id_of object_id os row s.keys by_id));
    }

module _ (user_id collection_id mutation_id blob_key : Text) (prepared : Bool) (w : World)
    (s : Shelved w) where
  Created-Shelved :
      (w' : World) (o : MutationOutcome)
      → Created user_id collection_id mutation_id blob_key w o w'
      → Shelved w'
  unfolding claim_blob
  Created-Shelved w' o c =
      let other =
        All-mono (Shelf w.stored.ledger) (Shelf w'.stored.ledger) w.stored.objects
          (λ x h.
            subst (λ ls. Shelf ls x) (sym c.ledger)
              (claim_rows-other blob_key collection_id c.object_id 1 c.created_at w.stored.ledger x
                (staged-unheld user_id blob_key c.checked_at w.stored.ledger c.blob c.staged x h.0)
                h))
          s.shelves in
      let new : Shelf w'.stored.ledger (
          created_row user_id collection_id mutation_id blob_key c.object_id
            (c.counter.current_version + 1) c.blob.size_bytes c.created_at) =
        subst
          (λ ls. Shelf ls (
            created_row user_id collection_id mutation_id blob_key c.object_id
              (c.counter.current_version + 1) c.blob.size_bytes c.created_at))
          (sym c.ledger)
          (claim_rows-own blob_key collection_id c.object_id 1 c.created_at w.stored.ledger _ refl
            refl refl
            (staged-is_row user_id blob_key c.checked_at w.stored.ledger c.blob c.staged)) in
      subst (λ os. IsShelved os w'.stored.ledger) (sym c.objects)
        (record {
          keys = (
            All-mono (λ (r : ObjectRow). r.id ≢ c.object_id) (λ r. c.object_id ≢ r.id)
                w.stored.objects (λ r n e. n (sym e))
                (select_row-none id_of c.object_id w.stored.objects c.unused),
            s.keys,
          );
          shelves = (new, other);
        })

  -- Creating an object keeps what the ledger owes to the objects, whichever statement fails.
  pub create_reserved-IsShelved :
      Shelved (create_reserved user_id collection_id mutation_id blob_key prepared w).1
  create_reserved-IsShelved =
      elim (create_reserved-effect user_id collection_id mutation_id blob_key prepared w) [
        | inl (_, a) ↦ Aborted-Shelved w _ a s
        | inr (o, _, c) ↦ Created-Shelved _ o c
      ]

module _ (user_id collection_id object_id mutation_id : Text) (prepared : Bool) (w : World)
    (s : Shelved w) where
  Updated-Shelved :
      (blob_key : Text) (version : ℕ) (w' : World) (o : MutationOutcome)
      → Updated user_id collection_id object_id mutation_id blob_key version w o w'
      → Shelved w'
  unfolding claim_blob
  Updated-Shelved blob_key version w' o c =
      let kept : List LedgerRow = (retain_blob c.before.blob_key c.updated_at w.stored).ledger in
      let ls' : List LedgerRow =
        claim_rows blob_key collection_id object_id version c.updated_at kept in
      let done =
        touched-IsShelved user_id collection_id object_id w.stored.objects w.stored.ledger ls'
          c.before c.row
          (updated_row version (c.counter.current_version + 1) blob_key c.blob.size_bytes
            c.updated_at)
          s c.current c.by_id (λ r. refl)
          (λ id here h.
            claim_rows-own blob_key collection_id object_id version c.updated_at kept _ refl id here
              (retain_blob-is_row c.before.blob_key c.updated_at w.stored blob_key
                (staged-is_row user_id blob_key c.checked_at w.stored.ledger c.blob c.staged)))
          (λ x apart held h.
            claim_rows-other blob_key collection_id object_id version c.updated_at kept x
              (staged-unheld user_id blob_key c.checked_at w.stored.ledger c.blob c.staged x h.0)
              (retain_blob-other c.before.blob_key c.updated_at w.stored c.before x refl apart held
                h)) in
      subst₂ IsShelved (sym c.objects) (sym c.ledger) done

  -- Updating an object keeps what the ledger owes to the objects, whichever statement fails.
  pub update_prepared-IsShelved :
      (blob_key : Text) (version : ℕ)
      → Shelved
          (update_prepared user_id collection_id object_id mutation_id blob_key version prepared
            w).1
  update_prepared-IsShelved blob_key version =
      elim (update_prepared-effect user_id collection_id object_id mutation_id blob_key version
        prepared w) [
          | inl (_, a) ↦ Aborted-Shelved w _ a s
          | inr (o, _, c) ↦ Updated-Shelved blob_key version _ o c
        ]

  Deleted-Shelved :
      (expected : Option ℕ) (w' : World) (o : DeleteOutcome)
      → Deleted user_id collection_id object_id mutation_id expected w o w'
      → Shelved w'
  Deleted-Shelved expected w' o c =
      let ls' : List LedgerRow = (retain_blob c.before.blob_key c.deleted_at w.stored).ledger in
      let done =
        touched-IsShelved user_id collection_id object_id w.stored.objects w.stored.ledger ls'
          c.before c.row
          (tombstone_row (inc_int64 c.before.version) (c.counter.current_version + 1) c.deleted_at)
          s c.current c.by_id (λ r. refl)
          (λ id here h.
            retain_blob-deleted c.before.blob_key c.deleted_at w.stored _ refl
              (buried_shelf _ _ _ c.before h))
          (λ x apart held h.
            retain_blob-other c.before.blob_key c.deleted_at w.stored c.before x refl apart held
              h) in
      subst₂ IsShelved (sym c.objects) (sym c.ledger) done
    where
      buried :
          (version seq now : ℕ) (b : ObjectRow) (l : LedgerRow)
          → Held b l
          → Held (tombstone_row version seq now b) l
      buried version seq now b l h e = record {
        not_staged = (h e).not_staged;
        own_object = (h e).own_object;
        own_collection = (h e).own_collection;
        kept = λ live. absurd (cc);
      }

      buried_shelf :
          (version seq now : ℕ) (b : ObjectRow)
          → Shelf w.stored.ledger b
          → Shelf w.stored.ledger (tombstone_row version seq now b)
      buried_shelf version seq now b h = (
        All-mono (Held b) (Held (tombstone_row version seq now b)) w.stored.ledger
            (buried version seq now b) h.0,
        λ k live e. absurd (cc),
      )

  -- Deleting an object keeps what the ledger owes to the objects, whichever statement fails.
  pub delete_prepared-IsShelved :
      (expected : Option ℕ)
      → Shelved (delete_prepared user_id collection_id object_id mutation_id expected prepared w).1
  delete_prepared-IsShelved expected =
      elim (delete_prepared-effect user_id collection_id object_id mutation_id expected prepared
        w) [ inl (_, a) ↦ Aborted-Shelved w _ a s | inr (o, _, c) ↦ Deleted-Shelved expected _ o c ]
