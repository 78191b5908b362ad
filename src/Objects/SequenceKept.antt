-- ===== src/Objects/SequenceKept.antt =====
-- Every transaction of internal/objects/objects.go keeps the change sequence in order.
use futo_notes_server.Objects.Update.Atomic.{update_prepared-effect}
use futo_notes_server.Objects.Delete.Atomic.{delete_prepared-effect}
use futo_notes_server.Objects.Create.Atomic.{create_reserved-effect}
use futo_notes_server.Store.Sql.{select_row, select_row-test, All-select_row}
use futo_notes_server.Store.Keys.{HasKey, HasKey-select_row}
use futo_notes_server.Objects.Steps.{owned_object}
use futo_notes_server.Objects.Create.{create_reserved}
use futo_notes_server.Objects.Update.{update_prepared}
use futo_notes_server.Objects.Delete.{delete_prepared}
use futo_notes_server.Objects.Sequence.{IsSequenced, inserted-IsSequenced, touched-IsSequenced}
use futo_notes_server.Objects.Outcome.{Aborted}
use futo_notes_server.Store.Rows.{ObjectRow}
use futo_notes_server.Store.Monad.{World}
use futo_notes_server.Prelude.{
  ◌≡◌, refl, Text, Bool, ℕ, Option, List, subst₂, true, some, inl, arith, text_eq, text_eq_iff, inr,
}

abbrev pub Sequenced : World → Type 0
Sequenced w = IsSequenced w.stored.collections w.stored.objects

Aborted-Sequenced : (w w' : World) → Aborted w w' → Sequenced w → Sequenced w'
Aborted-Sequenced w w' a s = subst₂ IsSequenced a.same_data.collections a.same_data.objects s

owned_object-inv :
    (user_id collection_id object_id : Text) (r : ObjectRow)
    → owned_object user_id collection_id object_id r ≡ true
    → (r.id ≡ object_id) × (r.collection_id ≡ collection_id) × (r.user_id ≡ user_id)
owned_object-inv user_id collection_id object_id r h = ground (
  arith,
  text_eq_iff r.id object_id,
  text_eq_iff r.collection_id collection_id,
  text_eq_iff r.user_id user_id,
)

-- The owned object is the one that its identifier selects.
pub owned-by_id :
    (user_id collection_id : Text) (os : List ObjectRow) (before row : ObjectRow) (object_id : Text)
    → HasKey (λ (o : ObjectRow). o.id) os
    → select_row (owned_object user_id collection_id object_id) os ≡ some before
    → select_row (λ r. text_eq r.id object_id) os ≡ some row
    → (before ≡ row)
      × (before.id ≡ object_id)
      × (before.collection_id ≡ collection_id)
      × (before.user_id ≡ user_id)
owned-by_id user_id collection_id os before row object_id keys owned there =
    let (same_id, same_collection, same_user) =
      owned_object-inv user_id collection_id object_id before
        (select_row-test (owned_object user_id collection_id object_id) os before owned) in
    (
      All-select_row (λ (r : ObjectRow). r.id ≡ object_id → r ≡ row)
          (owned_object user_id collection_id object_id) os before owned
          (HasKey-select_row (λ (o : ObjectRow). o.id) object_id os row keys there) same_id,
      same_id,
      same_collection,
      same_user,
    )

module _ (user_id collection_id object_id mutation_id blob_key : Text) where
  -- Creating an object keeps the object identifiers and the change sequence of every collection
  -- free of repetitions, and below the collection's version.
  pub create_reserved-IsSequenced :
      (prepared : Bool) (w : World)
      → Sequenced w
      → Sequenced (create_reserved user_id collection_id mutation_id blob_key prepared w).1
  create_reserved-IsSequenced prepared w s =
      elim (create_reserved-effect user_id collection_id mutation_id blob_key prepared w) [
        | inl (_, a) ↦ Aborted-Sequenced w _ a s
        | inr (o, _, c) ↦
            rw (c.collections, c.objects)
              (inserted-IsSequenced collection_id w.stored.collections c.counter c.counted
                w.stored.objects _ s refl refl c.unused)
      ]

  -- Updating an object keeps the same: identifiers and change sequences free of repetitions, and
  -- below the version of their collection.
  pub update_prepared-IsSequenced :
      (version : ℕ) (prepared : Bool) (w : World)
      → Sequenced w
      → Sequenced
          (update_prepared user_id collection_id object_id mutation_id blob_key version prepared
            w).1
  update_prepared-IsSequenced version prepared w s =
      elim (update_prepared-effect user_id collection_id object_id mutation_id blob_key version
        prepared w) [
          | inl (_, a) ↦ Aborted-Sequenced w _ a s
          | inr (o, _, c) ↦
              let (same, same_id, here, _) =
                owned-by_id user_id collection_id w.stored.objects c.before c.row object_id
                  s.object_keys c.current c.by_id in
              rw (c.collections, c.objects, ← same_id)
                (touched-IsSequenced collection_id w.stored.collections c.counter c.counted
                  w.stored.objects c.before _ s (ground arith) here (λ r. refl) (λ r. refl)
                  (λ r. refl))
        ]

  -- Deleting an object keeps the same: identifiers and change sequences free of repetitions, and
  -- below the version of their collection.
  pub delete_prepared-IsSequenced :
      (expected : Option ℕ) (prepared : Bool) (w : World)
      → Sequenced w
      → Sequenced
          (delete_prepared user_id collection_id object_id mutation_id expected prepared w).1
  delete_prepared-IsSequenced expected prepared w s =
      elim (delete_prepared-effect user_id collection_id object_id mutation_id expected prepared
        w) [
          | inl (_, a) ↦ Aborted-Sequenced w _ a s
          | inr (o, _, c) ↦
              let (same, same_id, here, _) =
                owned-by_id user_id collection_id w.stored.objects c.before c.row object_id
                  s.object_keys c.current c.by_id in
              rw (c.collections, c.objects, ← same_id)
                (touched-IsSequenced collection_id w.stored.collections c.counter c.counted
                  w.stored.objects c.before _ s (ground arith) here (λ r. refl) (λ r. refl)
                  (λ r. refl))
        ]
