-- ===== src/Objects/Delete/Effect.antt =====
-- What the transaction of Delete (internal/objects/objects.go) writes when it goes through.
use futo_notes_server.Objects.Rules.{release_blob-bind, recorded, save_result-bind, publish-bind}
use futo_notes_server.Store.Rules.{tx_exec-bind, time_now-bind, commit-bind}
use futo_notes_server.Objects.Steps.{
  is_row, owns_collection, has_mutation, owned_object, bump_version, max_int64, inc_int64,
  retain_blob,
}
use futo_notes_server.Objects.Outcome.{
  Aborted, opened, Aborted-lost, bumped, bump_version-inv, recorded-SameData,
  retain_blob-collections, retain_blob-objects, retain_blob-ledger,
}
use futo_notes_server.Store.Sql.{select_row, update_where}
use futo_notes_server.Objects.Stored.{ResultCode}
use futo_notes_server.Store.Documents.{scan_object, DeletedObject, DeleteResponse, deletion}
use futo_notes_server.Store.Monad.{World, Result, Db, Notification, err, internal}
use futo_notes_server.Objects.Delete.{
  tombstone, delete_object, DeleteOutcome, deleted_row, is_stale, outcome_with, delete_intent,
}
use futo_notes_server.Store.Rows.{ObjectRow, CollectionRow}
use futo_notes_server.Prelude.{
  refl, [], ◌≡◌, ◌++◌, ◌∷◌, none, some, true, false, ℕ, Text, Option, List, ◌⊎◌, text_eq, ◌⊎◌, ◌<◌,
  ◌<◌, Option-cases, inl, arith, inr, ◌+◌, ◌+◌,
}

-- The row that the tombstone leaves: the blob key and the size stay.
abbrev pub tombstone_row : ℕ → ℕ → ℕ → ObjectRow → ObjectRow
tombstone_row version seq now r = record r {
  deleted = true;
  version = version;
  change_seq = seq;
  updated_at = now;
}

module _ (user_id collection_id object_id mutation_id : Text) (expected : Option ℕ) where
  -- The effect of a delete that went through.
  pub record Deleted (w : World) (o : DeleteOutcome) (w' : World) : Type 0 where
    pub counter : CollectionRow
    pub before : ObjectRow
    pub row : ObjectRow
    pub deleted_at : ℕ
    pub owned :
        is_row (select_row (owns_collection user_id collection_id) w.stored.collections) ≡ true
    pub current :
        select_row (owned_object user_id collection_id object_id) w.stored.objects ≡ some before
    pub was_live : before.deleted ≡ false
    pub fits : is_stale expected before.version ≡ false
    pub counted : select_row (λ r. text_eq r.id collection_id) w.stored.collections ≡ some counter
    pub below_max : counter.current_version < max_int64
    pub by_id : select_row (λ r. text_eq r.id object_id) w.stored.objects ≡ some row
    pub answer :
        o
        ≡ outcome_with ResultCode.ok (record {
          object = deleted_row (
              tombstone_row
                (inc_int64 before.version)
                (counter.current_version + 1)
                deleted_at
                row);
          collection_version = counter.current_version + 1;
        })
    pub collections : w'.stored.collections ≡ bumped collection_id w.stored.collections
    pub objects :
        w'.stored.objects
        ≡ update_where
            (λ r. text_eq r.id object_id)
            (tombstone_row (inc_int64 before.version) (counter.current_version + 1) deleted_at)
            w.stored.objects
    pub ledger : w'.stored.ledger ≡ (retain_blob before.blob_key deleted_at w.stored).ledger
    pub rang :
        w'.delivered
        ≡ w.delivered
          ++ record {
            user_id = user_id;
            collection_id = collection_id;
            current_version = counter.current_version + 1;
          }
            ∷ []

  -- An answer OK without an effect repeats what the Mutation ID carries, or finds the object
  -- deleted already.
  abbrev pub NotDeleted : World → Result DeleteOutcome → Type 0
  NotDeleted w r =
      (o : DeleteOutcome)
      → r ≡ Result.ok o
      → o.code ≡ ResultCode.ok
      → (is_row (select_row (has_mutation user_id mutation_id) w.stored.mutations) ≡ true)
        ⊎ ((before : ObjectRow) × (select_row (owned_object user_id collection_id object_id)
                w.stored.objects
              ≡ some before)
            × (before.deleted ≡ true)
            × (o.response.object ≡ deleted_row before))

  abbrev pub DeleteEffect : World → Result DeleteOutcome × World → Type 0
  DeleteEffect w (r, w') =
      (NotDeleted w r × Aborted w w') ⊎ ((o : DeleteOutcome) × (r ≡ Result.ok o) × Deleted w o w')

  tombstone-inv :
      (version seq now : ℕ) (d d' : Db) (o : DeletedObject)
      → tombstone object_id version seq now d ≡ some (o, d')
      → (r : ObjectRow) × (select_row (λ r. text_eq r.id object_id) d.objects ≡ some r)
        × (o ≡ deleted_row (tombstone_row version seq now r))
        × (d' ≡ record d {
          objects =
              update_where (λ r. text_eq r.id object_id) (tombstone_row version seq now) d.objects;
        })
  unfolding tombstone
  tombstone-inv version seq now d d' o h =
      elim (Option-cases (select_row (λ (r : ObjectRow). text_eq r.id object_id) d.objects)) [
        | inl gone ↦ absurd (ground arith)
        | inr (r, there) ↦ (r, there, ground arith, ground arith)
      ]

  deleted :
      (w : World) (now saved_at n seq : ℕ) (o : DeletedObject) (d₁ d₂ : Db) (before : ObjectRow)
      → is_row (select_row (owns_collection user_id collection_id) w.stored.collections) ≡ true
      → select_row (owned_object user_id collection_id object_id) w.stored.objects ≡ some before
      → before.deleted ≡ false
      → is_stale expected before.version ≡ false
      → bump_version collection_id w.stored ≡ some (seq, d₁)
      → tombstone object_id (inc_int64 before.version) seq now d₁ ≡ some (o, d₂)
      → let response : DeleteResponse = record { object = o; collection_version = seq } in
        let d₃ : Db =
          recorded user_id mutation_id
            (delete_intent collection_id object_id expected)
            200
            (deletion response)
            none
            saved_at
            (retain_blob before.blob_key now d₂) in
        Deleted w (outcome_with ResultCode.ok response) (record w {
          step = n;
          stored = d₃;
          work = d₃;
          doorbells = [];
          delivered =
              w.delivered
              ++ record { user_id = user_id; collection_id = collection_id; current_version = seq }
                ∷ [];
        })
  deleted w now saved_at n seq o d₁ d₂ before owned current live fits bump set =
      let (c, counted, below, is_next, is_bumped) =
        bump_version-inv collection_id w.stored d₁ seq bump in
      let (r, there, is_row, is_set) =
        tombstone-inv (inc_int64 before.version) seq now d₁ d₂ o set in
      let kept =
        recorded-SameData user_id mutation_id (delete_intent collection_id object_id expected) 200
          (deletion (record { object = o; collection_version = seq })) none saved_at
          (retain_blob before.blob_key now d₂) in
      record {
        counter = c;
        before = before;
        row = r;
        deleted_at = now;
        owned = owned;
        current = current;
        was_live = live;
        fits = fits;
        counted = counted;
        below_max = below;
        by_id = ground arith;
        answer = ground arith;
        collections =
            ground (arith, kept.collections, retain_blob-collections before.blob_key now d₂);
        objects = ground (arith, kept.objects, retain_blob-objects before.blob_key now d₂);
        ledger = ground (arith, kept.ledger, retain_blob-ledger before.blob_key now d₂ w.stored);
        rang = ground arith;
      }

  pub lost :
      (w : World) (n : ℕ) (d : Db) (bells : List Notification)
      → DeleteEffect w (err internal, record w { step = n; work = d; doorbells = bells })
  lost w n d bells = inl ((λ o e. absurd (cc)), Aborted-lost w n d bells)

  pub object-effect :
      (w : World) (n : ℕ) (before : ObjectRow)
      → is_row (select_row (owns_collection user_id collection_id) w.stored.collections) ≡ true
      → select_row (owned_object user_id collection_id object_id) w.stored.objects ≡ some before
      → before.deleted ≡ false
      → is_stale expected before.version ≡ false
      → DeleteEffect w (
          delete_object user_id collection_id object_id mutation_id expected
            (scan_object before)
            (opened w n))
  unfolding delete_object scan_object
  object-effect w n before owned current live fits =
      tx_exec-bind Q (bump_version collection_id) _ (opened w n) (λ m. lost w m _ _)
        λ n₁ seq d₁ bump. time_now-bind Q _ _ λ n₃ now.
          tx_exec-bind Q (tombstone object_id (inc_int64 before.version) seq now) _ _
            (λ m. lost w m _ _)
            λ n₄ o d₂ set.
              release_blob-bind Q before.blob_key now _ _ (λ m. lost w m _ _)
                λ n₅.
                  save_result-bind Q user_id mutation_id _ _ _ _ _ _ (λ m. lost w m _ _)
                    λ n₇ saved_at.
                      publish-bind Q _ _ _ (λ m. lost w m _ _)
                        λ n₈.
                          commit-bind Q _ _ (λ m. lost w m _ _)
                            λ n₉. inr (
                              _,
                              refl,
                              deleted w now saved_at n₉ seq o d₁ d₂ before owned current live fits
                                  bump set,
                            )
    where
      Q : Result DeleteOutcome × World → Type 0
      Q = DeleteEffect w
