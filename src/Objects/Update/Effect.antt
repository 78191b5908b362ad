-- ===== src/Objects/Update/Effect.antt =====
-- What the transaction of Update (internal/objects/objects.go) writes when it goes through.
use futo_notes_server.Objects.Rules.{recorded, release_blob-bind, save_result-bind, publish-bind}
use futo_notes_server.Store.Rules.{tx_exec-bind, time_now-bind, tx_write-bind, commit-bind}
use futo_notes_server.Objects.Outcome.{
  Aborted, Aborted-lost, opened, bumped, bump_version-inv, recorded-SameData,
  retain_blob-collections, retain_blob-objects, retain_blob-ledger,
}
use futo_notes_server.Store.Sql.{select_row, update_where}
use futo_notes_server.Objects.Stored.{MutationOutcome, ResultCode, outcome_of}
use futo_notes_server.Store.Documents.{Object, scan_object, MutationResponse, mutation}
use futo_notes_server.Store.Monad.{World, Db, Result, Notification, err, internal}
use futo_notes_server.Objects.Steps.{
  retain_blob, claim_blob, is_row, has_mutation, owns_collection, owned_object, inc_int64,
  staged_for, bump_version, max_int64,
}
use futo_notes_server.Objects.Update.{set_object, update_object, update_intent}
use futo_notes_server.Store.Rows.{ObjectRow, CollectionRow, LedgerRow}
use futo_notes_server.Prelude.{
  refl, [], ◌≡◌, ◌++◌, ◌∷◌, ℕ, Text, some, arith, List, text_eq, ◌⊎◌, true, Option-cases, inl, inr,
  ◌<◌, none, ◌+◌,
}

-- The row that UPDATE objects SET ... leaves.
abbrev pub updated_row : ℕ → ℕ → Text → ℕ → ℕ → ObjectRow → ObjectRow
updated_row version seq blob_key size now r = record r {
  version = version;
  change_seq = seq;
  blob_key = some blob_key;
  size_bytes = some size;
  updated_at = now;
}

module _ (user_id collection_id object_id mutation_id blob_key : Text) (version : ℕ) where
  -- The effect of an update that went through.
  pub record Updated (w : World) (o : MutationOutcome) (w' : World) : Type 0 where
    pub counter : CollectionRow
    pub before : ObjectRow
    pub row : ObjectRow
    pub blob : LedgerRow
    pub checked_at : ℕ
    pub updated_at : ℕ
    pub owned :
        is_row (select_row (owns_collection user_id collection_id) w.stored.collections) ≡ true
    pub current :
        select_row (owned_object user_id collection_id object_id) w.stored.objects ≡ some before
    pub next_version : version ≡ inc_int64 before.version
    pub staged : select_row (staged_for user_id blob_key checked_at) w.stored.ledger ≡ some blob
    pub counted : select_row (λ r. text_eq r.id collection_id) w.stored.collections ≡ some counter
    pub below_max : counter.current_version < max_int64
    pub by_id : select_row (λ r. text_eq r.id object_id) w.stored.objects ≡ some row
    pub answer : o ≡ record (outcome_of ResultCode.ok) {
      response = record {
        object = scan_object (
            updated_row version
              (counter.current_version + 1)
              blob_key
              blob.size_bytes
              updated_at
              row);
        collection_version = counter.current_version + 1;
        replayed = none;
      };
    }
    pub collections : w'.stored.collections ≡ bumped collection_id w.stored.collections
    pub objects :
        w'.stored.objects
        ≡ update_where
            (λ r. text_eq r.id object_id)
            (updated_row version (counter.current_version + 1) blob_key blob.size_bytes updated_at)
            w.stored.objects
    pub ledger :
        w'.stored.ledger
        ≡ (claim_blob blob_key collection_id object_id version updated_at
            (retain_blob before.blob_key updated_at w.stored)).ledger
    pub rang :
        w'.delivered
        ≡ w.delivered
          ++ record {
            user_id = user_id;
            collection_id = collection_id;
            current_version = counter.current_version + 1;
          }
            ∷ []

  -- An answer OK without an effect repeats what the Mutation ID carries.
  abbrev pub NotUpdated : World → Result MutationOutcome → Type 0
  NotUpdated w r =
      (o : MutationOutcome)
      → r ≡ Result.ok o
      → o.code ≡ ResultCode.ok
      → is_row (select_row (has_mutation user_id mutation_id) w.stored.mutations) ≡ true

  abbrev pub UpdateEffect : World → Result MutationOutcome × World → Type 0
  UpdateEffect w (r, w') =
      (NotUpdated w r × Aborted w w') ⊎ ((o : MutationOutcome) × (r ≡ Result.ok o) × Updated w o w')

  set_object-inv :
      (seq size now : ℕ) (d d' : Db) (o : Object)
      → set_object object_id version seq blob_key size now d ≡ some (o, d')
      → (r : ObjectRow) × (select_row (λ r. text_eq r.id object_id) d.objects ≡ some r)
        × (o ≡ scan_object (updated_row version seq blob_key size now r))
        × (d' ≡ record d {
          objects =
              update_where
                (λ r. text_eq r.id object_id)
                (updated_row version seq blob_key size now)
                d.objects;
        })
  unfolding set_object
  set_object-inv seq size now d d' o h =
      elim (Option-cases (select_row (λ (r : ObjectRow). text_eq r.id object_id) d.objects)) [
        | inl gone ↦ absurd (ground arith)
        | inr (r, there) ↦ (r, there, ground arith, ground arith)
      ]

  updated :
      (w : World) (checked_at now saved_at n seq : ℕ) (o : Object) (d₁ d₂ : Db) (before : ObjectRow)
      (blob : LedgerRow)
      → is_row (select_row (owns_collection user_id collection_id) w.stored.collections) ≡ true
      → select_row (owned_object user_id collection_id object_id) w.stored.objects ≡ some before
      → version ≡ inc_int64 before.version
      → select_row (staged_for user_id blob_key checked_at) w.stored.ledger ≡ some blob
      → bump_version collection_id w.stored ≡ some (seq, d₁)
      → set_object object_id version seq blob_key blob.size_bytes now d₁ ≡ some (o, d₂)
      → let response : MutationResponse = record {
        object = o;
        collection_version = seq;
        replayed = none;
      } in
        let d₃ : Db =
          recorded user_id mutation_id
            (update_intent collection_id object_id version)
            200
            (mutation response)
            none
            saved_at
            (claim_blob blob_key collection_id object_id version now
              (retain_blob before.blob_key now d₂)) in
        Updated w
          (record (outcome_of ResultCode.ok) { response = response })
          (record w {
            step = n;
            stored = d₃;
            work = d₃;
            doorbells = [];
            delivered =
                w.delivered
                ++ record {
                  user_id = user_id;
                  collection_id = collection_id;
                  current_version = seq;
                }
                  ∷ [];
          })
  unfolding claim_blob
  updated w checked_at now saved_at n seq o d₁ d₂ before blob owned current next staged bump set =
      let (c, counted, below, is_next, is_bumped) =
        bump_version-inv collection_id w.stored d₁ seq bump in
      let (r, there, is_row, is_set) = set_object-inv seq blob.size_bytes now d₁ d₂ o set in
      let kept =
        recorded-SameData user_id mutation_id (update_intent collection_id object_id version) 200
          (mutation (record { object = o; collection_version = seq; replayed = none })) none
          saved_at
          (claim_blob blob_key collection_id object_id version now
            (retain_blob before.blob_key now d₂)) in
      record {
        counter = c;
        before = before;
        row = r;
        blob = blob;
        checked_at = checked_at;
        updated_at = now;
        owned = owned;
        current = current;
        next_version = next;
        staged = staged;
        counted = counted;
        below_max = below;
        by_id = ground arith;
        answer = ground arith;
        collections =
            ground (arith, kept.collections, retain_blob-collections before.blob_key now d₂);
        objects = ground (arith, kept.objects, retain_blob-objects before.blob_key now d₂);
        ledger = ground (arith, kept.ledger, retain_blob-ledger before.blob_key now d₂ w.stored);
        rang = ground arith;
      }

  pub lost :
      (w : World) (n : ℕ) (d : Db) (bells : List Notification)
      → UpdateEffect w (err internal, record w { step = n; work = d; doorbells = bells })
  lost w n d bells = inl ((λ o e. absurd (cc)), Aborted-lost w n d bells)

  pub object-effect :
      (w : World) (n checked_at : ℕ) (before : ObjectRow) (blob : LedgerRow)
      → is_row (select_row (owns_collection user_id collection_id) w.stored.collections) ≡ true
      → select_row (owned_object user_id collection_id object_id) w.stored.objects ≡ some before
      → version ≡ inc_int64 before.version
      → select_row (staged_for user_id blob_key checked_at) w.stored.ledger ≡ some blob
      → UpdateEffect w (
          update_object user_id collection_id object_id mutation_id blob_key version
            (scan_object before)
            blob.size_bytes
            (opened w n))
  unfolding update_object scan_object
  object-effect w n checked_at before blob owned current next staged =
      tx_exec-bind Q (bump_version collection_id) _ (opened w n) (λ m. lost w m _ _)
        λ n₁ seq d₁ bump. time_now-bind Q _ _ λ n₃ now.
          tx_exec-bind Q (set_object object_id version seq blob_key blob.size_bytes now) _ _
            (λ m. lost w m _ _)
            λ n₄ o d₂ set.
              release_blob-bind Q before.blob_key now _ _ (λ m. lost w m _ _)
                λ n₅.
                  tx_write-bind Q (claim_blob blob_key collection_id object_id version now) _ _
                    (λ m. lost w m _ _)
                    λ n₆.
                      save_result-bind Q user_id mutation_id _ _ _ _ _ _ (λ m. lost w m _ _)
                        λ n₇ saved_at.
                          publish-bind Q _ _ _ (λ m. lost w m _ _)
                            λ n₈.
                              commit-bind Q _ _ (λ m. lost w m _ _)
                                λ n₉. inr (
                                  _,
                                  refl,
                                  updated w checked_at now saved_at n₉ seq o d₁ d₂ before blob owned
                                      current next staged bump set,
                                )
    where
      Q : Result MutationOutcome × World → Type 0
      Q = UpdateEffect w
