-- ===== src/Objects/Create/Effect.antt =====
-- What CreateReserved does to the database, on every path and whichever statement fails.
use futo_notes_server.Store.Rules.{
  tx_exec-bind, new_uuid-bind, time_now-bind, tx_write-bind, commit-bind,
}
use futo_notes_server.Objects.Rules.{recorded, save_result-bind, publish-bind}
use futo_notes_server.Store.Sql.{select_row}
use futo_notes_server.Store.Documents.{MutationResponse, scan_object, Object, mutation}
use futo_notes_server.Objects.Steps.{
  bump_version, is_row, owns_collection, max_int64, staged_for, claim_blob,
}
use futo_notes_server.Prelude.{
  refl, ◌∷◌, [], ◌++◌, Text, List, ℕ, false, some, text_eq, ◌⊎◌, ◌+◌, ◌≡◌, true, ◌<◌, Option-cases,
  none, inl, arith, inr,
}
use futo_notes_server.Store.Rows.{CollectionRow, LedgerRow, ObjectRow}
use futo_notes_server.Store.Monad.{Db, World, Result, Notification, internal, err}
use futo_notes_server.Objects.Stored.{ResultCode, MutationOutcome, outcome_of}
use futo_notes_server.Objects.Outcome.{
  Aborted, opened, bump_version-inv, Aborted-lost, bumped, recorded-SameData,
}
use futo_notes_server.Objects.Create.{create_object, create_intent, insert_object}

module _ (user_id collection_id mutation_id blob_key : Text) where
  abbrev pub created_row : Text → ℕ → ℕ → ℕ → ObjectRow
  created_row object_id seq size now = record {
    id = object_id;
    collection_id = collection_id;
    user_id = user_id;
    version = 1;
    change_seq = seq;
    deleted = false;
    blob_key = some blob_key;
    size_bytes = some size;
    created_at = now;
    updated_at = now;
  }

  abbrev pub created_response : Text → ℕ → ℕ → ℕ → MutationResponse
  created_response object_id seq size now = record {
    object = scan_object (created_row object_id seq size now);
    collection_version = seq;
    replayed = some false;
  }

  -- The effect of a create that went through.
  pub record Created (w : World) (o : MutationOutcome) (w' : World) : Type 0 where
    pub counter : CollectionRow
    pub blob : LedgerRow
    pub object_id : Text
    pub checked_at : ℕ
    pub created_at : ℕ
    pub owned :
        is_row (select_row (owns_collection user_id collection_id) w.stored.collections) ≡ true
    pub counted : select_row (λ r. text_eq r.id collection_id) w.stored.collections ≡ some counter
    pub below_max : counter.current_version < max_int64
    pub staged : select_row (staged_for user_id blob_key checked_at) w.stored.ledger ≡ some blob
    pub unused : select_row (λ r. text_eq r.id object_id) w.stored.objects ≡ none
    pub answer : o ≡ record (outcome_of ResultCode.ok) {
      response =
          created_response object_id (counter.current_version + 1) blob.size_bytes created_at;
    }
    pub collections : w'.stored.collections ≡ bumped collection_id w.stored.collections
    pub objects :
        w'.stored.objects
        ≡ created_row object_id (counter.current_version + 1) blob.size_bytes created_at
          ∷ w.stored.objects
    pub ledger :
        w'.stored.ledger
        ≡ (claim_blob blob_key collection_id object_id 1 created_at w.stored).ledger
    pub rang :
        w'.delivered
        ≡ w.delivered
          ++ record {
            user_id = user_id;
            collection_id = collection_id;
            current_version = counter.current_version + 1;
          }
            ∷ []

  -- An answer that does not report a new object: an error, a refusal, or a replay.
  abbrev pub NotCreated : Result MutationOutcome → Type 0
  NotCreated r =
      (o : MutationOutcome)
      → r ≡ Result.ok o
      → o.code ≡ ResultCode.ok
      → o.response.replayed ≡ some true

  abbrev pub CreateEffect : World → Result MutationOutcome × World → Type 0
  CreateEffect w (r, w') =
      (NotCreated r × Aborted w w') ⊎ ((o : MutationOutcome) × (r ≡ Result.ok o) × Created w o w')

  insert_object-inv :
      (object_id : Text) (seq size now : ℕ) (d d' : Db) (o : Object)
      → insert_object object_id collection_id user_id seq blob_key size now d ≡ some (o, d')
      → (select_row (λ r. text_eq r.id object_id) d.objects ≡ none)
        × (o ≡ scan_object (created_row object_id seq size now))
        × (d' ≡ record d { objects = created_row object_id seq size now ∷ d.objects })
  unfolding insert_object
  insert_object-inv object_id seq size now d d' o h =
      elim (Option-cases (select_row (λ (r : ObjectRow). text_eq r.id object_id) d.objects)) [
        | inl free ↦ (free, ground arith, ground arith)
        | inr (r, there) ↦ absurd (ground arith)
      ]

  -- The statements of a create, put together.
  created :
      (w : World) (checked_at now saved_at n seq : ℕ) (object_id : Text) (o : Object) (d₁ d₂ : Db)
      (blob : LedgerRow)
      → is_row (select_row (owns_collection user_id collection_id) w.stored.collections) ≡ true
      → select_row (staged_for user_id blob_key checked_at) w.stored.ledger ≡ some blob
      → bump_version collection_id w.stored ≡ some (seq, d₁)
      → insert_object object_id collection_id user_id seq blob_key blob.size_bytes now d₁
        ≡ some (o, d₂)
      → let response : MutationResponse = record {
        object = o;
        collection_version = seq;
        replayed = some false;
      } in
        let d₃ : Db =
          recorded user_id mutation_id
            (create_intent collection_id)
            201
            (mutation response)
            (some object_id)
            saved_at
            (claim_blob blob_key collection_id object_id 1 now d₂) in
        Created w
          (record (outcome_of ResultCode.ok) { response = response })
          (record w {
            step = n;
            stored = d₃;
            work = d₃;
            doorbells = [];
            delivered =
                w.delivered
                ++ record {
                  user_id = user_id;
                  collection_id = collection_id;
                  current_version = seq;
                }
                  ∷ [];
          })
  unfolding claim_blob
  created w checked_at now saved_at n seq object_id o d₁ d₂ blob owned staged bump inserted =
      let (c, counted, below, is_next, is_bumped) =
        bump_version-inv collection_id w.stored d₁ seq bump in
      let (free, is_row, is_grown) =
        insert_object-inv object_id seq blob.size_bytes now d₁ d₂ o inserted in
      let kept =
        recorded-SameData user_id mutation_id (create_intent collection_id) 201
          (mutation (record { object = o; collection_version = seq; replayed = some false }))
          (some object_id) saved_at (claim_blob blob_key collection_id object_id 1 now d₂) in
      record {
        counter = c;
        blob = blob;
        object_id = object_id;
        checked_at = checked_at;
        created_at = now;
        owned = owned;
        counted = counted;
        below_max = below;
        staged = staged;
        unused = ground arith;
        answer = ground arith;
        collections = ground (arith, kept.collections);
        objects = ground (arith, kept.objects);
        ledger = ground (arith, kept.ledger);
        rang = ground arith;
      }

  -- Before the commit, whatever the transaction wrote is lost with it.
  pub lost :
      (w : World) (n : ℕ) (d : Db) (bells : List Notification)
      → CreateEffect w (err internal, record w { step = n; work = d; doorbells = bells })
  lost w n d bells = inl ((λ o e. absurd (cc)), Aborted-lost w n d bells)

  pub object-effect :
      (w : World) (n checked_at : ℕ) (blob : LedgerRow)
      → is_row (select_row (owns_collection user_id collection_id) w.stored.collections) ≡ true
      → select_row (staged_for user_id blob_key checked_at) w.stored.ledger ≡ some blob
      → CreateEffect w
          (create_object user_id collection_id mutation_id blob_key blob.size_bytes (opened w n))
  unfolding create_object
  object-effect w n checked_at blob owned staged =
      tx_exec-bind Q (bump_version collection_id) _ (opened w n) (λ m. lost w m _ _)
        λ n₁ seq d₁ bump.
          let (c, counted, below, is_next, is_bumped) =
            bump_version-inv collection_id w.stored d₁ seq bump in
          new_uuid-bind Q _ _ λ n₂ object_id. time_now-bind Q _ _ λ n₃ now.
            tx_exec-bind Q
              (insert_object object_id collection_id user_id seq blob_key blob.size_bytes now) _ _
              (λ m. lost w m _ _)
              λ n₄ o d₂ inserted.
                tx_write-bind Q (claim_blob blob_key collection_id object_id 1 now) _ _
                  (λ m. lost w m _ _)
                  λ n₅.
                    save_result-bind Q user_id mutation_id _ _ _ _ _ _ (λ m. lost w m _ _)
                      λ n₆ saved_at.
                        publish-bind Q _ _ _ (λ m. lost w m _ _)
                          λ n₇.
                            commit-bind Q _ _ (λ m. lost w m _ _)
                              λ n₈. inr (
                                _,
                                refl,
                                created w checked_at now saved_at n₈ seq object_id o d₁ d₂ blob
                                    owned staged bump inserted,
                              )
    where
      Q : Result MutationOutcome × World → Type 0
      Q = CreateEffect w
