-- ===== src/Objects/Create/Atomic.antt =====
-- CreateReserved of internal/objects/objects.go on every path, whichever statement fails.
use futo_notes_server.Objects.Rules.{
  lock_mutation-bind, lock_collection-bind, save_result-bind, replay-bind, staged_blob_size-bind,
}
use futo_notes_server.Store.Sql.{select_row}
use futo_notes_server.Store.Rules.{lift-bind, commit-bind, begin_tx-bind}
use futo_notes_server.Objects.Outcome.{opened, Aborted-lost, Aborted-committed, Aborted-recorded}
use futo_notes_server.Store.Documents.{Body}
use futo_notes_server.Objects.Create.Effect.{CreateEffect, NotCreated, lost, object-effect}
use futo_notes_server.Store.Monad.{World, Result, internal}
use futo_notes_server.Objects.Stored.{
  mutation_outcome_from_stored, conflict_outcome, decode_mutation_response, StoredResult,
  MutationOutcome, outcome_of, not_found, blob_not_staged,
}
use futo_notes_server.Objects.Create.{
  finish, create_locked, answer_stored, create_replayed, create_reserved, create_staged,
  create_intent,
}
use futo_notes_server.Objects.Steps.{
  fresh, mismatch, found, Replay, is_row, owns_collection, own_claim, staged_for,
}
use futo_notes_server.Prelude.{
  refl, [], ◌≡◌, Text, Bool, ℕ, true, some, inl, arith, &&-right, none, Option-cases, inr, false,
}

module _ (user_id collection_id mutation_id blob_key : Text) where
  finish-effect :
      (w : World) (n status : ℕ) (body : Body) (o : MutationOutcome)
      → NotCreated user_id collection_id mutation_id blob_key (Result.ok o)
      → CreateEffect user_id collection_id mutation_id blob_key w
          (finish user_id mutation_id (create_intent collection_id) status body o (opened w n))
  unfolding finish
  finish-effect w n status body o h =
      save_result-bind (CreateEffect user_id collection_id mutation_id blob_key w) user_id
        mutation_id (create_intent collection_id) status body none _ (opened w n)
        (λ m. lost user_id collection_id mutation_id blob_key w m _ _)
        λ n₁ now.
          commit-bind (CreateEffect user_id collection_id mutation_id blob_key w) _ _
            (λ m. lost user_id collection_id mutation_id blob_key w m _ _)
            λ n₂. inl (
              h,
              Aborted-recorded user_id mutation_id (create_intent collection_id) status body w n₂
                  now none,
            )

  stored_replays :
      (s : StoredResult) (o : MutationOutcome)
      → mutation_outcome_from_stored s true ≡ some o
      → NotCreated user_id collection_id mutation_id blob_key (Result.ok o)
  unfolding mutation_outcome_from_stored conflict_outcome decode_mutation_response
  stored_replays s o h o' e is_ok = ground arith

  answer-effect :
      (w : World) (n : ℕ) (s : StoredResult)
      → CreateEffect user_id collection_id mutation_id blob_key w
          (answer_stored user_id collection_id mutation_id s true (opened w n))
  unfolding answer_stored
  answer-effect w n s =
      lift-bind (CreateEffect user_id collection_id mutation_id blob_key w)
        (mutation_outcome_from_stored s true) _ (opened w n)
        (lost user_id collection_id mutation_id blob_key w n _ _)
        λ o there.
          commit-bind (CreateEffect user_id collection_id mutation_id blob_key w) _ _
            (λ m. lost user_id collection_id mutation_id blob_key w m _ _)
            λ n₁. inl (stored_replays s o there, Aborted-committed w n₁)

  locked-effect :
      (w : World) (n : ℕ) (locked : Bool)
      → (locked ≡ true
          → is_row (select_row (owns_collection user_id collection_id) w.stored.collections) ≡ true)
      → CreateEffect user_id collection_id mutation_id blob_key w
          (create_locked user_id collection_id mutation_id blob_key locked (opened w n))
  unfolding create_locked create_staged
  locked-effect w n false h =
      finish-effect w n 404 _ (outcome_of not_found) (λ o e is_ok. absurd (cc))
  locked-effect w n true h =
      staged_blob_size-bind (CreateEffect user_id collection_id mutation_id blob_key w) user_id
        blob_key _ (opened w n) (λ m. lost user_id collection_id mutation_id blob_key w m _ _)
        λ n₁ checked_at.
          elim (Option-cases
            (select_row (staged_for user_id blob_key checked_at) w.stored.ledger)) [
              | inl gone ↦
                  rw gone (
                    finish-effect w n₁ 409 _ (outcome_of blob_not_staged)
                      (λ o e is_ok. absurd (cc)))
              | inr (blob, there) ↦ rw there (
                  object-effect user_id collection_id mutation_id blob_key w n₁ checked_at blob
                    (h refl) there)
            ]

  replayed-effect :
      (w : World) (n : ℕ) (r : Replay)
      → CreateEffect user_id collection_id mutation_id blob_key w
          (create_replayed user_id collection_id mutation_id blob_key r (opened w n))
  unfolding create_replayed
  replayed-effect w n mismatch = inl ((λ o e is_ok. absurd (cc)), Aborted-lost w n w.stored [])
  replayed-effect w n (found s) = answer-effect w n s
  replayed-effect w n fresh =
      lock_collection-bind (CreateEffect user_id collection_id mutation_id blob_key w) user_id
        collection_id _ (opened w n) (λ m. lost user_id collection_id mutation_id blob_key w m _ _)
        λ n₁. locked-effect w n₁ _ (&&-right _ _)

  -- A create that fails at any statement, is refused or is a replay leaves every table but the one
  -- of Mutation IDs as it was and rings no doorbell; one that reports a new object has inserted
  -- exactly that object, claimed its blob, advanced the collection by one and rung once.
  pub create_reserved-effect :
      (prepared : Bool) (w : World)
      → CreateEffect user_id collection_id mutation_id blob_key w
          (create_reserved user_id collection_id mutation_id blob_key prepared w)
  unfolding create_reserved
  create_reserved-effect prepared w =
      begin_tx-bind (CreateEffect user_id collection_id mutation_id blob_key w) _ w (λ m. lost' m)
        λ n₁.
          lock_mutation-bind (CreateEffect user_id collection_id mutation_id blob_key w) mutation_id
            _ _ (λ m. lost user_id collection_id mutation_id blob_key w m _ _)
            λ n₂.
              replay-bind (CreateEffect user_id collection_id mutation_id blob_key w) user_id
                mutation_id (create_intent collection_id) _ _
                (λ m. lost user_id collection_id mutation_id blob_key w m _ _)
                λ n₃ r _. replayed-effect w n₃ (own_claim prepared r)
    where
      lost' :
          (m : ℕ)
          → CreateEffect user_id collection_id mutation_id blob_key w
              (Result.err internal, record w { step = m })
      lost' m = lost user_id collection_id mutation_id blob_key w m w.work w.doorbells
