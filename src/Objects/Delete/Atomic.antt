-- ===== src/Objects/Delete/Atomic.antt =====
-- Delete of internal/objects/objects.go on every path of its transaction, whichever statement fails.
use futo_notes_server.Ids.{valid_uuid}
use futo_notes_server.Objects.Rules.{
  save_result-bind, lock_mutation-bind, replay-bind, lock_collection-bind,
}
use futo_notes_server.Objects.Outcome.{
  opened, Aborted-lost, Aborted-committed, Aborted-recorded, replay-found,
}
use futo_notes_server.Store.Sql.{select_row}
use futo_notes_server.Store.Rules.{begin_tx-bind, commit-bind, tx_query-bind, lift-bind}
use futo_notes_server.Store.Rows.{ObjectRow}
use futo_notes_server.Objects.Delete.Effect.{DeleteEffect, NotDeleted, lost, object-effect}
use futo_notes_server.Objects.Stored.{StoredResult, ResultCode}
use futo_notes_server.Store.Documents.{scan_object, Body}
use futo_notes_server.Objects.Delete.{
  delete_prepared, delete_again, delete_stored, finish_delete, delete_locked, delete_found,
  delete_replayed, delete_intent, DeleteOutcome, is_stale,
}
use futo_notes_server.Store.Monad.{World, Result, Db, Notification, err, internal, M}
use futo_notes_server.Prelude.{
  refl, [], ◌≡◌, none, some, true, false, Text, Option, ℕ, Bool, List, ◌≢◌, ◌≢◌, inl, ◌++◌, ◌++◌,
  arith, Bool-cases, inr, if-elim, &&-right, ◌==◌,
}
use futo_notes_server.Objects.Steps.{
  fresh, mismatch, found, MutationIntent, select_object, Replay, is_row, has_mutation,
  owns_collection, owned_object, scan_row, own_claim,
}

module _ (user_id collection_id object_id mutation_id : Text) (expected : Option ℕ) where
  abbrev Effect : World → Result DeleteOutcome × World → Type 0
  Effect = DeleteEffect user_id collection_id object_id mutation_id expected

  abbrev Not : World → Result DeleteOutcome → Type 0
  Not = NotDeleted user_id collection_id object_id mutation_id expected

  abbrev intent : MutationIntent
  intent = delete_intent collection_id object_id expected

  bad :
      (w : World) (n : ℕ) (d : Db) (bells : List Notification)
      → Effect w (err internal, record w { step = n; work = d; doorbells = bells })
  bad = lost user_id collection_id object_id mutation_id expected

  finish-Effect :
      (w : World) (n status : ℕ) (body : Body) (o : DeleteOutcome)
      → Not w (Result.ok o)
      → Effect w (
          finish_delete user_id collection_id object_id mutation_id expected status body o
            (opened w n))
  unfolding finish_delete
  finish-Effect w n status body o h =
      save_result-bind (Effect w) user_id mutation_id intent status body none _ (opened w n)
        (λ m. bad w m _ _)
        λ n₁ now.
          commit-bind (Effect w) _ _ (λ m. bad w m _ _)
            λ n₂. inl (h, Aborted-recorded user_id mutation_id intent status body w n₂ now none)

  refused-Effect :
      (w : World) (n status : ℕ) (body : Body) (o : DeleteOutcome)
      → o.code ≢ ResultCode.ok
      → Effect w (
          finish_delete user_id collection_id object_id mutation_id expected status body o
            (opened w n))
  refused-Effect w n status body o h =
      finish-Effect w n status body o (λ o' e is_ok. absurd (h (ground arith)))

  again-Effect :
      (w : World) (n : ℕ) (before : ObjectRow)
      → select_row (owned_object user_id collection_id object_id) w.stored.objects ≡ some before
      → before.deleted ≡ true
      → Effect w (
          delete_again user_id collection_id object_id mutation_id expected
            (scan_object before)
            (opened w n))
  unfolding delete_again scan_object
  again-Effect w n before there gone =
      tx_query-bind (Effect w) _ _ (opened w n) (λ m. bad w m _ _)
        λ n₁. lift-bind (Effect w) _ _ _ (bad w n₁ _ _) λ seq counted.
          finish-Effect w n₁ 200 _ _ (λ o e is_ok. inr (before, there, gone, ground arith))

  found-Effect :
      (w : World) (n : ℕ) (current : Option ObjectRow)
      → is_row (select_row (owns_collection user_id collection_id) w.stored.collections) ≡ true
      → select_row (owned_object user_id collection_id object_id) w.stored.objects ≡ current
      → Effect w (
          delete_found user_id collection_id object_id mutation_id expected
            (scan_row current)
            (opened w n))
  unfolding delete_found scan_object
  found-Effect w n none owned gone = refused-Effect w n 404 _ _ (λ e. cc)
  found-Effect w n (some before) owned there =
      elim (Bool-cases (is_stale expected before.version)) [
        | inl e ↦ rw e (refused-Effect w n 409 _ _ (λ c. cc))
        | inr e ↦ rw e (elim (Bool-cases before.deleted) [
          | inl gone ↦ rw gone (rw gone at (again-Effect w n before there gone))
          | inr live ↦ rw live (
              rw live at (
                object-effect user_id collection_id object_id mutation_id expected w n before owned
                  there live e))
        ])
      ]

  locked-Effect :
      (w : World) (n : ℕ) (locked : Bool)
      → (locked ≡ true
          → is_row (select_row (owns_collection user_id collection_id) w.stored.collections) ≡ true)
      → Effect w
          (delete_locked user_id collection_id object_id mutation_id expected locked (opened w n))
  unfolding delete_locked select_object
  locked-Effect w n false h = refused-Effect w n 404 _ _ (λ e. cc)
  locked-Effect w n true h = elim (Bool-cases (valid_uuid object_id)) [
    | inl e ↦ rw e (
        tx_query-bind (Effect w) _ _ (opened w n) (λ m. bad w m _ _)
          λ n₁. found-Effect w n₁ _ (h refl) refl)
    | inr e ↦ rw e (refused-Effect w n 404 _ _ (λ c. cc))
  ]

  stored-Effect :
      (w : World) (n : ℕ) (s : StoredResult)
      → is_row (select_row (has_mutation user_id mutation_id) w.stored.mutations) ≡ true
      → Effect w (delete_stored user_id collection_id object_id mutation_id expected s (opened w n))
  unfolding delete_stored
  stored-Effect w n s carried =
      if-elim (λ (m : M DeleteOutcome). Effect w (m (opened w n))) (s.status == 102) _ _
        (λ _. commit-bind (Effect w) _ _ (λ m. bad w m _ _) λ n₁. quiet n₁)
        (λ _.
          if-elim (λ (m : M DeleteOutcome). Effect w (m (opened w n))) (s.status == 409) _ _
            (λ _.
              lift-bind (Effect w) _ _ (opened w n) (bad w n _ _)
                λ c _. commit-bind (Effect w) _ _ (λ m. bad w m _ _) λ n₁. quiet n₁)
            (λ _.
              lift-bind (Effect w) _ _ (opened w n) (bad w n _ _)
                λ r _. commit-bind (Effect w) _ _ (λ m. bad w m _ _) λ n₁. quiet n₁))
    where
      quiet :
          {r : Result DeleteOutcome} (n₁ : ℕ)
          → Effect w (
            r,
            record w { step = n₁; work = w.stored; doorbells = []; delivered = w.delivered ++ [] },
          )
      quiet n₁ = inl ((λ o e is_ok. inl carried), Aborted-committed w n₁)

  replayed-Effect :
      (w : World) (n : ℕ) (r : Replay)
      → ((s : StoredResult)
          → r ≡ found s
          → is_row (select_row (has_mutation user_id mutation_id) w.stored.mutations) ≡ true)
      → Effect w
          (delete_replayed user_id collection_id object_id mutation_id expected r (opened w n))
  unfolding delete_replayed
  replayed-Effect w n mismatch h = inl ((λ o e is_ok. absurd (cc)), Aborted-lost w n w.stored [])
  replayed-Effect w n (found s) h = stored-Effect w n s (h s refl)
  replayed-Effect w n fresh h =
      lock_collection-bind (Effect w) user_id collection_id _ (opened w n) (λ m. bad w m _ _)
        λ n₁. locked-Effect w n₁ _ (&&-right _ _)

  -- The transaction of a delete that fails at any statement, is refused, conflicts, finds a
  -- tombstone or answers from the Mutation ID leaves every table but the one of Mutation IDs as it
  -- was and rings no doorbell. It answers OK otherwise only where the object is live and the
  -- expected version, if there is one, is the stored one, and then it has left a tombstone one
  -- version on, retained the blob, advanced the collection by one and rung once.
  pub delete_prepared-effect :
      (prepared : Bool) (w : World)
      → DeleteEffect user_id collection_id object_id mutation_id expected w
          (delete_prepared user_id collection_id object_id mutation_id expected prepared w)
  unfolding delete_prepared
  delete_prepared-effect prepared w =
      begin_tx-bind (Effect w) _ w (λ m. bad w m w.work w.doorbells)
        λ n₁.
          lock_mutation-bind (Effect w) mutation_id _ _ (λ m. bad w m _ _)
            λ n₂.
              replay-bind (Effect w) user_id mutation_id intent _ _ (λ m. bad w m _ _)
                λ n₃ r read. replayed-Effect w n₃ (own_claim prepared r) (λ s.
                  replay-found user_id mutation_id intent w.stored.mutations r s prepared read)
