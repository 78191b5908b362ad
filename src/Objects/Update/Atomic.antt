-- ===== src/Objects/Update/Atomic.antt =====
-- Update of internal/objects/objects.go on every path of its transaction, whichever statement fails.
use futo_notes_server.Ids.{valid_uuid}
use futo_notes_server.Objects.Rules.{
  save_result-bind, lock_mutation-bind, replay-bind, lock_collection-bind, staged_blob_size-bind,
}
use futo_notes_server.Objects.Outcome.{
  opened, Aborted-lost, Aborted-recorded, Aborted-committed, replay-found,
}
use futo_notes_server.Store.Rules.{begin_tx-bind, lift-bind, commit-bind, tx_query-bind}
use futo_notes_server.Store.Sql.{select_row}
use futo_notes_server.Objects.Update.Effect.{UpdateEffect, NotUpdated, lost, object-effect}
use futo_notes_server.Objects.Stored.{
  StoredResult, MutationOutcome, not_found_message, outcome_of, not_found,
  mutation_outcome_from_stored, blob_not_staged,
}
use futo_notes_server.Store.Documents.{scan_object, Body, message}
use futo_notes_server.Store.Rows.{ObjectRow}
use futo_notes_server.Store.Monad.{World, Result, Db, Notification, err, internal, ◌>>=◌}
use futo_notes_server.Objects.Create.{finish, answer_stored}
use futo_notes_server.Objects.Update.{
  update_replayed, update_locked, update_prepared, update_staged, update_found, update_intent,
}
use futo_notes_server.Prelude.{
  refl, [], ◌≡◌, none, some, true, false, Text, ℕ, Bool, List, Option, inl, Bool-cases, inr,
  &&-right, ◌==◌, ==_iff, Option-cases,
}
use futo_notes_server.Objects.Steps.{
  fresh, mismatch, found, Replay, select_object, is_row, owns_collection, has_mutation,
  owned_object, own_claim, inc_int64, scan_row, staged_blob_size, staged_for,
}

module _ (user_id collection_id object_id mutation_id blob_key : Text) (version : ℕ) where
  abbrev Effect : World → Result MutationOutcome × World → Type 0
  Effect = UpdateEffect user_id collection_id object_id mutation_id blob_key version

  abbrev Not : World → Result MutationOutcome → Type 0
  Not = NotUpdated user_id collection_id object_id mutation_id blob_key version

  bad :
      (w : World) (n : ℕ) (d : Db) (bells : List Notification)
      → Effect w (err internal, record w { step = n; work = d; doorbells = bells })
  bad = lost user_id collection_id object_id mutation_id blob_key version

  finish-Effect :
      (w : World) (n status : ℕ) (body : Body) (o : MutationOutcome)
      → Not w (Result.ok o)
      → Effect w (
          finish user_id mutation_id
            (update_intent collection_id object_id version)
            status
            body
            o
            (opened w n))
  unfolding finish
  finish-Effect w n status body o h =
      save_result-bind (Effect w) user_id mutation_id
        (update_intent collection_id object_id version) status body none _ (opened w n)
        (λ m. bad w m _ _)
        λ n₁ now.
          commit-bind (Effect w) _ _ (λ m. bad w m _ _)
            λ n₂. inl (
              h,
              Aborted-recorded user_id mutation_id (update_intent collection_id object_id version)
                  status body w n₂ now none,
            )

  missing-Effect :
      (w : World) (n : ℕ)
      → Effect w (
          finish user_id mutation_id
            (update_intent collection_id object_id version)
            404
            (message not_found_message)
            (outcome_of not_found)
            (opened w n))
  missing-Effect w n = finish-Effect w n 404 _ (outcome_of not_found) (λ o e is_ok. absurd (cc))

  answer-Effect :
      (w : World) (n : ℕ) (s : StoredResult)
      → is_row (select_row (has_mutation user_id mutation_id) w.stored.mutations) ≡ true
      → Effect w (answer_stored user_id collection_id mutation_id s false (opened w n))
  unfolding answer_stored
  answer-Effect w n s carried =
      lift-bind (Effect w) (mutation_outcome_from_stored s false) _ (opened w n) (bad w n _ _)
        λ o there.
          commit-bind (Effect w) _ _ (λ m. bad w m _ _)
            λ n₁. inl ((λ o' e is_ok. carried), Aborted-committed w n₁)

  staged-Effect :
      (w : World) (n : ℕ) (before : ObjectRow)
      → is_row (select_row (owns_collection user_id collection_id) w.stored.collections) ≡ true
      → select_row (owned_object user_id collection_id object_id) w.stored.objects ≡ some before
      → version ≡ inc_int64 before.version
      → Effect w (
          (staged_blob_size user_id blob_key
              >>= update_staged user_id collection_id object_id mutation_id blob_key version
                  (scan_object before))
            (opened w n))
  unfolding update_staged
  staged-Effect w n before owned current next =
      staged_blob_size-bind (Effect w) user_id blob_key _ (opened w n) (λ m. bad w m _ _)
        λ n₁ checked_at.
          elim (Option-cases
            (select_row (staged_for user_id blob_key checked_at) w.stored.ledger)) [
              | inl gone ↦
                  rw gone (
                    finish-Effect w n₁ 409 _ (outcome_of blob_not_staged)
                      (λ o e is_ok. absurd (cc)))
              | inr (blob, there) ↦ rw there (
                  object-effect user_id collection_id object_id mutation_id blob_key version w n₁
                    checked_at before blob owned current next there)
            ]

  found-Effect :
      (w : World) (n : ℕ) (current : Option ObjectRow)
      → is_row (select_row (owns_collection user_id collection_id) w.stored.collections) ≡ true
      → select_row (owned_object user_id collection_id object_id) w.stored.objects ≡ current
      → Effect w (
          update_found user_id collection_id object_id mutation_id blob_key version
            (scan_row current)
            (opened w n))
  unfolding update_found scan_object
  found-Effect w n none owned gone = missing-Effect w n
  found-Effect w n (some before) owned there =
      elim (Bool-cases (version == inc_int64 before.version)) [
        | inl e ↦ rw e (staged-Effect w n before owned there ((==_iff _ _).0 e))
        | inr e ↦ rw e (finish-Effect w n 409 _ _ (λ o e is_ok. absurd (cc)))
      ]

  locked-Effect :
      (w : World) (n : ℕ) (locked : Bool)
      → (locked ≡ true
          → is_row (select_row (owns_collection user_id collection_id) w.stored.collections) ≡ true)
      → Effect w (
          update_locked user_id collection_id object_id mutation_id blob_key version locked
            (opened w n))
  unfolding update_locked select_object
  locked-Effect w n false h = missing-Effect w n
  locked-Effect w n true h = elim (Bool-cases (valid_uuid object_id)) [
    | inl e ↦ rw e (
        tx_query-bind (Effect w) _ _ (opened w n) (λ m. bad w m _ _)
          λ n₁. found-Effect w n₁ _ (h refl) refl)
    | inr e ↦ rw e (missing-Effect w n)
  ]

  replayed-Effect :
      (w : World) (n : ℕ) (r : Replay)
      → ((s : StoredResult)
          → r ≡ found s
          → is_row (select_row (has_mutation user_id mutation_id) w.stored.mutations) ≡ true)
      → Effect w (
          update_replayed user_id collection_id object_id mutation_id blob_key version r
            (opened w n))
  unfolding update_replayed
  replayed-Effect w n mismatch h = inl ((λ o e is_ok. absurd (cc)), Aborted-lost w n w.stored [])
  replayed-Effect w n (found s) h = answer-Effect w n s (h s refl)
  replayed-Effect w n fresh h =
      lock_collection-bind (Effect w) user_id collection_id _ (opened w n) (λ m. bad w m _ _)
        λ n₁. locked-Effect w n₁ _ (&&-right _ _)

  -- The transaction of an update that fails at any statement, is refused, conflicts or answers
  -- from the Mutation ID leaves every table but the one of Mutation IDs as it was and rings no
  -- doorbell. It answers OK otherwise only where the requested version is one past the stored one,
  -- and then it has set that object, retained its old blob, claimed the new one, advanced the
  -- collection by one and rung once.
  pub update_prepared-effect :
      (prepared : Bool) (w : World)
      → UpdateEffect user_id collection_id object_id mutation_id blob_key version w
          (update_prepared user_id collection_id object_id mutation_id blob_key version prepared w)
  unfolding update_prepared
  update_prepared-effect prepared w =
      begin_tx-bind (Effect w) _ w (λ m. bad w m w.work w.doorbells)
        λ n₁.
          lock_mutation-bind (Effect w) mutation_id _ _ (λ m. bad w m _ _)
            λ n₂.
              replay-bind (Effect w) user_id mutation_id
                (update_intent collection_id object_id version) _ _ (λ m. bad w m _ _)
                λ n₃ r read. replayed-Effect w n₃ (own_claim prepared r) (λ s.
                  replay-found user_id mutation_id (update_intent collection_id object_id version)
                    w.stored.mutations r s prepared read)
