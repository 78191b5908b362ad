-- ===== src/Objects/Rules.antt =====
-- The rules of Store/Rules for the shared steps of internal/objects/objects.go.
use futo_notes_server.Prelude.{
  ℕ, ◌≡◌, refl, Bool, ◌&&◌, Option, none, some, ◌++◌, [], ◌∷◌, Text, Bool-cases, inl, inr,
  if◌then◌else◌,
}
use futo_notes_server.Ids.{valid_uuid}
use futo_notes_server.Store.Documents.{Body, create, kind_eq, wrapped}
use futo_notes_server.Store.Sql.{select_row}
use futo_notes_server.Store.Monad.{
  Db, World, Engine, postgres, sqlite, Notification, internal, Result, err, M, ◌>>=◌, time_now,
  tx_query,
}
use futo_notes_server.Store.Rules.{
  at_step, attempt-bind, tx_query-bind, tx_write-bind, lift-bind, time_now-bind, >>=-assoc,
}
use futo_notes_server.Objects.Steps.{
  MutationIntent, Replay, fresh, is_empty, is_row, has_mutation, owns_collection, records_nothing,
  attempt_on, lock_mutation, replay_row, replay, upsert_result, save_result, lock_collection,
  staged_for, row_size, staged_blob_size, retain_blob, release_blob, publish,
}

-- The table of Mutation IDs after an outcome is recorded, if it is.
unfoldable pub recorded : Text → Text → MutationIntent → ℕ → Body → Option Text → ℕ → Db → Db
recorded user_id mutation_id intent status body resulting now d =
    if records_nothing mutation_id intent
    then d
    else upsert_result user_id mutation_id intent (wrapped status body)
        (if kind_eq intent.kind create then resulting else intent.object_id) now d

module _ {B : Type 0} (Q : Result B × World → Type 0) where
  attempt_on-bind :
      (e : Engine) (k : Unit {0} → M B) (w : World)
      → ((n : ℕ) → Q (err internal, at_step w n))
      → ((n : ℕ) → Q (k tt (at_step w n)))
      → Q ((attempt_on e >>= k) w)
  attempt_on-bind postgres k w bad good = attempt-bind Q k w bad good
  attempt_on-bind sqlite k w bad good = good w.step

  pub lock_mutation-bind :
      (mutation_id : Text) (k : Unit {0} → M B) (w : World)
      → ((n : ℕ) → Q (err internal, at_step w n))
      → ((n : ℕ) → Q (k tt (at_step w n)))
      → Q ((lock_mutation mutation_id >>= k) w)
  unfolding lock_mutation
  lock_mutation-bind [] k w bad good = good w.step
  lock_mutation-bind (c ∷ s) k w bad good = attempt_on-bind w.env.engine k w bad good

  pub publish-bind :
      (m : Notification) (k : Unit {0} → M B) (w : World)
      → ((n : ℕ) → Q (err internal, at_step w n))
      → ((n : ℕ) → Q (k tt (record w { step = n; doorbells = w.doorbells ++ m ∷ [] })))
      → Q ((publish m >>= k) w)
  unfolding publish
  publish-bind m k w bad good =
      >>=-assoc Q (attempt_on w.env.engine) _ k w
        (attempt_on-bind w.env.engine _ w bad (λ n. good n))

  -- What `replay` finds is the decoded row, and nothing without a Mutation ID.
  pub replay-bind :
      (user_id mutation_id : Text) (intent : MutationIntent) (k : Replay → M B) (w : World)
      → ((n : ℕ) → Q (err internal, at_step w n))
      → ((n : ℕ) (r : Replay)
          → (if is_empty mutation_id
              then some fresh
              else replay_row intent
                  (select_row (has_mutation user_id mutation_id) w.work.mutations))
            ≡ some r
          → Q (k r (at_step w n)))
      → Q ((replay user_id mutation_id intent >>= k) w)
  unfolding replay
  replay-bind user_id [] intent k w bad good = good w.step fresh refl
  replay-bind user_id (c ∷ s) intent k w bad good =
      >>=-assoc Q (tx_query (λ d. select_row (has_mutation user_id (c ∷ s)) d.mutations)) _ k w
        (tx_query-bind Q _ _ w bad (λ n. lift-bind Q _ k (at_step w n) (bad n) (good n)))

  pub save_result-bind :
      (user_id mutation_id : Text) (intent : MutationIntent) (status : ℕ) (body : Body)
      (resulting : Option Text) (k : Unit {0} → M B) (w : World)
      → ((n : ℕ) → Q (err internal, at_step w n))
      → ((n now : ℕ)
          → Q (
              k tt (record w {
                step = n;
                work = recorded user_id mutation_id intent status body resulting now w.work;
              })))
      → Q ((save_result user_id mutation_id intent status body resulting >>= k) w)
  unfolding save_result recorded
  save_result-bind user_id mutation_id intent status body resulting k w bad good =
      elim (Bool-cases (records_nothing mutation_id intent)) [
        | inl e ↦ rw e (rw e at (good w.step 0))
        | inr e ↦ rw e (
            >>=-assoc Q time_now _ k w (
              time_now-bind Q _ w
                λ m now. tx_write-bind Q _ k (at_step w m) bad (λ n. rw e at (good n now))))
      ]

  pub lock_collection-bind :
      (user_id collection_id : Text) (k : Bool → M B) (w : World)
      → ((n : ℕ) → Q (err internal, at_step w n))
      → ((n : ℕ)
          → Q (
              k
                (valid_uuid collection_id
                  && is_row (select_row (owns_collection user_id collection_id) w.work.collections))
                (at_step w n)))
      → Q ((lock_collection user_id collection_id >>= k) w)
  unfolding lock_collection
  lock_collection-bind user_id collection_id k w bad good =
      elim (Bool-cases (valid_uuid collection_id)) [
        | inl e ↦ rw e (tx_query-bind Q _ k w bad (λ n. rw e at (good n)))
        | inr e ↦ rw e (rw e at (good w.step))
      ]

  pub staged_blob_size-bind :
      (user_id blob_key : Text) (k : Option ℕ → M B) (w : World)
      → ((n : ℕ) → Q (err internal, at_step w n))
      → ((n now : ℕ)
          → Q (
              k
                (row_size (select_row (staged_for user_id blob_key now) w.work.ledger))
                (at_step w n)))
      → Q ((staged_blob_size user_id blob_key >>= k) w)
  unfolding staged_blob_size
  staged_blob_size-bind user_id blob_key k w bad good =
      >>=-assoc Q time_now _ k w
        (time_now-bind Q _ w λ m now. tx_query-bind Q _ k (at_step w m) bad (λ n. good n now))

  pub release_blob-bind :
      (blob_key : Option Text) (now : ℕ) (k : Unit {0} → M B) (w : World)
      → ((n : ℕ) → Q (err internal, at_step w n))
      → ((n : ℕ) → Q (k tt (record w { step = n; work = retain_blob blob_key now w.work })))
      → Q ((release_blob blob_key now >>= k) w)
  unfolding release_blob retain_blob
  release_blob-bind none now k w bad good = good w.step
  release_blob-bind (some key) now k w bad good =
      tx_write-bind Q (retain_blob (some key) now) k w bad good
