-- ===== src/Collections/Vault/Deletion.antt =====
-- What deleting a collection leaves of it.
use futo_notes_server.Store.Rules.{
  begin_tx-bind, tx_query-bind, time_now-bind, tx_write-bind, commit-bind,
}
use futo_notes_server.Objects.Steps.{owns_collection, is_row}
use futo_notes_server.Ids.{valid_uuid}
use futo_notes_server.Collections.Vault.{
  delete_owned, delete_collection, is_kept_by, drop_collection, mark_purgeable, in_collection,
  scoped_to, points_into, forget_object,
}
use futo_notes_server.Store.Rows.{LedgerRow, CollectionRow, ObjectRow}
use futo_notes_server.Store.Monad.{Db, World, Result, ok}
use futo_notes_server.Store.Sql.{delete_where, select_row, update_where, All-update_where}
use futo_notes_server.Prelude.{
  ◌≡◌, refl, [], ◌∷◌, true, false, none, some, Text, ℕ, Bool, List, All, ◌≢◌, if-elim, ◌≢◌,
  Bool-cases, text_eq, Option, ◌⊎◌, ◌⊎◌, arith, inr, inl, All-of,
}

pub delete_where-gone :
    {R : Type 0} (p : R → Bool) (rs : List R) → All (λ r. p r ≡ false) (delete_where p rs)
unfolding delete_where
delete_where-gone p [] = tt
delete_where-gone p (r ∷ rs) =
    let rest = delete_where-gone p rs in
    if-elim (All (λ r. p r ≡ false)) (p r) (delete_where p rs) (r ∷ delete_where p rs) (λ _. rest)
      (λ e. (e, rest))

mark_purgeable-freed :
    (id : Text) (now : ℕ) (l : LedgerRow) → is_kept_by id (mark_purgeable now l) ≡ false
mark_purgeable-freed id now l = ground arith

freed-kept :
    (id : Text) (now : ℕ) (os : List ObjectRow) (ls : List LedgerRow)
    → All
        (λ l. is_kept_by id l ≡ false)
        (update_where
          (points_into id os)
          forget_object
          (update_where (is_kept_by id) (mark_purgeable now) ls))
freed-kept id now os ls =
    All-update_where (λ l. is_kept_by id l ≡ false) (λ l. is_kept_by id l ≡ false)
      (points_into id os) forget_object _ (λ l h _. h) (λ l h _. h)
      (All-update_where (λ _. Unit {0}) (λ l. is_kept_by id l ≡ false) (is_kept_by id)
        (mark_purgeable now) ls (λ l _ _. mark_purgeable-freed id now l) (λ l _ e. e)
        (All-of (λ _. Unit {0}) (λ _. tt) ls))

-- What is left when a collection is gone: none of its objects, no blob that it claims or retains,
-- no mutation result of its namespace, and the tables of users and sessions as they were.
pub record Gone (user_id id : Text) (d d' : Db) : Type 0 where
  pub no_row : All (λ (c : CollectionRow). text_eq c.id id ≡ false) d'.collections
  pub no_object : All (λ o. in_collection id o ≡ false) d'.objects
  pub no_kept_blob : All (λ l. is_kept_by id l ≡ false) d'.ledger
  pub no_result : All (λ m. scoped_to user_id id m ≡ false) d'.mutations
  pub marked_at : ℕ
  pub ledger :
      d'.ledger
      ≡ update_where
          (points_into id d.objects)
          forget_object
          (update_where (is_kept_by id) (mark_purgeable marked_at) d.ledger)
  pub users : d'.users ≡ d.users
  pub sessions : d'.sessions ≡ d.sessions
  pub other_collections :
      d'.collections ≡ delete_where (λ (c : CollectionRow). text_eq c.id id) d.collections
  pub other_objects : d'.objects ≡ delete_where (in_collection id) d.objects

module _ (user_id id : Text) (w : World) where
  abbrev pub Deleted : Result Bool × World → Type 0
  Deleted (r, w') =
      (w'.stored ≡ w.stored) × (r ≢ ok true)
      ⊎ ((c : CollectionRow) × (select_row (owns_collection user_id id) w.stored.collections
            ≡ some c)
          × (r ≡ ok true)
          × Gone user_id id w.stored w'.stored)

  delete_owned-Deleted :
      (n : ℕ) (row : Option CollectionRow)
      → select_row (owns_collection user_id id) w.stored.collections ≡ row
      → Deleted (
          delete_owned user_id id
            (is_row row)
            (record w { step = n; work = w.stored; doorbells = [] }))
  unfolding delete_owned drop_collection
  delete_owned-Deleted n none there = inl (refl, λ h. absurd (cc))
  delete_owned-Deleted n (some c) there = time_now-bind Deleted _ _ λ n₁ now.
      tx_write-bind Deleted
        (λ d. record d { ledger = update_where (is_kept_by id) (mark_purgeable now) d.ledger }) _ _
        (λ m. inl (refl, λ h. absurd (cc)))
        λ n₂.
          tx_write-bind Deleted
            (λ d. record d { mutations = delete_where (scoped_to user_id id) d.mutations }) _ _
            (λ m. inl (refl, λ h. absurd (cc)))
            λ n₃.
              tx_write-bind Deleted (drop_collection id) _ _ (λ m. inl (refl, λ h. absurd (cc)))
                λ n₄.
                  commit-bind Deleted _ _ (λ m. inl (refl, λ h. absurd (cc)))
                    λ n₅. inr (
                      c,
                      there,
                      refl,
                      record {
                        no_row = delete_where-gone _ w.stored.collections;
                        no_object = delete_where-gone _ w.stored.objects;
                        no_kept_blob = freed-kept id now w.stored.objects w.stored.ledger;
                        no_result = delete_where-gone _ w.stored.mutations;
                        marked_at = now;
                        ledger = refl;
                        users = refl;
                        sessions = refl;
                        other_collections = refl;
                        other_objects = refl;
                      },
                    )

  -- Deleting a collection leaves the tables as they were and does not report a deletion, or the
  -- collection was this user's and all of it is gone at once, whichever statement may fail.
  pub delete_collection-Deleted : Deleted (delete_collection user_id id w)
  unfolding delete_collection
  delete_collection-Deleted = elim (Bool-cases (valid_uuid id)) [
    | inr e ↦ rw e (inl (refl, λ h. absurd (cc)))
    | inl e ↦ rw e (
        begin_tx-bind Deleted _ w (λ m. inl (refl, λ h. absurd (cc)))
          λ n₁.
            tx_query-bind Deleted
              (λ d. is_row (select_row (owns_collection user_id id) d.collections)) _ _
              (λ m. inl (refl, λ h. absurd (cc))) λ n₂. delete_owned-Deleted n₂ _ refl)
  ]
