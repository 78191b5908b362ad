-- ===== src/Collections/Vault/Claim.antt =====
-- What claiming a collection leaves.
use futo_notes_server.Auth.Session.{user_has_id}
use futo_notes_server.Store.Sql.{select_row, select_where}
use futo_notes_server.Store.Rules.{
  commit-bind, begin_tx-bind, >>=-assoc, tx_query-bind, tx_exec-bind, lift-bind,
}
use futo_notes_server.Store.Rows.{CollectionRow}
use futo_notes_server.Collections.Vault.{
  claim_oldest, insert_collection, claim_collection, first, by_age, owned_by,
}
use futo_notes_server.Prelude.{
  ◌≡◌, refl, [], ◌∷◌, true, none, some, Text, ℕ, Bool, Option, ◌⊎◌, arith, ◌⊎◌, inl, ◌+◌, ◌+◌, inr,
  ap,
}
use futo_notes_server.Store.Monad.{
  ◌>>=◌, ok, World, Result, new_uuid, Db, commit, pure, time_now, tx_exec,
}

module _ (user_id : Text) (w : World) where
  -- The tables are as they were, or the user has a new collection under a minted identifier.
  abbrev pub ClaimsNew : Result (CollectionRow × Bool) × World → Type 0
  ClaimsNew (r, v) =
      (v.stored ≡ w.stored)
      ⊎ ((c : CollectionRow) × (n : ℕ) × (c.id ≡ w.env.uuid n)
          × (c.user_id ≡ user_id)
          × (c.current_version ≡ 0)
          × (r ≡ ok (c, true))
          × (v.stored ≡ record w.stored { collections = c ∷ w.stored.collections }))

  insert_collection-inv :
      (c c' : CollectionRow) (d d' : Db)
      → insert_collection c d ≡ some (c', d')
      → (c' ≡ c) × (d' ≡ record d { collections = c ∷ d.collections })
  unfolding insert_collection
  insert_collection-inv c c' d d' e = ground arith

  claim_oldest-ClaimsNew :
      (n : ℕ) (oldest : Option CollectionRow)
      → ClaimsNew (
          (claim_oldest user_id oldest >>= λ claim. commit >>= λ _. pure claim)
            (record w { step = n; work = w.stored; doorbells = [] }))
  unfolding claim_oldest new_uuid time_now
  claim_oldest-ClaimsNew n (some c) = commit-bind ClaimsNew _ _ (λ m. inl refl) λ n₁. inl refl
  claim_oldest-ClaimsNew n none =
      let new : CollectionRow = record {
        id = w.env.uuid n;
        user_id = user_id;
        created_at = w.env.now (n + 1);
        current_version = 0;
        key = none;
      } in
      >>=-assoc ClaimsNew (tx_exec (insert_collection new)) (λ c. pure (c, true))
        (λ claim. commit >>= λ _. pure claim)
        (record w { step = n + 1 + 1; work = w.stored; doorbells = [] })
        (tx_exec-bind ClaimsNew (insert_collection new) (λ c. commit >>= λ _. pure (c, true))
          (record w { step = n + 1 + 1; work = w.stored; doorbells = [] }) (λ m. inl refl)
          λ m c d e.
            let (same, grown) = insert_collection-inv new c w.stored d e in
            commit-bind ClaimsNew (λ _. pure (c, true))
              (record w { step = m; work = d; doorbells = [] }) (λ m. inl refl)
              λ k. inr (new, n, refl, refl, refl, ap (λ x. ok (x, true)) same, grown))

  -- Claiming a collection leaves the tables as they were, whichever statement fails, or adds one of
  -- version 0 for the user, under a minted identifier.
  pub claim_collection-ClaimsNew : ClaimsNew (claim_collection user_id w)
  unfolding claim_collection
  claim_collection-ClaimsNew =
      begin_tx-bind ClaimsNew _ w (λ m. inl refl)
        λ n₁.
          tx_query-bind ClaimsNew (λ d. select_row (user_has_id user_id) d.users) _ _
            (λ m. inl refl)
            λ n₂. lift-bind ClaimsNew _ _ _ (inl refl) λ u found.
              tx_query-bind ClaimsNew
                (λ d. first (by_age (select_where (owned_by user_id) d.collections))) _ _
                (λ m. inl refl) λ n₃. claim_oldest-ClaimsNew n₃ _
