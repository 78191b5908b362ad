-- ===== src/Blobs/Ownership.antt =====
-- Whose blobs a client may delete.
use futo_notes_server.Store.Rules.{begin_tx-bind, tx_query-bind, commit-bind, tx_write-bind}
use futo_notes_server.Store.Sql.{select_row, delete_where}
use futo_notes_server.Store.Rows.{LedgerRow, is_staged}
use futo_notes_server.Store.Monad.{◌>>=◌, World, M, Result, Db, continue, pure, ok, err}
use futo_notes_server.Blobs.{has_prefix, delete_blob, ledger_has_key, remove_row}
use futo_notes_server.Prelude.{
  ◌≡◌, refl, [], ◌∷◌, true, none, some, Text, ◌++◌, &&-right, ◌⊎◌, ◌⊎◌, Bool, ap₂, Bool-cases,
  ==_iff, inr, &&-left, inl, ◌∙◌, ◌∙◌, append_assoc, ℕ, subst, sym, Option,
}

has_prefix-inv : (s p : Text) → has_prefix s p ≡ true → (t : Text) × (s ≡ p ++ t)
unfolding has_prefix
has_prefix-inv s [] h = (s, refl)
has_prefix-inv [] (b ∷ p) h = absurd (cc)
has_prefix-inv (a ∷ s) (b ∷ p) h =
    let (t, e) = has_prefix-inv s p (&&-right _ _ h) in
    (t, ap₂ ◌∷◌ ((==_iff a b).0 (&&-left _ _ h)) e)

-- os.Remove changes no table.
abbrev pub RemovesOnly : (Text → M (Unit {0})) → Type 0
RemovesOnly remove_file = (key : Text) (w : World) → (remove_file key w).1.stored ≡ w.stored

-- The tables are as they were, or the row of a staged blob of this user is gone.
abbrev pub DeletesStaged : Text → Text → Db → Db → Type 0
DeletesStaged user_id key d d' =
    (d' ≡ d)
    ⊎ ((l : LedgerRow) × (select_row (ledger_has_key key) d.ledger ≡ some l)
        × (is_staged l.state ≡ true)
        × ((name : Text) × (key ≡ user_id ++ b'/' ∷ name))
        × (d' ≡ record d { ledger = delete_where (ledger_has_key key) d.ledger }))

module _ (remove_file : Text → M (Unit {0})) (only : RemovesOnly remove_file) (user_id key : Text)
    (w : World) where
  abbrev Kept : Result Bool × World → Type 0
  Kept (r, w') = DeletesStaged user_id key w.stored w'.stored

  told-Kept :
      (r : Result (Unit {0})) (v : World)
      → DeletesStaged user_id key w.stored v.stored
      → Kept (continue r (λ _. pure true) v)
  told-Kept (ok u) v h = h
  told-Kept (err e) v h = h

  remove_file-Kept :
      (v : World)
      → DeletesStaged user_id key w.stored v.stored
      → Kept ((remove_file key >>= λ _. pure true) v)
  remove_file-Kept v h =
      told-Kept _ (remove_file key v).1
        (subst (DeletesStaged user_id key w.stored) (sym (only key v)) h)

  remove_row-Kept :
      (n : ℕ) (row : Option LedgerRow) (name : Text)
      → key ≡ user_id ++ b'/' ∷ name
      → select_row (ledger_has_key key) w.stored.ledger ≡ row
      → Kept
          (remove_row remove_file key row (record w { step = n; work = w.stored; doorbells = [] }))
  unfolding remove_row
  remove_row-Kept n none name own there =
      commit-bind Kept _ _ (λ m. inl refl) λ n₁. remove_file-Kept _ (inl refl)
  remove_row-Kept n (some l) name own there = elim (Bool-cases (is_staged l.state)) [
    | inr e ↦ rw e (inl refl)
    | inl e ↦ rw e (
        tx_write-bind Kept (λ d. record d { ledger = delete_where (ledger_has_key key) d.ledger }) _
          _ (λ m. inl refl)
          λ n₁.
            commit-bind Kept _ _ (λ m. inl refl)
              λ n₂. remove_file-Kept _ (inr (l, there, e, (name, own), refl)))
  ]

  -- Deleting a blob leaves the tables as they were, or removes the row of a blob that is staged and
  -- whose key stands in the caller's own namespace; no statement that fails leaves anything else.
  pub delete_blob-DeletesStaged :
      DeletesStaged user_id key w.stored (delete_blob remove_file user_id key w).1.stored
  unfolding delete_blob
  delete_blob-DeletesStaged = elim (Bool-cases (has_prefix key (user_id ++ b'/' ∷ []))) [
    | inr e ↦ rw e (inl refl)
    | inl e ↦
        let (name, own) = has_prefix-inv key (user_id ++ b'/' ∷ []) e in
        let own : key ≡ user_id ++ b'/' ∷ name = own ∙ append_assoc user_id (b'/' ∷ []) name in
        rw e (
          begin_tx-bind Kept _ w (λ m. inl refl)
            λ n₁.
              tx_query-bind Kept (λ d. select_row (ledger_has_key key) d.ledger) _ _ (λ m. inl refl)
                λ n₂. remove_row-Kept n₂ _ name own refl)
  ]
