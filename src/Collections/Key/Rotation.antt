-- ===== src/Collections/Key/Rotation.antt =====
-- What storing a key does to the stored one.
use futo_notes_server.Ids.{valid_uuid}
use futo_notes_server.Store.Rules.{
  time_now-bind, tx_exec-bind, commit-bind, begin_tx-bind, tx_query-bind,
}
use futo_notes_server.Objects.Steps.{owns_collection}
use futo_notes_server.Store.Sql.{select_row}
use futo_notes_server.Store.Rows.{KeyMaterial, CollectionRow}
use futo_notes_server.Store.Monad.{World, Result, ok, Db}
use futo_notes_server.Collections.Key.{
  next_revision, KeyInput, PutKeyOutcome, store_key, put_key_ok, key_from, set_key, put_key,
  put_found, put_row,
}
use futo_notes_server.Prelude.{
  ◌≡◌, refl, [], none, some, ℕ, Text, Option, ◌<◌, ◌<◌, arith, ◌⊎◌, ◌⊎◌, inl, inr, subst,
  Bool-cases, sym, text_eq, ap, text_eq→≡,
}

module _ (revision_token : ℕ → Text) where
  -- When a key may take the place of what is stored: nothing is there and no token is given, or
  -- the token is that of the stored key, and the new revision is later.
  abbrev pub Replaces : Option Text → Option KeyMaterial → KeyMaterial → Type 0
  Replaces token none k = token ≡ none
  Replaces token (some old) k =
      (token ≡ some (revision_token old.key_updated_at)) × (old.key_updated_at < k.key_updated_at)

  -- The database is as it was, or the collection that was asked for has a new key, which is also
  -- the answer.
  abbrev pub KeyEffect :
      Text
      → Text
      → Option Text
      → World
      → Result (PutKeyOutcome × Option KeyMaterial) × World
      → Type 0
  KeyEffect user_id id token w (r, w') =
      (w'.stored ≡ w.stored)
      ⊎ ((c : CollectionRow) × (k : KeyMaterial) × (select_row (owns_collection user_id id)
              w.stored.collections
            ≡ some c)
          × (r ≡ ok (put_key_ok, some k))
          × (set_key id k w.stored ≡ some (k, w'.stored))
          × Replaces token c.key k)

  next_revision-later :
      (now : ℕ) (old : KeyMaterial) → old.key_updated_at < next_revision now (some old)
  unfolding next_revision
  next_revision-later now old = ground arith

  set_key-key :
      (id : Text) (k k' : KeyMaterial) (d d' : Db) → set_key id k d ≡ some (k', d') → k' ≡ k
  unfolding set_key
  set_key-key id k k' d d' e = ground arith

  module _ (user_id id : Text) (input : KeyInput) (w : World) (c : CollectionRow)
      (there : select_row (owns_collection user_id id) w.stored.collections ≡ some c) where
    abbrev opened : ℕ → World
    opened n = record w { step = n; work = w.stored; doorbells = [] }

    store_key-effect :
        (n : ℕ) (token : Option Text) (key : Option KeyMaterial)
        → c.key ≡ key
        → ((now : ℕ) → Replaces token key (key_from input (next_revision now key)))
        → KeyEffect user_id id token w (store_key id input key (opened n))
    unfolding store_key
    store_key-effect n token key held replaces =
        time_now-bind (KeyEffect user_id id token w) _ _ λ n₁ now.
          tx_exec-bind (KeyEffect user_id id token w)
            (set_key id (key_from input (next_revision now key))) _ _ (λ m. inl refl)
            λ n₂ k d e.
              commit-bind (KeyEffect user_id id token w) _ _ (λ m. inl refl)
                λ n₃.
                  let same : k ≡ key_from input (next_revision now key) =
                    set_key-key id _ k w.stored d e in
                  inr (
                    c,
                    k,
                    there,
                    refl,
                    subst (λ x. set_key id x w.stored ≡ some (k, d)) (sym same) e,
                    subst (λ x. Replaces token x k) (sym held)
                        (subst (Replaces token key) (sym same) (replaces now)),
                  )

    put_found-effect :
        (n : ℕ) (token : Option Text) (key : Option KeyMaterial)
        → c.key ≡ key
        → KeyEffect user_id id token w (put_found revision_token id input token key (opened n))
    unfolding put_found key_from
    put_found-effect n none (some current) held =
        commit-bind (KeyEffect user_id id none w) _ _ (λ m. inl refl) λ n₁. inl refl
    put_found-effect n none none held = store_key-effect n none none held (λ now. refl)
    put_found-effect n (some token) none held = inl refl
    put_found-effect n (some token) (some current) held =
        elim (Bool-cases (text_eq (revision_token current.key_updated_at) token)) [
          | inl e ↦ rw e (
              store_key-effect n (some token) (some current) held
                λ now. (ap some (sym (text_eq→≡ _ _ e)), next_revision-later now current))
          | inr e ↦
              rw e (
                commit-bind (KeyEffect user_id id (some token) w) _ _ (λ m. inl refl)
                  λ n₁. inl refl)
        ]

  put_row-effect :
      (user_id id : Text) (input : KeyInput) (token : Option Text) (w : World) (n : ℕ)
      (row : Option CollectionRow)
      → select_row (owns_collection user_id id) w.stored.collections ≡ row
      → KeyEffect user_id id token w (
          put_row revision_token id input token row
            (record w { step = n; work = w.stored; doorbells = [] }))
  unfolding put_row
  put_row-effect user_id id input token w n none there = inl refl
  put_row-effect user_id id input token w n (some c) there =
      put_found-effect user_id id input w c there n token c.key refl

  -- Whatever is asked, by whichever user, and wherever a statement fails, the stored vaults stay as
  -- they were, or one key of the user's own vault is replaced: it was the first and no token was
  -- given, or the token was that of the key it replaces and the new revision is strictly later.
  pub put_key-effect :
      (user_id id : Text) (input : KeyInput) (token : Option Text) (w : World)
      → KeyEffect user_id id token w (put_key revision_token user_id id input token w)
  unfolding put_key
  put_key-effect user_id id input token w = elim (Bool-cases (valid_uuid id)) [
    | inr e ↦ rw e (inl refl)
    | inl e ↦ rw e (
        begin_tx-bind (KeyEffect user_id id token w) _ w (λ m. inl refl)
          λ n₁.
            tx_query-bind (KeyEffect user_id id token w)
              (λ d. select_row (owns_collection user_id id) d.collections) _ _ (λ m. inl refl)
              λ n₂. put_row-effect user_id id input token w n₂ _ refl)
  ]
