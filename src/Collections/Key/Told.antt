-- ===== src/Collections/Key/Told.antt =====
-- What storing a key tells, in each case.
use futo_notes_server.Ids.{valid_uuid}
use futo_notes_server.Store.Steps.{
  time_now-next, tx_exec-next, commit-next, begin_tx-next, tx_query-next,
}
use futo_notes_server.Objects.Steps.{owns_collection, is_row}
use futo_notes_server.Store.Sql.{select_row, update_where}
use futo_notes_server.Store.Rows.{KeyMaterial, CollectionRow}
use futo_notes_server.Store.Monad.{M, World, Result, ok, err, internal, Db}
use futo_notes_server.Collections.Key.Rotation.{Replaces}
use futo_notes_server.Collections.Key.{
  next_revision, KeyInput, PutKeyOutcome, put_key_ok, put_key_not_found, put_key_conflict,
  put_key_no_current_key, store_key, key_from, set_key, put_key, put_found, put_row,
  collection_has_id,
}
use futo_notes_server.Prelude.{
  ◌≡◌, ◌≢◌, refl, [], ◌∷◌, true, false, none, some, ℕ, Text, Option, ◌+◌, ◌<◌, ◌∙◌, arith, ◌⊎◌, inl,
  inr, List, Bool-cases, sym, text_eq, ap, text_eq→≡, text_eq_refl, subst, if-elim,
}

-- The table of vaults with the key in the vault.
abbrev pub with_key : Text → KeyMaterial → Db → Db
with_key id k d = record d {
  collections = update_where (collection_has_id id) (λ c. record c { key = some k }) d.collections;
}

owned-there :
    (user_id id : Text) (cs : List CollectionRow) (c : CollectionRow)
    → select_row (owns_collection user_id id) cs ≡ some c
    → is_row (select_row (collection_has_id id) cs) ≡ true
unfolding select_row
owned-there user_id id [] c e = cc
owned-there user_id id (x ∷ cs) c e = elim (Bool-cases (text_eq x.id id)) [
  | inl here ↦ rw here refl
  | inr other ↦ rw other (owned-there user_id id cs c (ground arith))
]

set_key-with_key :
    (id : Text) (k : KeyMaterial) (d : Db)
    → is_row (select_row (collection_has_id id) d.collections) ≡ true
    → set_key id k d ≡ some (k, with_key id k d)
unfolding set_key
set_key-with_key id k d there = rw there refl

later : (now : ℕ) (old : KeyMaterial) → old.key_updated_at < next_revision now (some old)
unfolding next_revision
later now old = ground arith

module _ (revision_token : ℕ → Text) (user_id id : Text) (input : KeyInput) (token : Option Text)
    (w : World) where
  abbrev pub Told : Type 0
  Told = Result (PutKeyOutcome × Option KeyMaterial) × World

  -- A statement fails.
  abbrev pub Fails : Told → Type 0
  Fails (r, w') = (n : ℕ) × (w.env.fails n ≡ true) × (r ≡ err internal) × (w'.stored ≡ w.stored)

  -- The caller has no such vault.
  abbrev pub IsNotFound : Told → Type 0
  IsNotFound (r, w') =
      ((valid_uuid id ≡ false)
        ⊎ (select_row (owns_collection user_id id) w.stored.collections ≡ none))
      × (r ≡ ok (put_key_not_found, none))
      × (w'.stored ≡ w.stored)

  -- There is no key for the token to replace.
  abbrev pub NoCurrentKey : CollectionRow → Told → Type 0
  NoCurrentKey c (r, w') =
      (c.key ≡ none)
      × ((t : Text) × (token ≡ some t))
      × (r ≡ ok (put_key_no_current_key, none))
      × (w'.stored ≡ w.stored)

  -- A first key is asked for where there is one, which is told.
  abbrev pub HasKey : CollectionRow → Told → Type 0
  HasKey c (r, w') =
      (old : KeyMaterial) × (c.key ≡ some old)
      × (token ≡ none)
      × (r ≡ ok (put_key_ok, some old))
      × (w'.stored ≡ w.stored)

  -- The token is not that of the stored key, which is told.
  abbrev pub Conflicts : CollectionRow → Told → Type 0
  Conflicts c (r, w') =
      (old : KeyMaterial) × (t : Text) × (c.key ≡ some old)
      × (token ≡ some t)
      × (revision_token old.key_updated_at ≢ t)
      × (r ≡ ok (put_key_conflict, some old))
      × (w'.stored ≡ w.stored)

  -- The vault has a key of the given material.
  abbrev pub Stores : CollectionRow → Told → Type 0
  Stores c (r, w') =
      (k : KeyMaterial) × Replaces revision_token token c.key k
      × (k.key_salt ≡ input.key_salt)
      × (k.key_kdf ≡ input.key_kdf)
      × (k.encrypted_vault_key ≡ input.encrypted_vault_key)
      × (r ≡ ok (put_key_ok, some k))
      × (w'.stored ≡ with_key id k w.stored)

  abbrev pub Decides : Told → Type 0
  Decides out =
      (c : CollectionRow) × (select_row (owns_collection user_id id) w.stored.collections ≡ some c)
      × (NoCurrentKey c out ⊎ HasKey c out ⊎ Conflicts c out ⊎ Stores c out)

  abbrev pub TellsKey : Told → Type 0
  TellsKey out = Fails out ⊎ IsNotFound out ⊎ Decides out

  abbrev reading : World
  reading = record w { step = w.step + 1 + 1; work = w.stored; doorbells = [] }

  module _ (c : CollectionRow)
      (there : select_row (owns_collection user_id id) w.stored.collections ≡ some c) where
    store_key-TellsKey :
        (key : Option KeyMaterial)
        → c.key ≡ key
        → ((now : ℕ) → Replaces revision_token token key (key_from input (next_revision now key)))
        → TellsKey (store_key id input key reading)
    unfolding store_key key_from
    store_key-TellsKey key held replaces =
        let now = w.env.now (w.step + 1 + 1) in
        let k = key_from input (next_revision now key) in
        time_now-next TellsKey _ reading (
          tx_exec-next TellsKey (set_key id k) _ _ k (with_key id k w.stored)
            (set_key-with_key id k w.stored (owned-there user_id id w.stored.collections c there))
            (λ f. inl (_, f, refl, refl))
            (commit-next TellsKey _ _ (λ f. inl (_, f, refl, refl))
              (inr (
                inr (
                  c,
                  there,
                  inr (
                      inr (
                        inr (
                          k,
                          subst (λ x. Replaces revision_token token x k) (sym held) (replaces now),
                          refl,
                          refl,
                          refl,
                          refl,
                          refl,
                        ))),
                )))))

  -- The section's token is what the code matches on, so it is given again with an equation.
  put_found-TellsKey :
      (c : CollectionRow) (given : Option Text) (key : Option KeyMaterial)
      → select_row (owns_collection user_id id) w.stored.collections ≡ some c
      → token ≡ given
      → c.key ≡ key
      → TellsKey (put_found revision_token id input given key reading)
  unfolding put_found key_from
  put_found-TellsKey c none (some old) there e held =
      commit-next TellsKey _ reading (λ f. inl (_, f, refl, refl))
        (inr (inr (c, there, inr (inl (old, held, e, refl, refl)))))
  put_found-TellsKey c none none there e held = store_key-TellsKey c there none held (λ now. e)
  put_found-TellsKey c (some t) none there e held =
      inr (inr (c, there, inl (held, (t, e), refl, refl)))
  put_found-TellsKey c (some t) (some old) there e held =
      elim (Bool-cases (text_eq (revision_token old.key_updated_at) t)) [
        | inl same ↦ rw same (
            store_key-TellsKey c there (some old) held
              λ now. (e ∙ ap some (sym (text_eq→≡ _ _ same)), later now old))
        | inr other ↦ rw other (
            commit-next TellsKey _ reading (λ f. inl (_, f, refl, refl))
              (inr (
                inr (
                  c,
                  there,
                  inr (
                      inr (
                        inl (
                          old,
                          t,
                          held,
                          e,
                          λ same.
                              absurd
                                (ground (arith, text_eq_refl t, ap (λ x. text_eq x t) same, other)),
                          refl,
                          refl,
                        ))),
                ))))
      ]

  put_row-TellsKey :
      (row : Option CollectionRow)
      → select_row (owns_collection user_id id) w.stored.collections ≡ row
      → TellsKey (put_row revision_token id input token row reading)
  unfolding put_row
  put_row-TellsKey none e = inr (inl (inr e, refl, refl))
  put_row-TellsKey (some c) e = put_found-TellsKey c token c.key e refl refl

  pub put_key-TellsKey : TellsKey (put_key revision_token user_id id input token w)
  unfolding put_key
  put_key-TellsKey =
      if-elim (λ (m : M (PutKeyOutcome × Option KeyMaterial)). TellsKey (m w)) (valid_uuid id) _ _
        (λ _.
          begin_tx-next TellsKey _ w (λ f. inl (_, f, refl, refl))
            (tx_query-next TellsKey (λ d. select_row (owns_collection user_id id) d.collections) _ _
              (λ f. inl (_, f, refl, refl)) (put_row-TellsKey _ refl)))
        (λ bad. inr (inl (inl bad, refl, refl)))
