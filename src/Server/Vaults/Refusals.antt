-- ===== src/Server/Vaults/Refusals.antt =====
-- What the handler that stores a key answers and leaves, whatever it is sent.
use futo_notes_server.Ids.{valid_uuid}
use futo_notes_server.Objects.Steps.{owns_collection}
use futo_notes_server.Store.Sql.{select_row}
use futo_notes_server.Collections.Key.Rotation.{Replaces}
use futo_notes_server.Collections.Key.Told.{TellsKey, with_key, put_key-TellsKey}
use futo_notes_server.Store.Rows.{CollectionRow, KeyMaterial}
use futo_notes_server.Server.Vaults.{
  KeyBody, put_key_reply, handle_put_collection_key, key_body_problem, key_input_of, put_checked,
  is_json_object, is_missing, is_object, is_blank, text_or_empty,
}
use futo_notes_server.Prelude.{
  ◌≡◌, ◌≢◌, refl, [], ◌∷◌, true, false, none, some, ℕ, Text, Option, inl, ◌⊎◌, inr, ap, ◌∙◌, sym,
  arith, subst,
}
use futo_notes_server.Store.Monad.{World, Result}
use futo_notes_server.Server.Reply.{
  vault_key, key_conflict, Reply, answer_result, reply, write_json, server_error,
}
use futo_notes_server.Collections.Key.{PutKeyOutcome}

-- The parts of a body that are needed: a salt, a wrapped key, parameters that are a JSON object, and a
-- token that is not empty if there is one.
abbrev pub IsComplete : KeyBody → Type 0
IsComplete b =
    ((salt : Text) × (b.key_salt ≡ some salt) × (salt ≢ []))
    × ((wrapped : Text) × (b.encrypted_vault_key ≡ some wrapped) × (wrapped ≢ []))
    × ((kdf : Text) × (b.key_kdf ≡ some kdf) × (is_json_object kdf ≡ true))
    × (b.previous_key_updated_at ≢ some [])

some-inj {ℓ} : {A : Type ℓ} (a b : A) → some a ≡ some b → a ≡ b
some-inj a b e = cc

missing-none : (o : Option Text) → is_missing o ≡ false → (s : Text) × (o ≡ some s) × (s ≢ [])
missing-none none h = absurd (cc)
missing-none (some []) h = absurd (cc)
missing-none (some (c ∷ s)) h = (c ∷ s, refl, λ e. cc)

missing-some : (o : Option Text) (s : Text) → o ≡ some s → s ≢ [] → is_missing o ≡ false
missing-some none s e h = cc
missing-some (some []) s e h = absurd (h (sym (some-inj [] s e)))
missing-some (some (c ∷ t)) s e h = refl

object-some :
    (o : Option Text) → is_object o ≡ true → (s : Text) × (o ≡ some s) × (is_json_object s ≡ true)
object-some none h = absurd (cc)
object-some (some s) h = (s, refl, h)

blank-none : (o : Option Text) → is_blank o ≡ false → o ≢ some []
blank-none none h e = cc
blank-none (some []) h e = cc
blank-none (some (c ∷ s)) h e = absurd (ground arith)

blank-some : (o : Option Text) → o ≢ some [] → is_blank o ≡ false
blank-some none h = refl
blank-some (some []) h = absurd (h refl)
blank-some (some (c ∷ s)) h = refl

-- The text that the handler passes on is the body's.
passed_on : (o : Option Text) (x s : Text) → o ≡ some x → s ≡ text_or_empty o → o ≡ some s
passed_on o x s e h = e ∙ ap some (sym (h ∙ ap text_or_empty e))

key_body_problem-none : (b : KeyBody) → key_body_problem b ≡ none → IsComplete b
unfolding key_body_problem
key_body_problem-none b e = (
  missing-none b.key_salt (ground arith),
  missing-none b.encrypted_vault_key (ground arith),
  object-some b.key_kdf (ground arith),
  blank-none b.previous_key_updated_at (ground arith),
)

key_body_problem-some :
    (b : KeyBody) (problem : Text) → key_body_problem b ≡ some problem → ¬ IsComplete b
unfolding key_body_problem
key_body_problem-some b problem e ((salt, s, s'), (wrapped, k, k'), (kdf, p, p'), t) =
    let salted = missing-some b.key_salt salt s s' in
    let keyed = missing-some b.encrypted_vault_key wrapped k k' in
    let object : is_object b.key_kdf ≡ true = rw p p' in
    let token = blank-some b.previous_key_updated_at t in
    ground (arith, salted, keyed, object, token)

module _ (revision_token : ℕ → Text) (user_id id : Text) (body : Option KeyBody) (w : World) where
  -- The body is no JSON or lacks a part.
  abbrev pub IsMalformed : Reply × World → Type 0
  IsMalformed (a, v) =
      (¬ ((b : KeyBody) × (body ≡ some b) × IsComplete b))
      × (a.status ≡ 400)
      × (v.stored ≡ w.stored)

  -- The answers to a body that has all parts, for a vault of the caller.
  abbrev pub Settles : KeyBody → CollectionRow → Reply × World → Type 0
  Settles b c (a, v) =
      ((t : Text) × (c.key ≡ none)
        × (b.previous_key_updated_at ≡ some t)
        × (a.status ≡ 400)
        × (v.stored ≡ w.stored))
      ⊎ ((old : KeyMaterial) × (c.key ≡ some old)
          × (b.previous_key_updated_at ≡ none)
          × (a ≡ write_json 200 (vault_key (some old)))
          × (v.stored ≡ w.stored))
      ⊎ ((old : KeyMaterial) × (t : Text) × (c.key ≡ some old)
          × (b.previous_key_updated_at ≡ some t)
          × (revision_token old.key_updated_at ≢ t)
          × (a ≡ write_json 409 (key_conflict (some old)))
          × (v.stored ≡ w.stored))
      ⊎ ((k : KeyMaterial) × Replaces revision_token b.previous_key_updated_at c.key k
          × (b.key_salt ≡ some k.key_salt)
          × (b.key_kdf ≡ some k.key_kdf)
          × (b.encrypted_vault_key ≡ some k.encrypted_vault_key)
          × (a ≡ write_json 200 (vault_key (some k)))
          × (v.stored ≡ with_key id k w.stored))

  abbrev pub AnswersBody : KeyBody → Reply × World → Type 0
  AnswersBody b (a, v) =
      ((n : ℕ) × (w.env.fails n ≡ true) × (a ≡ server_error) × (v.stored ≡ w.stored))
      ⊎ (((valid_uuid id ≡ false)
            ⊎ (select_row (owns_collection user_id id) w.stored.collections ≡ none))
          × (a.status ≡ 404)
          × (v.stored ≡ w.stored))
      ⊎ ((c : CollectionRow) × (select_row (owns_collection user_id id) w.stored.collections
            ≡ some c)
          × Settles b c (a, v))

  abbrev pub PutsKey : Reply × World → Type 0
  PutsKey out =
      IsMalformed out ⊎ ((b : KeyBody) × (body ≡ some b) × IsComplete b × AnswersBody b out)

  told :
      (b : KeyBody) (r : Result (PutKeyOutcome × Option KeyMaterial)) (v : World)
      → IsComplete b
      → TellsKey revision_token user_id id (key_input_of b) b.previous_key_updated_at w (r, v)
      → AnswersBody b (answer_result r (λ told. reply (put_key_reply told)) v)
  unfolding put_key_reply
  told b r v full (inl (n, f, e, same)) = rw e (inl (n, f, refl, same))
  told b r v full (inr (inl (why, e, same))) = rw e (inr (inl (why, refl, same)))
  told b r v full (inr (inr (c, there, inl (held, (t, token), e, same)))) =
      rw e (inr (inr (c, there, inl (t, held, token, refl, same))))
  told b r v full (inr (inr (c, there, inr (inl (old, held, token, e, same))))) =
      rw e (inr (inr (c, there, inr (inl (old, held, token, refl, same)))))
  told b r v full (inr (inr (c, there, inr (inr (inl (old, t, held, token, ne, e, same)))))) =
      rw e (inr (inr (c, there, inr (inr (inl (old, t, held, token, ne, refl, same))))))
  told b r v full
        (inr (inr (c, there, inr (inr (inr (k, replaces, salt, kdf, wrapped, e, stored)))))) =
      rw e (
        inr (
          inr (
            c,
            there,
            inr (
                inr (
                  inr (
                    k,
                    replaces,
                    passed_on b.key_salt full.0.0 k.key_salt full.0.1 salt,
                    passed_on b.key_kdf full.2.0 k.key_kdf full.2.1 kdf,
                    passed_on b.encrypted_vault_key full.1.0 k.encrypted_vault_key full.1.1 wrapped,
                    refl,
                    stored,
                  ))),
          )))

  checked :
      (b : KeyBody) (problem : Option Text)
      → body ≡ some b
      → key_body_problem b ≡ problem
      → PutsKey (put_checked revision_token user_id id b problem w)
  unfolding put_checked
  checked b (some problem) given e = inl (
    λ full.
        let (b', given', complete) = full in
        key_body_problem-some b problem e
          (subst IsComplete (some-inj b' b (sym given' ∙ given)) complete),
    refl,
    refl,
  )
  checked b none given e =
      let full = key_body_problem-none b e in
      inr (
        b,
        given,
        full,
        told b _ _ full (
            put_key-TellsKey revision_token user_id id (key_input_of b) b.previous_key_updated_at
              w),
      )

  handled :
      (b : Option KeyBody)
      → body ≡ b
      → PutsKey (handle_put_collection_key revision_token user_id id b w)
  unfolding handle_put_collection_key
  handled none e = inl (λ full. let (b, given, complete) = full in absurd (cc), refl, refl)
  handled (some b) e = checked b _ e refl

  -- A request to store a key is answered in one of these ways, and no table changes but in the last.
  -- 400: the body is no JSON, or lacks a salt, a wrapped key or parameters that are an object, or has
  -- an empty token. 500: a statement fails. 404: the caller has no such vault. 400: a token is given
  -- and there is no key. 200 with the stored key: none is given and there is one. 409 with the stored
  -- key: the token is not that key's. 200 with the new key: it has the material of the body and is
  -- the first one, or takes the place of the key whose token the body carries and is later.
  pub handle_put_collection_key-PutsKey :
      PutsKey (handle_put_collection_key revision_token user_id id body w)
  handle_put_collection_key-PutsKey = handled body refl
