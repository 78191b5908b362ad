-- ===== src/System/Versions.antt =====
-- Every transaction keeps each collection's version at the highest change_seq of its objects.
use futo_notes_server.Objects.Delete.Atomic.{delete_prepared-effect}
use futo_notes_server.Objects.SequenceKept.{owned-by_id}
use futo_notes_server.Objects.Create.Atomic.{create_reserved-effect}
use futo_notes_server.Objects.Update.Atomic.{update_prepared-effect}
use futo_notes_server.Objects.Delete.{delete_prepared}
use futo_notes_server.Objects.Update.{update_prepared}
use futo_notes_server.Objects.Create.{create_reserved}
use futo_notes_server.Objects.Steps.{owned_object}
use futo_notes_server.Store.Keys.{HasKey, HasKey-select_row}
use futo_notes_server.Store.Monad.{World}
use futo_notes_server.Objects.Outcome.{bumped, Aborted}
use futo_notes_server.Store.Sql.{
  select_row, update_where, All-select_row, select_row-test, All-update_where,
}
use futo_notes_server.Store.Rows.{ObjectRow, CollectionRow}
use futo_notes_server.Schema.Convert.{max_seq, IsReached}
use futo_notes_server.Prelude.{
  ◌≡◌, refl, [], ◌∷◌, true, false, some, Text, List, Bool, text_eq, ℕ, arith, ◌+◌, text_eq_iff, ◌+◌,
  ◌≤◌, ◌≤◌, All, Bool-cases, inr, text_eq→≡, inl, text_eq_refl, ap, sym, ◌∙◌, ◌∙◌, subst, Option,
  subst₂, All-mono,
}

-- A bump that some object has reached.
bumped-IsReached :
    (id : Text) (cs : List CollectionRow) (counter : CollectionRow) (os os' : List ObjectRow)
    → select_row (λ r. text_eq r.id id) cs ≡ some counter
    → (max_seq id os ≡ counter.current_version → max_seq id os' ≡ counter.current_version + 1)
    → ((k : Text) → text_eq k id ≡ false → max_seq k os' ≡ max_seq k os)
    → IsReached cs os
    → IsReached (bumped id cs) os'
bumped-IsReached id cs counter os os' counted reaches others h =
    let at_counter : max_seq counter.id os ≡ counter.current_version =
      All-select_row (λ (c : CollectionRow). max_seq c.id os ≡ c.current_version)
        (λ r. text_eq r.id id) cs counter counted h in
    let named =
      text_eq→≡ counter.id id
        (select_row-test (λ (r : CollectionRow). text_eq r.id id) cs counter counted) in
    let top = reaches (ap (λ x. max_seq x os) (sym named) ∙ at_counter) in
    All-update_where (λ (c : CollectionRow). max_seq c.id os ≡ c.current_version)
      (λ (c : CollectionRow). max_seq c.id os' ≡ c.current_version) (λ r. text_eq r.id id)
      (λ r. record r { current_version = r.current_version + 1 }) cs
      (λ c q e.
        let same = text_eq→≡ c.id id e in
        let mine : c.current_version ≡ counter.current_version =
          sym q ∙ ap (λ x. max_seq x os) (same ∙ sym named) ∙ at_counter in
        ap (λ x. max_seq x os') same ∙ top ∙ ap (λ n. n + 1) (sym mine))
      (λ c q e. others c.id e ∙ q) h

-- A row that is put in front, or whose identifier selects it, takes the place of the highest.
max_seq-cons :
    (k : Text) (o : ObjectRow) (os : List ObjectRow)
    → text_eq k o.collection_id ≡ false
    → max_seq k (o ∷ os) ≡ max_seq k os
unfolding max_seq
max_seq-cons k o os e = ground (arith, text_eq_iff k o.collection_id, text_eq_iff o.collection_id k)

module _ (id : Text) (p : ObjectRow → Bool) (f : ObjectRow → ObjectRow) (n : ℕ)
    (keeps : (o : ObjectRow) → (f o).collection_id ≡ o.collection_id)
    (sets : (o : ObjectRow) → (f o).change_seq ≡ n) where
  -- Where the rows that change are those of one collection, the others' highest stays.
  max_seq-other :
      (k : Text) (os : List ObjectRow)
      → text_eq k id ≡ false
      → All (λ o. p o ≡ true → o.collection_id ≡ id) os
      → max_seq k (update_where p f os) ≡ max_seq k os
  unfolding max_seq update_where
  max_seq-other k [] e h = refl
  max_seq-other k (o ∷ os) e h = elim (Bool-cases (p o)) [
    | inr miss ↦ rw (miss, max_seq-other k os e h.1) refl
    | inl hit ↦
        let here = h.0 hit in
        let apart : text_eq id k ≡ false = ground (arith, text_eq_iff k id, text_eq_iff id k) in
        rw (hit, keeps o, here, apart) (max_seq-other k os e h.1)
  ]

  max_seq-below :
      (os : List ObjectRow)
      → max_seq id os ≤ n
      → All (λ o. p o ≡ true → o.collection_id ≡ id) os
      → max_seq id (update_where p f os) ≤ n
  unfolding max_seq update_where
  max_seq-below [] le h = omega arith
  max_seq-below (o ∷ os) le h = elim (Bool-cases (p o)) [
    | inr miss ↦ rw miss (ground (arith, max_seq-below os))
    | inl hit ↦
        rw (hit, sets o, keeps o, h.0 hit, text_eq_refl id)
          (let rest = max_seq-below os (ground (arith, h.0 hit, text_eq_refl id)) h.1 in
            omega arith)
  ]

  max_seq-at :
      (os : List ObjectRow) (o : ObjectRow)
      → select_row p os ≡ some o
      → All (λ o. p o ≡ true → o.collection_id ≡ id) os
      → n ≤ max_seq id (update_where p f os)
  unfolding max_seq update_where select_row
  max_seq-at [] o e h = absurd (cc)
  max_seq-at (x ∷ os) o e h = elim (Bool-cases (p x)) [
    | inr miss ↦ rw miss (let rest = max_seq-at os o (ground arith) h.1 in ground arith)
    | inl hit ↦ rw (hit, sets x, keeps x, h.0 hit, text_eq_refl id) (omega arith)
  ]

abbrev Reached : World → Type 0
Reached w = IsReached w.stored.collections w.stored.objects

Aborted-Reached : (w w' : World) → Aborted w w' → Reached w → Reached w'
Aborted-Reached w w' a h = subst₂ IsReached a.same_data.collections a.same_data.objects h

-- Changing the one row of an object, to the next version of its collection.
touched-IsReached :
    (user_id collection_id object_id : Text) (cs : List CollectionRow) (counter : CollectionRow)
    (os : List ObjectRow) (before row : ObjectRow) (f : ObjectRow → ObjectRow)
    → HasKey (λ (o : ObjectRow). o.id) os
    → select_row (λ r. text_eq r.id collection_id) cs ≡ some counter
    → select_row (owned_object user_id collection_id object_id) os ≡ some before
    → select_row (λ r. text_eq r.id object_id) os ≡ some row
    → ((o : ObjectRow) → (f o).collection_id ≡ o.collection_id)
    → ((o : ObjectRow) → (f o).change_seq ≡ counter.current_version + 1)
    → IsReached cs os
    → IsReached (bumped collection_id cs) (update_where (λ r. text_eq r.id object_id) f os)
touched-IsReached user_id collection_id object_id cs counter os before row f keys counted current
      by_id keeps sets h =
    let (same, _, here, _) =
      owned-by_id user_id collection_id os before row object_id keys current by_id in
    let only : All
        (λ (o : ObjectRow). text_eq o.id object_id ≡ true → o.collection_id ≡ collection_id) os =
      All-mono (λ (o : ObjectRow). o.id ≡ object_id → o ≡ row)
        (λ (o : ObjectRow). text_eq o.id object_id ≡ true → o.collection_id ≡ collection_id) os
        (λ o q e. ap (λ r. r.collection_id) (q (text_eq→≡ o.id object_id e) ∙ sym same) ∙ here)
        (HasKey-select_row (λ (o : ObjectRow). o.id) object_id os row keys by_id) in
    bumped-IsReached collection_id cs counter os _ counted
      (λ top.
        let below =
          max_seq-below collection_id (λ r. text_eq r.id object_id) f (counter.current_version + 1)
            keeps sets os (omega (arith, top)) only in
        let at =
          max_seq-at collection_id (λ r. text_eq r.id object_id) f (counter.current_version + 1)
            keeps sets os row by_id only in
        omega (arith, below, at))
      (λ k apart.
        max_seq-other collection_id (λ r. text_eq r.id object_id) f (counter.current_version + 1)
          keeps sets k os apart only)
      h

inserted-IsReached :
    (id : Text) (cs : List CollectionRow) (counter : CollectionRow) (os : List ObjectRow)
    (o : ObjectRow)
    → select_row (λ r. text_eq r.id id) cs ≡ some counter
    → o.collection_id ≡ id
    → o.change_seq ≡ counter.current_version + 1
    → IsReached cs os
    → IsReached (bumped id cs) (o ∷ os)
unfolding max_seq
inserted-IsReached id cs counter os o counted here seq h =
    bumped-IsReached id cs counter os (o ∷ os) counted
      (λ top. rw (seq, here, text_eq_refl id) (omega (arith, top)))
      (λ k apart. max_seq-cons k o os (subst (λ x. text_eq k x ≡ false) (sym here) apart)) h

module _ (user_id collection_id mutation_id : Text) (prepared : Bool) (w : World) where
  -- Creating an object keeps every collection's version at the highest change_seq of its objects.
  pub create_reserved-IsReached :
      (blob_key : Text)
      → Reached w
      → Reached (create_reserved user_id collection_id mutation_id blob_key prepared w).1
  create_reserved-IsReached blob_key h =
      elim (create_reserved-effect user_id collection_id mutation_id blob_key prepared w) [
        | inl (_, a) ↦ Aborted-Reached w _ a h
        | inr (o, _, c) ↦ subst₂ IsReached (sym c.collections) (sym c.objects) (
            inserted-IsReached collection_id w.stored.collections c.counter w.stored.objects _
              c.counted refl refl h)
      ]

  -- So does updating one.
  pub update_prepared-IsReached :
      (object_id blob_key : Text) (version : ℕ)
      → HasKey (λ (o : ObjectRow). o.id) w.stored.objects
      → Reached w
      → Reached
          (update_prepared user_id collection_id object_id mutation_id blob_key version prepared
            w).1
  update_prepared-IsReached object_id blob_key version keys h =
      elim (update_prepared-effect user_id collection_id object_id mutation_id blob_key version
        prepared w) [
          | inl (_, a) ↦ Aborted-Reached w _ a h
          | inr (o, _, c) ↦ subst₂ IsReached (sym c.collections) (sym c.objects) (
              touched-IsReached user_id collection_id object_id w.stored.collections c.counter
                w.stored.objects c.before c.row _ keys c.counted c.current c.by_id (λ o. refl)
                (λ o. refl) h)
        ]

  -- So does deleting one.
  pub delete_prepared-IsReached :
      (object_id : Text) (expected : Option ℕ)
      → HasKey (λ (o : ObjectRow). o.id) w.stored.objects
      → Reached w
      → Reached (delete_prepared user_id collection_id object_id mutation_id expected prepared w).1
  delete_prepared-IsReached object_id expected keys h =
      elim (delete_prepared-effect user_id collection_id object_id mutation_id expected prepared
        w) [
          | inl (_, a) ↦ Aborted-Reached w _ a h
          | inr (o, _, c) ↦ subst₂ IsReached (sym c.collections) (sym c.objects) (
              touched-IsReached user_id collection_id object_id w.stored.collections c.counter
                w.stored.objects c.before c.row _ keys c.counted c.current c.by_id (λ o. refl)
                (λ o. refl) h)
        ]
