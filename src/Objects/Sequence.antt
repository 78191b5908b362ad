-- ===== src/Objects/Sequence.antt =====
-- The change sequence of a collection (internal/objects/objects.go): each change of an object takes
-- the next version of its collection, so no two objects of a collection share a change_seq.
use futo_notes_server.Objects.Outcome.{bumped}
use futo_notes_server.Store.Sql.{
  select_row, All-select_row, update_where, All-update_where, select_row-test,
}
use futo_notes_server.Store.Keys.{
  HasKey, Pairwise, HasKey-update_where, select_row-none, HasKey-select_row, Pairwise-update_where,
  updated, Pairwise-and,
}
use futo_notes_server.Store.Rows.{ObjectRow, CollectionRow}
use futo_notes_server.Prelude.{
  ◌≡◌, refl, ◌+◌, ◌≤◌, ◌∷◌, ◌≢◌, Text, List, All, text_eq, some, none, text_eq→≡, All-mono, ◌∙◌,
  ◌∙◌, arith, sym, text_eq_iff, ap, All-and, true, ◌<◌, ◌<◌, Bool-cases, inl, inr,
}

abbrev pub Bounded : List CollectionRow → ObjectRow → Type 0
Bounded cs o = All (λ c. c.id ≡ o.collection_id → o.change_seq ≤ c.current_version) cs

abbrev pub DistinctSeq : ObjectRow → ObjectRow → Type 0
DistinctSeq a b = a.collection_id ≡ b.collection_id → a.change_seq ≢ b.change_seq

pub record IsSequenced (cs : List CollectionRow) (os : List ObjectRow) : Type 0 where
  pub collection_keys : HasKey (λ (c : CollectionRow). c.id) cs
  pub object_keys : HasKey (λ (o : ObjectRow). o.id) os
  pub bounded : All (Bounded cs) os
  pub distinct : Pairwise DistinctSeq os

module _ (collection_id : Text) (cs : List CollectionRow) (counter : CollectionRow)
    (counted : select_row (λ r. text_eq r.id collection_id) cs ≡ some counter) where
  -- Bumping a counter keeps every bound.
  bumped-Bounded : (o : ObjectRow) → Bounded cs o → Bounded (bumped collection_id cs) o
  bumped-Bounded o h =
      All-update_where _ (λ c. c.id ≡ o.collection_id → o.change_seq ≤ c.current_version) _ _ cs
        (λ r p _ e. omega (arith, p e)) (λ r p _. p) h

  -- What takes the next version is within the bumped bound.
  next-Bounded :
      (o : ObjectRow)
      → HasKey (λ (c : CollectionRow). c.id) cs
      → o.collection_id ≡ collection_id
      → o.change_seq ≡ counter.current_version + 1
      → Bounded (bumped collection_id cs) o
  next-Bounded o keys here next =
      All-update_where (λ (c : CollectionRow). c.id ≡ collection_id → c ≡ counter) _ _ _ cs
        (λ r only hit e. ground (arith, only (text_eq→≡ r.id collection_id hit)))
        (λ r only miss e. absurd (ground (arith, text_eq_iff r.id collection_id)))
        (HasKey-select_row (λ (c : CollectionRow). c.id) collection_id cs counter keys counted)

  -- What was there is below the next version.
  old-le :
      (o : ObjectRow)
      → Bounded cs o
      → o.collection_id ≡ collection_id
      → o.change_seq ≤ counter.current_version
  old-le o h e =
      All-select_row _ (λ r. text_eq r.id collection_id) cs counter counted h
        (text_eq→≡ counter.id collection_id
            (select_row-test (λ (r : CollectionRow). text_eq r.id collection_id) cs counter counted)
          ∙ sym e)

  bumped-HasKey :
      HasKey (λ (c : CollectionRow). c.id) cs
      → HasKey (λ (c : CollectionRow). c.id) (bumped collection_id cs)
  bumped-HasKey h = HasKey-update_where (λ (c : CollectionRow). c.id) _ _ cs (λ r. refl) h

  -- A new object at the next version.
  pub inserted-IsSequenced :
      (os : List ObjectRow) (o : ObjectRow)
      → IsSequenced cs os
      → o.collection_id ≡ collection_id
      → o.change_seq ≡ counter.current_version + 1
      → select_row (λ r. text_eq r.id o.id) os ≡ none
      → IsSequenced (bumped collection_id cs) (o ∷ os)
  inserted-IsSequenced os o s here next unused = record {
    collection_keys = bumped-HasKey s.collection_keys;
    object_keys = (
      All-mono _ _ os (λ r h e. h (sym e))
          (select_row-none (λ (r : ObjectRow). r.id) o.id os unused),
      s.object_keys,
    );
    bounded =
        (next-Bounded o s.collection_keys here next, All-mono _ _ os bumped-Bounded s.bounded);
    distinct = (
      All-mono _ _ os (λ r h e e'. omega (arith, old-le r h (sym e ∙ here))) s.bounded,
      s.distinct,
    );
  }

  -- The object of one key moves to the next version.
  pub touched-IsSequenced :
      (os : List ObjectRow) (before : ObjectRow) (f : ObjectRow → ObjectRow)
      → IsSequenced cs os
      → select_row (λ r. text_eq r.id before.id) os ≡ some before
      → before.collection_id ≡ collection_id
      → ((r : ObjectRow) → (f r).id ≡ r.id)
      → ((r : ObjectRow) → (f r).collection_id ≡ r.collection_id)
      → ((r : ObjectRow) → (f r).change_seq ≡ counter.current_version + 1)
      → IsSequenced (bumped collection_id cs) (update_where (λ r. text_eq r.id before.id) f os)
  touched-IsSequenced os before f s there here same_id same_collection next = record {
    collection_keys = bumped-HasKey s.collection_keys;
    object_keys = HasKey-update_where (λ (o : ObjectRow). o.id) _ f os same_id s.object_keys;
    bounded =
        All-update_where G _ _ f os
          (λ r g hit.
            next-Bounded (f r) s.collection_keys
              (same_collection r
                ∙ ap (λ (o : ObjectRow). o.collection_id) (g.1 (text_eq→≡ r.id before.id hit))
                ∙ here)
              (next r))
          (λ r g miss. bumped-Bounded r g.0) gs;
    distinct =
        Pairwise-update_where G S DistinctSeq _ f apart os gs
          (Pairwise-and DistinctSeq (λ a b. a.id ≢ b.id) os s.distinct s.object_keys);
  }
    where
      G : ObjectRow → Type 0
      G o = Bounded cs o × (o.id ≡ before.id → o ≡ before)

      S : ObjectRow → ObjectRow → Type 0
      S a b = DistinctSeq a b × (a.id ≢ b.id)

      gs : All G os
      gs =
          All-and (Bounded cs) (λ o. o.id ≡ before.id → o ≡ before) os s.bounded
            (HasKey-select_row (λ (o : ObjectRow). o.id) before.id os before s.object_keys there)

      -- The touched object is past every other one of its collection.
      past :
          (a b : ObjectRow)
          → G a
          → G b
          → text_eq a.id before.id ≡ true
          → a.collection_id ≡ b.collection_id
          → b.change_seq < counter.current_version + 1
      past a b g h hit e = omega (
        arith,
        old-le b h.0 (
            sym e
            ∙ (ap (λ (o : ObjectRow). o.collection_id) (g.1 (text_eq→≡ a.id before.id hit))
                ∙ here)),
      )

      apart :
          (a b : ObjectRow)
          → G a
          → G b
          → S a b
          → DistinctSeq
              (updated (λ r. text_eq r.id before.id) f a)
              (updated (λ r. text_eq r.id before.id) f b)
      apart a b g h d = elim (Bool-cases (text_eq a.id before.id)) [
        | inl hit ↦ elim (Bool-cases (text_eq b.id before.id)) [
          | inl hit' ↦
              absurd (d.1 (text_eq→≡ a.id before.id hit ∙ sym (text_eq→≡ b.id before.id hit')))
          | inr miss' ↦
              rw (hit, miss')
                (λ e e'. omega (arith, past a b g h hit (sym (same_collection a) ∙ e), next a))
        ]
        | inr miss ↦ elim (Bool-cases (text_eq b.id before.id)) [
          | inl hit' ↦
              rw (miss, hit')
                (λ e e'. omega (arith, past b a h g hit' (sym (same_collection b) ∙ sym e), next b))
          | inr miss' ↦ rw (miss, miss') d.0
        ]
      ]
