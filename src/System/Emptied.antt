-- ===== src/System/Emptied.antt =====
-- What deleting a collection leaves the objects of the others.
use futo_notes_server.Objects.Steps.{nullable_text_eq}
use futo_notes_server.Store.Keys.{HasKey, Pairwise-delete_where}
use futo_notes_server.Collections.Vault.{
  delete_collection, in_collection, is_kept_by, points_into, mark_purgeable, forget_object,
}
use futo_notes_server.Store.Monad.{World, Db}
use futo_notes_server.Store.Rows.{ObjectRow, LedgerRow, is_claimed}
use futo_notes_server.Store.Sql.{select_row, update_where, delete_where, All-delete_where}
use futo_notes_server.Prelude.{
  ◌≡◌, refl, [], ◌∷◌, true, false, none, some, Text, ℕ, Bool, List, text_eq, All, ◌&&◌, ◌≢◌, ◌≢◌,
  ◌&&◌, subst₂, Bool-cases, arith, sym, All-mono, inl, ◌||◌, All-of, ◌||◌, All-and, text_eq→≡, inr,
  subst,
}
use futo_notes_server.System.Held.{Held, Shelf, IsShelved, is_legacy_shared, update_where-Shelf}
use futo_notes_server.Collections.Vault.Deletion.{
  Gone, delete_collection-Deleted, delete_where-gone,
}

abbrev has_id : Text → ObjectRow → Bool
has_id k r = text_eq r.id k

select_row-apart :
    (p : ObjectRow → Bool) (k : Text) (os : List ObjectRow)
    → All (λ (r : ObjectRow). k ≢ r.id) os
    → select_row (λ r. text_eq r.id k && p r) os ≡ none
unfolding select_row
select_row-apart p k [] h = refl
select_row-apart p k (r ∷ rs) h = elim (Bool-cases (text_eq r.id k)) [
  | inl hit ↦ absurd (h.0 (sym (text_eq→≡ r.id k hit)))
  | inr miss ↦ rw miss (select_row-apart p k rs h.1)
]

-- Only an object itself has its identifier.
only_own :
    (p : ObjectRow → Bool) (os : List ObjectRow)
    → HasKey (λ (o : ObjectRow). o.id) os
    → All (λ o. p o ≡ false → select_row (λ r. text_eq r.id o.id && p r) os ≡ none) os
unfolding select_row
only_own p [] h = tt
only_own p (r ∷ rs) h = (
  (λ e. ground (arith, select_row-apart p r.id rs h.0)),
  All-mono
      (λ o. (r.id ≢ o.id) × (p o ≡ false → select_row (λ x. text_eq x.id o.id && p x) rs ≡ none))
      (λ o. p o ≡ false → select_row (λ x. text_eq x.id o.id && p x) (r ∷ rs) ≡ none) rs
      (λ o q e. elim (Bool-cases (text_eq r.id o.id)) [
        | inl hit ↦ absurd (q.0 (text_eq→≡ r.id o.id hit))
        | inr miss ↦ rw miss (q.1 e)
      ])
      (All-and _ _ rs h.0 (only_own p rs h.1)),
)

module _ (id : Text) (now : ℕ) (os : List ObjectRow) (o : ObjectRow)
    (out : in_collection id o ≡ false) where
  -- The collection keeps no blob of the others' live objects.
  not_theirs :
      (l : LedgerRow)
      → (is_claimed l.state || is_legacy_shared l.state) ≡ true
      → (is_claimed l.state ≡ true → l.collection_id ≡ some o.collection_id)
      → is_kept_by id l ≡ false
  unfolding nullable_text_eq
  not_theirs l kept own = elim (Bool-cases (is_claimed l.state)) [
    | inl claim ↦ rw (own claim, out) refl
    | inr free ↦ ground arith
  ]

  mark_purgeable-Held :
      (l : LedgerRow) → Unit {0} → Held o l → is_kept_by id l ≡ true → Held o (mark_purgeable now l)
  mark_purgeable-Held l u h e q =
      let holds = h q in
      record {
        not_staged = refl;
        own_object = λ c. absurd (cc);
        own_collection = λ c. absurd (cc);
        kept = λ live. let no = not_theirs l (holds.kept live) holds.own_collection in absurd (cc);
      }

  not_into :
      (l : LedgerRow)
      → select_row (λ r. text_eq r.id o.id && in_collection id r) os ≡ none
      → l.object_id ≡ some o.id
      → points_into id os l ≡ false
  unfolding points_into
  not_into l alone same = rw (same, alone) refl

  forget_object-Held :
      (l : LedgerRow)
      → select_row (λ r. text_eq r.id o.id && in_collection id r) os ≡ none
      → Held o l
      → points_into id os l ≡ true
      → Held o (forget_object l)
  forget_object-Held l alone h e q =
      let holds = h q in
      record {
        not_staged = holds.not_staged;
        own_object = λ c. let no = not_into l alone (holds.own_object c) in absurd (cc);
        own_collection = holds.own_collection;
        kept = holds.kept;
      }

  -- An object outside the collection keeps its blob.
  emptied-Shelf :
      (ls : List LedgerRow)
      → select_row (λ r. text_eq r.id o.id && in_collection id r) os ≡ none
      → Shelf ls o
      → Shelf
          (update_where
            (points_into id os)
            forget_object
            (update_where (is_kept_by id) (mark_purgeable now) ls))
          o
  emptied-Shelf ls alone s =
      let any = λ (rs : List LedgerRow). All-of (λ (l : LedgerRow). Unit {0}) (λ l. tt) rs in
      update_where-Shelf o _ (points_into id os) forget_object (λ l. Unit {0}) (λ l. refl)
        (λ l u h e. forget_object-Held l alone h e) (any _)
        (update_where-Shelf o ls (is_kept_by id) (mark_purgeable now) (λ l. Unit {0}) (λ l. refl)
          mark_purgeable-Held (any ls) s)

spared :
    (id : Text) (now : ℕ) (os : List ObjectRow) (ls : List LedgerRow)
    → IsShelved os ls
    → All
        (Shelf (
          update_where
            (points_into id os)
            forget_object
            (update_where (is_kept_by id) (mark_purgeable now) ls)))
        (delete_where (in_collection id) os)
spared id now os ls s =
    All-mono
      (λ o.
        (in_collection id o ≡ false)
        × (Shelf ls o
            × (in_collection id o ≡ false
                → select_row (λ r. text_eq r.id o.id && in_collection id r) os ≡ none)))
      _ (delete_where (in_collection id) os)
      (λ o h. emptied-Shelf id now os o h.0 ls (h.1.1 h.0) h.1.0)
      (All-and (λ o. in_collection id o ≡ false) _ (delete_where (in_collection id) os)
        (delete_where-gone (in_collection id) os)
        (All-delete_where _ (in_collection id) os
          (All-and (Shelf ls) _ os s.shelves (only_own (in_collection id) os s.keys))))

-- Deleting a collection keeps what the ledger owes to the objects of the others.
pub delete_collection-IsShelved :
    (user_id id : Text) (w : World)
    → IsShelved w.stored.objects w.stored.ledger
    → let w' = (delete_collection user_id id w).1 in IsShelved w'.stored.objects w'.stored.ledger
delete_collection-IsShelved user_id id w s = elim (delete_collection-Deleted user_id id w) [
  | inl (same, _) ↦ subst (λ d. IsShelved d.objects d.ledger) (sym same) s
  | inr (c, _, _, gone) ↦ emptied gone
]
  where
    emptied : {d : Db} → Gone user_id id w.stored d → IsShelved d.objects d.ledger
    emptied {d} g = subst₂ IsShelved (sym g.other_objects) (sym g.ledger) (record {
      keys = Pairwise-delete_where _ (in_collection id) w.stored.objects s.keys;
      shelves = spared id g.marked_at w.stored.objects w.stored.ledger s;
    })
