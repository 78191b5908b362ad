-- ===== src/System/Held.antt =====
-- What the blob ledger owes to the objects, and how it fares when a table changes.
use futo_notes_server.Objects.Steps.{is_row}
use futo_notes_server.Store.Keys.{HasKey}
use futo_notes_server.Blobs.{ledger_has_key}
use futo_notes_server.Store.Sql.{
  select_row, delete_where, update_where, All-update_where, All-delete_where,
}
use futo_notes_server.Store.Rows.{
  ObjectRow, LedgerState, LedgerRow, is_staged, legacy_shared, is_claimed,
}
use futo_notes_server.Prelude.{
  ◌≡◌, refl, [], ◌∷◌, true, false, some, List, Bool, Text, All, Bool-cases, arith, ◌∙◌, ap, sym,
  text_eq→≡, ◌⊎◌, ◌≢◌, ◌||◌, inl, inr, All-and,
}

pub some-injective : {A : Type 0} {a b : A} → some a ≡ some b → a ≡ b
some-injective e = cc

abbrev pub is_legacy_shared : LedgerState → Bool
is_legacy_shared legacy_shared = true
is_legacy_shared _ = false

-- What the ledger says of an object's blob: it is not up for another claim, a claim on it is the
-- object's own, and while the object lives it is claimed, or shared from before the ledger.
pub record Holds (o : ObjectRow) (l : LedgerRow) : Type 0 where
  pub not_staged : is_staged l.state ≡ false
  pub own_object : is_claimed l.state ≡ true → l.object_id ≡ some o.id
  pub own_collection : is_claimed l.state ≡ true → l.collection_id ≡ some o.collection_id
  pub kept : o.deleted ≡ false → (is_claimed l.state || is_legacy_shared l.state) ≡ true

abbrev pub Held : ObjectRow → LedgerRow → Type 0
Held o l = o.blob_key ≡ some l.blob_key → Holds o l

-- The blob of a live object has a row.
abbrev pub Backed : List LedgerRow → ObjectRow → Type 0
Backed ls o =
    (k : Text)
    → o.deleted ≡ false
    → o.blob_key ≡ some k
    → is_row (select_row (ledger_has_key k) ls) ≡ true

-- What the ledger owes to one object.
abbrev pub Shelf : List LedgerRow → ObjectRow → Type 0
Shelf ls o = All (Held o) ls × Backed ls o

pub record IsShelved (os : List ObjectRow) (ls : List LedgerRow) : Type 0 where
  pub keys : HasKey (λ (o : ObjectRow). o.id) os
  pub shelves : All (Shelf ls) os

-- A row that passes a test is found by a weaker one.
pub select_row-weaken :
    {R : Type 0} (p q : R → Bool) (rs : List R) (r : R)
    → ((x : R) → p x ≡ true → q x ≡ true)
    → select_row p rs ≡ some r
    → is_row (select_row q rs) ≡ true
unfolding select_row
select_row-weaken p q [] r imp e = absurd (cc)
select_row-weaken p q (x ∷ rs) r imp e = elim (Bool-cases (q x)) [
  | inl hit ↦ rw hit refl
  | inr miss ↦ rw miss (select_row-weaken p q rs r imp (ground (arith, imp x)))
]

-- An update that keeps the test's outcome keeps whether there is a row.
pub is_row-update_where :
    {R : Type 0} (p q : R → Bool) (f : R → R) (rs : List R)
    → ((x : R) → q (f x) ≡ q x)
    → is_row (select_row q (update_where p f rs)) ≡ is_row (select_row q rs)
unfolding select_row update_where
is_row-update_where p q f [] same = refl
is_row-update_where p q f (x ∷ rs) same = ground (arith, same x, is_row-update_where p q f rs same)

-- A deletion that spares a test's rows keeps whether there is one.
pub is_row-delete_where :
    {R : Type 0} (p q : R → Bool) (rs : List R)
    → ((x : R) → q x ≡ true → p x ≡ false)
    → is_row (select_row q (delete_where p rs)) ≡ is_row (select_row q rs)
unfolding select_row delete_where
is_row-delete_where p q [] spares = refl
is_row-delete_where p q (x ∷ rs) spares = elim (Bool-cases (p x)) [
  | inl gone ↦
      let other : q x ≡ false = ground (arith, spares x) in
      rw (gone, other) (is_row-delete_where p q rs spares)
  | inr stays ↦ rw stays (ground (arith, is_row-delete_where p q rs spares))
]

module _ (o : ObjectRow) (ls : List LedgerRow) where
  -- An update of the ledger that keeps the keys, and what each row says of the object.
  pub update_where-Shelf :
      (p : LedgerRow → Bool) (f : LedgerRow → LedgerRow) (P : LedgerRow → Type 0)
      → ((l : LedgerRow) → (f l).blob_key ≡ l.blob_key)
      → ((l : LedgerRow) → P l → Held o l → p l ≡ true → Held o (f l))
      → All P ls
      → Shelf ls o
      → Shelf (update_where p f ls) o
  update_where-Shelf p f P same_key keep all s = (
    All-update_where (λ l. P l × Held o l) (Held o) p f ls (λ l h e. keep l h.0 h.1 e)
        (λ l h e. h.1) (All-and P (Held o) ls all s.0),
    λ k live e.
        is_row-update_where p (ledger_has_key k) f ls (λ l. rw (same_key l) refl) ∙ s.1 k live e,
  )

  -- Deleting the rows of a key that is not a live object's.
  pub delete_where-Shelf :
      (key : Text)
      → (o.deleted ≡ false → o.blob_key ≢ some key)
      → Shelf ls o
      → Shelf (delete_where (ledger_has_key key) ls) o
  delete_where-Shelf key other s = (
    All-delete_where (Held o) (ledger_has_key key) ls s.0,
    λ k live e.
        is_row-delete_where (ledger_has_key key) (ledger_has_key k) ls
          (λ l h. apart k live e l h (Bool-cases (ledger_has_key key l)))
        ∙ s.1 k live e,
  )
    where
      apart :
          (k : Text)
          → o.deleted ≡ false
          → o.blob_key ≡ some k
          → (l : LedgerRow) → ledger_has_key k l ≡ true
          → (ledger_has_key key l ≡ true) ⊎ (ledger_has_key key l ≡ false)
          → ledger_has_key key l ≡ false
      apart k live e l h (inr miss) = miss
      apart k live e l h (inl hit) =
          absurd (
            other live
              (e ∙ ap some (sym (text_eq→≡ l.blob_key k h) ∙ text_eq→≡ l.blob_key key hit)))
