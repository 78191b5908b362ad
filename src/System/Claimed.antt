-- ===== src/System/Claimed.antt =====
-- How the statements on the ledger fare with what it owes to the objects.
use futo_notes_server.Store.Monad.{Db}
use futo_notes_server.Blobs.{ledger_has_key}
use futo_notes_server.Objects.Steps.{staged_for, is_row, retain_blob}
use futo_notes_server.Store.Sql.{
  update_where, select_row, All-update_where, select_row-test, All-select_row,
}
use futo_notes_server.Store.Rows.{LedgerRow, ObjectRow, claimed, is_staged, retained, is_claimed}
use futo_notes_server.Prelude.{
  ◌≡◌, refl, true, none, some, Text, ℕ, List, ◌≢◌, ◌≢◌, text_eq, All, ◌∙◌, ◌∙◌, text_eq→≡, ap,
  &&-left, All-of, sym, arith, text_eq_iff, subst, Option, ◌&&◌, ◌&&◌, &&-right,
}
use futo_notes_server.System.Held.{
  some-injective, Held, Shelf, Holds, update_where-Shelf, select_row-weaken, is_row-update_where,
}

staged_for-inv :
    (user_id blob_key : Text) (now : ℕ) (l : LedgerRow)
    → staged_for user_id blob_key now l ≡ true
    → (text_eq l.blob_key blob_key ≡ true) × (is_staged l.state ≡ true)
staged_for-inv user_id blob_key now l h = ground arith

module _ (user_id blob_key : Text) (now : ℕ) (ls : List LedgerRow) (blob : LedgerRow)
    (staged : select_row (staged_for user_id blob_key now) ls ≡ some blob) where
  -- The key of a staged blob is no object's.
  pub staged-unheld : (o : ObjectRow) → All (Held o) ls → o.blob_key ≢ some blob_key
  staged-unheld o h e =
      let (key, state) =
        staged_for-inv user_id blob_key now blob
          (select_row-test (staged_for user_id blob_key now) ls blob staged) in
      let holds : Holds o blob =
        All-select_row (Held o) (staged_for user_id blob_key now) ls blob staged h
          (e ∙ ap some (sym (text_eq→≡ blob.blob_key blob_key key))) in
      let no = sym state ∙ holds.not_staged in absurd (cc)

  pub staged-is_row : is_row (select_row (ledger_has_key blob_key) ls) ≡ true
  staged-is_row =
      select_row-weaken (staged_for user_id blob_key now) (ledger_has_key blob_key) ls blob
        (λ l h. (staged_for-inv user_id blob_key now l h).0) staged

module _ (blob_key collection_id object_id : Text) (version now : ℕ) where
  abbrev pub claimed_row : LedgerRow → LedgerRow
  claimed_row r = record r {
    state = claimed;
    collection_id = some collection_id;
    object_id = some object_id;
    object_version = some version;
    state_changed_at = now;
  }

  abbrev pub claim_rows : List LedgerRow → List LedgerRow
  claim_rows ls = update_where (λ r. text_eq r.blob_key blob_key) claimed_row ls

  -- A claim does nothing to an object with another blob.
  pub claim_rows-other :
      (ls : List LedgerRow) (o : ObjectRow)
      → o.blob_key ≢ some blob_key
      → Shelf ls o
      → Shelf (claim_rows ls) o
  claim_rows-other ls o other s =
      update_where-Shelf o ls (λ r. text_eq r.blob_key blob_key) claimed_row (λ l. Unit {0})
        (λ l. refl) (λ l u h e. λ k. absurd (other (k ∙ ap some (text_eq→≡ l.blob_key blob_key e))))
        (All-of (λ l. Unit {0}) (λ l. tt) ls) s

  -- The object that a claim names holds its blob.
  pub claim_rows-own :
      (ls : List LedgerRow) (o : ObjectRow)
      → o.blob_key ≡ some blob_key
      → o.id ≡ object_id
      → o.collection_id ≡ collection_id
      → is_row (select_row (ledger_has_key blob_key) ls) ≡ true
      → Shelf (claim_rows ls) o
  claim_rows-own ls o mine same_id same_collection there = (
    All-update_where (λ l. Unit {0}) (Held o) (λ r. text_eq r.blob_key blob_key) claimed_row ls
        (λ l u e. λ k. record {
          not_staged = refl;
          own_object = λ c. ap some (sym same_id);
          own_collection = λ c. ap some (sym same_collection);
          kept = λ live. refl;
        })
        (λ l u e. λ k.
          absurd (ground (arith, some-injective (sym mine ∙ k), text_eq_iff l.blob_key blob_key)))
        (All-of (λ l. Unit {0}) (λ l. tt) ls),
    λ k live e.
        is_row-update_where (λ r. text_eq r.blob_key blob_key) (ledger_has_key k) claimed_row ls
          (λ l. refl)
        ∙ subst (λ x. is_row (select_row (ledger_has_key x) ls) ≡ true)
            (some-injective (sym mine ∙ e)) there,
  )

abbrev retained_row : ℕ → LedgerRow → LedgerRow
retained_row now r = record r {
  state = retained;
  object_id = none;
  object_version = none;
  state_changed_at = now;
}

-- Giving up one object's claim does nothing to another object.
pub retain_blob-other :
    (key : Option Text) (now : ℕ) (d : Db) (before o : ObjectRow)
    → before.blob_key ≡ key
    → o.id ≢ before.id
    → All (Held before) d.ledger
    → Shelf d.ledger o
    → Shelf (retain_blob key now d).ledger o
unfolding retain_blob
retain_blob-other none now d before o e apart h s = s
retain_blob-other (some key) now d before o e apart h s =
    update_where-Shelf o d.ledger (λ r. text_eq r.blob_key key && is_claimed r.state)
      (retained_row now) (Held before) (λ l. refl)
      (λ l k mine t. λ q.
        let claim : is_claimed l.state ≡ true = &&-right _ _ t in
        let same : key ≡ l.blob_key = sym (text_eq→≡ l.blob_key key (&&-left _ _ t)) in
        absurd (
          apart (
            some-injective
              (sym ((mine q).own_object claim) ∙ (k (e ∙ ap some same)).own_object claim))))
      h s

-- Nor to an object that is gone, its own tombstone included.
pub retain_blob-deleted :
    (key : Option Text) (now : ℕ) (d : Db) (o : ObjectRow)
    → o.deleted ≡ true
    → Shelf d.ledger o
    → Shelf (retain_blob key now d).ledger o
unfolding retain_blob
retain_blob-deleted none now d o gone s = s
retain_blob-deleted (some key) now d o gone s =
    update_where-Shelf o d.ledger (λ r. text_eq r.blob_key key && is_claimed r.state)
      (retained_row now) (λ l. Unit {0}) (λ l. refl)
      (λ l u mine t. λ q. record {
        not_staged = refl;
        own_object = λ c. absurd (cc);
        own_collection = λ c. absurd (cc);
        kept = λ live. absurd (cc);
      })
      (All-of (λ l. Unit {0}) (λ l. tt) d.ledger) s

pub retain_blob-is_row :
    (key : Option Text) (now : ℕ) (d : Db) (k : Text)
    → is_row (select_row (ledger_has_key k) d.ledger) ≡ true
    → is_row (select_row (ledger_has_key k) (retain_blob key now d).ledger) ≡ true
unfolding retain_blob
retain_blob-is_row none now d k h = h
retain_blob-is_row (some key) now d k h =
    is_row-update_where (λ r. text_eq r.blob_key key && is_claimed r.state) (ledger_has_key k)
      (retained_row now) d.ledger (λ l. refl)
    ∙ h
