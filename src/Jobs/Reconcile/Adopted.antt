-- ===== src/Jobs/Reconcile/Adopted.antt =====
-- What the reconciliation adopts.
use futo_notes_server.Auth.Session.{user_has_id}
use futo_notes_server.Objects.Steps.{is_row}
use futo_notes_server.Store.Rules.{
  begin_tx-bind, commit-bind, time_now-bind, tx_query-bind, tx_exec-bind,
}
use futo_notes_server.Jobs.Reconcile.{
  reconcile_storage, Reconciliation, count_adoption, Walked, WalkEntry, insert_unknown, adopt_owned,
  reconcile_entries, reconcile_file, adopt_file, regular_file, none_adopted, Adoption, adopted_file,
  file_owner, skip_file, reconciliation_limit, missing_entry, broken_entry, passed_over, no_owner,
  known_file,
}
use futo_notes_server.Store.Keys.{HasKey, select_row-none}
use futo_notes_server.Jobs.Garbage.Tally.{ledger_key}
use futo_notes_server.Store.Sql.{select_row}
use futo_notes_server.Store.Rows.{LedgerRow, is_staged}
use futo_notes_server.Prelude.{
  ◌≡◌, refl, [], ◌∷◌, true, false, none, some, ℕ, List, arith, ◌++◌, ◌++◌, ◌+◌, ◌+◌, length,
  All-mono, All, ◌≢◌, ◌≢◌, sym, subst, ap, Text, Bool, ◌<◌, ◌<◌, Option, ◌⊎◌, ◌⊎◌, inl,
  Option-cases, inr, ◌==◌, Bool-cases,
}
use futo_notes_server.Store.Monad.{ok, err, Db, World, Result}
use futo_notes_server.Blobs.{staged_row, ledger_has_key}

abbrev IsStagedRow : LedgerRow → Type 0
IsStagedRow l = is_staged l.state ≡ true

-- Staged rows with new keys have come to the ledger, as many as are counted, and no other table has
-- changed.
pub record Adopts (before after : ℕ) (d d' : Db) : Type 0 where
  pub new_rows : List LedgerRow
  pub grown : d' ≡ record d { ledger = new_rows ++ d.ledger }
  pub counted : after ≡ before + length new_rows
  pub staged : All IsStagedRow new_rows
  pub keys : HasKey ledger_key d.ledger → HasKey ledger_key (new_rows ++ d.ledger)

Adopts-refl : (n : ℕ) (d : Db) → Adopts n n d d
Adopts-refl n d = record {
  new_rows = [];
  grown = refl;
  counted = omega arith;
  staged = tt;
  keys = λ h. h;
}

Adopts-cons :
    (n m : ℕ) (d d' : Db) (l : LedgerRow)
    → select_row (ledger_has_key l.blob_key) d'.ledger ≡ none
    → IsStagedRow l
    → Adopts n m d d'
    → Adopts n (m + 1) d (record d' { ledger = l ∷ d'.ledger })
Adopts-cons n m d d' l free mine a = record {
  new_rows = l ∷ a.new_rows;
  grown = rw a.grown refl;
  counted = let c = a.counted in omega arith;
  staged = (mine, a.staged);
  keys = λ h. (
    All-mono (λ r. ledger_key r ≢ l.blob_key) (λ r. l.blob_key ≢ ledger_key r)
        (a.new_rows ++ d.ledger) (λ r q e. q (sym e))
        (select_row-none ledger_key l.blob_key (a.new_rows ++ d.ledger) (
          subst (λ x. select_row (ledger_has_key l.blob_key) x ≡ none) (ap (λ x. x.ledger) a.grown)
            free)),
    a.keys h,
  );
}

module _ (key owner : Text) (size : ℕ) (w : World) where
  -- Nothing has changed, or a file without a row has one.
  abbrev AdoptEffect : Result Adoption × World → Type 0
  AdoptEffect (r, v) =
      (r ≢ ok adopted_file) × (v.stored ≡ w.stored)
      ⊎ ((now : ℕ) × (select_row (ledger_has_key key) w.stored.ledger ≡ none)
          × (v.stored
              ≡ record w.stored { ledger = staged_row key owner size now ∷ w.stored.ledger })
          × (r ≡ ok adopted_file))

  insert_unknown-inv :
      (now : ℕ) (d d' : Db) (b : Bool)
      → insert_unknown key owner size now d ≡ some (b, d')
      → (b ≡ false) × (d' ≡ d)
        ⊎ (b ≡ true)
          × (select_row (ledger_has_key key) d.ledger ≡ none)
          × (d' ≡ record d { ledger = staged_row key owner size now ∷ d.ledger })
  unfolding insert_unknown
  insert_unknown-inv now d d' b e = elim (Option-cases (select_row (ledger_has_key key) d.ledger)) [
    | inl free ↦ inr (ground arith, free, ground arith)
    | inr (l, there) ↦ inl (ground arith, ground arith)
  ]

  adopt_owned-effect :
      (n : ℕ) (exists : Bool)
      → AdoptEffect (
          adopt_owned key owner size exists
            (record w { step = n; work = w.stored; doorbells = [] }))
  unfolding adopt_owned
  adopt_owned-effect n false =
      commit-bind AdoptEffect _ _ (λ m. inl ((λ e. absurd (cc)), refl))
        λ n₁. inl ((λ e. absurd (cc)), refl)
  adopt_owned-effect n true = time_now-bind AdoptEffect _ _ λ n₁ now.
      tx_exec-bind AdoptEffect (insert_unknown key owner size now) _ _
        (λ m. inl ((λ e. absurd (cc)), refl))
        λ n₂ b d e.
          commit-bind AdoptEffect _ _ (λ m. inl ((λ e. absurd (cc)), refl))
            λ n₃. elim (insert_unknown-inv now w.stored d b e) [
              | inl (no_row, same) ↦ rw no_row (inl ((λ e. absurd (cc)), same))
              | inr (row, free, grown) ↦ rw row (inr (now, free, grown, refl))
            ]

  adopt_file-effect : AdoptEffect (adopt_file key owner size w)
  unfolding adopt_file
  adopt_file-effect =
      begin_tx-bind AdoptEffect _ w (λ m. inl ((λ e. absurd (cc)), refl))
        λ n₁.
          tx_query-bind AdoptEffect (λ d. is_row (select_row (user_has_id owner) d.users)) _ _
            (λ m. inl ((λ e. absurd (cc)), refl)) λ n₂. adopt_owned-effect n₂ _

module _ (w₀ : World) where
  -- The walk goes on below the cap.
  abbrev Going : Reconciliation → World → Type 0
  Going r w =
      Adopts 0 r.adopted w₀.stored w.stored
      × (r.adopted < reconciliation_limit)
      × (r.cap_hit ≡ false)

  -- It ends below the cap, or at it and says so.
  abbrev pub WithinCap : Walked → Type 0
  WithinCap ((r, e), w) =
      Adopts 0 r.adopted w₀.stored w.stored
      × ((r.adopted < reconciliation_limit) × (r.cap_hit ≡ false)
          ⊎ (r.adopted ≡ reconciliation_limit) × (r.cap_hit ≡ true))

  Going-WithinCap : (r : Reconciliation) (e : Bool) (w : World) → Going r w → WithinCap ((r, e), w)
  Going-WithinCap r e w (a, lt, no_cap) = (a, inl (lt, no_cap))

  Going-same : (r : Reconciliation) (v w : World) → v.stored ≡ w.stored → Going r w → Going r v
  Going-same r v w same g = (subst (Adopts 0 r.adopted w₀.stored) (sym same) g.0, g.1, g.2)

  count_adoption-WithinCap :
      (key owner : Text) (size : ℕ) (rest : Reconciliation → World → Walked) (r : Reconciliation)
      (w v : World) (a : Result Adoption)
      → ((q : Reconciliation) (u : World) → Going q u → WithinCap (rest q u))
      → AdoptEffect key owner size w (a, v)
      → Going r w
      → WithinCap (count_adoption rest r (a, v))
  unfolding count_adoption staged_row
  count_adoption-WithinCap key owner size rest r w v (err e) later (inl (other, same)) g =
      Going-WithinCap r true v (Going-same r v w same g)
  count_adoption-WithinCap key owner size rest r w v (ok no_owner) later (inl (other, same)) g =
      later (skip_file r) v (Going-same r v w same g)
  count_adoption-WithinCap key owner size rest r w v (ok known_file) later (inl (other, same)) g =
      later r v (Going-same r v w same g)
  count_adoption-WithinCap key owner size rest r w v (ok adopted_file) later (inl (other, same)) g =
      absurd (other refl)
  count_adoption-WithinCap key owner size rest r w v a later (inr (now, free, grown, told)) g =
      rw told (step (Bool-cases (r.adopted + 1 == reconciliation_limit)))
    where
      more : Adopts 0 (r.adopted + 1) w₀.stored v.stored
      more =
          subst (Adopts 0 (r.adopted + 1) w₀.stored) (sym grown) (
            Adopts-cons 0 r.adopted w₀.stored w.stored (staged_row key owner size now) free refl
              g.0)

      step :
          (r.adopted + 1 == reconciliation_limit ≡ true)
            ⊎ (r.adopted + 1 == reconciliation_limit ≡ false)
          → WithinCap (count_adoption rest r (ok adopted_file, v))
      step (inl full) = rw full (more, inr (ground arith, refl))
      step (inr room) =
          let lt = g.1 in
          rw room (later (record r { adopted = r.adopted + 1 }) v (more, ground arith, g.2))

  reconcile_file-WithinCap :
      (key : Text) (size : ℕ) (owner : Option Text) (rest : Reconciliation → World → Walked)
      (r : Reconciliation) (w : World)
      → ((q : Reconciliation) (u : World) → Going q u → WithinCap (rest q u))
      → Going r w
      → WithinCap (reconcile_file key size owner rest r w)
  unfolding reconcile_file
  reconcile_file-WithinCap key size none rest r w later g = later (skip_file r) w g
  reconcile_file-WithinCap key size (some owner) rest r w later g =
      count_adoption-WithinCap key owner size rest r w _ _ later
        (adopt_file-effect key owner size w) g

  reconcile_entries-WithinCap :
      (entries : List WalkEntry) (r : Reconciliation) (w : World)
      → Going r w
      → WithinCap (reconcile_entries entries r w)
  unfolding reconcile_entries
  reconcile_entries-WithinCap [] r w g = Going-WithinCap r false w g
  reconcile_entries-WithinCap (missing_entry ∷ entries) r w g = Going-WithinCap r false w g
  reconcile_entries-WithinCap (broken_entry ∷ entries) r w g = Going-WithinCap r true w g
  reconcile_entries-WithinCap (passed_over ∷ entries) r w g =
      reconcile_entries-WithinCap entries r w g
  reconcile_entries-WithinCap (regular_file key size ∷ entries) r w g =
      reconcile_file-WithinCap key size (file_owner key) (reconcile_entries entries) r w
        (reconcile_entries-WithinCap entries) g

-- Reconciling the files adopts at most 500 of them, and tells that the cap is hit exactly if it is.
-- Whatever fails, the ledger has grown by exactly as many rows as are counted, all of them staged,
-- its keys stay apart, and nothing else in the tables has changed.
pub reconcile_storage-WithinCap :
    (entries : List WalkEntry) (w : World) → WithinCap w (reconcile_storage entries w)
unfolding reconcile_storage
reconcile_storage-WithinCap entries w =
    reconcile_entries-WithinCap w entries none_adopted w (Adopts-refl 0 w.stored, omega arith, refl)
