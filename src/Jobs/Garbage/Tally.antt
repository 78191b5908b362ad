-- ===== src/Jobs/Garbage/Tally.antt =====
-- What the collector's loop has done when it ends.
use futo_notes_server.Blobs.Ownership.{RemovesOnly}
use futo_notes_server.Jobs.Collector.{Purged, purge_blob_row-Purged}
use futo_notes_server.Blobs.{ledger_has_key}
use futo_notes_server.Jobs.Garbage.Ends.{
  rows, StatsOnly, remove_purged-stored, garbage_collect_blobs-ends, eligible_blob_keys-stored,
}
use futo_notes_server.Jobs.{eligible_key, purge_blob_row, eligible_blob_keys}
use futo_notes_server.Store.Keys.{HasKey, Pairwise-delete_where}
use futo_notes_server.Jobs.Garbage.{
  Collected, garbage_collect_blobs, Ended, database_error, finished, remove_stated, purge_next,
  purge_keys, nothing_yet, PassEnd, remove_purged, after_selection, collect_rounds, removed,
  after_pass, broken, passed,
}
use futo_notes_server.Store.Sql.{select_row, delete_where, select_where}
use futo_notes_server.Store.Rows.{LedgerRow, is_claimed}
use futo_notes_server.Prelude.{
  ◌≡◌, refl, [], ◌∷◌, true, false, none, some, zero, suc, List, Text, length, ℕ, ◌+◌, All, ◌≢◌, ◌≢◌,
  Bool-cases, inl, inr, arith, sym, text_eq→≡, subst, ap, ◌∙◌, ◌∙◌, Bool, Option,
}
use futo_notes_server.Store.Monad.{ok, err, World, Result, M, Db}

abbrev pub ledger_key : LedgerRow → Text
ledger_key l = l.blob_key

abbrev claimed_rows : List LedgerRow → List LedgerRow
claimed_rows ls = select_where (λ (l : LedgerRow). is_claimed l.state) ls

delete_where-apart :
    (key : Text) (ls : List LedgerRow)
    → All (λ l. key ≢ ledger_key l) ls
    → delete_where (ledger_has_key key) ls ≡ ls
unfolding delete_where
delete_where-apart key [] h = refl
delete_where-apart key (l ∷ ls) h = elim (Bool-cases (ledger_has_key key l)) [
  | inl hit ↦ absurd (h.0 (sym (text_eq→≡ l.blob_key key hit)))
  | inr miss ↦ rw (miss, delete_where-apart key ls h.1) refl
]

select_row-apart :
    (key : Text) (now : ℕ) (ls : List LedgerRow)
    → All (λ l. key ≢ ledger_key l) ls
    → select_row (eligible_key key now) ls ≡ none
unfolding select_row
select_row-apart key now [] h = refl
select_row-apart key now (l ∷ ls) h = elim (Bool-cases (ledger_has_key key l)) [
  | inl hit ↦ absurd (h.0 (sym (text_eq→≡ l.blob_key key hit)))
  | inr miss ↦ rw (miss, select_row-apart key now ls h.1) refl
]

-- One row goes, and no claimed one.
abbrev OneLess : List LedgerRow → List LedgerRow → Type 0
OneLess ls ls' = (length ls' + 1 ≡ length ls) × (claimed_rows ls' ≡ claimed_rows ls)

delete_where-OneLess :
    (key : Text) (now : ℕ) (ls : List LedgerRow) (l : LedgerRow)
    → HasKey ledger_key ls
    → select_row (eligible_key key now) ls ≡ some l
    → is_claimed l.state ≡ false
    → OneLess ls (delete_where (ledger_has_key key) ls)
unfolding delete_where select_row select_where
delete_where-OneLess key now [] l h e free = absurd (cc)
delete_where-OneLess key now (x ∷ ls) l h e free = elim (Bool-cases (ledger_has_key key x)) [
  | inr miss ↦
      let (count, same) = delete_where-OneLess key now ls l h.1 (ground arith) free in
      rw miss (omega (arith, count), ground arith)
  | inl hit ↦
      let apart = subst (λ k. All (λ r. k ≢ ledger_key r) ls) (text_eq→≡ x.blob_key key hit) h.0 in
      let gone = delete_where-apart key ls apart in
      let nowhere = select_row-apart key now ls apart in
      let this : x ≡ l = ground arith in
      let x_free : is_claimed x.state ≡ false =
        subst (λ r. is_claimed (LedgerRow.state r) ≡ false) (sym this) free in
      rw (hit, gone, x_free) (omega arith, refl)
]

-- The rows that are counted are those that left the ledger; no claimed row did, and no other table
-- has changed.
pub record Tally (c : Collected) (w : World) (c' : Collected) (w' : World) : Type 0 where
  pub keys : HasKey ledger_key w'.stored.ledger
  pub count : c'.rows_purged + rows w' ≡ c.rows_purged + rows w
  pub claimed : claimed_rows w'.stored.ledger ≡ claimed_rows w.stored.ledger
  pub others : w'.stored ≡ record w.stored { ledger = w'.stored.ledger }

abbrev pub collected_of : Ended → Collected
collected_of (database_error c) = c
collected_of (finished c) = c

abbrev with_ledger : List LedgerRow → Db → Db
with_ledger ls d = record d { ledger = ls }

module _ (c₀ : Collected) (w₀ : World) where
  abbrev Counted : Collected → World → Type 0
  Counted c w = Tally c₀ w₀ c w

  Counted-same :
      (c d : Collected) (w v : World)
      → d.rows_purged ≡ c.rows_purged
      → v.stored ≡ w.stored
      → Counted c w
      → Counted d v
  Counted-same c d w v e same t = record {
    keys = subst (λ x. HasKey ledger_key x) (ap (λ x. x.ledger) (sym same)) t.keys;
    count = let h = t.count in rw (e, same) h;
    claimed = ap (λ x. claimed_rows x.ledger) same ∙ t.claimed;
    others = same ∙ t.others ∙ ap (λ x. record w₀.stored { ledger = x.ledger }) (sym same);
  }

  purge-Counted :
      (key : Text) (c : Collected) (w v : World) (r : Result Bool)
      → Purged key w (r, v)
      → Counted c w
      → (r ≡ ok true → Counted (record c { rows_purged = c.rows_purged + 1 }) v)
        × (r ≢ ok true → Counted c v)
  purge-Counted key c w v r (inl (no_true, same)) t =
      ((λ e. absurd (no_true e)), λ _. Counted-same c c w v refl same t)
  purge-Counted key c w v r (inr (now, l, found, free, gone, told)) t =
      let (less, same) = delete_where-OneLess key now w.stored.ledger l t.keys found free in
      let count = t.count in
      let left : v.stored.ledger ≡ delete_where (ledger_has_key key) w.stored.ledger =
        ap (λ d. d.ledger) gone in
      (
        (λ _. record {
          keys =
              subst (HasKey ledger_key) (sym left)
                (Pairwise-delete_where _ (ledger_has_key key) w.stored.ledger t.keys);
          count = rw left (omega (arith, less, count));
          claimed = ap claimed_rows left ∙ same ∙ t.claimed;
          others =
              gone
              ∙ ap (with_ledger (delete_where (ledger_has_key key) w.stored.ledger)) t.others
              ∙ ap (λ x. with_ledger x w₀.stored) (sym left);
        }),
        λ other. absurd (other told),
      )

  module _ (stat_file : Text → M Bool) (stats : StatsOnly stat_file)
      (remove_file : Text → M (Unit {0})) (only : RemovesOnly remove_file) where
    removed-rows :
        (b : Bool) (c : Collected) (r : Result (Unit {0}))
        → (removed stat_file remove_file b c r).rows_purged ≡ c.rows_purged
    unfolding removed
    removed-rows b c (err e) = refl
    removed-rows true c (ok u) = refl
    removed-rows false c (ok u) = refl

    remove_stated-rows :
        (key : Text) (c : Collected) (r : Result Bool) (w : World)
        → (remove_stated stat_file remove_file key c (r, w)).0.rows_purged ≡ c.rows_purged
    unfolding remove_stated
    remove_stated-rows key c (err e) w = refl
    remove_stated-rows key c (ok b) w = removed-rows b c (remove_file key w).0

    remove_purged-rows :
        (key : Text) (c : Collected) (w : World)
        → (remove_purged stat_file remove_file key c w).0.rows_purged ≡ c.rows_purged + 1
    unfolding remove_purged
    remove_purged-rows key c w = remove_stated-rows key _ (stat_file key w).0 (stat_file key w).1

    abbrev PassCounted : PassEnd × World → Type 0
    PassCounted (broken c, w) = Counted c w
    PassCounted (passed n c, w) = Counted c w

    abbrev EndCounted : Option (Ended × World) → Type 0
    EndCounted none = Unit
    EndCounted (some (e, w)) = Counted (collected_of e) w

    purge_next-Counted :
        (key : Text) (rest : ℕ → Collected → World → PassEnd × World) (n : ℕ) (c : Collected)
        (w v : World) (r : Result Bool)
        → ((m : ℕ) (d : Collected) (u : World) → Counted d u → PassCounted (rest m d u))
        → Purged key w (r, v)
        → Counted c w
        → PassCounted (purge_next stat_file remove_file key rest n c (r, v))
    unfolding purge_next
    purge_next-Counted key rest n c w v (err e) later p t =
        (purge-Counted key c w v (err e) p t).1 (λ q. absurd (cc))
    purge_next-Counted key rest n c w v (ok false) later p t =
        later n c v ((purge-Counted key c w v (ok false) p t).1 (λ q. absurd (cc)))
    purge_next-Counted key rest n c w v (ok true) later p t =
        let (d, u) = remove_purged stat_file remove_file key c v in
        later (n + 1) d u (
          Counted-same (record c { rows_purged = c.rows_purged + 1 }) d v u
            (remove_purged-rows key c v)
            (remove_purged-stored stat_file stats remove_file only key c v)
            ((purge-Counted key c w v (ok true) p t).0 refl))

    purge_keys-Counted :
        (keys : List Text) (n : ℕ) (c : Collected) (w : World)
        → Counted c w
        → PassCounted (purge_keys stat_file remove_file keys n c w)
    unfolding purge_keys
    purge_keys-Counted [] n c w t = t
    purge_keys-Counted (key ∷ keys) n c w t =
        purge_next-Counted key _ n c w (purge_blob_row key w).1 (purge_blob_row key w).0
          (purge_keys-Counted keys) (purge_blob_row-Purged key w) t

    after_pass-Counted :
        (again : Collected → World → Option (Ended × World)) (end : PassEnd × World)
        → ((c : Collected) (v : World) → Counted c v → EndCounted (again c v))
        → PassCounted end
        → EndCounted (after_pass stat_file remove_file again end)
    unfolding after_pass
    after_pass-Counted again (broken c, v) more t = t
    after_pass-Counted again (passed zero c, v) more t = t
    after_pass-Counted again (passed (suc n) c, v) more t = more c v t

    after_selection-Counted :
        (again : Collected → World → Option (Ended × World)) (c : Collected) (v : World)
        (r : Result (List Text))
        → ((c : Collected) (v : World) → Counted c v → EndCounted (again c v))
        → Counted c v
        → EndCounted (after_selection stat_file remove_file again c (r, v))
    unfolding after_selection
    after_selection-Counted again c v (err e) more t = t
    after_selection-Counted again c v (ok []) more t = t
    after_selection-Counted again c v (ok (key ∷ keys)) more t =
        after_pass-Counted again _ more (purge_keys-Counted (key ∷ keys) 0 c v t)

    collect_rounds-Counted :
        (fuel : ℕ) (c : Collected) (w : World)
        → Counted c w
        → EndCounted (collect_rounds stat_file remove_file fuel c w)
    unfolding collect_rounds
    collect_rounds-Counted zero c w t = tt
    collect_rounds-Counted (suc fuel) c w t =
        after_selection-Counted _ c _ (eligible_blob_keys w).0 (collect_rounds-Counted fuel)
          (Counted-same c c w _ refl (eligible_blob_keys-stored w) t)

-- The collector ends, whatever fails on the way, if the operations on the files change no table and
-- the ledger has one row for each key: the rows that it reports as purged are exactly those that
-- have left the ledger, none of them claimed by an object, and no other table has changed.
pub garbage_collect_blobs-Tally :
    (stat_file : Text → M Bool) (remove_file : Text → M (Unit {0}))
    → StatsOnly stat_file
    → RemovesOnly remove_file
    → (w : World) → HasKey ledger_key w.stored.ledger
    → (e : Ended) × (w' : World) × (garbage_collect_blobs stat_file remove_file w ≡ some (e, w'))
      × Tally nothing_yet w (collected_of e) w'
unfolding garbage_collect_blobs
garbage_collect_blobs-Tally stat_file remove_file stats only w keys =
    let ((e, w'), ends) = garbage_collect_blobs-ends stat_file stats remove_file only w in
    let so =
      collect_rounds-Counted nothing_yet w stat_file stats remove_file only (rows w + 1) nothing_yet
        w (record { keys = keys; count = refl; claimed = refl; others = refl }) in
    (e, w', ends, subst (EndCounted nothing_yet w stat_file stats remove_file only) ends so)
