-- ===== src/Jobs/Garbage/Ends.antt =====
-- The collector's loop ends: a pass that is followed by another has shortened the ledger.
use futo_notes_server.Jobs.Garbage.{
  purge_next, after_selection, remove_stated, purge_keys, garbage_collect_blobs, remove_purged,
  PassEnd, after_pass, collect_rounds, Collected, Ended, broken, nothing_yet, passed,
}
use futo_notes_server.Blobs.Ownership.{RemovesOnly}
use futo_notes_server.Blobs.{ledger_has_key}
use futo_notes_server.Jobs.Collector.{purge_blob_row-Purged}
use futo_notes_server.Store.Rules.{time_now-bind, attempt-bind}
use futo_notes_server.Store.Sql.{delete_where, select_row}
use futo_notes_server.Jobs.{eligible_blob_keys, purge_blob_row, eligible_key}
use futo_notes_server.Prelude.{
  ◌≡◌, refl, [], ◌∷◌, true, false, some, zero, suc, Text, Bool, ℕ, List, length, ◌≤◌, ◌<◌, ◌<◌, ◌≤◌,
  arith, Bool-cases, inl, inr, &&-left, ◌+◌, ◌∙◌, Option, ◌∙◌,
}
use futo_notes_server.Store.Monad.{ok, err, World, db_query, M, Result}

pub length-delete_where :
    {R : Type 0} (p : R → Bool) (rs : List R) → length (delete_where p rs) ≤ length rs
unfolding delete_where
length-delete_where p [] = omega arith
length-delete_where p (r ∷ rs) = ground (arith, length-delete_where p rs)

pub length-delete_where-found :
    {R : Type 0} (p q : R → Bool) (rs : List R) (r : R)
    → ((x : R) → q x ≡ true → p x ≡ true)
    → select_row q rs ≡ some r
    → length (delete_where p rs) < length rs
unfolding delete_where select_row
length-delete_where-found p q [] r imp e = absurd (cc)
length-delete_where-found p q (x ∷ rs) r imp e = elim (Bool-cases (p x)) [
  | inl hit ↦ rw hit (let le = length-delete_where p rs in omega arith)
  | inr miss ↦
      let lt = length-delete_where-found p q rs r imp (ground (arith, imp x)) in
      rw miss (omega arith)
]

-- os.Stat changes no table.
abbrev pub StatsOnly : (Text → M Bool) → Type 0
StatsOnly stat_file = (key : Text) (w : World) → (stat_file key w).1.stored ≡ w.stored

abbrev pub rows : World → ℕ
rows w = length w.stored.ledger

abbrev SameStored : {A : Type 0} → World → Result A × World → Type 0
SameStored w (r, v) = v.stored ≡ w.stored

pub eligible_blob_keys-stored : (w : World) → SameStored w (eligible_blob_keys w)
unfolding eligible_blob_keys db_query
eligible_blob_keys-stored w =
    time_now-bind (SameStored w) _ w
      λ n now. attempt-bind (SameStored w) _ _ (λ m. refl) (λ m. refl)

abbrev Shrinks : World → Result Bool × World → Type 0
Shrinks w (r, v) = (rows v ≤ rows w) × (r ≡ ok true → rows v < rows w)

purge_blob_row-Shrinks : (key : Text) (w : World) → Shrinks w (purge_blob_row key w)
purge_blob_row-Shrinks key w = elim (purge_blob_row-Purged key w) [
  | inl (no_true, same) ↦ (rw same (omega arith), λ h. absurd (no_true h))
  | inr (now, l, found, _, gone, _) ↦
      let less =
        length-delete_where-found (ledger_has_key key) (eligible_key key now) w.stored.ledger l
          (λ x h. &&-left _ _ h) found in
      (rw gone (omega arith), λ h. rw gone less)
]

module _ (stat_file : Text → M Bool) (stats : StatsOnly stat_file)
    (remove_file : Text → M (Unit {0})) (only : RemovesOnly remove_file) where
  remove_stated-stored :
      (key : Text) (c : Collected) (r : Result Bool) (w : World)
      → (remove_stated stat_file remove_file key c (r, w)).1.stored ≡ w.stored
  unfolding remove_stated
  remove_stated-stored key c (err e) w = refl
  remove_stated-stored key c (ok existed) w = only key w

  pub remove_purged-stored :
      (key : Text) (c : Collected) (w : World)
      → (remove_purged stat_file remove_file key c w).1.stored ≡ w.stored
  unfolding remove_purged
  remove_purged-stored key c w =
      remove_stated-stored key _ (stat_file key w).0 (stat_file key w).1 ∙ stats key w

  -- What a pass has counted has left the ledger.
  abbrev Counts : ℕ → World → PassEnd × World → Type 0
  Counts purged w (broken c, v) = Unit
  Counts purged w (passed n c, v) = rows v + n ≤ rows w + purged

  Counts-mono :
      (n m : ℕ) (v w : World) (end : PassEnd × World)
      → rows v + n ≤ rows w + m
      → Counts n v end
      → Counts m w end
  Counts-mono n m v w (broken c, u) le h = tt
  Counts-mono n m v w (passed k c, u) le h = omega arith

  purge_next-Counts :
      (key : Text) (rest : ℕ → Collected → World → PassEnd × World) (purged : ℕ) (c : Collected)
      (w v : World) (r : Result Bool)
      → ((n : ℕ) (d : Collected) (u : World) → Counts n u (rest n d u))
      → Shrinks w (r, v)
      → Counts purged w (purge_next stat_file remove_file key rest purged c (r, v))
  unfolding purge_next
  purge_next-Counts key rest purged c w v (err e) later (le, lt) = tt
  purge_next-Counts key rest purged c w v (ok false) later (le, lt) =
      Counts-mono purged purged v w _ (omega arith) (later purged c v)
  purge_next-Counts key rest purged c w v (ok true) later (le, lt) =
      let less = lt refl in
      let same = remove_purged-stored key c v in
      Counts-mono (purged + 1) purged ((remove_purged stat_file remove_file key c v).1) w _
        (rw same (omega arith)) (later (purged + 1) _ _)

  purge_keys-Counts :
      (keys : List Text) (purged : ℕ) (c : Collected) (w : World)
      → Counts purged w (purge_keys stat_file remove_file keys purged c w)
  unfolding purge_keys
  purge_keys-Counts [] purged c w = omega arith
  purge_keys-Counts (key ∷ keys) purged c w =
      purge_next-Counts key _ purged c w (purge_blob_row key w).1 (purge_blob_row key w).0
        (purge_keys-Counts keys) (purge_blob_row-Shrinks key w)

  after_pass-ends :
      (again : Collected → World → Option (Ended × World)) (w : World) (end : PassEnd × World)
      → ((c : Collected) (v : World) → rows v < rows w → (e : Ended × World) × (again c v ≡ some e))
      → Counts 0 w end
      → (e : Ended × World) × (after_pass stat_file remove_file again end ≡ some e)
  unfolding after_pass
  after_pass-ends again w (broken c, v) more h = (_, refl)
  after_pass-ends again w (passed zero c, v) more h = (_, refl)
  after_pass-ends again w (passed (suc n) c, v) more h = more c v (omega arith)

  after_selection-ends :
      (again : Collected → World → Option (Ended × World)) (c : Collected) (w v : World)
      (r : Result (List Text))
      → ((c : Collected) (u : World) → rows u < rows w → (e : Ended × World) × (again c u ≡ some e))
      → v.stored ≡ w.stored
      → (e : Ended × World) × (after_selection stat_file remove_file again c (r, v) ≡ some e)
  unfolding after_selection
  after_selection-ends again c w v (err e) more same = (_, refl)
  after_selection-ends again c w v (ok []) more same = (_, refl)
  after_selection-ends again c w v (ok (key ∷ keys)) more same =
      after_pass-ends again w _ more
        (Counts-mono 0 0 v w _ (rw same (omega arith)) (purge_keys-Counts (key ∷ keys) 0 c v))

  collect_rounds-ends :
      (fuel : ℕ) (c : Collected) (w : World)
      → rows w < fuel
      → (e : Ended × World) × (collect_rounds stat_file remove_file fuel c w ≡ some e)
  unfolding collect_rounds
  collect_rounds-ends zero c w h = absurd (omega arith)
  collect_rounds-ends (suc fuel) c w h =
      after_selection-ends _ c w _ (eligible_blob_keys w).0
        (λ d v less. collect_rounds-ends fuel d v (omega arith)) (eligible_blob_keys-stored w)

  -- The collector's loop ends in at most one round more than the ledger has rows, whatever fails on
  -- the way, if the operations on the files change no table.
  pub garbage_collect_blobs-ends :
      (w : World) → (e : Ended × World) × (garbage_collect_blobs stat_file remove_file w ≡ some e)
  unfolding garbage_collect_blobs
  garbage_collect_blobs-ends w = collect_rounds-ends (rows w + 1) nothing_yet w (omega arith)
