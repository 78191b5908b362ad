-- ===== src/Jobs/Garbage.antt =====
-- GarbageCollectBlobs of internal/jobs/jobs.go. What os.Stat and os.Remove do to
-- the files is a parameter.
pub mod Ends
pub mod Tally
use futo_notes_server.Store.Rows.{SessionRow}
use futo_notes_server.Store.Sql.{select_where, delete_where}
use futo_notes_server.Jobs.{purge_blob_row, eligible_blob_keys}
use futo_notes_server.Prelude.{
  ◌≡◌, refl, [], ◌∷◌, true, false, none, some, zero, suc, ℕ, ◌+◌, ◌+◌, Text, Bool, List, Option,
  if◌then◌else◌, length, ltb,
}
use futo_notes_server.Store.Monad.{◌>>=◌, ok, err, M, time_now, Result, db_exec, World}

-- BlobGCResult, and how many removals have failed so far.
pub record Collected : Type 0 where
  pub rows_purged : ℕ
  pub files_removed : ℕ
  pub removal_errors : ℕ

abbrev pub nothing_yet : Collected
nothing_yet = record { rows_purged = 0; files_removed = 0; removal_errors = 0 }

-- How a pass over the selected keys ends: with an error of the database, or with its count.
pub data PassEnd : Type 0 where
  broken : Collected → PassEnd
  passed : ℕ → Collected → PassEnd

-- How the loop ends. The removal errors are joined to either.
pub data Ended : Type 0 where
  database_error finished : Collected → Ended

abbrev failed_removal : Collected → Collected
failed_removal c = record c { removal_errors = c.removal_errors + 1 }

module _ (stat_file : Text → M Bool) (remove_file : Text → M (Unit {0})) where
  unfoldable pub removed : Bool → Collected → Result (Unit {0}) → Collected
  removed existed c (err e) = failed_removal c
  removed existed c (ok u) = if existed then record c { files_removed = c.files_removed + 1 } else c

  unfoldable pub remove_stated : Text → Collected → Result Bool × World → Collected × World
  remove_stated key c (err e, w) = (failed_removal c, w)
  remove_stated key c (ok existed, w) = let (r, w') = remove_file key w in (removed existed c r, w')

  -- What follows a purged row: its file goes.
  unfoldable pub remove_purged : Text → Collected → World → Collected × World
  remove_purged key c w =
      remove_stated key (record c { rows_purged = c.rows_purged + 1 }) (stat_file key w)

  -- What becomes of a selected key, and then of the `rest`.
  unfoldable pub purge_next :
      Text
      → (ℕ → Collected → World → PassEnd × World)
      → ℕ
      → Collected
      → Result Bool × World
      → PassEnd × World
  purge_next key rest purged c (err e, w) = (broken c, w)
  purge_next key rest purged c (ok false, w) = rest purged c w
  purge_next key rest purged c (ok true, w) =
      let (c', w') = remove_purged key c w in rest (purged + 1) c' w'

  unfoldable pub purge_keys : List Text → ℕ → Collected → World → PassEnd × World
  purge_keys [] purged c w = (passed purged c, w)
  purge_keys (key ∷ keys) purged c w =
      purge_next key (purge_keys keys) purged c (purge_blob_row key w)

  -- A pass that purged nothing is the last one: another server may hold the rows.
  unfoldable pub after_pass :
      (Collected → World → Option (Ended × World)) → PassEnd × World → Option (Ended × World)
  after_pass again (broken c, w) = some (database_error c, w)
  after_pass again (passed zero c, w) = some (finished c, w)
  after_pass again (passed (suc n) c, w) = again c w

  unfoldable pub after_selection :
      (Collected → World → Option (Ended × World))
      → Collected
      → Result (List Text) × World
      → Option (Ended × World)
  after_selection again c (err e, w) = some (database_error c, w)
  after_selection again c (ok [], w) = some (finished c, w)
  after_selection again c (ok (key ∷ keys), w) = after_pass again (purge_keys (key ∷ keys) 0 c w)

  -- One pass after another; `none` means that the rounds ran out.
  unfoldable pub collect_rounds : ℕ → Collected → World → Option (Ended × World)
  collect_rounds zero c w = none
  collect_rounds (suc fuel) c w = after_selection (collect_rounds fuel) c (eligible_blob_keys w)

  -- GarbageCollectBlobs, with a round for each row of the ledger and one more.
  unfoldable pub garbage_collect_blobs : World → Option (Ended × World)
  garbage_collect_blobs w = collect_rounds (length w.stored.ledger + 1) nothing_yet w
