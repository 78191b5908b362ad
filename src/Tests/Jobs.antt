-- ===== src/Tests/Jobs.antt =====
-- The collector, the reconciliation and the migrations at concrete inputs.
use futo_notes_server.Store.Rows.{purgeable}
use futo_notes_server.Schema.Plan.{SplitsAt, pending_migrations_iff}
use futo_notes_server.Jobs.Garbage.Tally.{Tally, collected_of, garbage_collect_blobs-Tally}
use futo_notes_server.Schema.Rerun.{MigratesAll, migrate-MigratesAll}
use futo_notes_server.Jobs.Garbage.{Ended, garbage_collect_blobs, nothing_yet}
use futo_notes_server.Jobs.Reconcile.Adopted.{WithinCap, reconcile_storage-WithinCap}
use futo_notes_server.Prelude.{
  ◌≡◌, refl, [], ◌∷◌, true, false, some, List, Text, Option, codes, ◌++◌, Bool, ◌++◌, text_eq,
}
use futo_notes_server.Tests.World.{staged_row, note_db, start, ann, blob}
use futo_notes_server.Store.Monad.{ok, M, World, Db}
use futo_notes_server.Jobs.Reconcile.{regular_file, passed_over, reconcile_storage, WalkEntry}
use futo_notes_server.Schema.{
  pending, pending_migrations, Migration, Migrated, first_unknown, migrate, plan_from,
}

abbrev stat_none : Text → M Bool
stat_none key w = (ok false, w)

abbrev remove_none : Text → M (Unit {0})
remove_none key w = (ok tt, w)

abbrev freed_db : Db
freed_db = record note_db { ledger = record staged_row { state = purgeable } ∷ [] }

garbage_collect_blobs-Tally_example :
    (e : Ended) × (w' : World) × (garbage_collect_blobs stat_none remove_none (start freed_db)
      ≡ some (e, w'))
    × Tally nothing_yet (start freed_db) (collected_of e) w'
garbage_collect_blobs-Tally_example =
    garbage_collect_blobs-Tally stat_none remove_none (λ key w. refl) (λ key w. refl)
      (start freed_db) (tt, tt)

abbrev walked : List WalkEntry
walked = passed_over ∷ regular_file blob 3 ∷ regular_file (ann ++ b'/' ∷ ann) 5 ∷ []

reconcile_storage-WithinCap_example :
    WithinCap (start note_db) (reconcile_storage walked (start note_db))
reconcile_storage-WithinCap_example = reconcile_storage-WithinCap walked (start note_db)

abbrev first_migration : Migration
first_migration = record { name = codes "001_initial"; sql = codes "create" }

abbrev second_migration : Migration
second_migration = record { name = codes "002_keys"; sql = codes "alter" }

abbrev both : List Migration
both = first_migration ∷ second_migration ∷ []

abbrev half_migrated : Migrated (List Text)
half_migrated = record {
  schema = codes "create" ∷ [];
  applied = record { name = codes "001_initial"; timestamp = 7 } ∷ [];
}

abbrev add_statement : Text → List Text → Option (List Text)
add_statement sql schema = some (sql ∷ schema)

pending_runs : pending_migrations both (codes "001_initial" ∷ []) ≡ pending (second_migration ∷ [])
unfolding pending_migrations first_unknown plan_from text_eq
pending_runs = refl

pending_migrations_iff_example :
    (pending_migrations both (codes "001_initial" ∷ []) ≡ pending (second_migration ∷ [])
      → SplitsAt both (codes "001_initial" ∷ []) (second_migration ∷ []))
    × (SplitsAt both (codes "001_initial" ∷ []) (second_migration ∷ [])
        → pending_migrations both (codes "001_initial" ∷ []) ≡ pending (second_migration ∷ []))
pending_migrations_iff_example =
    pending_migrations_iff both (codes "001_initial" ∷ []) (second_migration ∷ [])

migrate-MigratesAll_example :
    MigratesAll add_statement both half_migrated
      (migrate add_statement true true 9 both half_migrated)
migrate-MigratesAll_example = migrate-MigratesAll add_statement true true 9 both half_migrated
