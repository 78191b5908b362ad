-- ===== src/Schema.antt =====
-- Schema migrations: pendingMigrations and Migrate of internal/db/migrate.go. What a migration's SQL
-- does to the schema is the database's, so running it is a parameter; `none` is an error.
pub mod Plan
pub mod Rerun
pub mod Convert
use futo_notes_server.Prelude.{
  ◌≡◌, refl, [], ◌∷◌, true, false, none, some, zero, suc, List, Text, Bool, if◌then◌else◌, ℕ,
  Option, text_eq, ◌+◌, ◌+◌, ◌++◌, ◌++◌, ◌||◌, ◌||◌,
}

pub record Migration : Type 0 where
  pub name : Text
  pub sql : Text

-- What is still to run, or why the server refuses to.
pub data MigrationPlan : Type 0 where
  pending : List Migration → MigrationPlan
  unknown_migration : Text → MigrationPlan
  history_gap : Text → Text → MigrationPlan

abbrev pub is_among : List Text → Text → Bool
is_among [] name = false
is_among (n ∷ ns) name = text_eq n name || is_among ns name

abbrev pub migration_names : List Migration → List Text
migration_names [] = []
migration_names (m ∷ ms) = m.name ∷ migration_names ms

-- The first name that is recorded and not shipped. The map's order is any.
unfoldable pub first_unknown : List Text → List Text → Option Text
first_unknown known [] = none
first_unknown known (name ∷ names) =
    let rest = first_unknown known names in if is_among known name then rest else some name

-- The loop: `skipped` is what it has found pending so far.
unfoldable pub plan_from : List Text → List Migration → List Migration → MigrationPlan
plan_from applied [] skipped = pending skipped
plan_from applied (m ∷ ms) [] =
    let later = plan_from applied ms [] in
    let first = plan_from applied ms (m ∷ []) in if is_among applied m.name then later else first
plan_from applied (m ∷ ms) (p ∷ ps) =
    let rest = plan_from applied ms (p ∷ ps ++ m ∷ []) in
    if is_among applied m.name then history_gap m.name p.name else rest

abbrev pub plan_known : List Migration → List Text → Option Text → MigrationPlan
plan_known migrations applied (some name) = unknown_migration name
plan_known migrations applied none = plan_from applied migrations []

unfoldable pub pending_migrations : List Migration → List Text → MigrationPlan
pending_migrations migrations applied =
    plan_known migrations applied (first_unknown (migration_names migrations) applied)

-- A row of the bookkeeping table, with its timestamp in milliseconds.
pub record AppliedRow : Type 0 where
  pub name : Text
  pub timestamp : ℕ

abbrev pub applied_names : List AppliedRow → List Text
applied_names [] = []
applied_names (r ∷ rs) = r.name ∷ applied_names rs

-- A database: its schema, and the bookkeeping table.
pub record Migrated (S : Type 0) : Type 0 where
  pub schema : S
  pub applied : List AppliedRow

module _ {S : Type 0} (run_sql : Text → S → Option S) where
  -- The loop of Migrate, in the transaction; the name is the table's primary key.
  unfoldable pub apply_pending : ℕ → List Migration → Migrated S → Option (Migrated S)
  apply_pending stamp [] d = some d
  apply_pending stamp (m ∷ ms) d = elim (run_sql m.sql d.schema) [
    | none ↦ none
    | some schema ↦
        if is_among (applied_names d.applied) m.name
        then none
        else apply_pending (stamp + 1) ms (record {
          schema = schema;
          applied = d.applied ++ record { name = m.name; timestamp = stamp } ∷ [];
        })
  ]

  -- Committed or not, and what is stored then.
  abbrev commit_applied :
      Bool → List Text → Migrated S → Option (Migrated S) → Option (List Text) × Migrated S
  commit_applied commits names d none = (none, d)
  commit_applied commits names d (some d') = if commits then (some names, d') else (none, d)

  abbrev run_plan : Bool → ℕ → Migrated S → MigrationPlan → Option (List Text) × Migrated S
  run_plan commits stamp d (pending ms) =
      commit_applied commits (migration_names ms) d (apply_pending stamp ms d)
  run_plan commits stamp d (unknown_migration name) = (none, d)
  run_plan commits stamp d (history_gap later earlier) = (none, d)

  -- The names that were applied, or `none` for an error; `reaches` says whether the statements before
  -- the plan succeed and `commits` whether the commit does.
  unfoldable pub migrate :
      Bool → Bool → ℕ → List Migration → Migrated S → Option (List Text) × Migrated S
  migrate reaches commits stamp migrations d =
      if reaches
      then run_plan commits stamp d (pending_migrations migrations (applied_names d.applied))
      else (none, d)
