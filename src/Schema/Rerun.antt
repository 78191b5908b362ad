-- ===== src/Schema/Rerun.antt =====
-- What a run of the migrations leaves, and what a second one would find.
use futo_notes_server.Schema.Plan.{SplitsAt, pending_migrations_iff, IsRecorded}
use futo_notes_server.Prelude.{
  ◌≡◌, refl, [], ◌∷◌, true, false, none, some, List, Text, Option, All, ◌++◌, text_eq_refl, ap, ℕ,
  ◌||◌, arith, All-mono, subst, Option-cases, inl, append_assoc, inr, Bool-cases, ◌∙◌, ◌∙◌, Bool,
  sym, append-nil, ◌+◌, All-append,
}
use futo_notes_server.Schema.{
  pending, history_gap, unknown_migration, AppliedRow, Migration, is_among, applied_names,
  apply_pending, migration_names, Migrated, migrate, commit_applied, pending_migrations,
  MigrationPlan, run_plan,
}

is_among-append :
    (a b : List Text) (name : Text) → is_among (a ++ b) name ≡ is_among a name || is_among b name
is_among-append [] b name = refl
is_among-append (n ∷ a) b name = let rest = is_among-append a b name in ground arith

-- Each of some migrations is among their names.
own_names : (ms : List Migration) → All (λ m. is_among (migration_names ms) m.name ≡ true) ms
own_names [] = tt
own_names (m ∷ ms) = (
  rw (text_eq_refl m.name) refl,
  All-mono (λ x. is_among (migration_names ms) x.name ≡ true) _ ms (λ x h. ground arith)
      (own_names ms),
)

migration_names-append :
    (a b : List Migration) → migration_names (a ++ b) ≡ migration_names a ++ migration_names b
migration_names-append [] b = refl
migration_names-append (m ∷ a) b = ap (λ l. m.name ∷ l) (migration_names-append a b)

applied_names-append :
    (a b : List AppliedRow) → applied_names (a ++ b) ≡ applied_names a ++ applied_names b
applied_names-append [] b = refl
applied_names-append (r ∷ a) b = ap (λ l. r.name ∷ l) (applied_names-append a b)

-- All names of a list are among it.
All-is_among : (ns more : List Text) → All (λ n. is_among (more ++ ns) n ≡ true) ns
All-is_among [] more = tt
All-is_among (n ∷ ns) more = (
  rw (is_among-append more (n ∷ ns) n, text_eq_refl n) (ground arith),
  subst (λ l. All (λ x. is_among l x ≡ true) ns) (append_assoc more (n ∷ []) ns)
      (All-is_among ns (more ++ n ∷ [])),
)

module _ {S : Type 0} (run_sql : Text → S → Option S) where
  -- The SQL of the migrations, each run on what the one before it has left, takes a schema to
  -- another.
  abbrev pub Runs : List Migration → S → S → Type 0
  Runs [] before after = after ≡ before
  Runs (m ∷ ms) before after = (next : S) × (run_sql m.sql before ≡ some next) × Runs ms next after

  -- The names of the migrations that were applied come after those that were recorded, and their SQL
  -- has been run.
  abbrev Adds : List Text → S → List Migration → Option (Migrated S) → Type 0
  Adds before schema ms none = Unit
  Adds before schema ms (some d) =
      (applied_names d.applied ≡ before ++ migration_names ms) × Runs ms schema d.schema

  Adds-more :
      (before : List Text) (m : Migration) (ms : List Migration) (rows : List AppliedRow)
      (stamp : ℕ) (schema next : S) (r : Option (Migrated S))
      → run_sql m.sql schema ≡ some next
      → before ≡ applied_names rows
      → Adds (applied_names (rows ++ record { name = m.name; timestamp = stamp } ∷ [])) next ms r
      → Adds before schema (m ∷ ms) r
  Adds-more before m ms rows stamp schema next none ran e h = tt
  Adds-more before m ms rows stamp schema next (some d) ran e (h, runs) = (
    h
        ∙ ap (λ l. l ++ migration_names ms)
            (applied_names-append rows (record { name = m.name; timestamp = stamp } ∷ []))
        ∙ append_assoc (applied_names rows) (m.name ∷ []) (migration_names ms)
        ∙ ap (λ l. l ++ m.name ∷ migration_names ms) (sym e),
    (next, ran, runs),
  )

  apply_pending-Adds :
      (stamp : ℕ) (ms : List Migration) (d : Migrated S)
      → Adds (applied_names d.applied) d.schema ms (apply_pending run_sql stamp ms d)
  unfolding apply_pending
  apply_pending-Adds stamp [] d = (sym (append-nil (applied_names d.applied)), refl)
  apply_pending-Adds stamp (m ∷ ms) d = elim (Option-cases (run_sql m.sql d.schema)) [
    | inl broken ↦ rw (broken, Adds) tt
    | inr (schema, ran) ↦ elim (Bool-cases (is_among (applied_names d.applied) m.name)) [
      | inl there ↦ rw (ran, there, Adds) tt
      | inr new ↦
          rw (ran, new, Adds)
            (Adds-more (applied_names d.applied) m ms d.applied stamp d.schema schema _ ran refl
              (apply_pending-Adds (stamp + 1) ms _))
    ]
  ]

  -- After migrations of a split, everything is recorded.
  SplitsAt-after :
      (ms run : List Migration) (before after : List Text)
      → SplitsAt ms before run
      → after ≡ before ++ migration_names run
      → SplitsAt ms after []
  SplitsAt-after ms run before after (done, whole, recorded, news, known) e = (
    ms,
    sym (append-nil ms),
    rw (e, whole)
        (All-append (IsRecorded (before ++ migration_names run)) done run
          (All-mono (IsRecorded before) (IsRecorded (before ++ migration_names run)) done
            (λ m h. is_among-append before (migration_names run) m.name ∙ ground arith) recorded)
          (All-mono (λ m. is_among (migration_names run) m.name ≡ true)
            (IsRecorded (before ++ migration_names run)) run
            (λ m h. is_among-append before (migration_names run) m.name ∙ ground arith)
            (own_names run))),
    tt,
    rw e (
        All-append _ before (migration_names run) known (
          subst (λ l. All (λ n. is_among l n ≡ true) (migration_names run))
            (sym (ap migration_names whole ∙ migration_names-append done run))
            (All-is_among (migration_names run) (migration_names done)))),
  )

  -- What Migrate has done.
  abbrev pub MigratesAll : List Migration → Migrated S → Option (List Text) × Migrated S → Type 0
  MigratesAll ms d (none, d') = d' ≡ d
  MigratesAll ms d (some names, d') =
      (run : List Migration) × SplitsAt ms (applied_names d.applied) run
      × (names ≡ migration_names run)
      × Runs run d.schema d'.schema
      × (applied_names d'.applied ≡ applied_names d.applied ++ names)
      × (pending_migrations ms (applied_names d'.applied) ≡ pending [])

  committed :
      (commits : Bool) (ms run : List Migration) (d : Migrated S) (r : Option (Migrated S))
      → SplitsAt ms (applied_names d.applied) run
      → Adds (applied_names d.applied) d.schema run r
      → MigratesAll ms d (commit_applied run_sql commits (migration_names run) d r)
  committed commits ms run d none split added = refl
  committed false ms run d (some d') split added = refl
  committed true ms run d (some d') split (added, runs) = (
    run,
    split,
    refl,
    runs,
    added,
    (pending_migrations_iff ms (applied_names d'.applied) []).1
        (SplitsAt-after ms run (applied_names d.applied) (applied_names d'.applied) split added),
  )

  planned :
      (commits : Bool) (stamp : ℕ) (ms : List Migration) (d : Migrated S) (plan : MigrationPlan)
      → pending_migrations ms (applied_names d.applied) ≡ plan
      → MigratesAll ms d (run_plan run_sql commits stamp d plan)
  planned commits stamp ms d (pending run) e =
      committed commits ms run d (apply_pending run_sql stamp run d)
        ((pending_migrations_iff ms (applied_names d.applied) run).0 e)
        (apply_pending-Adds stamp run d)
  planned commits stamp ms d (unknown_migration name) e = refl
  planned commits stamp ms d (history_gap later earlier) e = refl

  -- A run of the migrations that reports an error, wherever it comes from, leaves schema and
  -- bookkeeping as they were. One that reports names reports exactly those of the migrations after
  -- those that were recorded, in order; it has run the SQL of each on what the one before has left,
  -- and recorded it, and a later run would find none pending.
  pub migrate-MigratesAll :
      (reaches commits : Bool) (stamp : ℕ) (ms : List Migration) (d : Migrated S)
      → MigratesAll ms d (migrate run_sql reaches commits stamp ms d)
  unfolding migrate
  migrate-MigratesAll false commits stamp ms d = refl
  migrate-MigratesAll true commits stamp ms d = planned commits stamp ms d _ refl
