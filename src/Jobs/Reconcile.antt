-- ===== src/Jobs/Reconcile.antt =====
-- ReconcileStorage of internal/jobs/jobs.go. What filepath.WalkDir visits is a list of entries.
pub mod Adopted
use futo_notes_server.Auth.Session.{user_has_id}
use futo_notes_server.Store.Sql.{select_row}
use futo_notes_server.Ids.{valid_uuid}
use futo_notes_server.Objects.Steps.{is_row}
use futo_notes_server.Prelude.{
  ◌≡◌, refl, [], ◌∷◌, true, false, none, some, zero, suc, ◌+◌, ℕ, ◌+◌, Bool, Text, List, Option,
  if◌then◌else◌, ◌==◌, ◌==◌,
}
use futo_notes_server.Store.Monad.{
  ◌>>=◌, ◌>>◌, ok, err, World, M, Db, Result, commit, begin_tx, tx_query, pure, time_now, tx_exec,
}
use futo_notes_server.Blobs.{staged_row, ledger_has_key}

abbrev pub reconciliation_limit : ℕ
reconciliation_limit = 500

-- What the walk meets: an error that says that nothing is there, another error, a directory or an
-- irregular file, or a file with its key and its size.
pub data WalkEntry : Type 0 where
  missing_entry broken_entry passed_over : WalkEntry
  regular_file : Text → ℕ → WalkEntry

pub record Reconciliation : Type 0 where
  pub adopted : ℕ
  pub skipped : ℕ
  pub cap_hit : Bool

abbrev pub none_adopted : Reconciliation
none_adopted = record { adopted = 0; skipped = 0; cap_hit = false }

-- strings.Cut(key, "/").
unfoldable pub before_slash : Text → Option Text
before_slash [] = none
before_slash (c ∷ s) =
    if c == b'/'
    then some []
    else (elim (before_slash s) [ none ↦ none | some owner ↦ some (c ∷ owner) ])

abbrev pub file_owner : Text → Option Text
file_owner key = elim (before_slash key) [
  | none ↦ none
  | some owner ↦ if valid_uuid owner then some owner else none
]

-- INSERT ... ON CONFLICT (blob_key) DO NOTHING RETURNING 1.
unfoldable pub insert_unknown : Text → Text → ℕ → ℕ → Db → Option (Bool × Db)
insert_unknown key owner size now d =
    if is_row (select_row (ledger_has_key key) d.ledger)
    then some (false, d)
    else some (true, record d { ledger = staged_row key owner size now ∷ d.ledger })

pub data Adoption : Type 0 where
  no_owner known_file adopted_file : Adoption

unfoldable pub adopt_owned : Text → Text → ℕ → Bool → M Adoption
adopt_owned key owner size false = do commit; pure no_owner
adopt_owned key owner size true = do
  now ← time_now
  inserted ← tx_exec (insert_unknown key owner size now)
  commit
  pure (if inserted then adopted_file else known_file)

unfoldable pub adopt_file : Text → Text → ℕ → M Adoption
adopt_file key owner size = do
  begin_tx
  owner_exists ← tx_query (λ d. is_row (select_row (user_has_id owner) d.users))
  adopt_owned key owner size owner_exists

abbrev pub skip_file : Reconciliation → Reconciliation
skip_file r = record r { skipped = r.skipped + 1 }

-- The result so far, and whether it comes with an error.
abbrev pub Walked : Type 0
Walked = (Reconciliation × Bool) × World

unfoldable pub count_adoption :
    (Reconciliation → World → Walked) → Reconciliation → Result Adoption × World → Walked
count_adoption rest r (err e, w) = ((r, true), w)
count_adoption rest r (ok no_owner, w) = rest (skip_file r) w
count_adoption rest r (ok known_file, w) = rest r w
count_adoption rest r (ok adopted_file, w) =
    if r.adopted + 1 == reconciliation_limit
    then ((record r { adopted = r.adopted + 1; cap_hit = true }, false), w)
    else rest (record r { adopted = r.adopted + 1 }) w

unfoldable pub reconcile_file :
    Text → ℕ → Option Text → (Reconciliation → World → Walked) → Reconciliation → World → Walked
reconcile_file key size none rest r w = rest (skip_file r) w
reconcile_file key size (some owner) rest r w = count_adoption rest r (adopt_file key owner size w)

unfoldable pub reconcile_entries : List WalkEntry → Reconciliation → World → Walked
reconcile_entries [] r w = ((r, false), w)
reconcile_entries (missing_entry ∷ entries) r w = ((r, false), w)
reconcile_entries (broken_entry ∷ entries) r w = ((r, true), w)
reconcile_entries (passed_over ∷ entries) r w = reconcile_entries entries r w
reconcile_entries (regular_file key size ∷ entries) r w =
    reconcile_file key size (file_owner key) (reconcile_entries entries) r w

unfoldable pub reconcile_storage : List WalkEntry → World → Walked
reconcile_storage entries w = reconcile_entries entries none_adopted w
