-- ===== src/Store/Dialect.antt =====
-- The engines of internal/db/db.go: ParseDialect, Rebind and the guard of prepareSQLiteFile. What
-- os.Stat, os.MkdirAll and the walk over the blob directory meet is given.
pub mod Rebound
use futo_notes_server.Objects.Steps.{is_empty}
use futo_notes_server.Blobs.{has_prefix}
use futo_notes_server.Prelude.{
  ◌≡◌, refl, [], ◌∷◌, true, false, none, some, zero, suc, List, Bool, Text, ℕ, Option, ◌==◌, ◌==◌,
  leb, if◌then◌else◌, ◌&&◌, ◌&&◌, not, codes, ◌||◌, ◌||◌, drop,
}
use futo_notes_server.Store.Monad.{postgres, sqlite, Engine}

pub record Dialect : Type 0 where
  pub engine : Engine
  pub path : Text

-- `none` is an error.
unfoldable pub parse_dialect : Text → Option Dialect
parse_dialect url =
    if has_prefix url (codes "postgres://") || has_prefix url (codes "postgresql://")
    then some (record { engine = postgres; path = [] })
    else (if has_prefix url (codes "sqlite:")
        then (if is_empty (drop 7 url)
            then none
            else some (record { engine = sqlite; path = drop 7 url }))
        else none)

abbrev pub starts_number : Text → Bool
starts_number [] = false
starts_number (c ∷ s) = leb b'1' c && leb c b'9'

-- The regular expression matches a '$' before a digit from 1, with the digits after it, which stay.
unfoldable pub rebind_placeholders : Text → Text
rebind_placeholders [] = []
rebind_placeholders (c ∷ s) =
    (if c == b'$' && starts_number s then b'?' else c) ∷ rebind_placeholders s

unfoldable pub rebind : Engine → Text → Text
rebind postgres query = query
rebind sqlite query = rebind_placeholders query

-- What os.Stat tells of a file: an error that says that it is missing, another one, or its size.
pub data FileStat : Type 0 where
  stat_missing stat_error : FileStat
  stat_size : ℕ → FileStat

-- What the walk over the blob directory meets.
pub data BlobEntry : Type 0 where
  gone_entry failed_entry other_entry regular_entry : BlobEntry

unfoldable pub contains_blob_files : List BlobEntry → Option Bool
contains_blob_files [] = some false
contains_blob_files (gone_entry ∷ entries) = some false
contains_blob_files (failed_entry ∷ entries) = none
contains_blob_files (other_entry ∷ entries) = contains_blob_files entries
contains_blob_files (regular_entry ∷ entries) = some true

abbrev guard_fresh : Bool → Option Bool → Bool
guard_fresh made none = false
guard_fresh made (some true) = false
guard_fresh made (some false) = made

abbrev is_fresh : FileStat → Bool
is_fresh stat_missing = true
is_fresh stat_error = false
is_fresh (stat_size n) = n == 0

abbrev prepare_known : FileStat → List BlobEntry → Bool → Bool → Bool
prepare_known stat entries allow_fresh made =
    if is_fresh stat && not allow_fresh
    then guard_fresh made (contains_blob_files entries)
    else made

-- Whether the file may be opened; `made` says whether its directory could be made.
unfoldable pub prepare_sqlite_file : FileStat → List BlobEntry → Bool → Bool → Bool
prepare_sqlite_file stat_error entries allow_fresh made = false
prepare_sqlite_file stat_missing entries allow_fresh made =
    prepare_known stat_missing entries allow_fresh made
prepare_sqlite_file (stat_size n) entries allow_fresh made =
    prepare_known (stat_size n) entries allow_fresh made
