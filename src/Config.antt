-- ===== src/Config.antt =====
-- The configuration: Load of internal/config/config.go and loadDotenv of internal/config/dotenv.go.
-- strings.TrimSpace, strconv.Atoi and what os.Setenv takes are parameters.
pub mod Environment
pub mod Loaded
use futo_notes_server.Server.Login.{dev_mode, password_mode}
use futo_notes_server.Auth.Password.{split_on}
use futo_notes_server.Objects.Steps.{is_empty, is_row}
use futo_notes_server.Store.Sql.{select_row}
use futo_notes_server.Blobs.{has_prefix}
use futo_notes_server.Prelude.{
  ◌≡◌, refl, [], ◌∷◌, true, false, none, some, zero, suc, Text, ℕ, Option, if◌then◌else◌, Bool,
  List, text_eq, codes, ◌&&◌, ◌==◌, ◌==◌, not, ◌&&◌, ◌||◌, ◌||◌, drop, length,
}

-- The process's environment.
pub record Variable : Type 0 where
  pub name : Text
  pub content : Text

abbrev pub is_named : Text → Variable → Bool
is_named name v = text_eq v.name name

-- os.LookupEnv.
abbrev pub lookup_env : Text → List Variable → Option Variable
lookup_env name env = select_row (is_named name) env

abbrev content_of : Option Variable → Text
content_of none = []
content_of (some v) = v.content

-- os.Getenv.
unfoldable pub get_env : Text → List Variable → Text
get_env name env = content_of (lookup_env name env)

-- strings.TrimPrefix.
abbrev pub trim_prefix : Text → Text → Text
trim_prefix p s = if has_prefix s p then drop (length p) s else s

-- strings.Cut(line, "=").
abbrev before_sign : ℕ → Option (Text × Text) → Option (Text × Text)
before_sign c none = none
before_sign c (some (key, value)) = some (c ∷ key, value)

unfoldable pub cut_sign : Text → Option (Text × Text)
cut_sign [] = none
cut_sign (c ∷ s) = let rest = cut_sign s in if c == b'=' then some ([], s) else before_sign c rest

unfoldable pub last_byte : ℕ → Text → ℕ
last_byte d [] = d
last_byte d (c ∷ s) = last_byte c s

unfoldable pub without_last : Text → Text
without_last [] = []
without_last (c ∷ []) = []
without_last (c ∷ d ∷ s) = c ∷ without_last (d ∷ s)

abbrev is_quote : ℕ → Bool
is_quote c = c == 34 || c == 39

abbrev is_blank_byte : ℕ → Bool
is_blank_byte c = c == b' ' || c == 9

-- What stands before a comment: from the second byte on, a '#' after a blank.
unfoldable pub before_comment : Text → Option Text
before_comment [] = none
before_comment (c ∷ []) = none
before_comment (c ∷ d ∷ s) =
    let rest = before_comment (d ∷ s) in
    if d == b'#' && is_blank_byte c
    then some (c ∷ [])
    else (elim rest [ none ↦ none | some t ↦ some (c ∷ t) ])

module _ (trim_space : Text → Text) where
  unfoldable pub unquoted_value : Text → Text
  unquoted_value raw = elim (before_comment raw) [ none ↦ raw | some t ↦ trim_space t ]

  unfoldable pub parse_value : Text → Text
  parse_value [] = unquoted_value []
  parse_value (q ∷ []) = unquoted_value (q ∷ [])
  parse_value (q ∷ c ∷ s) =
      if is_quote q && last_byte c s == q then without_last (c ∷ s) else unquoted_value (q ∷ c ∷ s)

  module _ (settable : Text → Text → Bool) where
    -- os.Setenv on a name that is not set.
    abbrev set_missing : Text → Text → List Variable → List Variable
    set_missing name content env =
        if is_row (lookup_env name env) || not (settable name content)
        then env
        else record { name = name; content = content } ∷ env

    abbrev set_cut : Option (Text × Text) → List Variable → List Variable
    set_cut none env = env
    set_cut (some (key, value)) env =
        set_missing (trim_space key) (parse_value (trim_space value)) env

    unfoldable pub load_line : Text → List Variable → List Variable
    load_line raw env =
        let line = trim_space raw in
        if is_empty line || has_prefix line (codes "#")
        then env
        else set_cut (cut_sign (trim_prefix (codes "export ") line)) env

    unfoldable pub load_lines : List Text → List Variable → List Variable
    load_lines [] env = env
    load_lines (line ∷ lines) env = load_lines lines (load_line line env)

    -- A file that is missing is no error; `none` is another error of reading it.
    unfoldable pub load_dotenv : Option (Option Text) → List Variable → Option (List Variable)
    load_dotenv none env = none
    load_dotenv (some none) env = some env
    load_dotenv (some (some contents)) env = some (load_lines (split_on 10 contents) env)

-- An int that strconv.Atoi reads.
pub data GoInt : Type 0 where
  plus minus : ℕ → GoInt

pub record ServerConfig : Type 0 where
  pub database_url : Text
  pub port : GoInt
  pub auth_mode : Text
  pub password : Text
  pub password_hash : Text
  pub cookie_secure : Bool
  pub dev_ui : Bool
  pub blob_dir : Text
  pub blob_gc_enabled : Bool
  pub allow_fresh_database : Bool
  pub pool : Option (GoInt × GoInt)

unfoldable pub get_default : Text → Text → List Variable → Text
get_default name fallback env = let v = get_env name env in if is_empty v then fallback else v

abbrev pub auth_problem : Text → Text → Text → Bool
auth_problem mode password password_hash =
    not (text_eq mode dev_mode || text_eq mode password_mode)
    || (text_eq mode password_mode
        && ((not (is_empty password) && not (is_empty password_hash))
            || (is_empty password && is_empty password_hash)))

abbrev pub is_postgres_url : Text → Bool
is_postgres_url url = has_prefix url (codes "postgres://") || has_prefix url (codes "postgresql://")

module _ (atoi : Text → Option GoInt) where
  unfoldable pub get_int : Text → ℕ → List Variable → Option GoInt
  get_int name fallback env =
      let v = get_env name env in if is_empty v then some (plus fallback) else atoi v

  -- The pool of a Postgres server: its size and its idle time in milliseconds.
  unfoldable pub load_pool : Text → List Variable → Option (Option (GoInt × GoInt))
  load_pool url env =
      if is_postgres_url url
      then (elim (get_int (codes "DB_POOL_MAX") 10 env) [
        | none ↦ none
        | some size ↦ elim (get_int (codes "DB_POOL_IDLE_TIMEOUT_MS") 10000 env) [
          | none ↦ none
          | some idle ↦ some (some (size, idle))
        ]
      ])
      else some none

  abbrev with_pool :
      (GoInt → Option (GoInt × GoInt) → ServerConfig)
      → Option GoInt
      → Option (Option (GoInt × GoInt))
      → Option ServerConfig
  with_pool make none pool = none
  with_pool make (some port) none = none
  with_pool make (some port) (some pool) = some (make port pool)

  abbrev config_from :
      Text → Text → Text → Text → List Variable → GoInt → Option (GoInt × GoInt) → ServerConfig
  config_from url mode password password_hash env port pool = record {
    database_url = url;
    port = port;
    auth_mode = mode;
    password = password;
    password_hash = password_hash;
    cookie_secure = not (text_eq (get_env (codes "COOKIE_SECURE") env) (codes "false"));
    dev_ui = text_eq (get_env (codes "DEV_UI") env) (codes "true");
    blob_dir = get_default (codes "BLOB_DIR") (codes "./blobs") env;
    blob_gc_enabled = not (text_eq (get_env (codes "BLOB_GC_ENABLED") env) (codes "false"));
    allow_fresh_database = text_eq (get_env (codes "ALLOW_FRESH_DATABASE") env) (codes "true");
    pool = pool;
  }

  abbrev load_checked : Text → Text → Text → Text → List Variable → Option ServerConfig
  load_checked url mode password password_hash env =
      if auth_problem mode password password_hash
      then none
      else with_pool (config_from url mode password password_hash env)
          (get_int (codes "PORT") 3005 env) (load_pool url env)

  -- Load, once the .env file is read; `none` is one of its errors.
  unfoldable pub load : List Variable → Option ServerConfig
  load env =
      load_checked (get_default (codes "DATABASE_URL") (codes "sqlite:./data/notes.db") env)
        (get_default (codes "AUTH_MODE") password_mode env)
        (get_env (codes "FUTO_NOTES_PASSWORD") env) (get_env (codes "FUTO_NOTES_PASSWORD_HASH") env)
        env
