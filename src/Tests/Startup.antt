-- ===== src/Tests/Startup.antt =====
-- The configuration and the event stream at concrete inputs.
use futo_notes_server.Events.{drain, enqueue}
use futo_notes_server.Store.Dialect.{rebind, rebind_placeholders}
use futo_notes_server.Store.Dialect.Rebound.{Rewrites, rebind-Rewrites}
use futo_notes_server.Store.Monad.{postgres, sqlite}
use futo_notes_server.Prelude.{length}
use futo_notes_server.Blobs.{has_prefix}
use futo_notes_server.Config.Loaded.{load-Startable}
use futo_notes_server.Auth.Password.{split_on}
use futo_notes_server.Server.Stream.Told.{changes_told, announced, handle_sync_events-told}
use futo_notes_server.Objects.Steps.{is_empty}
use futo_notes_server.Config.Environment.{load_dotenv-keeps}
use futo_notes_server.Events.Pending.{highest}
use futo_notes_server.Store.Sql.{select_row}
use futo_notes_server.Config.{
  Variable, load_dotenv, load, lookup_env, ServerConfig, load_lines, get_default, plus, GoInt,
  get_env, get_int, load_pool,
}
use futo_notes_server.Prelude.{
  ◌≡◌, refl, [], ◌∷◌, true, false, none, some, max, codes, Text, List, ◌⊎◌, ◌⊎◌, text_eq, Bool,
  Option, not,
}
use futo_notes_server.Tests.World.{ann, vault}
use futo_notes_server.Server.Stream.{
  announces, wakes, ticks, handle_sync_events, Moment, stream_moments, stream_step, receive_wake,
  tell_drained,
}

abbrev as_is : Text → Text
as_is s = s

abbrev any_setting : Text → Text → Bool
any_setting name content = true

abbrev small_int : Text → Option GoInt
small_int s = none

abbrev set_mode : Variable
set_mode = record { name = codes "AUTH_MODE"; content = codes "password" }

abbrev set_password : Variable
set_password = record { name = codes "FUTO_NOTES_PASSWORD"; content = codes "hunter2" }

abbrev given : List Variable
given = set_mode ∷ set_password ∷ []

abbrev env_file : Text
env_file = codes "AUTH_MODE=dev"

abbrev loaded : List Variable
loaded = load_lines as_is any_setting (split_on 10 env_file) given

mode_set : lookup_env (codes "AUTH_MODE") given ≡ some set_mode
unfolding select_row text_eq
mode_set = refl

file_loads : load_dotenv as_is any_setting (some (some env_file)) given ≡ some loaded
unfolding load_dotenv
file_loads = refl

load_dotenv-keeps_example : lookup_env (codes "AUTH_MODE") loaded ≡ some set_mode
load_dotenv-keeps_example =
    load_dotenv-keeps as_is any_setting (some (some env_file)) given loaded (codes "AUTH_MODE")
      set_mode file_loads mode_set

abbrev started : ServerConfig
started = record {
  database_url = codes "sqlite:./data/notes.db";
  port = plus 3005;
  auth_mode = codes "password";
  password = codes "hunter2";
  password_hash = [];
  cookie_secure = true;
  dev_ui = false;
  blob_dir = codes "./blobs";
  blob_gc_enabled = true;
  allow_fresh_database = false;
  pool = none;
}

given_starts : load small_int given ≡ some started
unfolding load get_default get_env get_int load_pool select_row text_eq has_prefix
given_starts = refl

load-Startable_example :
    (started.auth_mode ≡ codes "dev")
    ⊎ ((started.auth_mode ≡ codes "password")
        × (is_empty started.password ≡ not (is_empty started.password_hash)))
load-Startable_example = load-Startable small_int given started given_starts

abbrev moments : List Moment
moments =
    announces (record { collection_id = vault; current_version = 7 })
    ∷ ticks true
    ∷ announces (record { collection_id = vault; current_version = 5 })
    ∷ wakes true
    ∷ []

stream_on : (handle_sync_events 1 ann moments).ended ≡ false
unfolding handle_sync_events stream_moments stream_step receive_wake tell_drained drain enqueue
stream_on = refl

stream_open : (handle_sync_events 1 ann moments).subscription.closed ≡ false
unfolding handle_sync_events stream_moments stream_step receive_wake tell_drained drain enqueue
stream_open = refl

handle_sync_events-told_example :
    (max
        (highest vault (changes_told (handle_sync_events 1 ann moments).told))
        (highest vault (handle_sync_events 1 ann moments).subscription.pending)
      ≡ highest vault (announced moments))
    × ((handle_sync_events 1 ann moments).subscription.wake ≡ false
        → highest vault (changes_told (handle_sync_events 1 ann moments).told)
          ≡ highest vault (announced moments))
handle_sync_events-told_example = handle_sync_events-told 1 ann moments stream_on stream_open vault

abbrev query : Text
query = codes "SELECT $1, $12, '$0'"

numbered_question_marks : rebind sqlite query ≡ codes "SELECT ?1, ?12, '$0'"
unfolding rebind rebind_placeholders
numbered_question_marks = refl

rebind-Rewrites_example :
    (rebind postgres query ≡ query)
    × Rewrites query (rebind sqlite query) 7
    × (length (rebind sqlite query) ≡ length query)
    × (rebind sqlite (rebind sqlite query) ≡ rebind sqlite query)
rebind-Rewrites_example = rebind-Rewrites query 7
