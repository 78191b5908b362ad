-- ===== src/Auth/Session.antt =====
-- The sessions of internal/auth/session.go. HashToken is SHA-256 and GenerateToken reads the
-- system's random source, so the hash is a parameter and the token an argument.
pub mod Lifetime
pub mod Presented
use futo_notes_server.Objects.Steps.{is_row}
use futo_notes_server.Store.Sql.{delete_where, select_row, select_where}
use futo_notes_server.Store.Rows.{UserRow, SessionRow}
use futo_notes_server.Store.Monad.{◌>>=◌, ◌>>◌, M, db_exec, Db, pure, db_query, time_now, new_uuid}
use futo_notes_server.Prelude.{
  ◌≡◌, refl, [], ◌∷◌, true, false, none, some, zero, suc, ℕ, Text, Option, Bool, if◌then◌else◌, ltb,
  text_eq, ◌&&◌, ◌&&◌, not, ◌+◌, ◌+◌, length, leb,
}

-- SessionTTL, in milliseconds.
abbrev pub session_ttl : ℕ
session_ttl = 604800000

pub record Session : Type 0 where
  pub id : Text
  pub user : UserRow

abbrev pub session_has_id : Text → SessionRow → Bool
session_has_id id s = text_eq s.id id

abbrev pub user_has_id : Text → UserRow → Bool
user_has_id id u = text_eq u.id id

module _ (hash_token : Text → Text) where
  abbrev pub hash_of : Text → SessionRow → Bool
  hash_of raw s = text_eq s.access_token_hash (hash_token raw)

  -- sessions JOIN users.
  unfoldable pub join_user : Db → Option SessionRow → Option (SessionRow × UserRow)
  join_user d none = none
  join_user d (some s) = elim (select_row (user_has_id s.user_id) d.users) [
    | none ↦ none
    | some u ↦ some (s, u)
  ]

  unfoldable pub find_session : Text → Db → Option (SessionRow × UserRow)
  find_session raw d = join_user d (select_row (hash_of raw) d.sessions)

  unfoldable pub delete_session : Text → M (Unit {0})
  delete_session id =
      db_exec (λ d. some (tt, record d { sessions = delete_where (session_has_id id) d.sessions }))

  unfoldable pub check_session : Option (SessionRow × UserRow) → M (Option Session)
  check_session none = pure none
  check_session (some (s, u)) = do
    now ← time_now
    if leb s.expires_at now
        then (do delete_session s.id; pure none)
        else pure (some (record { id = s.id; user = u }))

  unfoldable pub validate_session : Text → M (Option Session)
  validate_session raw = do found ← db_query (find_session raw); check_session found

  -- The foreign key on users, and the unique hash.
  unfoldable pub insert_session : SessionRow → Db → Option (Unit {0} × Db)
  insert_session s d =
      if is_row (select_row (user_has_id s.user_id) d.users)
        && not (
            is_row (
              select_row (λ (t : SessionRow). text_eq t.access_token_hash s.access_token_hash)
                d.sessions))
      then some (tt, record d { sessions = s ∷ d.sessions })
      else none

  unfoldable pub create_session : Text → Text → M Text
  create_session user_id raw = do
    id ← new_uuid
    now ← time_now
    db_exec (
        insert_session (record {
          id = id;
          user_id = user_id;
          access_token_hash = hash_token raw;
          expires_at = now + session_ttl;
        }))
    pure raw

-- ReapSessions of internal/jobs/jobs.go, with RowsAffected.
abbrev pub has_expired : ℕ → SessionRow → Bool
has_expired now s = ltb s.expires_at now

unfoldable pub reap_sessions : M ℕ
reap_sessions = do
  now ← time_now
  db_exec (λ d. some (
    length (select_where (has_expired now) d.sessions),
    record d { sessions = delete_where (has_expired now) d.sessions },
  ))
