-- ===== src/Server/Login.antt =====
-- The handlers of cmd/server/auth.go. Trimming and lower-casing text, the hashes and the text of a
-- new token are the libraries', so they are parameters; a body is what encoding/json reads of it.
pub mod Guard
pub mod Opened
pub mod Retry
use futo_notes_server.Auth.Password.{
  verify_scrypt, upsert_local_user, verify_plaintext, upsert_user_by_email,
}
use futo_notes_server.Objects.Steps.{is_empty}
use futo_notes_server.Ids.{in_range}
use futo_notes_server.Auth.Session.{Session, delete_session, validate_session, create_session}
use futo_notes_server.Store.Rows.{UserRow}
use futo_notes_server.Auth.RateLimit.{Attempt, allowed, RateWindow, allow}
use futo_notes_server.Prelude.{
  ◌≡◌, refl, [], ◌∷◌, true, false, none, some, zero, suc, Text, ℕ, Bool, codes, max, Option,
  if◌then◌else◌, leb, ◌+◌, ◌==◌, ◌==◌, List, ◌+◌, text_eq, ◌||◌, ◌&&◌, ◌/◌, ◌/◌, ◌||◌, length, ◌&&◌,
  take, drop,
}
use futo_notes_server.Store.Monad.{ok, err}
use futo_notes_server.Server.Reply.{
  logged_in, set_to, cleared, no_content, Reply, H, answer, write_error, write_json, reply,
  coded_error, server_error,
}

-- What requireAuth reads of a request.
pub record Request : Type 0 where
  pub path : Text
  pub session_cookie : Option Text
  pub authorization : Text

abbrev pub password_mode : Text
password_mode = codes "password"

abbrev pub dev_mode : Text
dev_mode = codes "dev"

-- The login path of the active mode.
unfoldable pub is_login : Text → Request → Bool
is_login auth_mode r =
    (text_eq auth_mode password_mode && text_eq r.path (codes "/api/auth/password/login"))
    || (text_eq auth_mode dev_mode && text_eq r.path (codes "/api/auth/dev/login"))

abbrev lower_byte : ℕ → ℕ
lower_byte c = if in_range b'A' b'Z' c then c + 32 else c

-- strings.EqualFold with "Bearer ", none of whose letters folds with a byte outside of ASCII.
unfoldable pub folds_to : Text → Text → Bool
folds_to [] [] = true
folds_to (c ∷ s) (d ∷ t) = lower_byte c == d && folds_to s t
folds_to _ _ = false

abbrev pub token_reply : UserRow → Text → Reply
token_reply u token = record (write_json 200 (logged_in u token)) { session_cookie = set_to token }

module _ (trim_space : Text → Text) where
  unfoldable pub bearer_token : Text → Text
  bearer_token header =
      if leb 7 (length header) && folds_to (take 7 header) (codes "bearer ")
      then trim_space (drop 7 header)
      else []

  -- The cookie first, then the header; an empty token is none.
  unfoldable pub token_of : Request → Text
  token_of r = elim r.session_cookie [
    | some value ↦ value
    | none ↦ if is_empty r.authorization then [] else bearer_token r.authorization
  ]

  module _ (hash_token : Text → Text) where
    abbrev pub invalid_session : Reply
    invalid_session =
        write_json 401 (coded_error (codes "session expired or invalid") (codes "invalid_session"))

    unfoldable pub with_session : (Session → H) → Option Session → H
    with_session next none = reply invalid_session
    with_session next (some s) = next s

    -- `open_next` is the handler of a login path, and `next` that of any other with its session.
    unfoldable pub require_auth : Text → H → (Session → H) → Request → H
    require_auth auth_mode open_next next r =
        if is_login auth_mode r
        then open_next
        else (if is_empty (token_of r)
            then reply (write_error 401 (codes "unauthorized"))
            else answer (validate_session hash_token (token_of r)) (with_session next))

    -- CreateSession and the answer of a login.
    unfoldable pub open_session : Text → UserRow → H
    open_session raw u =
        answer (create_session hash_token u.id raw) λ token. reply (token_reply u token)

    unfoldable pub handle_logout : Session → H
    handle_logout s =
        answer (delete_session hash_token s.id)
          λ _. reply (record (write_json 204 no_content) { session_cookie = cleared })

    module _ (to_lower : Text → Text) where
      -- strings.SplitN(email, "@", 2)[0].
      unfoldable pub before_at : Text → Text
      before_at [] = []
      before_at (c ∷ s) = let rest = before_at s in if c == b'@' then [] else c ∷ rest

      -- The e-mail address and the name, or what is wrong with them.
      unfoldable pub decode_dev_login : Option (Text × Text) → Option (Text × Text) × Text
      decode_dev_login none = (none, codes "invalid json")
      decode_dev_login (some (email, name)) =
          let email = to_lower (trim_space email) in
          let given = trim_space name in
          let name = if is_empty given then before_at email else given in
          if is_empty email || is_empty name
          then (none, codes "email is required")
          else (some (email, name), [])

      unfoldable pub handle_dev_login : Text → Option (Text × Text) → H
      handle_dev_login raw body =
          let (login, problem) = decode_dev_login body in
          elim login [
            | none ↦ reply (write_error 400 problem)
            | some (email, name) ↦ answer (upsert_user_by_email email name) (open_session raw)
          ]

    module _ (hex_decode : Text → Option Text) (scrypt_key : Text → Text → Option Text) where
      -- The configured password, or else the configured hash; `none` is an error of the latter.
      unfoldable pub check_password : Text → Text → Text → Option Bool
      check_password configured password_hash password =
          if is_empty configured
          then verify_scrypt hex_decode scrypt_key password password_hash
          else some (verify_plaintext password configured)

      unfoldable pub log_in : Text → Option Bool → H
      log_in raw none = reply server_error
      log_in raw (some false) = reply (write_error 401 (codes "invalid password"))
      log_in raw (some true) = answer upsert_local_user (open_session raw)

      unfoldable pub handle_password_login : Text → Text → Text → Option Text → H
      handle_password_login configured password_hash raw none =
          reply (write_error 400 (codes "invalid json"))
      handle_password_login configured password_hash raw (some password) =
          if is_empty password
          then reply (write_error 400 (codes "password is required"))
          else (if is_empty configured && is_empty password_hash
              then reply (write_error 500 (codes "no password set"))
              else log_in raw (check_password configured password_hash password))

-- The seconds of Retry-After for a time in milliseconds.
unfoldable pub retry_seconds : ℕ → ℕ
retry_seconds t = max ((t + 999) / 1000) 1

-- The host of the peer's address, when net.SplitHostPort finds one, or the whole address.
abbrev pub client_of : (Text → Option Text) → Text → Text
client_of split_host address = elim (split_host address) [ none ↦ address | some host ↦ host ]

-- rateLimited: the answer that is given in place of the handler's, if any, and the limiter's map.
unfoldable pub limited : Attempt → Option Reply
limited allowed = none
limited (Attempt.refused t) =
    some (record (write_error 429 (codes "too many requests")) {
      retry_after = some (retry_seconds t);
    })

unfoldable pub rate_limited :
    (Text → Option Text) → Text → ℕ → List RateWindow → Option Reply × List RateWindow
rate_limited split_host address now windows =
    let (told, windows) = allow (client_of split_host address) now windows in
    (limited told, windows)
