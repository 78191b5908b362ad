-- ===== src/Server/Login/Guard.antt =====
-- Whom requireAuth lets through.
use futo_notes_server.Store.Sql.{delete_where}
use futo_notes_server.Auth.Session.Lifetime.{Validated, validate_session-Validated}
use futo_notes_server.Objects.Steps.{is_empty}
use futo_notes_server.Store.Rows.{SessionRow, UserRow}
use futo_notes_server.Server.Login.{Request, require_auth, with_session, is_login, token_of}
use futo_notes_server.Auth.Session.{Session, find_session, validate_session, session_has_id}
use futo_notes_server.Server.Reply.{H, Reply, answer_result}
use futo_notes_server.Prelude.{
  ◌≡◌, refl, true, false, none, some, Text, Bool-cases, ◌⊎◌, ◌⊎◌, ◌≤◌, Option, inl, ◌≤◌, ◌+◌, inr,
  ◌<◌, ◌<◌,
}
use futo_notes_server.Store.Monad.{ok, err, World, Result}

module _ (trim_space hash_token : Text → Text) (auth_mode : Text) (open_next : H)
    (next : Session → H) (r : Request) (w : World) where
  -- The handler runs for a session of the presented token that is not over, on unchanged tables.
  abbrev LetThrough : Reply × World → Type 0
  LetThrough out =
      (s : SessionRow) × (u : UserRow) × (v : World) × (find_session hash_token
          (token_of trim_space r) w.stored
        ≡ some (s, u))
      × (w.env.now (w.step + 1) < s.expires_at)
      × (v.stored ≡ w.stored)
      × (out ≡ next (record { id = s.id; user = u }) v)

  -- An error is answered, and no table changes but for a session that is over.
  abbrev TurnedAway : Reply × World → Type 0
  TurnedAway (a, v) =
      ((a.status ≡ 401) ⊎ (a.status ≡ 500))
      × ((v.stored ≡ w.stored)
          ⊎ ((s : SessionRow) × (s.expires_at ≤ w.env.now (w.step + 1))
              × (v.stored ≡ record w.stored {
                sessions = delete_where (session_has_id s.id) w.stored.sessions;
              })))

  -- Every request but one to the login path of the active mode.
  abbrev pub Guarded : Reply × World → Type 0
  Guarded out =
      (is_login auth_mode r ≡ true) × (out ≡ open_next w)
      ⊎ (is_login auth_mode r ≡ false)
        × ((is_empty (token_of trim_space r) ≡ false) × LetThrough out ⊎ TurnedAway out)

  answered :
      (a : Result (Option Session)) (v : World)
      → Validated hash_token (token_of trim_space r) w (a, v)
      → LetThrough (answer_result a (with_session trim_space hash_token next) v)
        ⊎ TurnedAway (answer_result a (with_session trim_space hash_token next) v)
  unfolding with_session
  answered a v (inl (s, u, found, live, told, same)) =
      inl (s, u, v, found, live, same, rw told refl)
  answered (err e) v (inr (nobody, left)) = inr (inr refl, left_by left)
    where
      left_by :
          ((v.stored ≡ w.stored)
            ⊎ ((s : SessionRow) × (u : UserRow) × (find_session hash_token
                    (token_of trim_space r)
                    w.stored
                  ≡ some (s, u))
                × (s.expires_at ≤ w.env.now (w.step + 1))
                × (v.stored ≡ record w.stored {
                  sessions = delete_where (session_has_id s.id) w.stored.sessions;
                })))
          → ((v.stored ≡ w.stored)
              ⊎ ((s : SessionRow) × (s.expires_at ≤ w.env.now (w.step + 1))
                  × (v.stored ≡ record w.stored {
                    sessions = delete_where (session_has_id s.id) w.stored.sessions;
                  })))
      left_by (inl same) = inl same
      left_by (inr (s, u, found, over, gone)) = inr (s, over, gone)
  answered (ok (some s)) v (inr (nobody, left)) = absurd (nobody s refl)
  answered (ok none) v (inr (nobody, inl same)) = inr (inl refl, inl same)
  answered (ok none) v (inr (nobody, inr (s, u, found, over, gone))) =
      inr (inl refl, inr (s, over, gone))

  -- A request reaches its handler only on the login path of the active mode, or with a token that is
  -- not empty and belongs to a session that is not over, and then with that session's user and
  -- unchanged tables. Any other is answered with 401 or 500, and changes nothing but that a session
  -- that is over may be removed.
  pub require_auth-Guarded :
      Guarded (require_auth trim_space hash_token auth_mode open_next next r w)
  unfolding require_auth
  require_auth-Guarded = elim (Bool-cases (is_login auth_mode r)) [
    | inl login ↦ inl (login, rw login refl)
    | inr closed ↦ elim (Bool-cases (is_empty (token_of trim_space r))) [
      | inl bare ↦ inr (closed, rw (closed, bare) (inr (inl refl, inl refl)))
      | inr bearing ↦
          let through =
            answered (validate_session hash_token (token_of trim_space r) w).0 _
              (validate_session-Validated hash_token (token_of trim_space r) w) in
          inr
            (closed, rw (closed, bearing) (elim through [ inl t ↦ inl (refl, t) | inr t ↦ inr t ]))
    ]
  ]
