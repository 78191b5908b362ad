-- ===== src/Auth/Session/Lifetime.antt =====
-- What a token is good for, and for how long.
use futo_notes_server.Store.Sql.{delete_where}
use futo_notes_server.Store.Rules.{db_exec-bind}
use futo_notes_server.Store.Rows.{SessionRow, UserRow}
use futo_notes_server.Auth.Session.{
  check_session, validate_session, delete_session, Session, find_session, session_has_id,
}
use futo_notes_server.Store.Monad.{World, time_now, Result, db_query, attempt, ok, Db}
use futo_notes_server.Prelude.{
  ◌≡◌, refl, none, some, Text, Option, Bool-cases, inl, inr, ◌+◌, ◌<◌, leb, ◌<◌, ◌⊎◌, ◌⊎◌, ◌≢◌, ◌≢◌,
  ◌≤◌, leb→le, ◌≤◌, arith, sym, ap,
}

-- What a statement leaves.
abbrev left_db : Db → Option (Unit {0} × Db) → Db
left_db d none = d
left_db d (some (u, d')) = d'

module _ (hash_token : Text → Text) where
  -- A session that is told belongs to the token and is not over at the clock's next reading, and
  -- nothing is written; none is told after an error of the database or when the token's session is
  -- over, and then no other session is touched.
  abbrev pub Validated : Text → World → Result (Option Session) × World → Type 0
  Validated raw w (r, w') =
      ((s : SessionRow) × (u : UserRow) × (find_session hash_token raw w.stored ≡ some (s, u))
        × (w.env.now (w.step + 1) < s.expires_at)
        × (r ≡ ok (some (record { id = s.id; user = u })))
        × (w'.stored ≡ w.stored))
      ⊎ (((s : Session) → r ≢ ok (some s))
          × ((w'.stored ≡ w.stored)
              ⊎ ((s : SessionRow) × (u : UserRow) × (find_session hash_token raw w.stored
                    ≡ some (s, u))
                  × (s.expires_at ≤ w.env.now (w.step + 1))
                  × (w'.stored ≡ record w.stored {
                    sessions = delete_where (session_has_id s.id) w.stored.sessions;
                  }))))

  check_session-Validated :
      (raw : Text) (w : World) (found : Option (SessionRow × UserRow))
      → find_session hash_token raw w.stored ≡ found
      → Validated raw w (check_session hash_token found (record w { step = w.step + 1 }))
  unfolding check_session time_now delete_session
  check_session-Validated raw w none e = inr (λ s. (λ h. absurd (cc)), inl refl)
  check_session-Validated raw w (some (s, u)) e =
      elim (Bool-cases (leb s.expires_at (w.env.now (w.step + 1)))) [
        | inl over ↦ rw over (
            db_exec-bind (Validated raw w)
              (λ d.
                some (tt, record d { sessions = delete_where (session_has_id s.id) d.sessions }))
              _ _ (λ m. inr (λ s. (λ h. absurd (cc)), inl refl))
              λ n a d h. inr (
                λ s. (λ h. absurd (cc)),
                inr (s, u, e, leb→le _ _ over, sym (ap (left_db w.stored) h)),
              ))
        | inr live ↦ rw live (inl (s, u, e, ground arith, refl, refl))
      ]

  -- Presenting a token tells its user only while its session lasts; only a session that is over may
  -- be removed, and nothing else is ever changed.
  pub validate_session-Validated :
      (raw : Text) (w : World) → Validated raw w (validate_session hash_token raw w)
  unfolding validate_session db_query attempt
  validate_session-Validated raw w = elim (Bool-cases (w.env.fails w.step)) [
    | inl e ↦ rw e (inr (λ s. (λ h. absurd (cc)), inl refl))
    | inr e ↦ rw e (check_session-Validated raw w _ refl)
  ]
