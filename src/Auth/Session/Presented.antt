-- ===== src/Auth/Session/Presented.antt =====
-- What becomes of a token that is presented, in each case.
use futo_notes_server.Store.Sql.{delete_where, select_row}
use futo_notes_server.Store.Steps.{db_query-next, time_now-next, db_write-next}
use futo_notes_server.Store.Rows.{SessionRow, UserRow}
use futo_notes_server.Auth.Session.{
  check_session, validate_session, delete_session, Session, find_session, session_has_id, hash_of,
  join_user, user_has_id,
}
use futo_notes_server.Store.Monad.{World, Result, ok, err, internal, Db, pure, tick}
use futo_notes_server.Prelude.{
  ◌≡◌, refl, none, some, true, Text, Option, Bool-cases, Option-cases, inl, inr, ◌+◌, ◌<◌, leb, ◌⊎◌,
  ◌≤◌, leb→le, arith,
}

module _ (hash_token : Text → Text) where
  -- The session that is stored under the token's hash, and its user.
  abbrev pub Holds : Text → Db → SessionRow → UserRow → Type 0
  Holds raw d s u =
      (select_row (hash_of hash_token raw) d.sessions ≡ some s)
      × (select_row (user_has_id s.user_id) d.users ≡ some u)

  abbrev pub HoldsNone : Text → Db → Type 0
  HoldsNone raw d =
      (select_row (hash_of hash_token raw) d.sessions ≡ none)
      ⊎ ((s : SessionRow) × (select_row (hash_of hash_token raw) d.sessions ≡ some s)
          × (select_row (user_has_id s.user_id) d.users ≡ none))

  -- An error, where the query, or the removal two steps on, fails.
  abbrev pub Fails : World → Result (Option Session) × World → Type 0
  Fails w (r, w') =
      ((w.env.fails w.step ≡ true) ⊎ (w.env.fails (w.step + 1 + 1) ≡ true))
      × (r ≡ err internal)
      × (w'.stored ≡ w.stored)

  -- The token is nobody's.
  abbrev pub Unknown : Text → World → Result (Option Session) × World → Type 0
  Unknown raw w (r, w') = HoldsNone raw w.stored × (r ≡ ok none) × (w'.stored ≡ w.stored)

  -- Its session lasts, and is told with its user.
  abbrev pub Told : Text → World → Result (Option Session) × World → Type 0
  Told raw w (r, w') =
      (s : SessionRow) × (u : UserRow) × Holds raw w.stored s u
      × (w.env.now (w.step + 1) < s.expires_at)
      × (r ≡ ok (some (record { id = s.id; user = u })))
      × (w'.stored ≡ w.stored)

  -- Its session is over, and is removed.
  abbrev pub Removed : Text → World → Result (Option Session) × World → Type 0
  Removed raw w (r, w') =
      (s : SessionRow) × (u : UserRow) × Holds raw w.stored s u
      × (s.expires_at ≤ w.env.now (w.step + 1))
      × (r ≡ ok none)
      × (w'.stored
          ≡ record w.stored { sessions = delete_where (session_has_id s.id) w.stored.sessions })

  abbrev pub Presented : Text → World → Result (Option Session) × World → Type 0
  Presented raw w out = Fails w out ⊎ Unknown raw w out ⊎ Told raw w out ⊎ Removed raw w out

  check_session-Presented :
      (raw : Text) (w : World) (s : SessionRow) (u : UserRow)
      → Holds raw w.stored s u
      → Presented raw w (check_session hash_token (some (s, u)) (tick w))
  unfolding check_session delete_session
  check_session-Presented raw w s u holds =
      time_now-next (Presented raw w) _ (tick w)
        (elim (Bool-cases (leb s.expires_at (w.env.now (w.step + 1)))) [
          | inl over ↦ rw over (
              db_write-next (Presented raw w) (λ d. tt)
                (λ d. record d { sessions = delete_where (session_has_id s.id) d.sessions })
                (λ _. pure none) (tick (tick w)) (λ e. inl (inr e, refl, refl))
                (inr (inr (inr (s, u, holds, leb→le _ _ over, refl, refl)))))
          | inr live ↦ rw live (inr (inr (inl (s, u, holds, ground arith, refl, refl))))
        ])

  join_user-none :
      (d : Db) (s : SessionRow)
      → select_row (user_has_id s.user_id) d.users ≡ none
      → join_user hash_token d (some s) ≡ none
  unfolding join_user
  join_user-none d s lost = rw (lost, join_user) refl

  join_user-some :
      (d : Db) (s : SessionRow) (u : UserRow)
      → select_row (user_has_id s.user_id) d.users ≡ some u
      → join_user hash_token d (some s) ≡ some (s, u)
  unfolding join_user
  join_user-some d s u known = rw (known, join_user) refl

  unknown :
      (raw : Text) (w : World)
      → HoldsNone raw w.stored
      → Presented raw w (check_session hash_token none (tick w))
  unfolding check_session
  unknown raw w why = inr (inl (why, refl, refl))

  joined :
      (raw : Text) (w : World) (o : Option SessionRow)
      → select_row (hash_of hash_token raw) w.stored.sessions ≡ o
      → Presented raw w (check_session hash_token (join_user hash_token w.stored o) (tick w))
  joined raw w none gone = unfold join_user in unknown raw w (inl gone)
  joined raw w (some s) there =
      elim (Option-cases (select_row (user_has_id s.user_id) w.stored.users)) [
        | inl lost ↦ rw (join_user-none w.stored s lost) (unknown raw w (inr (s, there, lost)))
        | inr (u, known) ↦
            rw (join_user-some w.stored s u known)
              (check_session-Presented raw w s u (there, known))
      ]

  -- A token that is presented has one of four outcomes: an error of the database, at the query or the
  -- removal, and no table changes; no session or no user is stored for the token, it is refused and no
  -- table changes; its session lasts at the time of the check, and exactly this session and its user
  -- are told and no table changes; or the session is over, the token is refused and the session is
  -- removed, with nothing else changed.
  pub validate_session-Presented :
      (raw : Text) (w : World) → Presented raw w (validate_session hash_token raw w)
  unfolding validate_session find_session
  validate_session-Presented raw w =
      db_query-next (Presented raw w) (find_session hash_token raw) (check_session hash_token) w
        (λ e. inl (inl e, refl, refl)) (joined raw w _ refl)
