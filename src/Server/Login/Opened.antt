-- ===== src/Server/Login/Opened.antt =====
-- Whom handlePasswordLogin gives a session.
use futo_notes_server.Auth.Session.{insert_session, create_session, hash_of, session_ttl}
use futo_notes_server.Server.Login.{
  open_session, log_in, handle_password_login, check_password, token_reply,
}
use futo_notes_server.Objects.Steps.{is_row, is_empty}
use futo_notes_server.Store.Rules.{
  db_query-bind, at_step, new_uuid-bind, db_exec-bind, time_now-bind,
}
use futo_notes_server.Store.Sql.{select_row}
use futo_notes_server.Auth.Password.Verified.{Accepts, verify_scrypt-Accepts}
use futo_notes_server.Store.Rows.{UserRow, SessionRow}
use futo_notes_server.Auth.Password.{
  inserted_user, found_user, insert_user, upsert_local_user, has_sub, singleton_sub, user_clashes,
  singleton_email, singleton_name, verify_plaintext,
}
use futo_notes_server.Prelude.{
  ◌≡◌, ◌≢◌, ◌≤◌, [], text_eq→≡, refl, ◌∷◌, true, false, none, some, ℕ, Option, text_eq, ◌⊎◌, ◌⊎◌,
  inl, Bool-cases, ap, inr, arith, Text, text_eq_refl, Bool, ◌+◌, ◌&&◌, ◌∙◌, ◌∙◌,
}
use futo_notes_server.Store.Monad.{ok, err, World, Result, lift, Db}
use futo_notes_server.Server.Reply.{logged_in, write_error, set_to, answer_result, Reply, reply}

module _ (w : World) where
  -- The sessions are as they were, and the user that is told is the one of password mode.
  abbrev Local : Result UserRow × World → Type 0
  Local (ok u, v) =
      (v.stored.sessions ≡ w.stored.sessions)
      × (select_row (has_sub singleton_sub) v.stored.users ≡ some u)
  Local (err e, v) = v.stored.sessions ≡ w.stored.sessions

  insert_user-inv :
      (u : UserRow) (d d' : Db) (told : Option UserRow)
      → insert_user u d ≡ some (told, d')
      → (told ≡ none) × (d' ≡ d) ⊎ (told ≡ some u) × (d' ≡ record d { users = u ∷ d.users })
  unfolding insert_user
  insert_user-inv u d d' told e = elim (Bool-cases (is_row (select_row (has_sub u.sub) d.users))) [
    | inl there ↦ inl (ground arith, ground arith)
    | inr new ↦ elim (Bool-cases (user_clashes u d)) [
      | inl clash ↦ absurd (ground arith)
      | inr free ↦ inr (ground arith, ground arith)
    ]
  ]

  lift-Local :
      (found : Option UserRow) (v : World)
      → v.stored.sessions ≡ w.stored.sessions
      → select_row (has_sub singleton_sub) v.stored.users ≡ found
      → Local (lift found v)
  unfolding lift
  lift-Local none v same e = same
  lift-Local (some u) v same e = (same, e)

  inserted_user-Local :
      (u : UserRow) (told : Option UserRow) (v : World)
      → text_eq u.sub singleton_sub ≡ true
      → (told ≡ none) × (v.stored ≡ w.stored)
        ⊎ (told ≡ some u) × (v.stored ≡ record w.stored { users = u ∷ w.stored.users })
      → Local (inserted_user told v)
  unfolding inserted_user select_row
  inserted_user-Local u told v own (inl (lost, same)) = rw lost (
      db_query-bind Local (λ d. select_row (has_sub singleton_sub) d.users) lift v
        (λ m. ap (λ d. d.sessions) same) λ n. lift-Local _ _ (ap (λ d. d.sessions) same) refl)
  inserted_user-Local u told v own (inr (won, grown)) = rw (won, grown) (refl, rw own refl)

  found_user-Local :
      (n : ℕ) (found : Option UserRow)
      → select_row (has_sub singleton_sub) w.stored.users ≡ found
      → Local (found_user found (at_step w n))
  unfolding found_user
  found_user-Local n (some u) e = (refl, e)
  found_user-Local n none e = new_uuid-bind Local _ _ λ n₁ id.
      db_exec-bind Local
        (insert_user
          (record { id = id; sub = singleton_sub; email = singleton_email; name = singleton_name }))
        _ _ (λ m. refl)
        λ n₂ told d h.
          inserted_user-Local _ told _ (text_eq_refl singleton_sub)
            (insert_user-inv _ w.stored d told h)

  upsert_local_user-Local : Local (upsert_local_user w)
  unfolding upsert_local_user
  upsert_local_user-Local =
      db_query-bind Local (λ d. select_row (has_sub singleton_sub) d.users) _ w (λ m. refl)
        λ n. found_user-Local n _ refl

module _ (trim_space hash_token : Text → Text) where
  -- The token's session is stored for the user, or no session has changed; the users stay.
  abbrev Created : Text → Text → World → Result Text × World → Type 0
  Created user_id raw w (ok token, v) =
      (token ≡ raw)
      × (v.stored.users ≡ w.stored.users)
      × ((s : SessionRow) × (select_row (hash_of hash_token raw) v.stored.sessions ≡ some s)
          × (s.user_id ≡ user_id))
  Created user_id raw w (err e, v) = v.stored.sessions ≡ w.stored.sessions

  insert_session-inv :
      (s : SessionRow) (d d' : Db) (u : Unit {0})
      → insert_session hash_token s d ≡ some (u, d')
      → d' ≡ record d { sessions = s ∷ d.sessions }
  unfolding insert_session
  insert_session-inv s d d' u e = ground arith

  create_session-Created :
      (user_id raw : Text) (w : World)
      → Created user_id raw w (create_session hash_token user_id raw w)
  unfolding create_session select_row
  create_session-Created user_id raw w = new_uuid-bind (Created user_id raw w) _ w λ n id.
      time_now-bind (Created user_id raw w) _ _ λ n₁ now.
        let new : SessionRow = record {
          id = id;
          user_id = user_id;
          access_token_hash = hash_token raw;
          expires_at = now + session_ttl;
        } in
        db_exec-bind (Created user_id raw w) (insert_session hash_token new) _ (at_step w n₁)
          (λ m. refl)
          λ n₂ u d h.
            rw (insert_session-inv new w.stored d u h)
              (refl, refl, (new, rw (text_eq_refl (hash_token raw)) refl, refl))

  -- The answer hands out the token, of a session of the user of password mode.
  abbrev pub HandsOut : Text → Reply × World → Type 0
  HandsOut raw (a, v) =
      (a.status ≡ 200)
      × (a.session_cookie ≡ set_to raw)
      × ((u : UserRow) × (s : SessionRow) × (a.payload ≡ logged_in u raw)
          × (select_row (has_sub singleton_sub) v.stored.users ≡ some u)
          × (select_row (hash_of hash_token raw) v.stored.sessions ≡ some s)
          × (s.user_id ≡ u.id))

  -- It tells an error and nothing else, and the sessions are as they were.
  abbrev pub HandsNothing : World → Reply × World → Type 0
  HandsNothing w (a, v) =
      ((status : ℕ) × (problem : Text) × (a ≡ write_error status problem) × (400 ≤ status))
      × (v.stored.sessions ≡ w.stored.sessions)

  is_empty-nil : (s : Text) → is_empty s ≡ true → s ≡ []
  is_empty-nil [] h = refl
  is_empty-nil (c ∷ s) h = cc

  nothing :
      (status : ℕ) (problem : Text)
      → 400 ≤ status
      → (n : ℕ) × (t : Text) × (write_error status problem ≡ write_error n t) × (400 ≤ n)
  nothing status problem e = (status, problem, refl, e)

  opened_by :
      (raw : Text) (w x v : World) (u : UserRow) (r : Result Text)
      → x.stored.sessions ≡ w.stored.sessions
      → select_row (has_sub singleton_sub) x.stored.users ≡ some u
      → Created u.id raw x (r, v)
      → HandsOut raw (answer_result r (λ token. reply (token_reply u token)) v)
        ⊎ HandsNothing w (answer_result r (λ token. reply (token_reply u token)) v)
  opened_by raw w x v u (ok token) same local (told, users, (s, there, mine)) = inl (
    refl,
    ap set_to told,
    (
      u,
      s,
      ap (logged_in u) told,
      ap (select_row (has_sub singleton_sub)) users ∙ local,
      there,
      mine,
    ),
  )
  opened_by raw w x v u (err e) same local kept = inr (nothing _ _ (omega arith), kept ∙ same)

  logged_in_by :
      (raw : Text) (w x : World) (r : Result UserRow)
      → Local w (r, x)
      → HandsOut raw (answer_result r (open_session trim_space hash_token raw) x)
        ⊎ HandsNothing w (answer_result r (open_session trim_space hash_token raw) x)
  unfolding open_session
  logged_in_by raw w x (err e) same = inr (nothing _ _ (omega arith), same)
  logged_in_by raw w x (ok u) (same, local) =
      opened_by raw w x _ u (create_session hash_token u.id raw x).0 same local
        (create_session-Created u.id raw x)

  module _ (hex_decode : Text → Option Text) (scrypt_key : Text → Text → Option Text)
      (configured password_hash raw : Text) (body : Option Text) (w : World) where
    -- The password is the configured one or, when none is configured, the configured hash accepts it.
    abbrev pub Matches : Text → Type 0
    Matches password =
        (configured ≢ []) × (password ≡ configured)
        ⊎ (configured ≡ []) × Accepts hex_decode scrypt_key password password_hash

    check_password-Matches :
        (password : Text)
        → check_password trim_space hash_token hex_decode scrypt_key configured password_hash
            password
          ≡ some true
        → Matches password
    unfolding check_password verify_plaintext
    check_password-Matches password e = elim (Bool-cases (is_empty configured)) [
      | inl none_set ↦ inr (
        is_empty-nil configured none_set,
        verify_scrypt-Accepts hex_decode scrypt_key password password_hash (ground arith),
      )
      | inr set ↦ inl (λ h. absurd (ground arith), text_eq→≡ password configured (ground arith))
    ]

    abbrev pub LogsIn : Reply × World → Type 0
    LogsIn out =
        ((password : Text) × (body ≡ some password) × Matches password × HandsOut raw out)
        ⊎ HandsNothing w out

    log_in-LogsIn :
        (password : Text) (told : Option Bool)
        → body ≡ some password
        → check_password trim_space hash_token hex_decode scrypt_key configured password_hash
            password
          ≡ told
        → LogsIn (log_in trim_space hash_token hex_decode scrypt_key raw told w)
    unfolding log_in
    log_in-LogsIn password none given e = inr (nothing _ _ (omega arith), refl)
    log_in-LogsIn password (some false) given e = inr (nothing _ _ (omega arith), refl)
    log_in-LogsIn password (some true) given e =
        elim (logged_in_by raw w _ (upsert_local_user w).0 (upsert_local_user-Local w)) [
          | inl out ↦ inl (password, given, check_password-Matches password e, out)
          | inr nothing ↦ inr nothing
        ]

    handled :
        (b : Option Text)
        → body ≡ b
        → LogsIn (
            handle_password_login trim_space hash_token hex_decode scrypt_key configured
              password_hash raw b w)
    unfolding handle_password_login
    handled none e = inr (nothing _ _ (omega arith), refl)
    handled (some password) e = elim (Bool-cases (is_empty password)) [
      | inl blank ↦ rw blank (inr (nothing _ _ (omega arith), refl))
      | inr given ↦ elim (Bool-cases (is_empty configured && is_empty password_hash)) [
        | inl unset ↦ rw (given, unset) (inr (nothing _ _ (omega arith), refl))
        | inr set ↦ rw (given, set) (log_in-LogsIn password _ e refl)
      ]
    ]

    -- A password login hands out the token, in the body and the cookie of an answer with 200, only for
    -- the configured password, or, when none is configured, for one that the configured hash accepts
    -- by its derived key; the token's session is then stored for the one user of password mode, who
    -- is told. In every other case, whatever fails, the answer is an error's text and the sessions
    -- are as they were.
    pub handle_password_login-LogsIn : LogsIn (
        handle_password_login trim_space hash_token hex_decode scrypt_key configured password_hash
          raw body w)
    handle_password_login-LogsIn = handled body refl
