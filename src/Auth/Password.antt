-- ===== src/Auth/Password.antt =====
-- internal/auth/password.go and internal/auth/user.go. Hexadecimal digits and scrypt are the
-- libraries', so they are parameters.
pub mod Verified
use futo_notes_server.Auth.Session.{user_has_id}
use futo_notes_server.Objects.Steps.{is_row}
use futo_notes_server.Store.Sql.{select_row, update_where}
use futo_notes_server.Store.Rows.{UserRow}
use futo_notes_server.Prelude.{
  [], ◌∷◌, none, some, ℕ, Option, Text, Bool, List, codes, if◌then◌else◌, text_eq, ◌==◌, ◌++◌, ◌==◌,
  ◌++◌, ◌||◌, ◌||◌,
}
use futo_notes_server.Store.Monad.{◌>>=◌, M, pure, new_uuid, Db, db_query, db_exec, lift}

-- strings.Split with a separator of one byte.
abbrev push_first : ℕ → List Text → List Text
push_first c [] = (c ∷ []) ∷ []
push_first c (s ∷ ss) = (c ∷ s) ∷ ss

unfoldable pub split_on : ℕ → Text → List Text
split_on separator [] = [] ∷ []
split_on separator (c ∷ s) =
    let rest = split_on separator s in if c == separator then [] ∷ rest else push_first c rest

-- subtle.ConstantTimeCompare of the bytes.
unfoldable pub verify_plaintext : Text → Text → Bool
verify_plaintext password configured = text_eq password configured

module _ (hex_decode : Text → Option Text) (scrypt_key : Text → Text → Option Text) where
  unfoldable pub verify_hash : Text → Text → Text → Option Bool
  verify_hash password salt_hex hash_hex = elim (hex_decode salt_hex) [
    | none ↦ none
    | some salt ↦ elim (hex_decode hash_hex) [
      | none ↦ none
      | some want ↦ elim (scrypt_key password salt) [
        | none ↦ none
        | some derived ↦ some (text_eq derived want)
      ]
    ]
  ]

  -- `none` is one of its errors.
  unfoldable pub verify_parts : Text → List Text → Option Bool
  verify_parts password (scheme ∷ costs ∷ salt_hex ∷ hash_hex ∷ []) =
      if text_eq scheme (codes "scrypt") then verify_hash password salt_hex hash_hex else none
  verify_parts password _ = none

  unfoldable pub verify_scrypt : Text → Text → Option Bool
  verify_scrypt password stored = verify_parts password (split_on b':' stored)

abbrev pub singleton_sub : Text
singleton_sub = codes "local"

abbrev pub singleton_email : Text
singleton_email = codes "local@futo-notes.local"

abbrev pub singleton_name : Text
singleton_name = codes "FUTO Notes"

abbrev pub has_sub : Text → UserRow → Bool
has_sub sub u = text_eq u.sub sub

abbrev pub has_email : Text → UserRow → Bool
has_email email u = text_eq u.email email

-- The primary key and the unique e-mail address.
abbrev pub user_clashes : UserRow → Db → Bool
user_clashes u d =
    is_row (select_row (user_has_id u.id) d.users)
    || is_row (select_row (has_email u.email) d.users)

-- INSERT ... ON CONFLICT (sub) DO NOTHING RETURNING.
unfoldable pub insert_user : UserRow → Db → Option (Option UserRow × Db)
insert_user u d =
    if is_row (select_row (has_sub u.sub) d.users)
    then some (none, d)
    else (if user_clashes u d then none else some (some u, record d { users = u ∷ d.users }))

-- The select that follows a lost race has to find the row.
unfoldable pub inserted_user : Option UserRow → M UserRow
inserted_user (some u) = pure u
inserted_user none = do
  found ← db_query (λ d. select_row (has_sub singleton_sub) d.users)
  lift found

unfoldable pub found_user : Option UserRow → M UserRow
found_user (some u) = pure u
found_user none = do
  id ← new_uuid
  row ← db_exec (
      insert_user
        (record { id = id; sub = singleton_sub; email = singleton_email; name = singleton_name }))
  inserted_user row

unfoldable pub upsert_local_user : M UserRow
upsert_local_user = do
  found ← db_query (λ d. select_row (has_sub singleton_sub) d.users)
  found_user found

-- INSERT ... ON CONFLICT (email) DO UPDATE SET name = EXCLUDED.name RETURNING.
unfoldable pub put_user_by_email : UserRow → Db → Option (UserRow × Db)
put_user_by_email u d = elim (select_row (has_email u.email) d.users) [
  | some there ↦ some (
    record there { name = u.name },
    record d {
      users =
          update_where (has_email u.email) (λ (r : UserRow). record r { name = u.name }) d.users;
    },
  )
  | none ↦
      if is_row (select_row (user_has_id u.id) d.users)
        || is_row (select_row (has_sub u.sub) d.users)
      then none
      else some (u, record d { users = u ∷ d.users })
]

unfoldable pub upsert_user_by_email : Text → Text → M UserRow
upsert_user_by_email email name = do
  id ← new_uuid
  db_exec (
      put_user_by_email
        (record { id = id; sub = codes "dev:" ++ email; email = email; name = name }))
