-- ===== src/Config/Environment.antt =====
-- What a .env file can do to the environment.
use futo_notes_server.Blobs.{has_prefix}
use futo_notes_server.Auth.Password.{split_on}
use futo_notes_server.System.Held.{some-injective}
use futo_notes_server.Objects.Steps.{is_empty, is_row}
use futo_notes_server.Config.{
  load_dotenv, load_line, load_lines, Variable, lookup_env, set_missing, set_cut, cut_sign,
  trim_prefix,
}
use futo_notes_server.Store.Sql.{select_row}
use futo_notes_server.Prelude.{
  ◌≡◌, [], ◌∷◌, true, false, none, some, Text, Bool, Option, List, if-elim, subst, text_eq, ◌||◌,
  ◌⊎◌, ◌⊎◌, inr, codes, inl, sym, text_eq→≡, ap, Bool-cases,
}

module _ (trim_space : Text → Text) (settable : Text → Text → Bool) where
  set_missing-keeps :
      (name content other : Text) (v : Variable) (env : List Variable)
      → lookup_env other env ≡ some v
      → lookup_env other (set_missing trim_space settable name content env) ≡ some v
  unfolding select_row
  set_missing-keeps name content other v env h = elim (Bool-cases (is_row (lookup_env name env))) [
    | inl there ↦ rw there h
    | inr free ↦ elim (Bool-cases (settable name content)) [
      | inr refused ↦ rw (free, refused) h
      | inl taken ↦ rw (free, taken) (new free (Bool-cases (text_eq name other)))
    ]
  ]
    where
      new :
          is_row (lookup_env name env) ≡ false
          → (text_eq name other ≡ true) ⊎ (text_eq name other ≡ false)
          → lookup_env other (record { name = name; content = content } ∷ env) ≡ some v
      new free (inr apart) = rw apart h
      new free (inl same) =
          let there : is_row (lookup_env name env) ≡ true =
            subst (λ x. is_row (lookup_env x env) ≡ true) (sym (text_eq→≡ name other same))
              (ap is_row h) in
          absurd (cc)

  set_cut-keeps :
      (pair : Option (Text × Text)) (other : Text) (v : Variable) (env : List Variable)
      → lookup_env other env ≡ some v
      → lookup_env other (set_cut trim_space settable pair env) ≡ some v
  set_cut-keeps none other v env h = h
  set_cut-keeps (some (key, value)) other v env h = set_missing-keeps _ _ other v env h

  load_line-keeps :
      (line other : Text) (v : Variable) (env : List Variable)
      → lookup_env other env ≡ some v
      → lookup_env other (load_line trim_space settable line env) ≡ some v
  unfolding load_line
  load_line-keeps line other v env h =
      if-elim (λ e. lookup_env other e ≡ some v)
        (is_empty (trim_space line) || has_prefix (trim_space line) (codes "#")) env
        (set_cut trim_space settable (cut_sign (trim_prefix (codes "export ") (trim_space line)))
          env)
        (λ _. h) (λ _. set_cut-keeps _ other v env h)

  load_lines-keeps :
      (lines : List Text) (other : Text) (v : Variable) (env : List Variable)
      → lookup_env other env ≡ some v
      → lookup_env other (load_lines trim_space settable lines env) ≡ some v
  unfolding load_lines
  load_lines-keeps [] other v env h = h
  load_lines-keeps (line ∷ lines) other v env h =
      load_lines-keeps lines other v (load_line trim_space settable line env)
        (load_line-keeps line other v env h)

  -- A variable that is set before the .env file is read keeps its value, whatever the file holds.
  pub load_dotenv-keeps :
      (file : Option (Option Text)) (env env' : List Variable) (name : Text) (v : Variable)
      → load_dotenv trim_space settable file env ≡ some env'
      → lookup_env name env ≡ some v
      → lookup_env name env' ≡ some v
  unfolding load_dotenv
  load_dotenv-keeps none env env' name v e h = absurd (cc)
  load_dotenv-keeps (some none) env env' name v e h =
      subst (λ x. lookup_env name x ≡ some v) (some-injective e) h
  load_dotenv-keeps (some (some contents)) env env' name v e h =
      subst (λ x. lookup_env name x ≡ some v) (some-injective e)
        (load_lines-keeps (split_on 10 contents) name v env h)
