-- ===== src/Config/Loaded.antt =====
-- Which configurations the server starts with.
use futo_notes_server.Objects.Steps.{is_empty}
use futo_notes_server.Server.Login.{dev_mode, password_mode}
use futo_notes_server.System.Held.{some-injective}
use futo_notes_server.Config.{
  GoInt, ServerConfig, load, with_pool, Variable, auth_problem, load_checked, config_from, get_int,
  load_pool,
}
use futo_notes_server.Prelude.{
  ◌≡◌, false, none, some, Text, Option, List, Bool-cases, ◌⊎◌, ◌⊎◌, text_eq, if-elim, inl,
  text_eq→≡, not, codes, inr, arith, subst,
}

module _ (atoi : Text → Option GoInt) where
  with_pool-make :
      (make : GoInt → Option (GoInt × GoInt) → ServerConfig) (port : Option GoInt)
      (pool : Option (Option (GoInt × GoInt))) (c : ServerConfig)
      → with_pool atoi make port pool ≡ some c
      → (p : GoInt) × (q : Option (GoInt × GoInt)) × (make p q ≡ c)
  with_pool-make make none pool c e = absurd (cc)
  with_pool-make make (some p) none c e = absurd (cc)
  with_pool-make make (some p) (some q) c e = (p, q, some-injective e)

  abbrev Startable : ServerConfig → Type 0
  Startable c =
      (c.auth_mode ≡ dev_mode)
      ⊎ ((c.auth_mode ≡ password_mode) × (is_empty c.password ≡ not (is_empty c.password_hash)))

  unproblematic :
      (c : ServerConfig) → auth_problem c.auth_mode c.password c.password_hash ≡ false → Startable c
  unproblematic c fine = elim (Bool-cases (text_eq c.auth_mode dev_mode)) [
    | inl dev ↦ inl (text_eq→≡ c.auth_mode dev_mode dev)
    | inr other ↦ inr (
      text_eq→≡ c.auth_mode password_mode (ground (arith, other, fine)),
      ground (arith, other, fine),
    )
  ]

  load_checked-Startable :
      (url mode password password_hash : Text) (env : List Variable) (c : ServerConfig)
      → load_checked atoi url mode password password_hash env ≡ some c
      → Startable c
  load_checked-Startable url mode password password_hash env c e =
      if-elim (λ r. r ≡ some c → Startable c) (auth_problem mode password password_hash) none
        (with_pool atoi (config_from atoi url mode password password_hash env)
          (get_int atoi (codes "PORT") 3005 env) (load_pool atoi url env))
        (λ bad h. absurd (cc))
        (λ fine h.
          let (p, q, made) =
            with_pool-make (config_from atoi url mode password password_hash env) _ _ c h in
          subst Startable made
            (unproblematic (config_from atoi url mode password password_hash env p q) fine))
        e

  -- A server that starts is in dev mode, or in password mode with exactly one of a password and a
  -- password hash.
  pub load-Startable :
      (env : List Variable) (c : ServerConfig)
      → load atoi env ≡ some c
      → (c.auth_mode ≡ dev_mode)
        ⊎ ((c.auth_mode ≡ password_mode) × (is_empty c.password ≡ not (is_empty c.password_hash)))
  unfolding load
  load-Startable env c e = load_checked-Startable _ _ _ _ env c e
