-- ===== src/Store/Rules.antt =====
-- How to reason about a chain of database steps: for each step, what has to be shown where it
-- fails and where it succeeds. The counter of steps is left open, since no property depends on it.
use futo_notes_server.Prelude.{
  ℕ, ◌+◌, ◌≡◌, refl, Option, none, some, ◌++◌, [], Bool-cases, inl, inr, Option-cases, Text,
}
use futo_notes_server.Store.Monad.{
  Db, World, internal, Result, err, M, ◌>>=◌, time_now, attempt, begin_tx, commit, tx_query,
  tx_exec, db_exec, lift, continue, ok, new_uuid, db_query,
}

-- The steps go on, and all else is as it was.
abbrev pub at_step : World → ℕ → World
at_step w n = record w { step = n }

module _ {B : Type 0} (Q : Result B × World → Type 0) where
  pub attempt-bind :
      (k : Unit {0} → M B) (w : World)
      → ((n : ℕ) → Q (err internal, at_step w n))
      → ((n : ℕ) → Q (k tt (at_step w n)))
      → Q ((attempt >>= k) w)
  unfolding attempt
  attempt-bind k w bad good = elim (Bool-cases (w.env.fails w.step)) [
    | inl e ↦ rw e (bad (w.step + 1))
    | inr e ↦ rw e (good (w.step + 1))
  ]

  pub begin_tx-bind :
      (k : Unit {0} → M B) (w : World)
      → ((n : ℕ) → Q (err internal, at_step w n))
      → ((n : ℕ) → Q (k tt (record w { step = n; work = w.stored; doorbells = [] })))
      → Q ((begin_tx >>= k) w)
  unfolding begin_tx attempt
  begin_tx-bind k w bad good = elim (Bool-cases (w.env.fails w.step)) [
    | inl e ↦ rw e (bad (w.step + 1))
    | inr e ↦ rw e (good (w.step + 1))
  ]

  pub commit-bind :
      (k : Unit {0} → M B) (w : World)
      → ((n : ℕ) → Q (err internal, at_step w n))
      → ((n : ℕ)
          → Q (
              k tt (record w {
                step = n;
                stored = w.work;
                delivered = w.delivered ++ w.doorbells;
                doorbells = [];
              })))
      → Q ((commit >>= k) w)
  unfolding commit attempt
  commit-bind k w bad good = elim (Bool-cases (w.env.fails w.step)) [
    | inl e ↦ rw e (bad (w.step + 1))
    | inr e ↦ rw e (good (w.step + 1))
  ]

module _ {A B : Type 0} (Q : Result B × World → Type 0) where
  pub tx_query-bind :
      (f : Db → A) (k : A → M B) (w : World)
      → ((n : ℕ) → Q (err internal, at_step w n))
      → ((n : ℕ) → Q (k (f w.work) (at_step w n)))
      → Q ((tx_query f >>= k) w)
  unfolding tx_query attempt
  tx_query-bind f k w bad good = elim (Bool-cases (w.env.fails w.step)) [
    | inl e ↦ rw e (bad (w.step + 1))
    | inr e ↦ rw e (good (w.step + 1))
  ]

  pub tx_exec-bind :
      (f : Db → Option (A × Db)) (k : A → M B) (w : World)
      → ((n : ℕ) → Q (err internal, at_step w n))
      → ((n : ℕ) (a : A) (d : Db)
          → f w.work ≡ some (a, d)
          → Q (k a (record w { step = n; work = d })))
      → Q ((tx_exec f >>= k) w)
  unfolding tx_exec attempt
  tx_exec-bind f k w bad good = elim (Bool-cases (w.env.fails w.step)) [
    | inl e ↦ rw e (bad (w.step + 1))
    | inr e ↦ elim (Option-cases (f w.work)) [
      | inl missing ↦ rw (e, missing) (bad (w.step + 1))
      | inr ((a, d), there) ↦ rw (e, there) (good (w.step + 1) a d there)
    ]
  ]

  pub db_query-bind :
      (f : Db → A) (k : A → M B) (w : World)
      → ((n : ℕ) → Q (err internal, at_step w n))
      → ((n : ℕ) → Q (k (f w.stored) (at_step w n)))
      → Q ((db_query f >>= k) w)
  unfolding db_query attempt
  db_query-bind f k w bad good = elim (Bool-cases (w.env.fails w.step)) [
    | inl e ↦ rw e (bad (w.step + 1))
    | inr e ↦ rw e (good (w.step + 1))
  ]

  pub db_exec-bind :
      (f : Db → Option (A × Db)) (k : A → M B) (w : World)
      → ((n : ℕ) → Q (err internal, at_step w n))
      → ((n : ℕ) (a : A) (d : Db)
          → f w.stored ≡ some (a, d)
          → Q (k a (record w { step = n; stored = d })))
      → Q ((db_exec f >>= k) w)
  unfolding db_exec attempt
  db_exec-bind f k w bad good = elim (Bool-cases (w.env.fails w.step)) [
    | inl e ↦ rw e (bad (w.step + 1))
    | inr e ↦ elim (Option-cases (f w.stored)) [
      | inl missing ↦ rw (e, missing) (bad (w.step + 1))
      | inr ((a, d), there) ↦ rw (e, there) (good (w.step + 1) a d there)
    ]
  ]

  pub lift-bind :
      (o : Option A) (k : A → M B) (w : World)
      → Q (err internal, w)
      → ((a : A) → o ≡ some a → Q (k a w))
      → Q ((lift o >>= k) w)
  unfolding lift
  lift-bind none k w bad good = bad
  lift-bind (some a) k w bad good = good a refl

module _ {B : Type 0} (Q : Result B × World → Type 0) where
  pub time_now-bind :
      (k : ℕ → M B) (w : World) → ((n t : ℕ) → Q (k t (at_step w n))) → Q ((time_now >>= k) w)
  unfolding time_now
  time_now-bind k w good = good (w.step + 1) (w.env.now w.step)

  pub new_uuid-bind :
      (k : Text → M B) (w : World)
      → ((n : ℕ) (t : Text) → Q (k t (at_step w n)))
      → Q ((new_uuid >>= k) w)
  unfolding new_uuid
  new_uuid-bind k w good = good (w.step + 1) (w.env.uuid w.step)

module _ {B : Type 0} (Q : Result B × World → Type 0) where
  -- A write that no constraint stops.
  pub tx_write-bind :
      (g : Db → Db) (k : Unit {0} → M B) (w : World)
      → ((n : ℕ) → Q (err internal, at_step w n))
      → ((n : ℕ) → Q (k tt (record w { step = n; work = g w.work })))
      → Q ((tx_exec (λ d. some (tt, g d)) >>= k) w)
  unfolding tx_exec attempt
  tx_write-bind g k w bad good = elim (Bool-cases (w.env.fails w.step)) [
    | inl e ↦ rw e (bad (w.step + 1))
    | inr e ↦ rw e (good (w.step + 1))
  ]

module _ {A B C : Type 0} (Q : Result C × World → Type 0) where
  continue-assoc :
      (r : Result A) (f : A → M B) (k : B → M C) (w : World)
      → Q (continue r (λ a. f a >>= k) w)
      → Q ((continue r f >>= k) w)
  continue-assoc (ok a) f k w h = h
  continue-assoc (err e) f k w h = h

  pub >>=-assoc :
      (m : M A) (f : A → M B) (k : B → M C) (w : World)
      → Q ((m >>= λ a. f a >>= k) w)
      → Q (((m >>= f) >>= k) w)
  >>=-assoc m f k w h = let (r, w') = m w in continue-assoc r f k w' h

module _ {A : Type 0} (Q : Result A × World → Type 0) where
  -- A statement outside a transaction with nothing after it.
  pub db_exec-end :
      (f : Db → Option (A × Db)) (w : World)
      → ((n : ℕ) → Q (err internal, at_step w n))
      → ((n : ℕ) (a : A) (d : Db)
          → f w.stored ≡ some (a, d)
          → Q (ok a, record w { step = n; stored = d }))
      → Q (db_exec f w)
  unfolding db_exec attempt
  db_exec-end f w bad good = elim (Bool-cases (w.env.fails w.step)) [
    | inl e ↦ rw e (bad (w.step + 1))
    | inr e ↦ elim (Option-cases (f w.stored)) [
      | inl missing ↦ rw (e, missing) (bad (w.step + 1))
      | inr ((a, d), there) ↦ rw (e, there) (good (w.step + 1) a d there)
    ]
  ]
