-- ===== src/Store/Steps.antt =====
-- The rules of Store.Rules with the step that is taken: a step that fails is one at which the
-- database does, and the next is one further on.
use futo_notes_server.Prelude.{◌+◌, ◌≡◌, Option, some, ◌++◌, [], Bool-cases, inl, inr, ℕ, true}
use futo_notes_server.Store.Monad.{
  Db, World, internal, Result, err, M, ◌>>=◌, time_now, attempt, begin_tx, commit, tx_query,
  tx_exec, db_exec, db_query, tick,
}

module _ {B : Type 0} (Q : Result B × World → Type 0) where
  pub time_now-next :
      (k : ℕ → M B) (w : World) → Q (k (w.env.now w.step) (tick w)) → Q ((time_now >>= k) w)
  unfolding time_now
  time_now-next k w good = good

  pub begin_tx-next :
      (k : Unit {0} → M B) (w : World)
      → (w.env.fails w.step ≡ true → Q (err internal, tick w))
      → Q (k tt (record w { step = w.step + 1; work = w.stored; doorbells = [] }))
      → Q ((begin_tx >>= k) w)
  unfolding begin_tx attempt
  begin_tx-next k w bad good = elim (Bool-cases (w.env.fails w.step)) [
    | inl e ↦ rw e (bad e)
    | inr e ↦ rw e good
  ]

  pub commit-next :
      (k : Unit {0} → M B) (w : World)
      → (w.env.fails w.step ≡ true → Q (err internal, tick w))
      → Q (
          k tt (record w {
            step = w.step + 1;
            stored = w.work;
            delivered = w.delivered ++ w.doorbells;
            doorbells = [];
          }))
      → Q ((commit >>= k) w)
  unfolding commit attempt
  commit-next k w bad good = elim (Bool-cases (w.env.fails w.step)) [
    | inl e ↦ rw e (bad e)
    | inr e ↦ rw e good
  ]

  pub tx_write-next :
      (g : Db → Db) (k : Unit {0} → M B) (w : World)
      → (w.env.fails w.step ≡ true → Q (err internal, tick w))
      → Q (k tt (record w { step = w.step + 1; work = g w.work }))
      → Q ((tx_exec (λ d. some (tt, g d)) >>= k) w)
  unfolding tx_exec attempt
  tx_write-next g k w bad good = elim (Bool-cases (w.env.fails w.step)) [
    | inl e ↦ rw e (bad e)
    | inr e ↦ rw e good
  ]

module _ {A B : Type 0} (Q : Result B × World → Type 0) where
  pub tx_query-next :
      (f : Db → A) (k : A → M B) (w : World)
      → (w.env.fails w.step ≡ true → Q (err internal, tick w))
      → Q (k (f w.work) (tick w))
      → Q ((tx_query f >>= k) w)
  unfolding tx_query attempt
  tx_query-next f k w bad good = elim (Bool-cases (w.env.fails w.step)) [
    | inl e ↦ rw e (bad e)
    | inr e ↦ rw e good
  ]

  pub db_query-next :
      (f : Db → A) (k : A → M B) (w : World)
      → (w.env.fails w.step ≡ true → Q (err internal, tick w))
      → Q (k (f w.stored) (tick w))
      → Q ((db_query f >>= k) w)
  unfolding db_query attempt
  db_query-next f k w bad good = elim (Bool-cases (w.env.fails w.step)) [
    | inl e ↦ rw e (bad e)
    | inr e ↦ rw e good
  ]

  -- A write outside a transaction that no constraint stops.
  pub db_write-next :
      (a : Db → A) (g : Db → Db) (k : A → M B) (w : World)
      → (w.env.fails w.step ≡ true → Q (err internal, tick w))
      → Q (k (a w.stored) (record w { step = w.step + 1; stored = g w.stored }))
      → Q ((db_exec (λ d. some (a d, g d)) >>= k) w)
  unfolding db_exec attempt
  db_write-next a g k w bad good = elim (Bool-cases (w.env.fails w.step)) [
    | inl e ↦ rw e (bad e)
    | inr e ↦ rw e good
  ]

  -- A statement inside a transaction that no constraint stops here.
  pub tx_exec-next :
      (f : Db → Option (A × Db)) (k : A → M B) (w : World) (a : A) (d : Db)
      → f w.work ≡ some (a, d)
      → (w.env.fails w.step ≡ true → Q (err internal, tick w))
      → Q (k a (record w { step = w.step + 1; work = d }))
      → Q ((tx_exec f >>= k) w)
  unfolding tx_exec attempt
  tx_exec-next f k w a d there bad good = elim (Bool-cases (w.env.fails w.step)) [
    | inl e ↦ rw e (bad e)
    | inr e ↦ rw (e, there) good
  ]
