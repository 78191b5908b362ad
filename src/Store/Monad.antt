-- ===== src/Store/Monad.antt =====
-- The database of internal/db with its transactions. Each call of the database takes the next
-- step of an environment, which says whether that call fails, what the clock shows and which
-- UUID is minted; nothing is assumed of the environment unless a theorem says so.
use futo_notes_server.Prelude.{
  ℕ, ◌+◌, Bool, Option, none, some, List, [], ◌++◌, Text, if◌then◌else◌,
}
use futo_notes_server.Store.Rows.{UserRow, SessionRow, CollectionRow, ObjectRow, LedgerRow}
use futo_notes_server.Store.Documents.{Kind, Document}

pub record MutationRow : Type 0 where
  pub user_id : Text
  pub mutation_id : Text
  pub kind : Kind
  pub collection_id : Text
  pub object_id : Option Text
  pub requested_version : Option ℕ
  pub result : Document
  pub created_at : ℕ

pub record Db : Type 0 where
  pub users : List UserRow
  pub sessions : List SessionRow
  pub collections : List CollectionRow
  pub objects : List ObjectRow
  pub ledger : List LedgerRow
  pub mutations : List MutationRow

pub data Engine : Type 0 where
  postgres sqlite : Engine

pub record Env : Type 0 where
  pub engine : Engine
  pub fails : ℕ → Bool
  pub now : ℕ → ℕ
  pub uuid : ℕ → Text

pub record Notification : Type 0 where
  pub user_id : Text
  pub collection_id : Text
  pub current_version : ℕ

-- `stored` is the committed database. `work` and `doorbells` belong to the open transaction: they
-- are read by it alone, and the next one starts afresh, which is the deferred Rollback.
pub record World : Type 0 where
  pub env : Env
  pub step : ℕ
  pub stored : Db
  pub work : Db
  pub doorbells : List Notification
  pub delivered : List Notification

-- The callers tell ErrNotFound from any other error.
pub data Error : Type 0 where
  err_not_found internal : Error

pub data Result {ℓ} (A : Type ℓ) : Type ℓ where
  ok : A → Result A
  err : Error → Result A

abbrev pub M : Type 0 → Type 0
M A = World → Result A × World

abbrev pub continue : {A B : Type 0} → Result A → (A → M B) → M B
continue (ok a) f w = f a w
continue (err e) f w = (err e, w)

abbrev pub pure : {A : Type 0} → A → M A
pure a w = (ok a, w)

abbrev pub fail : {A : Type 0} → Error → M A
fail e w = (err e, w)

infixl 5 ◌>>=◌ ◌>>◌
abbrev pub ◌>>=◌ : {A B : Type 0} → M A → (A → M B) → M B
◌>>=◌ m f w = let (r, w') = m w in continue r f w'

abbrev pub ◌>>◌ : {A B : Type 0} → M A → M B → M B
m >> k = m >>= λ _. k

abbrev pub tick : World → World
tick w = record w { step = w.step + 1 }

-- time.Now(), to the millisecond that db.Timestamp keeps.
unfoldable pub time_now : M ℕ
time_now w = (ok (w.env.now w.step), tick w)

unfoldable pub new_uuid : M Text
new_uuid w = (ok (w.env.uuid w.step), tick w)

-- A call that reaches the database and may fail there.
unfoldable pub attempt : M (Unit {0})
attempt w = if w.env.fails w.step then (err internal, tick w) else (ok tt, tick w)

unfoldable pub begin_tx : M (Unit {0})
begin_tx = do attempt; λ w. (ok tt, record w { work = w.stored; doorbells = [] })

-- Tx.Commit runs the AfterCommit callbacks once the commit has succeeded.
unfoldable pub commit : M (Unit {0})
commit = do
  attempt
  λ w. (ok tt, record w { stored = w.work; delivered = w.delivered ++ w.doorbells; doorbells = [] })

-- A query inside the transaction.
unfoldable pub tx_query : {A : Type 0} → (Db → A) → M A
tx_query f = do attempt; λ w. (ok (f w.work), w)

-- A statement inside the transaction that writes; `none` is a violated constraint.
unfoldable pub tx_exec : {A : Type 0} → (Db → Option (A × Db)) → M A
tx_exec f = do
  attempt
  λ w. elim (f w.work) [ none ↦ (err internal, w) | some (a, d) ↦ (ok a, record w { work = d }) ]

-- The same outside a transaction, where each statement commits by itself.
unfoldable pub db_query : {A : Type 0} → (Db → A) → M A
db_query f = do attempt; λ w. (ok (f w.stored), w)

unfoldable pub db_exec : {A : Type 0} → (Db → Option (A × Db)) → M A
db_exec f = do
  attempt
  λ w. elim (f w.stored) [
    | none ↦ (err internal, w)
    | some (a, d) ↦ (ok a, record w { stored = d })
  ]

unfoldable pub lift : {A : Type 0} → Option A → M A
lift none w = (err internal, w)
lift (some a) w = (ok a, w)
