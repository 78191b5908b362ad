-- ===== src/Objects/Outcome.antt =====
-- What a mutation may leave behind: nothing but the record of its Mutation ID, or its effect.
use futo_notes_server.Objects.Stored.{StoredResult}
use futo_notes_server.Objects.Rules.{recorded}
use futo_notes_server.Store.Sql.{update_where, select_row}
use futo_notes_server.Store.Documents.{Body}
use futo_notes_server.Store.Rows.{CollectionRow}
use futo_notes_server.Objects.Steps.{
  fresh, found, replay_row, bump_version, MutationIntent, Replay, upsert_result, max_int64,
  is_empty, has_mutation, own_claim, is_row, retain_blob,
}
use futo_notes_server.Prelude.{
  append-nil, ◌++◌, ℕ, ◌≡◌, refl, [], List, Text, some, text_eq, Option, ◌+◌, ◌<◌, arith, Bool,
  if◌then◌else◌, Option-cases, inl, inr, true, none,
}
use futo_notes_server.Store.Monad.{Db, World, Notification, MutationRow}

-- All tables but the one of Mutation IDs are equal.
pub record SameData (a b : Db) : Type 0 where
  pub users : a.users ≡ b.users
  pub sessions : a.sessions ≡ b.sessions
  pub collections : a.collections ≡ b.collections
  pub objects : a.objects ≡ b.objects
  pub ledger : a.ledger ≡ b.ledger

-- Nothing that a client can pull changed, and no doorbell rang.
pub record Aborted (w w' : World) : Type 0 where
  pub same_data : SameData w.stored w'.stored
  pub silent : w'.delivered ≡ w.delivered

pub SameData-refl : (d : Db) → SameData d d
SameData-refl d = record {
  users = refl;
  sessions = refl;
  collections = refl;
  objects = refl;
  ledger = refl;
}

-- The world of a transaction that has only read so far.
abbrev pub opened : World → ℕ → World
opened w n = record w { step = n; work = w.stored; doorbells = [] }

pub Aborted-lost :
    (w : World) (n : ℕ) (d : Db) (bells : List Notification)
    → Aborted w (record w { step = n; work = d; doorbells = bells })
Aborted-lost w n d bells = record { same_data = SameData-refl w.stored; silent = refl }

-- A commit of a transaction that wrote nothing.
pub Aborted-committed :
    (w : World) (n : ℕ)
    → Aborted w (record w {
      step = n;
      stored = w.stored;
      work = w.stored;
      doorbells = [];
      delivered = w.delivered ++ [];
    })
Aborted-committed w n = record {
  same_data = SameData-refl w.stored;
  silent = append-nil w.delivered;
}

-- UPDATE collections SET current_version = current_version + 1 WHERE id = $1.
abbrev pub bumped : Text → List CollectionRow → List CollectionRow
bumped collection_id =
    update_where (λ r. text_eq r.id collection_id)
      (λ r. record r { current_version = r.current_version + 1 })

module _ (user_id mutation_id : Text) (intent : MutationIntent) (status : ℕ) (body : Body) where
  pub recorded-SameData :
      (resulting : Option Text) (now : ℕ) (d : Db)
      → SameData d (recorded user_id mutation_id intent status body resulting now d)
  unfolding recorded upsert_result
  recorded-SameData resulting now d = ground arith

  -- A commit of a transaction that wrote the outcome and nothing else.
  pub Aborted-recorded :
      (w : World) (n now : ℕ) (resulting : Option Text)
      → let d = recorded user_id mutation_id intent status body resulting now w.stored in
        Aborted w (record w {
          step = n;
          stored = d;
          work = d;
          doorbells = [];
          delivered = w.delivered ++ [];
        })
  Aborted-recorded w n now resulting = record {
    same_data = recorded-SameData resulting now w.stored;
    silent = append-nil w.delivered;
  }

module _ (collection_id : Text) where
  pub bump_version-inv :
      (d d' : Db) (seq : ℕ)
      → bump_version collection_id d ≡ some (seq, d')
      → (c : CollectionRow) × (select_row (λ r. text_eq r.id collection_id) d.collections ≡ some c)
        × (c.current_version < max_int64)
        × (seq ≡ c.current_version + 1)
        × (d' ≡ record d { collections = bumped collection_id d.collections })
  unfolding bump_version
  bump_version-inv d d' seq h =
      elim (Option-cases (select_row (λ r. text_eq r.id collection_id) d.collections)) [
        | inl none_there ↦ absurd (ground arith)
        | inr (c, there) ↦ (c, there, ground arith, ground arith, ground arith)
      ]

-- What a Mutation ID carries is read from its row.
pub replay-found :
    (user_id mutation_id : Text) (intent : MutationIntent) (rows : List MutationRow) (r : Replay)
    (s : StoredResult) (prepared : Bool)
    → (if is_empty mutation_id
        then some fresh
        else replay_row intent (select_row (has_mutation user_id mutation_id) rows))
      ≡ some r
    → own_claim prepared r ≡ found s
    → is_row (select_row (has_mutation user_id mutation_id) rows) ≡ true
unfolding replay_row
replay-found user_id mutation_id intent rows r s prepared h e = ground arith

pub retain_blob-objects :
    (key : Option Text) (now : ℕ) (d : Db) → (retain_blob key now d).objects ≡ d.objects
unfolding retain_blob
retain_blob-objects key now d = ground arith

pub retain_blob-collections :
    (key : Option Text) (now : ℕ) (d : Db) → (retain_blob key now d).collections ≡ d.collections
unfolding retain_blob
retain_blob-collections key now d = ground arith

pub retain_blob-ledger :
    (key : Option Text) (now : ℕ) (d e : Db)
    → d.ledger ≡ e.ledger
    → (retain_blob key now d).ledger ≡ (retain_blob key now e).ledger
unfolding retain_blob
retain_blob-ledger none now d e h = h
retain_blob-ledger (some k) now d e h = rw h
