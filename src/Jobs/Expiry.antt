-- ===== src/Jobs/Expiry.antt =====
-- What the expiry of mutation results keeps, and what it takes.
use futo_notes_server.Store.Monad.{World, Result, MutationRow, Db, ok, err, internal}
use futo_notes_server.Store.Documents.{
  Document, wrapped, bare, pending_text, unreadable, create, kind_eq, as_error,
}
use futo_notes_server.Store.Sql.{select_where, delete_where}
use futo_notes_server.Objects.Steps.{day_ms}
use futo_notes_server.Jobs.{pending_expired, other_expired}
use futo_notes_server.Prelude.{
  ◌≡◌, true, false, none, some, ℕ, Bool, List, ◌+◌, ◌*◌, ◌⊎◌, All, length, ltb, leb, ◌==◌, ◌&&◌,
  ◌||◌, not,
}

-- A create that was answered with 200 to 299, or an older answer of it that tells no error, or one
-- that cannot be read.
abbrev pub was_created : Document → Bool
was_created (wrapped s b) = leb 200 s && ltb s 300
was_created pending_text = false
was_created (bare b) = elim (as_error b) [ none ↦ true | some e ↦ false ]
was_created unreadable = true

abbrev pub is_created : MutationRow → Bool
is_created m = kind_eq m.kind create && was_created m.result

abbrev pub awaits : Document → Bool
awaits (wrapped s b) = s == 102
awaits pending_text = true
awaits (bare b) = false
awaits unreadable = false

-- Written at most a day ago, or answered and written at most 30 days ago.
abbrev pub is_recent : ℕ → MutationRow → Bool
is_recent now m = leb now (m.created_at + day_ms)

abbrev pub is_answered : ℕ → MutationRow → Bool
is_answered now m = not (awaits m.result) && leb now (m.created_at + 30 * day_ms)

-- Unanswered for more than a day, or an answer to an update or a delete of more than 30 days ago.
abbrev pub is_stale : ℕ → MutationRow → Bool
is_stale now m =
    (awaits m.result && ltb (m.created_at + day_ms) now)
    || (not (awaits m.result)
        && (not (kind_eq m.kind create) && ltb (m.created_at + 30 * day_ms) now))

abbrev pub Kept : (MutationRow → Bool) → List MutationRow → List MutationRow → Type 0
Kept q before after = select_where q after ≡ select_where q before

-- What an expiry at a time keeps.
abbrev pub KeepsOwed : ℕ → Db → Db → Type 0
KeepsOwed now d d' =
    Kept is_created d.mutations d'.mutations
    × Kept (is_recent now) d.mutations d'.mutations
    × Kept (is_answered now) d.mutations d'.mutations
    × (d' ≡ record d { mutations = d'.mutations })

abbrev pub Expires : World → Result (ℕ × ℕ) × World → Type 0
Expires w (r, w') =
    KeepsOwed (w.env.now w.step) w.stored w'.stored
    × (((n : ℕ) × (w.env.fails n ≡ true) × (r ≡ err internal))
        ⊎ ((p : ℕ) × (o : ℕ) × (r ≡ ok (p, o))
            × (p + o + length w'.stored.mutations ≡ length w.stored.mutations)
            × All (λ m. is_stale (w.env.now w.step) m ≡ false) w'.stored.mutations))

abbrev without : (MutationRow → Bool) → Db → Db
without p d = record d { mutations = delete_where p d.mutations }

-- The tests of both statements spare a row.
module _ (now : ℕ) where
  abbrev Spares : (MutationRow → Bool) → Type 0
  Spares q =
      (m : MutationRow)
      → q m ≡ true
      → (pending_expired now m ≡ false) × (other_expired now m ≡ false)
