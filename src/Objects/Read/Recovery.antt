-- ===== src/Objects/Read/Recovery.antt =====
-- What the recovery of a create rests on.
use futo_notes_server.Ids.{valid_uuid}
use futo_notes_server.Objects.Pull.{exists}
use futo_notes_server.Store.Sql.{select_row}
use futo_notes_server.Store.Documents.{kind_eq, create}
use futo_notes_server.Store.Monad.{World, MutationRow, Result, db_query, attempt}
use futo_notes_server.Objects.Read.{
  recover_row, recover_decoded, recover_found, recorded_for, recover_create,
}
use futo_notes_server.Objects.Stored.{
  ResultCode, StoredResult, MutationOutcome, decode_stored_result,
}
use futo_notes_server.Prelude.{
  ◌≡◌, refl, true, false, none, some, Option, Text, arith, Bool-cases, inr, ℕ, inl, ◌==◌, Bool,
  Option-cases, ◌+◌, ◌+◌,
}

-- A create with this ID in this collection, whose outcome is settled.
abbrev pub SettledRow : Option MutationRow → Type 0
SettledRow row =
    (m : MutationRow) × (s : StoredResult) × (row ≡ some m)
    × (kind_eq m.kind create ≡ true)
    × (decode_stored_result m.result ≡ some s)
    × ((s.status == 102) ≡ false)

abbrev pub TellsSettled : Option MutationRow → Result MutationOutcome → Type 0
TellsSettled row r =
    (o : MutationOutcome) → r ≡ Result.ok o → o.code ≡ ResultCode.ok → SettledRow row

recover_row-TellsSettled : (row : Option MutationRow) → TellsSettled row (recover_row row)
unfolding recover_row recover_decoded
recover_row-TellsSettled none o h k = absurd (ground arith)
recover_row-TellsSettled (some m) o h k = elim (Bool-cases (kind_eq m.kind create)) [
  | inr e ↦ absurd (ground arith)
  | inl e ↦ elim (Option-cases (decode_stored_result m.result)) [
    | inl d ↦ absurd (ground arith)
    | inr (s, d) ↦ elim (Bool-cases (s.status == 102)) [
      | inl p ↦ absurd (ground arith)
      | inr p ↦ (m, s, refl, e, d, p)
    ]
  ]
]

module _ (user_id collection_id mutation_id : Text) (w : World) where
  abbrev Recovered : Result MutationOutcome × World → Type 0
  Recovered (r, w') =
      (w'.stored ≡ w.stored)
      × TellsSettled
          (select_row (recorded_for user_id mutation_id collection_id) w.stored.mutations) r

  recover_found-Recovered :
      (n : ℕ) (found : Bool)
      → Recovered (recover_found user_id collection_id mutation_id found (record w { step = n }))
  unfolding recover_found db_query attempt
  recover_found-Recovered n false = (refl, λ o h k. absurd (ground arith))
  recover_found-Recovered n true = elim (Bool-cases (w.env.fails n)) [
    | inl e ↦ rw e (refl, λ o h k. absurd (cc))
    | inr e ↦ rw e (refl, recover_row-TellsSettled _)
  ]

  -- Asking for the outcome of a create writes nothing, wherever the database fails, and is answered
  -- with OK only when a create of this user with this Mutation ID is recorded in this collection
  -- and is no longer pending.
  pub recover_create-Recovered :
      ((recover_create user_id collection_id mutation_id w).1.stored ≡ w.stored)
      × TellsSettled
          (select_row (recorded_for user_id mutation_id collection_id) w.stored.mutations)
          (recover_create user_id collection_id mutation_id w).0
  unfolding recover_create exists db_query attempt
  recover_create-Recovered = elim (Bool-cases (valid_uuid collection_id)) [
    | inr e ↦ rw e (recover_found-Recovered w.step false)
    | inl e ↦ elim (Bool-cases (w.env.fails w.step)) [
      | inl f ↦ rw (e, f) (refl, λ o h k. absurd (cc))
      | inr f ↦ rw (e, f) (recover_found-Recovered (w.step + 1) _)
    ]
  ]
