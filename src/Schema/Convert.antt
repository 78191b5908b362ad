-- ===== src/Schema/Convert.antt =====
-- The check of collection versions in the conversion to SQLite: collectionVersions of
-- internal/db/convert.go.
use futo_notes_server.Collections.Vault.{in_collection}
use futo_notes_server.Store.Rows.{ObjectRow, CollectionRow}
use futo_notes_server.Prelude.{
  ◌≡◌, refl, [], ◌∷◌, none, some, List, Text, All, ℕ, arith, Option, if◌then◌else◌, ◌==◌, ◌==◌, max,
}

-- coalesce(max(change_seq), 0) over the objects of a collection.
unfoldable pub max_seq : Text → List ObjectRow → ℕ
max_seq id [] = 0
max_seq id (o ∷ os) =
    let rest = max_seq id os in if in_collection id o then max o.change_seq rest else rest

-- The version of each collection; `none` is the error of one that its objects do not reach.
unfoldable pub collection_versions : List CollectionRow → List ObjectRow → Option (List (Text × ℕ))
collection_versions [] os = some []
collection_versions (c ∷ cs) os =
    let rest = collection_versions cs os in
    if max_seq c.id os == c.current_version
    then (elim rest [ none ↦ none | some versions ↦ some ((c.id, c.current_version) ∷ versions) ])
    else none

-- Every collection's version is the highest change_seq of its objects.
abbrev pub IsReached : List CollectionRow → List ObjectRow → Type 0
IsReached cs os = All (λ (c : CollectionRow). max_seq c.id os ≡ c.current_version) cs

abbrev pub versions_of : List CollectionRow → List (Text × ℕ)
versions_of [] = []
versions_of (c ∷ cs) = (c.id, c.current_version) ∷ versions_of cs

pub collection_versions-IsReached :
    (cs : List CollectionRow) (os : List ObjectRow)
    → IsReached cs os
    → collection_versions cs os ≡ some (versions_of cs)
unfolding collection_versions
collection_versions-IsReached [] os h = refl
collection_versions-IsReached (c ∷ cs) os h =
    let rest = collection_versions-IsReached cs os h.1 in rw (h.0, rest) (ground arith)
