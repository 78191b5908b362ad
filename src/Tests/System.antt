-- ===== src/Tests/System.antt =====
-- Sequences of transactions at concrete inputs.
use futo_notes_server.Schema.Convert.{collection_versions, versions_of}
use futo_notes_server.System.Converted.{Written, Write, Written-collection_versions}
use futo_notes_server.Collections.Vault.{claim_collection}
use futo_notes_server.Blobs.{delete_blob}
use futo_notes_server.Objects.Create.{create_reserved}
use futo_notes_server.Store.Rows.{ObjectRow}
use futo_notes_server.Prelude.{◌≡◌, refl, [], false, some, All, Text, ◌∷◌, ◌∷◌}
use futo_notes_server.Tests.World.{note, empty_db, start, ann, vault, blob}
use futo_notes_server.Store.Monad.{ok, World, M, Db}
use futo_notes_server.System.Reach.{Reach, next, empty, creates, deletes_blob, Kept, reachable-Kept}

abbrev no_put : Text → Text → M (Unit {0})
no_put key data_bytes w = (ok tt, w)

abbrev no_remove : Text → M (Unit {0})
no_remove key w = (ok tt, w)

abbrev created_world : World
created_world = (create_reserved ann vault [] blob false (start empty_db)).1

abbrev tried_world : World
tried_world = (delete_blob no_remove ann blob created_world).1

-- The blob of a note is claimed, and its deletion is tried.
tried : Reach no_put no_remove tried_world
tried =
    next (next (empty (start empty_db) refl) (creates ann vault [] blob false))
      (deletes_blob ann blob)

reachable-Kept_example :
    All
      (λ (o : ObjectRow).
        o.deleted ≡ false → (key : Text) → o.blob_key ≡ some key → Kept no_remove tried_world o key)
      tried_world.stored.objects
reachable-Kept_example =
    reachable-Kept no_put no_remove (λ key data_bytes w. refl) (λ key w. refl) tried_world tried

abbrev blank_db : Db
blank_db = record empty_db {
  collections = [];
  users = record { id = ann; sub = []; email = []; name = [] } ∷ [];
}

abbrev claimed_world : World
claimed_world = (claim_collection ann (start blank_db)).1

abbrev filled_world : World
filled_world = (create_reserved ann note [] blob false claimed_world).1

-- A vault is claimed, and a note created in it.
filled : Written filled_world
filled =
    Written.next
      (Written.next (Written.empty (start blank_db) refl refl) (Write.claims ann (λ n. tt)))
      (Write.creates ann note [] blob false)

Written-collection_versions_example :
    collection_versions filled_world.stored.collections filled_world.stored.objects
    ≡ some (versions_of filled_world.stored.collections)
Written-collection_versions_example = Written-collection_versions filled_world filled
