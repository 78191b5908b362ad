-- ===== src/Lib.antt =====
-- The sync server of FUTO Notes (Go): what its database transactions, its batch format and its
-- services do, and what holds of them.
--
-- The server keeps encrypted notes. A client uploads a blob, which the blob ledger holds as staged,
-- then creates or updates an object that claims it; a delete leaves a tombstone. Every mutation
-- advances the version of its collection, which becomes the object's change_seq, and rings a
-- doorbell for the other devices of the user, which then pull what changed since their cursor.
-- A mutation may carry a Mutation ID, whose outcome is kept and answered again.
--
-- Parts:
--   Prelude     Booleans, lists and byte strings that all parts share. A Go string is a list of bytes.
--   Store       internal/db and the tables of internal/db/migrations. A statement is an operation on
--               the list of a table's rows (Store.Sql). A transaction (Store.Monad) works on a copy of
--               the database that Commit puts in place, together with the callbacks of AfterCommit;
--               an unfinished one is dropped, which is the deferred Rollback. Every call of the
--               database takes a step of an environment that says whether it fails, so that each
--               theorem covers a failure at every call. Store.Dialect has ParseDialect, Rebind and
--               the guard of prepareSQLiteFile, for which the file system is an argument.
--   Ids         ValidMutationID, ValidUUID and ValidBlobKey.
--   Objects     internal/objects/objects.go: Steps has the helpers of the transactions, Create,
--               Update and Delete the transactions with their replay (CreateReserved, ReserveCreate,
--               Update, Delete), Read Get and RecoverCreate, Stored the outcomes that are kept, Pull the List query, the page
--               and the cursor of handleListObjects, and a client that pulls page by page.
--   Wire        parseBatch of cmd/server/objects.go and batchEntryFrame of cmd/compare/frames.go
--               (Batch); streamBlobBatch of cmd/server/blobs.go and decodeDownloadFrames of
--               cmd/compare/frames.go, which reads it (Transfer).
--   Auth        internal/auth/ratelimit.go, internal/auth/session.go with ReapSessions of
--               internal/jobs/jobs.go, and internal/auth/password.go and internal/auth/user.go
--               (Password).
--   Events      Hub and Subscription of internal/events/events.go, and the loop of
--               internal/events/listener.go (Listener).
--   Collections internal/collections/collections.go (Vault) and internal/collections/key.go (Key).
--   Blobs       Stage and Delete of internal/blobs/blobs.go.
--   Jobs        ExpireMutationResults, eligibleBlobKeys and purgeBlobRow of internal/jobs/jobs.go,
--               GarbageCollectBlobs (Garbage) and ReconcileStorage (Reconcile).
--   Schema      pendingMigrations and Migrate of internal/db/migrate.go, and collectionVersions of
--               internal/db/convert.go (Convert).
--   Server      the handlers of cmd/server/objects.go that upload blobs inline (Uploads), that create
--               and update from a blob uploaded before (Staged), that read, delete and recover (Reads),
--               and the answers they write (Reply); those of cmd/server/blobs.go (BlobRoutes),
--               cmd/server/collections.go (Vaults) and cmd/server/auth.go (Login); and the event
--               stream of cmd/server/sync.go (Stream).
--   Config      Load of internal/config/config.go and loadDotenv of internal/config/dotenv.go.
--   System      the transactions as steps in any order: those that write objects or the blob ledger
--               (Reach) with what the ledger owes to the objects (Held), and those that write objects
--               or collections (Converted) with the versions that they reach (Versions).
--   Tests       runs at concrete inputs, and the theorems applied there.
--
-- How the model reads the code: the functions keep the Go names in antt's spelling, and a helper
-- stands for each branch of a long function. One transaction runs at a time, as SQLite's writer
-- lock and the row locks of Postgres have it for one collection; FOR UPDATE SKIP LOCKED is asked
-- when the row is free. A timestamp is a number of milliseconds, the precision that db.Timestamp
-- keeps. An int64 that counts is a natural number: adding one to the largest int64 fails in SQL and
-- wraps around in Go (inc_int64). encoding/json is taken to read what it wrote (Store.Documents);
-- utf8.Valid, SHA-256, the text of a revision token and the file system are parameters.
--
-- Fuel: parse_entries and decode_frames read a byte or more in each round, so one round more than the
-- body has bytes is enough for every body; pull needs one round more than there are changes;
-- collect_rounds takes a row from the ledger in each round but the last, so one round more than the
-- ledger has rows is enough; leading_digit divides a status by ten in each round, so the status
-- itself is enough.
--
-- Not modelled: routes, logging, start-up and the HTTP library, which also serves a part of one
-- download; headers other than Retry-After and the value of the session cookie; the timers of
-- internal/jobs/runner.go; the copying of tables to SQLite; the comparison harness but for its
-- frames; the foreign keys on users from the tables that never lose their user, since no code
-- deletes a user. In Reach, a file that the reconciliation adopts counts as a step elsewhere only
-- where it leaves the ledger alone; one with the key of a tombstone is left out.
-- Identifiers are compared byte by byte, as SQLite's text columns are; the uuid columns of Postgres
-- do not tell upper-case from lower-case digits, and give them back in lower case. In the event
-- stream, a receive of a wake-up and the drain that follows it are one step, and a failing write of
-- the first event is left out.
pub mod Prelude
pub mod Store
pub mod Ids
pub mod Objects
pub mod Wire
pub mod Auth
pub mod Events
pub mod Collections
pub mod Blobs
pub mod Jobs
pub mod Server
pub mod Schema
pub mod Config
pub mod System
mod Tests
