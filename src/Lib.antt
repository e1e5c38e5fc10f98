-- ===== src/Lib.antt =====
-- Verification of web_bijin, a photo gallery for one owner: photos are indexed from a local folder
-- and object storages, shown in albums, uploaded, and shared by public links.
--
-- The parts and their files:
-- - Prelude, with children: shared names, the tests on numbers and text, tables as lists with
--   `WHERE` as a test (find_where, update_where, delete_where, count_where), decimal numbers.
-- - Paths: Go's `path` package as the program uses it, album.go, and isImageName and hiddenRel of
--   scan.go. A text is the list of its bytes.
-- - Store, Store/Photos: store.go with the SQL triggers of share_store.go, and photoChanged of
--   query_cache.go. The database is the tables `photos` and `photo_shares` with the revisions; a
--   transaction is a function on it, and SQLite itself is taken not to fail.
-- - Share, with children: share_store.go. Share/Writes holds the writes of permits; Rows, Permits,
--   Sound, Issued and Generations the lemmas on keys, soundness and generations; History any order
--   of indexing, removing, saving and stopping. Share/Media is sharing.go, with Served on what a
--   visitor gets and Requests on soundness.
-- - Batch, with children: batch_store.go, and the worker of batch_sharing.go. Range is createBatch,
--   Attempt the attempts, Commit the results of photos, Run the worker's loop; Valid, Steps and
--   Lifecycle the records at all times, Later and Kept what of a task stays,
--   Permits what a task does to permits, Finish that the worker ends, Retries the repeated requests.
-- - Order, with children: order.go. A uint64 keeps its wrap-around.
-- - Gallery, with children: query_photos.go with pickLimit of server.go. Sorted is the order, Rounds the
--   loop of a page, Starts, Pages and Whole a client that goes from page to page.
-- - People, with children: organize.go, on the tables `people` and `album_people`. Names is
--   cleanPersonName, View the reading queries; Rows, Sound, Writes, Renames and Merges its keys.
-- - Organize, with children: organize_receipts.go. Normal is normalizeAlbumAssignment, Receipts the
--   operation ids and the pruning; Outcomes, Settled, Once and Repeats what a repeated request does,
--   Room the bounds, Persons the tables of People.
-- - Auth, with children: the login gate of auth.go and the check of codes of totp.go.
-- - Cache, with children: the two caches of query_cache.go.
-- - Upload, with children: upload.go and image_limits.go.
-- - Process, with children: photo_processing.go, retryRejected of photo_recovery.go, and the files of
--   thumb.go. Lock and Mutex are the lock of a photo, Photo and Publish what is done behind it;
--   Obsolete, Usable and Removal what that leaves, by the lemmas of Stages.
-- - Scan, with children: walk of scan.go, with keyOwner of source.go. The workers are steps in the order
--   in which they get the locks of their photos. Survive and Removed are about the cleanup, by
--   Protected.
-- - Events, Events/Passes: schedule and sync of events.go.
-- A Tests module beside them runs the definitions and the theorems at concrete inputs.
--
-- How the parts interact: a write of a photo fires the triggers, which end its permit and advance
-- the revisions (Store/Photos); a task writes permits by the functions of Share/Writes; the worker
-- calls the functions of Batch/Attempt and Batch/Commit; an upload is checked by Paths.
--
-- What is an argument: SHA-256 and the code of a step (Auth), the version of a photo and the verified
-- copy of an original (Batch/Run), the answers of the sources (Share/Media), of file system, storage
-- and SyncKey (Upload, Events), of sources, files and decoder (Process), of the
-- sources' listings (Scan), whether a text is UTF-8 (Upload), the loading of a cached value and
-- its size (Cache), the id of a new row (Store/Photos, People), Unicode's NFC, the fingerprint of a change
-- and the JSON text of a result (Organize).
--
-- Fuel: the worker takes one photo a round, so one round more than its pending photos is enough;
-- the eviction takes one entry a round and gets the number of entries; sync makes three attempts; a
-- number has fewer digits than its value and one; a round of a page consumes an entry of the order.
--
-- Times are natural numbers: nanoseconds since Go's zero time in Auth and Cache, seconds elsewhere.
-- Ids are natural numbers, also in a cursor that is written; one that is read may be negative. Unlocking
-- a photo is one step.
-- A size or a limit that is not positive is 0 where the code treats both alike.
--
-- Not modelled: the HTTP handlers with their JSON, sessions, the loop and the status of the
-- scan, the webhook, wallpapers, the scaling of images, access to sources, the recognizer, the
-- settings and the web pages.
pub mod Prelude
pub mod Paths
pub mod Store
pub mod Share
pub mod Batch
pub mod Order
pub mod Gallery
pub mod People
pub mod Organize
pub mod Auth
pub mod Events
pub mod Cache
pub mod Upload
pub mod Process
pub mod Scan
