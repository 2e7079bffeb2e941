-- ===== src/Lib.antt =====
-- Models and theorems for the core of Sintade, a recorder for the browser with uploads in
-- chunks: a client starts a recording, uploads the chunks of its take to object storage, has
-- each chunk acknowledged, and finalizes the take; media then builds a chunk manifest from the
-- event and processes it, and the owner may edit the recording by keeping ranges of it.
--
-- Catalog/Recordings: the recordings table, each statement of crates/catalog/src/infra/repo.rs
--   as a function on the list of rows, with its WHERE clause. `Lifecycle` and `Tenancy` hold its
--   laws.
-- Catalog/Manage: `RecordingManager` (crates/catalog/src/app/manage.rs) with the chapters
--   table.
-- Catalog/Titles: `Title::parse` and `ChapterList::parse` (crates/catalog/src/domain).
-- Ingest/Chunks, Ingest/Digest: the pure rules of crates/ingest/src/domain/mod.rs; `Digest`
--   also has the digest functions of crates/media/src/domain/mod.rs.
-- Ingest/Tables: takes and chunks, each statement of crates/ingest/src/infra/repo.rs, beside
--   the recordings, the objects in storage and the outbox: the state `Db`.
-- Ingest/Service, Ingest/Finalizing, Ingest/Sweeping: the calls of `IngestService`
--   (crates/ingest/src/app/service.rs). `ack_chunk` is split into `prepare_ack`, which reads,
--   and `record_ack`, which inserts, so that acks and finalizes can come in between.
--   `Ingest/Walk` is the loop of `finalize` over the expected and the received indexes.
-- Media/Edl: `Edl` of crates/media/src/domain/edl.rs. Media/Manifest: `ChunkManifest` of
--   crates/media/src/domain/mod.rs. Media/Waveform: the folding of audio into peaks, and
--   Media/Sprite: the thumbnails and their cues (waveform.rs and sprite.rs beside it), without
--   the arguments for ffmpeg. `Storage` has the containers and keys of the domain module,
--   `Storage/Versions` the files of one version.
-- Media/Renditions, Media/Requests: the renditions table with the lookups and the requests for
--   jobs of `RenditionReader` (crates/media/src/app/reader.rs, infra/repo.rs).
-- Media/Processing: the media_jobs table; `Service` has the calls of `MediaService` on a take
--   (crates/media/src/app/service.rs), `Run` the steps of a run, and `Retry` app/retry.rs. A run
--   is given what its steps gave: the bytes of the source, the report of the MP4, the removal of
--   the scratch directory.
-- Media/Derived: the ladder and the sprite of a take, in the same file; what other calls do to
--   the state while they are made is a function.
-- Media/Edits: the edits table (crates/media/src/infra/edits.rs); `Service` has one function
--   for each transaction of app/edit.rs. `Runs` has the runs of `render_edit` as a system, each
--   on the row that it read first, and each edit with at most one run at a time: the code relies
--   on the lock of the edit's one job for that and does not check it. `Settled` and `Shown` have
--   the transactions on edits that are on their way, one after another.
-- Delivery/Cache: the cache of the playback path (crates/delivery/src/cache.rs).
--   Delivery/Tokens: the tokens of manifest_token.rs. Delivery/Playlists: hls.rs.
--   Delivery/Grants, Delivery/Rungs: the calls of `DeliveryService` (lib.rs), with the keys that
--   are signed on the way.
-- Sharing/Slugs, Sharing/Visibility, Sharing/Links: crates/sharing, from the slugs to the
--   calls of `SharingService`. Tenancy/Roles, Tenancy/Members: crates/tenancy and
--   crates/kernel/src/access.rs.
-- Api/Watch: the handlers that open a link (bin/api/src/routes/watch.rs), over the parts
--   above.
-- Platform/Jobs: the job queue of crates/platform/src/job_queue.rs, each statement on the
--   table of jobs; one that inserts where no job waits has the snapshot that it sees as an
--   argument, as nothing locks the table. `Platform/Limits` is the rate limiter of rate_limit.rs.
-- Pipeline: what ingest sends to media.
-- Prelude: lists, results, texts, sorting and tables, shared by all.
--
-- Numbers are natural numbers; where the code checks a sum against the width of its type the
-- check is written out. Texts are lists of code points. A uuid is a number, and its display a
-- parameter where keys are built from it. Times are numbers of seconds, in the job queue of
-- milliseconds, and `now` is an argument. Tables are lists of rows in the order of their
-- insertion. A call returns the state that it leaves; one that fails leaves the state as it was,
-- as its transaction is rolled back. Every loop is structural recursion over a list or over the
-- number of rounds that the code's range has; decimal digits have fuel for more digits than the
-- number has. The sums of sprite cues do not wrap: the code keeps durations in 31 bits.
--
-- The loop that draws a slug has the number of its rounds as fuel, and ends within any rounds
-- that hold twelve usable bytes. Randomness, new identifiers, the MAC, base64url, presigned URLs
-- and what ffmpeg and the object store give are arguments.
--
-- Not modelled: failing statements and storage calls, the locks, logging, the parts of HTTP
-- around a handler, the runs of ffmpeg, the waveform job, the editor's source, accounts and
-- sessions, the worker's loop, and the parts of crates that are not named above.
pub mod Prelude
pub mod Api
pub mod Catalog
pub mod Delivery
pub mod Ingest
pub mod Media
pub mod Pipeline
pub mod Platform
pub mod Sharing
pub mod Tenancy
