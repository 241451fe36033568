-- ===== src/Lib.antt =====
-- git-backup mirrors repositories of Git forges and of plain URLs, uploads a timestamped
-- archive of each to S3-compatible storage, and prunes old archives. Modelled are the naming of
-- objects (internal/paths), the retention pass (internal/backup/retention.go), the object
-- storage (internal/store), the Git LFS client from the choice of an endpoint to the download
-- of the objects (internal/lfs), cron expressions and durations (internal/schedule), the
-- scheduler (internal/scheduler), the status server (internal/health), the loading and the live
-- reload of the settings (internal/config), and the backup pass over the repositories with its
-- fan-out and the clean-up of local mirrors (internal/backup/sync.go, mirror.go). The backup
-- pass runs on settings that the loader has accepted, and names its archives as internal/paths
-- does. The retention pass reads timestamps and parents out of the keys that the naming gives,
-- and deletes through the object storage; the archives that it lists are written by the
-- multipart upload.
--
-- Base: shared names; Boolean tests, lists over native numbers, Go's signed integers, and
-- results with an error.
-- Text: Go strings as lists of bytes, and the functions of Go's strings, bytes and strconv
-- packages as the source uses them: TrimSpace and Trim (Text/Trim), ToLower and EqualFold
-- (Text/Case), Index, LastIndex and HasSuffix (Text/Index), HasPrefix, Contains and Index of a
-- text (Text/Search), Split and Join (Text/Split), FormatInt and ParseInt (Text/Decimal).
-- Paths/Segment, Paths/Url: internal/paths/urls.go, NormalizeStorageSegment, TrimGitSuffix,
-- ParseHTTPURL, SplitUnescapedSegments.
-- Paths/Parser: internal/paths/parser.go, ParseRepositoryPath with PathInfo and Hierarchy.
-- Paths/Keys, Paths/Archive: internal/paths/keys.go, the keys of archives, metadata, documents
-- and attachments, TryGetArchiveTimestamp, GetParentPrefix, EnsurePrefix.
-- Paths/Redact: internal/paths/urls.go, RedactURL and maskUserinfo.
-- Retention/Group: internal/backup/retention.go, the classification of a listing and the
-- pruning of one group. Retention/Orphan: isReclaimableOrphan. Retention/Run: apply and Run.
-- Store/Execute: internal/store/storage.go, execute with its retries and delays, and
-- normalizeObjectKey.
-- Store/Delete: internal/store/ops.go, DeleteObjects and deleteObjectsIndividually. A log of
-- the requests and their answers is threaded through; the storage answers by what it was sent
-- before, and the answer to an accepted bulk request holds the keys that its response reports
-- as not deleted, which the code does not read.
-- Store/Multipart: internal/store/upload.go, multipartUpload, produceParts and multipartState.
-- A stream is its bytes and the error it ends with. What the select of a part takes, and the
-- order in which the workers end, are parameters, so that the theorems hold for every
-- interleaving.
-- Lfs/Probe, Lfs/Select: internal/lfs/batch.go, doProbe, and internal/lfs/endpoint.go,
-- selectEndpoint.
-- Lfs/Pointer: internal/lfs/scan.go, parsePointer and isSHA256Hex.
-- Lfs/Batch, Lfs/Download: internal/lfs/batch.go, batch, downloadObjects and downloadObject
-- over a log of events. Lfs/Fetch: internal/lfs/lfs.go, downloadChunk and fetchChunk.
-- Lfs/Sweep: fetchBatches and FetchAll.
-- Schedule: internal/schedule/schedule.go, Parse and DurationShort. Logging:
-- internal/logging/logging.go, ParseLevel.
-- Scheduler: internal/scheduler/runner.go, runScheduledLoop by its turns; its reports are the
-- events of Health.
-- Health: internal/health/health.go, Server with SetRunStarted, SetRunCompleted, SetNextRun,
-- Restart and handle.
-- Config/Settings: internal/config/config.go, the normalised settings. Config/Normalize:
-- internal/config/loader.go, the raw document and normalize. Config/Validate: validate with its
-- parts, with the meaning of each check in Config/Validate/Meaning and the whole in
-- Config/Validate/Whole. Config/Load: Load, with validateDeprecatedKeys, validateRawEnums and
-- resolveSecrets.
-- Config/Live: internal/config/live.go, checkForChange and reload over the polls.
-- Config/Secrets: internal/config/secrets.go, resolveSecret.
-- Sync/Parallel: internal/backup/sync.go, forEachParallel with more than one slot, as a step
-- relation of its loop and its goroutines. Sync/Plan: what Run, runProviderMode and runURLMode
-- make of a job before anything is fetched. Sync/Run: syncRepositorySnapshot,
-- resolveProviderPrefix, and forEachParallel as the jobs use it. Sync/Jobs: the items of both
-- modes, Run, and RemoveOrphans of internal/backup/mirror.go; its children prove that the
-- expected mirrors only grow, and that a complete picture names them all.
--
-- Modules Tests hold runs of the code at small inputs.
--
-- Parameters: url.Parse and URL.Redacted, the tables of unicode.ToLower for texts that are not
-- ASCII, sort.Slice in the retention (any result that has the same members in order), the clock
-- with the calendar, http.ParseTime, the random jitter, the answers of the object storage, of
-- the LFS endpoint, of Git and of the forges, the file system, the environment, the YAML
-- library with the document that it reads, the parser of cron expressions, the JSON encoder,
-- and SHA-256. In Sync/Jobs the repositories of a fan-out are synced whole, one after the
-- other; how many are still under way when one fails is a parameter, and the interleaving of
-- the goroutines themselves is that of Sync/Parallel. Numbers that Go keeps in int64 wrap
-- around where the source lets them: in time.Unix and in the product of Retry-After with a
-- second. The product of a part number with the part size is not formed; the part numbers,
-- which are int32, are not bounded here.
--
-- Fuel: the loop over the slashes of a key has one round more than the key has bytes; decimal
-- digits have one round more than the number; the batches of a deletion have one round for each
-- key; the parts of a stream have one round more than the stream has bytes; the bisection of an
-- LFS chunk and the sweep over the chunks have one round for each pointer. Each round takes at
-- least one byte, digit or key, and the theorems on results hold with exactly this fuel. The
-- loop of retries counts down the attempts.
--
-- Not modelled: log messages, the forges' clients, the metadata of projects, Git itself, the
-- scan of the trees for LFS pointers and the candidates for an LFS endpoint, the tar walk, the
-- pooling of buffers, and an upload that was created without an identifier.
pub mod Base
pub mod Text
pub mod Paths
pub mod Retention
pub mod Store
pub mod Lfs
pub mod Schedule
pub mod Health
pub mod Logging
pub mod Config
pub mod Sync
pub mod Scheduler
