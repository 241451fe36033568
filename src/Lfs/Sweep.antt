-- ===== src/Lfs/Sweep.antt =====
-- internal/lfs/lfs.go: the sweep over all pointers, and FetchAll.
pub mod Holding
pub mod Whole
use git_backup.Base.{
  Bytes, List, Option, [], count, drop, if◌then◌else◌, length, ltb, none, some, suc, take, zero, ℕ,
  ◌+◌, ◌∷◌,
}
use git_backup.Base.Result.{Result, err, ok}
use git_backup.Lfs.Batch.{LfsLog, Remote}
use git_backup.Lfs.Fetch.{
  Chunk, ChunkOutcome, FetchError, Gap, absorb, batch_object_limit, fetch_cancelled, fetch_chunk,
  no_outcome, objects_missing,
}
use git_backup.Lfs.Pointer.{Pointer}
use git_backup.Lfs.Probe.{ProbeError, Reply}
use git_backup.Lfs.Select.{EndpointCandidate, select_endpoint}
use git_backup.Paths.Url.{Url, parse_http_url}

module _ {E : Type 0} (wide : Bytes → Bytes) (remote : Remote E) where
  -- Behind the loop; `count` is the number of all pointers.
  abbrev pub finish_sweep : ℕ → LfsLog → ChunkOutcome E → Option (FetchError E) → Chunk E
  finish_sweep count log total (some first) = (log, total, some first)
  finish_sweep count log total none =
      let missing = total.unavailable + total.rejected in
      (
        log,
        total,
        if ltb 0 missing then some (objects_missing missing count total.skipped) else none,
      )

  -- A second chunk that fails ends the loop, with the error of the first one.
  abbrev pub after_chunk :
      (LfsLog → ChunkOutcome E → Option (FetchError E) → Chunk E)
      → ChunkOutcome E
      → Option (FetchError E)
      → Chunk E
      → Chunk E
  after_chunk next total first (log, o, none) = next log (absorb total o) first
  after_chunk next total none (log, o, some e) = next log (absorb total o) (some e)
  after_chunk next total (some first) (log, o, some e) = (log, absorb total o, some first)

  -- One round of fuel for each pointer; each round takes at least one.
  unfoldable pub sweep :
      ℕ → ℕ → List Pointer → LfsLog → ChunkOutcome E → Option (FetchError E) → Chunk E
  unfolding fetch_chunk absorb
  sweep count fuel [] log total first = finish_sweep count log total first
  sweep count zero (p ∷ pointers) log total first = (log, total, none)
  sweep count (suc n) (p ∷ pointers) log total first =
      let chunk = take batch_object_limit (p ∷ pointers) in
      let next = sweep count n (drop batch_object_limit (p ∷ pointers)) in
      elim (remote.ctx_err log) [
        | some e ↦ (log, total, some (fetch_cancelled e))
        | none ↦ after_chunk next total first (fetch_chunk wide remote (length chunk) chunk log)
      ]

  unfoldable pub fetch_batches : List Pointer → Chunk E
  unfolding sweep
  fetch_batches pointers = sweep (length pointers) (length pointers) pointers [] no_outcome none

-- The errors of `FetchAll`.
pub data FetchAllError (E : Type 0) : Type 0 where
  repository_unopened : E → FetchAllError E
  url_unsupported : FetchAllError E
  scan_failed : E → FetchAllError E
  entries_unread : ℕ → FetchAllError E
  candidates_failed : E → FetchAllError E
  endpoint_unsettled : ProbeError E → FetchAllError E
  sweep_failed : FetchError E → FetchAllError E
  objects_unavailable : ℕ → ℕ → Option (Gap E) → FetchAllError E

-- `collectPointers`: the pointers and the entries that could not be read.
pub record PointerScan : Type 0 where
  pub pointers : List Pointer
  pub unread : List Bytes

-- The repository as go-git opens and scans it, the candidates that its configuration gives, the answers to the probes, and the endpoints.
pub record Mirror (E : Type 0) : Type 0 where
  pub open_error : Option E
  pub scan : Result E PointerScan
  pub candidates : Url → Result E (List EndpointCandidate)
  pub probe_reply : Pointer → EndpointCandidate → Reply E
  pub remote : Bytes → Remote E

abbrev pub Fetched : Type 0 → Type 0
Fetched E = LfsLog × Option (FetchAllError E)

module _ {E : Type 0} (wide : Bytes → Bytes) (parse : Bytes → Option Url) (mirror : Mirror E) where
  abbrev pub report_sweep : ℕ → Chunk E → Fetched E
  report_sweep count (log, outcome, some e) = (log, some (sweep_failed e))
  report_sweep count (log, outcome, none) =
      if ltb 0 outcome.unavailable
      then (log, some (objects_unavailable outcome.unavailable count outcome.skipped))
      else (log, none)

  abbrev pub fetch_from : List Pointer → Result (ProbeError E) Bytes → Fetched E
  fetch_from pointers (err e) = ([], some (endpoint_unsettled e))
  fetch_from pointers (ok endpoint) =
      report_sweep (length pointers) (fetch_batches wide (mirror.remote endpoint) pointers)

  abbrev pub choose_endpoint :
      List Pointer → Pointer → Result E (List EndpointCandidate) → Fetched E
  choose_endpoint pointers probe (err e) = ([], some (candidates_failed e))
  choose_endpoint pointers probe (ok candidates) =
      fetch_from pointers (select_endpoint wide (mirror.probe_reply probe) candidates)

  abbrev pub fetch_pointers : Url → List Pointer → Fetched E
  fetch_pointers url [] = ([], none)
  fetch_pointers url (p ∷ pointers) = choose_endpoint (p ∷ pointers) p (mirror.candidates url)

  abbrev pub read_scan : Url → Result E PointerScan → Fetched E
  read_scan url (err e) = ([], some (scan_failed e))
  read_scan url (ok scan) =
      if ltb 0 (length scan.unread)
      then ([], some (entries_unread (length scan.unread)))
      else fetch_pointers url scan.pointers

  abbrev pub parse_remote : Option Url → Fetched E
  parse_remote none = ([], some url_unsupported)
  parse_remote (some url) = read_scan url mirror.scan

  unfoldable pub fetch_all : Bytes → Fetched E
  unfolding fetch_batches select_endpoint parse_http_url
  fetch_all remote_url = elim mirror.open_error [
    | some e ↦ ([], some (repository_unopened e))
    | none ↦ parse_remote (parse_http_url parse remote_url)
  ]
