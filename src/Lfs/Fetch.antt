-- ===== src/Lfs/Fetch.antt =====
-- internal/lfs/lfs.go: the sweep over the batches, and their bisection.
pub mod Chunks
pub mod Complete
pub mod Bisection
use git_backup.Base.{
  Bytes, Bool, List, Option, [], count, drop, false, if◌then◌else◌, length, ltb, map, none, not,
  some, suc, take, true, zero, ℕ, ◌++◌, ◌+◌, ◌/◌, ◌||◌, ◌∷◌,
}
use git_backup.Base.Result.{Result, err, ok}
use git_backup.Lfs.Batch.{
  BatchError, BatchObjectError, BatchResponseObject, LfsLog, Remote, TransferError, batch,
  batch_rejected, requested,
}
use git_backup.Lfs.Download.{Sorted, download_objects}
use git_backup.Lfs.Pointer.{Pointer}
use git_backup.Text.Index.{later}

-- Why an object is missing.
pub data Gap (E : Type 0) : Type 0 where
  gap_refused : BatchObjectError → Gap E
  gap_no_fresh_url : Bytes → BatchError E → Gap E
  gap_lapsed : Bytes → Gap E
  gap_rejected : Bytes → BatchError E → Gap E

pub record ChunkOutcome (E : Type 0) : Type 0 where
  pub unavailable : ℕ
  pub rejected : ℕ
  pub has_answered : Bool
  pub skipped : Option (Gap E)

-- The errors of a chunk and of the sweep.
pub data FetchError (E : Type 0) : Type 0 where
  fetch_cancelled : E → FetchError E
  batch_failed : BatchError E → FetchError E
  downloads_failed : ℕ → ℕ → TransferError E → FetchError E
  narrowed_to_singleton : BatchError E → FetchError E
  all_rejected : BatchError E → FetchError E
  objects_missing : ℕ → ℕ → Option (Gap E) → FetchError E

unfoldable pub is_refusal : {E : Type 0} → FetchError E → Bool
is_refusal (narrowed_to_singleton e) = true
is_refusal (all_rejected e) = true
is_refusal _ = false

-- A chunk's events, its outcome and its error, if any.
abbrev pub Chunk : Type 0 → Type 0
Chunk E = LfsLog × ChunkOutcome E × Option (FetchError E)

abbrev pub batch_object_limit : ℕ
batch_object_limit = 100

module _ {E : Type 0} where
  abbrev pub no_outcome : ChunkOutcome E
  no_outcome = record { unavailable = 0; rejected = 0; has_answered = false; skipped = none }

  abbrev pub first_gap : Option (Gap E) → Option (Gap E) → Option (Gap E)
  first_gap none later = later
  first_gap (some gap) later = some gap

  unfoldable pub record_unavailable : Gap E → ChunkOutcome E → ChunkOutcome E
  record_unavailable gap o = record o {
    unavailable = suc o.unavailable;
    skipped = first_gap o.skipped (some gap);
  }

  unfoldable pub absorb : ChunkOutcome E → ChunkOutcome E → ChunkOutcome E
  absorb o half = record {
    unavailable = o.unavailable + half.unavailable;
    rejected = o.rejected + half.rejected;
    has_answered = o.has_answered || half.has_answered;
    skipped = first_gap o.skipped half.skipped;
  }

  unfoldable pub refuse_or_report : ChunkOutcome E → BatchError E → Option (FetchError E)
  refuse_or_report o rejection =
      if o.has_answered || ltb 0 o.unavailable then none else some (all_rejected rejection)

  abbrev pub record_all : List (Gap E) → ChunkOutcome E → ChunkOutcome E
  record_all [] o = o
  record_all (gap ∷ gaps) o = record_all gaps (record_unavailable gap o)

  -- A half that failed outright is reported first, then its sibling; a refusal is weighed against what was answered.
  abbrev pub settle_halves :
      ChunkOutcome E
      → BatchError E
      → Option (FetchError E)
      → Option (FetchError E)
      → Option (FetchError E)
  settle_halves o rejection none none = none
  settle_halves o rejection none (some e) =
      if not (is_refusal e) then some e else refuse_or_report o rejection
  settle_halves o rejection (some f) none =
      if not (is_refusal f) then some f else refuse_or_report o rejection
  settle_halves o rejection (some f) (some e) =
      if not (is_refusal f)
      then some f
      else if not (is_refusal e)
      then some e
      else refuse_or_report o rejection

module _ {E : Type 0} (wide : Bytes → Bytes) (remote : Remote E) where
  abbrev pub request_batch :
      LfsLog → List Pointer → LfsLog × Result (BatchError E) (List BatchResponseObject)
  request_batch log pointers = (log ++ requested pointers ∷ [], batch wide remote log pointers)

  -- The second pass, over the objects whose URL had lapsed; it adds to the other two lists of the first one.
  abbrev pub refresh_expired :
      Sorted E
      → LfsLog × Result (BatchError E) (List BatchResponseObject)
      → LfsLog × ChunkOutcome E × Sorted E
  refresh_expired s (log, err e) =
      (log, record_all (map (λ (p : Pointer). gap_no_fresh_url p.oid e) s.expired) no_outcome, s)
  refresh_expired s (log, ok rescheduled) =
      let (again, later) = download_objects wide remote s.expired rescheduled log in
      (
        later,
        record_all (map (λ (p : Pointer). gap_lapsed p.oid) again.expired) no_outcome,
        record s {
          unavailable = s.unavailable ++ again.unavailable;
          failed = s.failed ++ again.failed;
        },
      )

  abbrev pub refresh_these : List Pointer → Sorted E → LfsLog → LfsLog × ChunkOutcome E × Sorted E
  refresh_these [] s log = (log, no_outcome, s)
  refresh_these (p ∷ pointers) s log = refresh_expired s (request_batch log s.expired)

  abbrev pub refresh : Sorted E × LfsLog → LfsLog × ChunkOutcome E × Sorted E
  refresh (s, log) = refresh_these s.expired s log

  abbrev pub report_failed : ℕ → List (TransferError E) → Option (FetchError E)
  report_failed count [] = none
  report_failed count (e ∷ errors) = some (downloads_failed (suc (length errors)) count e)

  abbrev pub close_chunk : ℕ → LfsLog × ChunkOutcome E × Sorted E → Chunk E
  close_chunk count (log, o, s) =
      let told = record_all (map gap_refused s.unavailable) o in
      (
        log,
        record told { has_answered = ltb (length s.unavailable) count },
        report_failed count s.failed,
      )

  unfoldable pub download_chunk : List Pointer → List BatchResponseObject → LfsLog → Chunk E
  unfolding download_objects batch record_unavailable
  download_chunk want objects log =
      close_chunk (length objects) (refresh (download_objects wide remote want objects log))

  abbrev pub reject_single : List Pointer → BatchError E → LfsLog → Chunk E
  reject_single pointers rejection log = (
    log,
    record {
      unavailable = 0;
      rejected = 1;
      has_answered = false;
      skipped = elim pointers [
        | [] ↦ none
        | ◌∷◌ p (ps → rest) ↦ some (gap_rejected p.oid rejection)
      ];
    },
    some (narrowed_to_singleton rejection),
  )

  -- Both halves are always tried, the second one after the first.
  abbrev pub try_halves :
      (List Pointer → LfsLog → Chunk E)
      → List Pointer
      → List Pointer
      → BatchError E
      → LfsLog
      → Chunk E
  try_halves next left right rejection log =
      let (log1, o1, e1) = next left log in
      let (log2, o2, e2) = next right log1 in
      (log2, absorb o1 o2, settle_halves (absorb o1 o2) rejection e1 e2)

  abbrev pub narrow :
      (List Pointer → LfsLog → Chunk E) → List Pointer → BatchError E → LfsLog → Chunk E
  narrow next pointers rejection log =
      let middle = length pointers / 2 in
      if ltb 1 (length pointers)
      then try_halves next (take middle pointers) (drop middle pointers) rejection log
      else reject_single pointers rejection log

  abbrev pub after_request :
      (List Pointer → LfsLog → Chunk E)
      → List Pointer
      → LfsLog × Result (BatchError E) (List BatchResponseObject)
      → Chunk E
  after_request next pointers (log, ok objects) = download_chunk pointers objects log
  after_request next pointers (log, err (batch_rejected status)) =
      narrow next pointers (batch_rejected status) log
  after_request next pointers (log, err e) = (log, no_outcome, some (batch_failed e))

  -- The fuel is the number of pointers, which each half has fewer of.
  unfoldable pub fetch_chunk : ℕ → List Pointer → LfsLog → Chunk E
  unfolding download_chunk refuse_or_report absorb batch
  fetch_chunk zero pointers log = (log, no_outcome, none)
  fetch_chunk (suc n) pointers log =
      after_request (fetch_chunk n) pointers (request_batch log pointers)
