-- ===== src/Store/Tests.antt =====
-- The storage theorems at small inputs.
use git_backup.Base.{
  Bytes, List, Option, [], arith, bytes, count, false, if◌then◌else◌, leb, none, refl, some,
  text_eq, true, ℕ, ◌∷◌, ◌≡◌, All,
}
use git_backup.Base.Int.{pos, ℤ}
use git_backup.Store.Delete.{
  Answer, Request, accepted, bulk, delete_batches, delete_individually, delete_objects,
  schema_error, single, unique_from, unique_keys,
}
use git_backup.Store.Delete.Limits.{delete_objects-within_limits, within_limits}
use git_backup.Store.Delete.Requests.{Covers, Log, delete_objects-Covers, keys_of, named_by}
use git_backup.Store.Delete.Success.{Serves, removed_by, delete_objects-succeeds}
use git_backup.Store.Delete.Unique.{unique_keys-once, wanted}
use git_backup.Store.Execute.{
  Failure, delay_after, execute, http_status_of, is_bulk_delete_schema_error, parse_retry_after,
  retry, succeeded,
}
use git_backup.Store.Execute.Attempts.{EndsWell, execute-EndsWell}
use git_backup.Store.Execute.Delays.{IsBounded, delay_after-IsBounded}
use git_backup.Store.Multipart.{
  Part, Stream, completed, created, multipart_upload, produce_parts, sort_parts, work, truncated,
}
use git_backup.Store.Multipart.Finishing.{
  Finishes, IsSchedule, multipart_upload-Finishes, Succeeded,
}
use git_backup.Store.Multipart.Sorting.{chain, keep, none_left, swap}
use git_backup.Store.Multipart.Truncation.{multipart_upload-truncated}
use git_backup.Text.Decimal.{parse_int}
use git_backup.Text.Search.{contains_text, has_prefix}
use git_backup.Text.Trim.{trim, trim_space}

abbrev one_bulk_rejected : Log ℕ → Request → Answer ℕ
one_bulk_rejected log (bulk batch) = schema_error 400
one_bulk_rejected log (single key) = accepted []

abbrev never_done : Log ℕ → Option ℕ
never_done log = none

abbrev some_keys : List Bytes
some_keys = bytes "a" ∷ bytes " /b/" ∷ bytes "a/" ∷ []

singles_after_rejection :
    (delete_objects one_bulk_rejected never_done some_keys).log
    ≡ (bulk (bytes "a" ∷ bytes "b" ∷ []), schema_error 400)
      ∷ (single (bytes "a"), accepted [])
      ∷ (single (bytes "b"), accepted [])
      ∷ []
unfolding delete_objects unique_keys unique_from delete_batches delete_individually text_eq trim
    trim_space
singles_after_rejection = refl

-- The storage accepts every bulk request, and reports each of its keys as not deleted.
abbrev all_refused : Log ℕ → Request → Answer ℕ
all_refused log (bulk batch) = accepted batch
all_refused log (single key) = accepted []

refusals_unreported :
    ((delete_objects all_refused never_done some_keys).error ≡ none)
    × (keys_of removed_by (delete_objects all_refused never_done some_keys).log ≡ [])
unfolding delete_objects unique_keys unique_from delete_batches delete_individually text_eq trim
    trim_space
refusals_unreported = (refl, refl)

Serves-all : (log : Log ℕ) (r : Request) → Serves r (one_bulk_rejected log r)
Serves-all log (bulk batch) = tt
Serves-all log (single key) = tt

unique_keys-once_example :
    count (text_eq (bytes "b")) (unique_keys some_keys)
    ≡ (if wanted (bytes "b") some_keys then 1 else 0)
unique_keys-once_example = unique_keys-once (bytes "b") some_keys

delete_objects-Covers_example :
    Covers named_by []
      (unique_keys some_keys)
      (delete_objects one_bulk_rejected never_done some_keys)
delete_objects-Covers_example = delete_objects-Covers one_bulk_rejected never_done some_keys

delete_objects-within_limits_example :
    within_limits false (delete_objects one_bulk_rejected never_done some_keys).log ≡ true
delete_objects-within_limits_example =
    delete_objects-within_limits one_bulk_rejected never_done some_keys

delete_objects-succeeds_example :
    ((delete_objects one_bulk_rejected never_done some_keys).error ≡ none)
    × (keys_of removed_by (delete_objects one_bulk_rejected never_done some_keys).log
        ≡ unique_keys some_keys)
delete_objects-succeeds_example =
    delete_objects-succeeds one_bulk_rejected never_done (λ log. refl) Serves-all some_keys

abbrev slow_down : Failure
slow_down = record {
  message = bytes "SlowDown";
  response = some (503, bytes "7");
  url_error = false;
  canceled = false;
  deadline_exceeded = false;
}

abbrev no_date : Bytes → Option ℤ
no_date header = none

-- The first two attempts fail.
abbrev busy_twice : ℕ → Option Failure
busy_twice attempt = if leb attempt 2 then some slow_down else none

abbrev no_context_error : ℕ → Option ℕ
no_context_error attempt = none

abbrev no_jitter : ℕ → ℕ
no_jitter attempt = 0

waits_as_told :
    execute no_date busy_twice no_context_error no_context_error no_jitter
    ≡ record { calls = 3; waits = pos 7000000000 ∷ pos 7000000000 ∷ []; outcome = succeeded }
unfolding execute retry http_status_of parse_retry_after is_bulk_delete_schema_error contains_text
    has_prefix text_eq trim_space parse_int
waits_as_told = refl

execute-EndsWell_example :
    EndsWell no_date busy_twice no_context_error no_context_error no_jitter
      (execute no_date busy_twice no_context_error no_context_error no_jitter)
execute-EndsWell_example =
    execute-EndsWell no_date busy_twice no_context_error no_context_error no_jitter

delay_after-IsBounded_example : IsBounded (delay_after no_date 2 slow_down 5)
unfolding http_status_of
delay_after-IsBounded_example =
    delay_after-IsBounded no_date 2 slow_down 5 (omega arith, omega arith) (omega arith)
      (omega arith)

abbrev small_stream : Stream ℕ
small_stream = record { content = bytes "abcde"; ending = none }

-- The two workers end their uploads in the other order.
abbrev all_uploaded : List Part → List (Part × Option ℕ)
all_uploaded [] = []
all_uploaded (p ∷ []) = (p, none) ∷ []
all_uploaded (p ∷ q ∷ parts) = (q, none) ∷ (p, none) ∷ all_uploaded parts

all_uploaded-IsSchedule : IsSchedule all_uploaded
all_uploaded-IsSchedule [] h = none_left
all_uploaded-IsSchedule (p ∷ []) h = keep p none_left
all_uploaded-IsSchedule (p ∷ q ∷ parts) h =
    chain (swap p q parts) (keep q (keep p (all_uploaded-IsSchedule parts h.1.1)))

three_parts :
    (multipart_upload none none all_uploaded no_context_error 2 small_stream).calls
    ≡ created
      ∷ completed (
          record { number = 1; content = bytes "ab" }
          ∷ record { number = 2; content = bytes "cd" }
          ∷ record { number = 3; content = bytes "e" }
          ∷ [])
      ∷ []
unfolding multipart_upload produce_parts work sort_parts
three_parts = refl

multipart_upload-Finishes_example :
    Finishes 2 small_stream
      (multipart_upload none none all_uploaded no_context_error 2 small_stream).calls
      (multipart_upload none none all_uploaded no_context_error 2 small_stream).error
multipart_upload-Finishes_example =
    multipart_upload-Finishes none none all_uploaded all_uploaded-IsSchedule no_context_error 2
      small_stream (omega arith)

abbrev cut_short : Bytes
cut_short = bytes "abc"

all_uploaded-Succeeded : (parts : List Part) → All Succeeded (all_uploaded parts)
all_uploaded-Succeeded [] = tt
all_uploaded-Succeeded (p ∷ []) = (refl, tt)
all_uploaded-Succeeded (p ∷ q ∷ parts) = (refl, (refl, all_uploaded-Succeeded parts))

multipart_upload-truncated_example :
    multipart_upload none none all_uploaded no_context_error 5
      (record { content = cut_short; ending = some truncated })
    ≡ record {
      calls = created ∷ completed (record { number = 1; content = cut_short } ∷ []) ∷ [];
      error = none;
    }
multipart_upload-truncated_example =
    multipart_upload-truncated all_uploaded all_uploaded-IsSchedule no_context_error 5 cut_short
      (omega arith) (omega arith) refl all_uploaded-Succeeded
