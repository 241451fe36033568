-- ===== src/Store/Execute.antt =====
-- internal/store/storage.go: the retries around one storage operation. Durations are nanoseconds.
pub mod Attempts
pub mod Delays
use git_backup.Base.{
  Bytes, Bool, List, Option, [], bytes, false, if◌then◌else◌, ltb, none, not, some, suc, text_eq,
  true, zero, ℕ, ◌%◌, ◌&&◌, ◌*◌, ◌++◌, ◌+◌, ◌-◌, ◌==◌, ◌^◌, ◌||◌, ◌∷◌,
}
use git_backup.Base.Int.{ltb_ℤ, negsuc, pos, pos_part, ℤ}
use git_backup.Paths.Parser.{last}
use git_backup.Text.Decimal.{parse_int}
use git_backup.Text.Search.{contains_text}
use git_backup.Text.Trim.{is_slash, trim, trim_space}

abbrev pub max_attempts : ℕ
max_attempts = 5

abbrev second : ℕ
second = 1000000000

abbrev pub retry_backoff_base : ℕ
retry_backoff_base = second

abbrev pub max_retry_after_cap : ℕ
max_retry_after_cap = 30 * second

-- An error of the storage library, by what the code asks of it: `Error()`, the response's status and `Retry-After` header, and the kinds of error in its chain.
pub record Failure : Type 0 where
  pub message : Bytes
  pub response : Option (ℕ × Bytes)
  pub url_error : Bool
  pub canceled : Bool
  pub deadline_exceeded : Bool

-- A product of two Go durations, which wraps around.
abbrev pub to_int64 : ℕ → ℤ
to_int64 n = let m = n % 2 ^ 64 in if ltb m (2 ^ 63) then pos m else negsuc (2 ^ 64 - 1 - m)

-- `max(0, ...)`.
abbrev pub non_negative : ℤ → ℤ
non_negative delay = pos (pos_part delay)

-- `until` is `http.ParseTime` and then `time.Until`.
abbrev pub retry_seconds : Option ℤ → Option ℕ
retry_seconds (some (pos (suc n))) = some (suc n)
retry_seconds _ = none

abbrev pub retry_date : Option ℤ → ℤ
retry_date (some delay) = non_negative delay
retry_date none = pos 0

unfoldable pub parse_retry_after : (Bytes → Option ℤ) → Bytes → ℤ
parse_retry_after until header =
    let trimmed = trim_space header in
    if text_eq trimmed [] then pos 0 else elim (retry_seconds (parse_int trimmed)) [
      | some seconds ↦ to_int64 (seconds * second)
      | none ↦ retry_date (until trimmed)
    ]

unfoldable pub http_status_of : (Bytes → Option ℤ) → Failure → Option (ℕ × ℤ)
unfolding parse_retry_after
http_status_of until failure = elim failure.response [
  | none ↦ none
  | some (status, header) ↦ some (status, parse_retry_after until header)
]

abbrev pub is_retryable_status : ℕ → Bool
is_retryable_status status =
    status == 429 || status == 500 || status == 502 || status == 503 || status == 504

abbrev pub is_transport_error : Failure → Bool
is_transport_error failure =
    failure.url_error && (not failure.canceled && not failure.deadline_exceeded)

unfoldable pub is_bulk_delete_schema_error : Failure → Bool
unfolding contains_text
is_bulk_delete_schema_error failure =
    contains_text (bytes "MalformedXML") failure.message
    || contains_text (bytes "XML you provided was not well formed") failure.message
    || contains_text (bytes "did not validate against our published schema") failure.message

-- `jitter` is the random part, below one second.
abbrev pub backoff_delay : ℕ → ℤ → ℕ → ℕ → ℤ
backoff_delay attempt retry_after status jitter =
    if ltb_ℤ (pos 0) retry_after
    then (if status == 429
        then retry_after
        else if ltb_ℤ retry_after (pos max_retry_after_cap)
        then retry_after
        else pos max_retry_after_cap)
    else pos (retry_backoff_base * 2 ^ (attempt - 1) + jitter)

-- The two conditions under which the loop breaks.
abbrev pub gives_up : (Bytes → Option ℤ) → Failure → ℕ → Bool
gives_up until failure attempt = elim (http_status_of until failure) [
  | some (status, retry_after) ↦ not (is_retryable_status status) || attempt == max_attempts
  | none ↦ not (is_transport_error failure) || attempt == max_attempts
]

abbrev pub status_and_delay : Option (ℕ × ℤ) → ℕ × ℤ
status_and_delay (some answer) = answer
status_and_delay none = (0, pos 0)

-- The delay before the attempt after `attempt`.
abbrev pub delay_after : (Bytes → Option ℤ) → ℕ → Failure → ℕ → ℤ
delay_after until attempt failure jitter =
    let answer = status_and_delay (http_status_of until failure) in
    backoff_delay attempt answer.1 answer.0 jitter

-- `reported` is what `reportFailure` makes of the last error.
pub data Verdict (E : Type 0) : Type 0 where
  succeeded : Verdict E
  context_done : E → Verdict E
  rejected_shape : Failure → Verdict E
  reported : Option Failure → Verdict E

-- How often the action was called, the delays waited for, and what is returned.
pub record Execution (E : Type 0) : Type 0 where
  pub calls : ℕ
  pub waits : List ℤ
  pub outcome : Verdict E

-- What the action returns at each attempt, the context before it and while waiting after it.
module _ {E : Type 0} (until : Bytes → Option ℤ) (action : ℕ → Option Failure)
    (ctx_err : ℕ → Option E) (interrupted : ℕ → Option E) (jitter : ℕ → ℕ) where
  -- The loop from the attempt after `calls` on; `left` counts the attempts up to `max_attempts`.
  unfoldable pub retry : ℕ → ℕ → List ℤ → Option Failure → Execution E
  unfolding http_status_of is_bulk_delete_schema_error
  retry zero calls waits last = record { calls = calls; waits = waits; outcome = reported last }
  retry (suc left) calls waits last = elim (ctx_err (suc calls)) [
    | some e ↦ record { calls = calls; waits = waits; outcome = context_done e }
    | none ↦ elim (action (suc calls)) [
      | none ↦ record { calls = suc calls; waits = waits; outcome = succeeded }
      | some failure ↦ elim (is_bulk_delete_schema_error failure) [
        | true ↦ record { calls = suc calls; waits = waits; outcome = rejected_shape failure }
        | false ↦ elim (gives_up until failure (suc calls)) [
          | true ↦ record { calls = suc calls; waits = waits; outcome = reported (some failure) }
          | false ↦
              let delay = delay_after until (suc calls) failure (jitter (suc calls)) in
              elim (interrupted (suc calls)) [
                | some e ↦ record {
                  calls = suc calls;
                  waits = waits ++ delay ∷ [];
                  outcome = context_done e;
                }
                | none ↦ retry left (suc calls) (waits ++ delay ∷ []) (some failure)
              ]
        ]
      ]
    ]
  ]

  unfoldable pub execute : Execution E
  unfolding retry
  execute = retry max_attempts 0 [] none

-- `normalizeObjectKey`
unfoldable pub normalize_object_key : Bytes → Option Bytes
unfolding trim
normalize_object_key object_key =
    let normalized = trim is_slash object_key in
    if text_eq (trim_space normalized) [] then none else some normalized
