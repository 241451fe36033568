-- ===== src/Lfs/Batch.antt =====
-- internal/lfs/batch.go: what the client exchanges with an endpoint, and one batch request.
use git_backup.Base.{Bytes, Bool, List, Option, if◌then◌else◌, length, none, some, ℕ, ◌==◌, ◌||◌}
use git_backup.Base.Int.{ℤ}
use git_backup.Base.Result.{Result, err, ok}
use git_backup.Lfs.Pointer.{Pointer}

pub record BatchAction : Type 0 where
  pub href : Bytes
  pub header : List (Bytes × Bytes)
  pub expires_in : ℤ
  pub expires_at : Bytes

-- `download` is the entry of `actions`, and `error` the message of the object's error.
pub record BatchResponseObject : Type 0 where
  pub oid : Bytes
  pub size : ℤ
  pub download : Option BatchAction
  pub error : Option Bytes

-- The answer to a batch request: the transport's error, or a status and the decoded objects.
pub data BatchReply (E : Type 0) : Type 0 where
  request_lost : E → BatchReply E
  replied : ℕ → Option (List BatchResponseObject) → BatchReply E

-- The answer to a download: the transport's error, or a status, the digest of what was copied into a new file, and the error of moving that file to its place.
pub data Transfer (E : Type 0) : Type 0 where
  unreachable : E → Transfer E
  transferred : ℕ → Result E Bytes → Option E → Transfer E

-- What the client does, and what it finds or puts in the store.
pub data LfsEvent : Type 0 where
  requested : List Pointer → LfsEvent
  found_in_store : Bytes → LfsEvent
  put_in_store : Bytes → LfsEvent
  not_downloaded : Bytes → LfsEvent

abbrev pub LfsLog : Type 0
LfsLog = List LfsEvent

pub data TransferError (E : Type 0) : Type 0 where
  context_ended : E → TransferError E
  not_transferred : Bytes → E → TransferError E
  download_status : Bytes → ℕ → TransferError E
  hash_mismatch : Bytes → TransferError E

-- `batchObjectError`
pub data RefusalReason : Type 0 where
  error_message : Bytes → RefusalReason
  nothing_scheduled : RefusalReason
  no_digest : RefusalReason
  not_requested : RefusalReason

pub record BatchObjectError : Type 0 where
  pub oid : Bytes
  pub reason : RefusalReason

-- `errBatchRejected` and the other errors of a request.
pub data BatchError (E : Type 0) : Type 0 where
  request_broken : E → BatchError E
  batch_rejected : ℕ → BatchError E
  batch_status : ℕ → BatchError E
  undecodable : BatchError E
  count_differs : ℕ → ℕ → BatchError E

-- The endpoint, the clock in nanoseconds, RFC 3339, the store by the size of its regular files, and the context.
pub record Remote (E : Type 0) : Type 0 where
  pub ctx_err : LfsLog → Option E
  pub respond : LfsLog → List Pointer → BatchReply E
  pub transfer : LfsLog → Bytes → BatchAction → Transfer E
  pub stored_size : LfsLog → Bytes → Option ℕ
  pub parse_time : Bytes → Option ℤ
  pub now : LfsLog → ℤ

unfoldable pub describes_request_shape : ℕ → Bool
describes_request_shape status =
    status == 400 || status == 413 || status == 422 || status == 406 || status == 415

module _ {E : Type 0} (wide : Bytes → Bytes) (remote : Remote E) where
  abbrev pub accept_objects :
      ℕ → Option (List BatchResponseObject) → Result (BatchError E) (List BatchResponseObject)
  accept_objects wanted none = err undecodable
  accept_objects wanted (some objects) =
      if length objects == wanted then ok objects else err (count_differs (length objects) wanted)

  abbrev pub read_reply : ℕ → BatchReply E → Result (BatchError E) (List BatchResponseObject)
  read_reply wanted (request_lost e) = err (request_broken e)
  read_reply wanted (replied status decoded) =
      if status == 200
      then accept_objects wanted decoded
      else if describes_request_shape status
      then err (batch_rejected status)
      else err (batch_status status)

  unfoldable pub batch : LfsLog → List Pointer → Result (BatchError E) (List BatchResponseObject)
  unfolding describes_request_shape
  batch log pointers = read_reply (length pointers) (remote.respond log pointers)
