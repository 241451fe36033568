-- ===== src/Store/Delete.antt =====
-- internal/store/ops.go: `DeleteObjects`. The storage answers each request by what it was sent before:
-- an answer is the result of `execute` on the request.
pub mod Unique
pub mod Requests
pub mod Limits
pub mod Success
use git_backup.Base.{
  Bytes, Bool, List, Option, [], contains, drop, false, if◌then◌else◌, length, none, some, suc,
  take, text_eq, true, zero, ℕ, ◌++◌, ◌∷◌,
}
use git_backup.Text.Trim.{is_slash, trim, trim_space}

abbrev pub delete_batch_size : ℕ
delete_batch_size = 1000

-- `strings.Trim(strings.TrimSpace(key), "/")`
abbrev pub clean : Bytes → Bytes
clean key = trim is_slash (trim_space key)

-- The first loop: `seen` and `keys` grow together.
unfoldable pub unique_from : List Bytes → List Bytes → List Bytes
unique_from seen [] = []
unique_from seen (key ∷ object_keys) =
    let trimmed = clean key in
    let skipped = unique_from seen object_keys in
    let kept = unique_from (trimmed ∷ seen) object_keys in
    if text_eq trimmed []
    then skipped
    else if contains trimmed seen
    then skipped
    else trimmed ∷ kept

unfoldable pub unique_keys : List Bytes → List Bytes
unfolding unique_from
unique_keys object_keys = unique_from [] object_keys

pub data Request : Type 0 where
  bulk : List Bytes → Request
  single : Bytes → Request

-- An accepted request may still name keys that it has not deleted: the response to a bulk request
-- has an error for each, which the code does not read.
pub data Answer (E : Type 0) : Type 0 where
  accepted : List Bytes → Answer E
  schema_error : E → Answer E
  failed : E → Answer E

-- The requests that were sent, with their answers, and the error of the call.
pub record Deletion (E : Type 0) : Type 0 where
  pub log : List (Request × Answer E)
  pub error : Option E

module _ {E : Type 0} (answer : List (Request × Answer E) → Request → Answer E)
    (ctx_err : List (Request × Answer E) → Option E) where
  -- `deleteObjectsIndividually`
  unfoldable pub delete_individually : List (Request × Answer E) → List Bytes → Deletion E
  delete_individually log [] = record { log = log; error = none }
  delete_individually log (key ∷ batch) = elim (ctx_err log) [
    | some e ↦ record { log = log; error = some e }
    | none ↦ elim (answer log (single key)) [
      | accepted refused ↦ delete_individually (log ++ (single key, accepted refused) ∷ []) batch
      | schema_error e ↦ record { log = log ++ (single key, schema_error e) ∷ []; error = some e }
      | failed e ↦ record { log = log ++ (single key, failed e) ∷ []; error = some e }
    ]
  ]

  -- What a deletion does next, unless it failed.
  abbrev pub and_then :
      (List (Request × Answer E) → Deletion E) → List (Request × Answer E) → Option E → Deletion E
  and_then next log none = next log
  and_then next log (some e) = record { log = log; error = some e }

  abbrev pub batch_individually :
      (List (Request × Answer E) → Deletion E) → List (Request × Answer E) → List Bytes → Deletion E
  batch_individually next log batch =
      let d = delete_individually log batch in and_then next d.log d.error

  abbrev pub after_bulk :
      (Bool → List (Request × Answer E) → Deletion E)
      → List (Request × Answer E)
      → List Bytes
      → Answer E
      → Deletion E
  after_bulk next log batch (accepted refused) =
      next false (log ++ (bulk batch, accepted refused) ∷ [])
  after_bulk next log batch (failed e) = record {
    log = log ++ (bulk batch, failed e) ∷ [];
    error = some e;
  }
  after_bulk next log batch (schema_error e) =
      batch_individually (next true) (log ++ (bulk batch, schema_error e) ∷ []) batch

  -- The second loop; `single_deletes` is `useSingleObjectDeletes`.
  unfoldable pub delete_batches : ℕ → Bool → List (Request × Answer E) → List Bytes → Deletion E
  unfolding delete_individually
  delete_batches zero single_deletes log keys = record { log = log; error = none }
  delete_batches (suc fuel) single_deletes log [] = record { log = log; error = none }
  delete_batches (suc fuel) single_deletes log (key ∷ keys) =
      let batch = take delete_batch_size (key ∷ keys) in
      let next = λ (flag : Bool) (l : List (Request × Answer E)).
        delete_batches fuel flag l (drop delete_batch_size (key ∷ keys)) in
      if single_deletes
      then batch_individually (next true) log batch
      else after_bulk next log batch (answer log (bulk batch))

  unfoldable pub delete_objects : List Bytes → Deletion E
  unfolding unique_keys delete_batches
  delete_objects object_keys =
      let keys = unique_keys object_keys in delete_batches (length keys) false [] keys
