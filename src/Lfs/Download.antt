-- ===== src/Lfs/Download.antt =====
-- internal/lfs/batch.go: the download of the objects that a batch request schedules.
pub mod Events
pub mod Answers
pub mod Passes
use git_backup.Base.{
  Bytes, Bool, List, Option, [], contains, false, if◌then◌else◌, length, ltb, map, none, not, some,
  take, text_eq, true, ℕ, ◌++◌, ◌==◌, ◌||◌, ◌∷◌,
}
use git_backup.Base.Int.{ltb_ℤ, pos, ℤ, negsuc}
use git_backup.Base.Result.{Result, err, ok}
use git_backup.Lfs.Batch.{
  BatchAction, BatchObjectError, BatchResponseObject, LfsLog, Remote, Transfer, TransferError,
  context_ended, download_status, error_message, found_in_store, hash_mismatch, no_digest,
  not_downloaded, not_requested, not_transferred, nothing_scheduled, put_in_store, transferred,
  unreachable,
}
use git_backup.Lfs.Pointer.{Pointer, is_sha256_hex}
use git_backup.Text.Case.{to_lower}

-- The three lists of `downloadObjects`.
pub record Sorted (E : Type 0) : Type 0 where
  pub expired : List Pointer
  pub unavailable : List BatchObjectError
  pub failed : List (TransferError E)

abbrev pub short_oid : Bytes → Bytes
short_oid oid = take 12 oid

abbrev pub lapsed_by : ℤ → ℤ → Option ℤ → Bool
lapsed_by now expires_in (some at) = not (ltb_ℤ now at)
lapsed_by now expires_in none = ltb_ℤ expires_in (pos 0)

module _ {E : Type 0} (wide : Bytes → Bytes) (remote : Remote E) where
  abbrev pub read_time : Bytes → Option ℤ
  read_time [] = none
  read_time (c ∷ s) = remote.parse_time (c ∷ s)

  unfoldable pub is_expired : ℤ → BatchAction → Bool
  is_expired now action = lapsed_by now action.expires_in (read_time action.expires_at)

  abbrev pub check_digest :
      List Pointer
      → BatchResponseObject
      → BatchAction
      → Result BatchObjectError (Bytes × BatchAction)
  check_digest want object action =
      let oid = to_lower wide object.oid in
      if not (is_sha256_hex object.oid)
      then err (record { oid = short_oid object.oid; reason = no_digest })
      else if contains oid (map (λ (p : Pointer). p.oid) want)
      then ok (oid, action)
      else err (record { oid = short_oid object.oid; reason = not_requested })

  abbrev pub check_action :
      List Pointer
      → BatchResponseObject
      → Option BatchAction
      → Result BatchObjectError (Bytes × BatchAction)
  check_action want object none = err (record { oid = object.oid; reason = nothing_scheduled })
  check_action want object (some action) =
      if text_eq action.href []
      then err (record { oid = object.oid; reason = nothing_scheduled })
      else check_digest want object action

  -- `answered`, with the action that it found.
  unfoldable pub answered :
      List Pointer → BatchResponseObject → Result BatchObjectError (Bytes × BatchAction)
  unfolding to_lower is_sha256_hex
  answered want object = elim object.error [
    | some message ↦ err (record { oid = object.oid; reason = error_message message })
    | none ↦ check_action want object object.download
  ]

  -- The map of sizes: the last pointer of an object counts.
  abbrev pub want_size : Bytes → List Pointer → ℤ → ℤ
  want_size oid [] size = size
  want_size oid (p ∷ pointers) size =
      let known = if text_eq oid p.oid then p.size else size in want_size oid pointers known

  abbrev pub resolved_size : List Pointer → Bytes → ℤ → ℤ
  resolved_size want oid size =
      let wanted = want_size oid want (pos 0) in if ltb_ℤ (pos 0) wanted then wanted else size

  abbrev pub is_cached : ℤ → Option ℕ → Bool
  is_cached size none = false
  is_cached (pos size) (some actual) = size == 0 || actual == size
  is_cached (negsuc n) (some actual) = false

  abbrev pub check_hash_of : Bytes → Result E Bytes → Option E → Option (TransferError E)
  check_hash_of oid (err e) moved = some (not_transferred oid e)
  check_hash_of oid (ok digest) moved =
      if not (text_eq digest oid)
      then some (hash_mismatch oid)
      else elim moved [ some e ↦ some (not_transferred oid e) | none ↦ none ]

  unfoldable pub download_object : Bytes → Transfer E → Option (TransferError E)
  download_object oid (unreachable e) = some (not_transferred oid e)
  download_object oid (transferred status copied moved) =
      if not (status == 200)
      then some (download_status oid status)
      else check_hash_of oid copied moved

  abbrev pub nothing_sorted : Sorted E
  nothing_sorted = record { expired = []; unavailable = []; failed = [] }

  abbrev pub add_expired : Pointer → Sorted E × LfsLog → Sorted E × LfsLog
  add_expired p (s, log) = (record s { expired = p ∷ s.expired }, log)

  abbrev pub add_unavailable : BatchObjectError → Sorted E × LfsLog → Sorted E × LfsLog
  add_unavailable e (s, log) = (record s { unavailable = e ∷ s.unavailable }, log)

  abbrev pub add_failed : TransferError E → Sorted E × LfsLog → Sorted E × LfsLog
  add_failed e (s, log) = (record s { failed = e ∷ s.failed }, log)

  abbrev pub after_transfer :
      (LfsLog → Sorted E × LfsLog) → Bytes → LfsLog → Option (TransferError E) → Sorted E × LfsLog
  after_transfer next oid log none = next (log ++ put_in_store oid ∷ [])
  after_transfer next oid log (some e) = add_failed e (next (log ++ not_downloaded oid ∷ []))

  -- The pass goes on with `next`.
  abbrev pub after_expiry :
      (LfsLog → Sorted E × LfsLog) → Bytes → ℤ → BatchAction → LfsLog → Bool → Sorted E × LfsLog
  after_expiry next oid size action log true =
      add_expired (record { oid = oid; size = size }) (next log)
  after_expiry next oid size action log false =
      after_transfer next oid log (download_object oid (remote.transfer log oid action))

  abbrev pub after_stat :
      (LfsLog → Sorted E × LfsLog) → Bytes → ℤ → BatchAction → LfsLog → Bool → Sorted E × LfsLog
  after_stat next oid size action log true = next (log ++ found_in_store oid ∷ [])
  after_stat next oid size action log false =
      after_expiry next oid size action log (is_expired (remote.now log) action)

  abbrev pub take_object :
      (LfsLog → Sorted E × LfsLog)
      → List Pointer
      → ℤ
      → LfsLog
      → Result BatchObjectError (Bytes × BatchAction)
      → Sorted E × LfsLog
  take_object next want stated log (err e) = add_unavailable e (next log)
  take_object next want stated log (ok (oid, action)) =
      let size = resolved_size want oid stated in
      after_stat next oid size action log (is_cached size (remote.stored_size log oid))

  unfoldable pub download_objects :
      List Pointer → List BatchResponseObject → LfsLog → Sorted E × LfsLog
  unfolding is_expired answered download_object
  download_objects want [] log = (nothing_sorted, log)
  download_objects want (object ∷ objects) log =
      let next = download_objects want objects in
      elim (remote.ctx_err log) [
        | some e ↦ (record { expired = []; unavailable = []; failed = context_ended e ∷ [] }, log)
        | none ↦ take_object next want object.size log (answered want object)
      ]
