-- ===== src/Lfs/Download/Passes.antt =====
-- internal/lfs/batch.go: what a pass over the scheduled objects leaves open.
use git_backup.Base.{
  Bytes, All, Bool, Bool-cases, List, [], any, arith, contains, false, inl, inr, map, refl, sym,
  text_eq, true, ◌++◌, ◌||◌, ◌∷◌, ◌≡◌, All-map, Option, Option-cases, none, some, subst,
  text_eq_refl,
}
use git_backup.Base.Int.{ℤ}
use git_backup.Base.Result.{ok, Result, err}
use git_backup.Lfs.Batch.{
  BatchAction, BatchObjectError, BatchResponseObject, LfsEvent, LfsLog, Remote, TransferError,
  found_in_store, not_downloaded, put_in_store,
}
use git_backup.Lfs.Download.{
  Sorted, add_expired, after_expiry, after_stat, after_transfer, answered, check_action,
  check_digest, download_object, download_objects, is_cached, is_expired, resolved_size,
  take_object,
}
use git_backup.Lfs.Download.Answers.{download_object-none, is_cached-some}
use git_backup.Lfs.Download.Events.{
  IsHeld-stays, IsLater, IsLater-refl, IsLater-step, IsLater-trans, just_shown, oids, shows,
  Evidence,
}
use git_backup.Lfs.Pointer.{Pointer, is_sha256_hex}
use git_backup.Text.Case.{to_lower}

module _ {E : Type 0} (wide : Bytes → Bytes) (remote : Remote E) where
  -- After the pass the object is held, or has to be asked for once more.
  abbrev pub IsSettled : Sorted E × LfsLog → Bytes → Type 0
  IsSettled r oid = (any (shows oid) r.1 || contains oid (oids r.0.expired)) ≡ true

  abbrev pub Covers : List BatchResponseObject → Sorted E × LfsLog → Type 0
  Covers objects r =
      r.0.unavailable ≡ []
      → r.0.failed ≡ []
      → All (λ object. IsSettled r (to_lower wide object.oid)) objects

  check_digest-oid :
      (want : List Pointer) (object : BatchResponseObject) (action a : BatchAction) (oid : Bytes)
      → check_digest wide remote want object action ≡ ok (oid, a)
      → oid ≡ to_lower wide object.oid
  check_digest-oid want object action a oid h = elim (Bool-cases (is_sha256_hex object.oid)) [
    | inr other ↦ absurd (cc (h, other))
    | inl digest ↦
        elim (Bool-cases
          (contains (to_lower wide object.oid) (map (λ (p : Pointer). p.oid) want))) [
            | inl wanted ↦ cc (h, digest, wanted)
            | inr unwanted ↦ absurd (cc (h, digest, unwanted))
          ]
  ]

  check_action-oid :
      (want : List Pointer) (object : BatchResponseObject) (scheduled : Option BatchAction)
      (a : BatchAction) (oid : Bytes)
      → check_action wide remote want object scheduled ≡ ok (oid, a)
      → oid ≡ to_lower wide object.oid
  check_action-oid want object none a oid h = absurd (cc)
  check_action-oid want object (some action) a oid h = elim (Bool-cases (text_eq action.href [])) [
    | inl empty ↦ absurd (cc (h, empty))
    | inr filled ↦ check_digest-oid want object action a oid (cc (h, filled))
  ]

  answered-oid :
      (want : List Pointer) (object : BatchResponseObject) (a : BatchAction) (oid : Bytes)
      → answered wide remote want object ≡ ok (oid, a)
      → oid ≡ to_lower wide object.oid
  unfolding answered
  answered-oid want object a oid h = elim (Option-cases object.error) [
    | inl fine ↦ check_action-oid want object object.download a oid (cc (h, fine))
    | inr (message, refused) ↦ absurd (cc (h, refused))
  ]

  -- What a pass over the remaining objects has to show.
  abbrev Sound : List BatchResponseObject → LfsLog → Sorted E × LfsLog → Type 0
  Sound objects log r = IsLater remote log r.1 × Covers objects r

  held_first :
      (oid : Bytes) (object : BatchResponseObject) (objects : List BatchResponseObject)
      (log : LfsLog) (event : LfsEvent) (r : Sorted E × LfsLog)
      → oid ≡ to_lower wide object.oid
      → shows oid event ≡ true
      → Evidence remote log event
      → Sound objects (log ++ event ∷ []) r
      → Sound (object ∷ objects) log r
  held_first oid object objects log event r same shown e (later, covers) = (
    IsLater-trans (IsLater-step log event e) later,
    λ fine done. (
      subst (IsSettled r) same
          (ground (arith, IsHeld-stays oid later (just_shown oid log event shown))),
      covers fine done,
    ),
  )

  expired_first :
      (oid : Bytes) (size : ℤ) (object : BatchResponseObject) (objects : List BatchResponseObject)
      (log : LfsLog) (r : Sorted E × LfsLog)
      → oid ≡ to_lower wide object.oid
      → Sound objects log r
      → Sound (object ∷ objects) log (add_expired wide remote (record { oid = oid; size = size }) r)
  expired_first oid size object objects log r same (later, covers) = (
    later,
    λ fine done. (
      subst (IsSettled (add_expired wide remote (record { oid = oid; size = size }) r)) same
          (ground (arith, text_eq_refl oid)),
      All-map (λ o settled. ground (arith, settled)) objects (covers fine done),
    ),
  )

  after_transfer-Sound :
      (next : LfsLog → Sorted E × LfsLog) (object : BatchResponseObject)
      (objects : List BatchResponseObject)
      → ((log : LfsLog) → Sound objects log (next log))
      → (oid : Bytes) (log : LfsLog) (result : Option (TransferError E))
      → (result ≡ none → Evidence remote log (put_in_store oid))
      → oid ≡ to_lower wide object.oid
      → Sound (object ∷ objects) log (after_transfer wide remote next oid log result)
  after_transfer-Sound next object objects ih oid log none e same =
      held_first oid object objects log (put_in_store oid) (next (log ++ put_in_store oid ∷ []))
        same (text_eq_refl oid) (e refl) (ih (log ++ put_in_store oid ∷ []))
  after_transfer-Sound next object objects ih oid log (some error) proof same = (
    IsLater-trans (IsLater-step log (not_downloaded oid) tt)
        (ih (log ++ not_downloaded oid ∷ [])).0,
    λ fine done. absurd (cc done),
  )

  after_expiry-Sound :
      (next : LfsLog → Sorted E × LfsLog) (object : BatchResponseObject)
      (objects : List BatchResponseObject)
      → ((log : LfsLog) → Sound objects log (next log))
      → (oid : Bytes) (size : ℤ) (action : BatchAction) (log : LfsLog) (test : Bool)
      → oid ≡ to_lower wide object.oid
      → Sound (object ∷ objects) log (after_expiry wide remote next oid size action log test)
  after_expiry-Sound next object objects ih oid size action log true same =
      expired_first oid size object objects log (next log) same (ih log)
  after_expiry-Sound next object objects ih oid size action log false same =
      after_transfer-Sound next object objects ih oid log
        (download_object wide remote oid (remote.transfer log oid action))
        (λ done.
          (action, download_object-none wide remote oid (remote.transfer log oid action) done))
        same

  after_stat-Sound :
      (next : LfsLog → Sorted E × LfsLog) (object : BatchResponseObject)
      (objects : List BatchResponseObject)
      → ((log : LfsLog) → Sound objects log (next log))
      → (oid : Bytes) (size : ℤ) (action : BatchAction) (log : LfsLog) (test : Bool)
      → (test ≡ true → Evidence remote log (found_in_store oid))
      → oid ≡ to_lower wide object.oid
      → Sound (object ∷ objects) log (after_stat wide remote next oid size action log test)
  after_stat-Sound next object objects ih oid size action log true e same =
      held_first oid object objects log (found_in_store oid) (next (log ++ found_in_store oid ∷ []))
        same (text_eq_refl oid) (e refl) (ih (log ++ found_in_store oid ∷ []))
  after_stat-Sound next object objects ih oid size action log false e same =
      after_expiry-Sound next object objects ih oid size action log
        (is_expired wide remote (remote.now log) action) same

  take_object-Sound :
      (next : LfsLog → Sorted E × LfsLog) (want : List Pointer) (object : BatchResponseObject)
      (objects : List BatchResponseObject)
      → ((log : LfsLog) → Sound objects log (next log))
      → (log : LfsLog) (answer : Result BatchObjectError (Bytes × BatchAction))
      → ((oid : Bytes) (a : BatchAction) → answer ≡ ok (oid, a) → oid ≡ to_lower wide object.oid)
      → Sound (object ∷ objects) log (take_object wide remote next want object.size log answer)
  take_object-Sound next want object objects ih log (err e) same =
      ((ih log).0, λ fine done. absurd (cc fine))
  take_object-Sound next want object objects ih log (ok (oid, action)) same =
      let size = resolved_size wide remote want oid object.size in
      after_stat-Sound next object objects ih oid size action log
        (is_cached wide remote size (remote.stored_size log oid))
        (is_cached-some wide remote size (remote.stored_size log oid)) (same oid action refl)

  download_objects_live :
      (want : List Pointer) (object : BatchResponseObject) (objects : List BatchResponseObject)
      (log : LfsLog)
      → remote.ctx_err log ≡ none
      → download_objects wide remote want (object ∷ objects) log
        ≡ take_object wide remote
            (download_objects wide remote want objects)
            want
            object.size
            log
            (answered wide remote want object)
  unfolding download_objects
  download_objects_live want object objects log live = rw (download_objects, live) refl

  -- Without an object that is refused or fails, each one is held or is to be asked for again.
  pub download_objects-Sound :
      (want : List Pointer) (objects : List BatchResponseObject) (log : LfsLog)
      → IsLater remote log (download_objects wide remote want objects log).1
        × Covers objects (download_objects wide remote want objects log)
  unfolding download_objects
  download_objects-Sound want [] log = (IsLater-refl log, λ fine done. tt)
  download_objects-Sound want (object ∷ objects) log =
      let next = download_objects wide remote want objects in
      elim (Option-cases (remote.ctx_err log)) [
        | inr (e, ended) ↦
            rw (download_objects, ended) (IsLater-refl log, λ fine done. absurd (cc done))
        | inl live ↦
            subst (Sound (object ∷ objects) log)
              (sym (download_objects_live want object objects log live))
              (take_object-Sound next want object objects (download_objects-Sound want objects) log
                (answered wide remote want object) (λ oid a. answered-oid want object a oid))
      ]
