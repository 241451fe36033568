-- ===== src/Store/Delete/Limits.antt =====
-- internal/store/ops.go: the size of the bulk requests, and that none follows a rejected one.
use git_backup.Base.{
  Bytes, Bool, List, Option, Option-cases, [], arith, drop, false, if◌then◌else◌, inl, inr, leb,
  length, length-take, none, not, refl, some, suc, take, true, zero, ℕ, ◌&&◌, ◌++◌, ◌||◌, ◌∙◌, ◌∷◌,
  ◌≡◌, ◌≤◌,
}
use git_backup.Store.Delete.{
  Answer, Deletion, Request, accepted, after_bulk, and_then, batch_individually, bulk,
  delete_batch_size, delete_batches, delete_individually, delete_objects, failed, schema_error,
  single, unique_keys,
}
use git_backup.Store.Delete.Requests.{Answer-cases, Log}

module _ {E : Type 0} where
  abbrev is_rejected : Answer E → Bool
  is_rejected (schema_error e) = true
  is_rejected _ = false

  -- A bulk request was rejected before, or in the log.
  abbrev pub rejected : Bool → Log E → Bool
  rejected before [] = before
  rejected before ((bulk batch, a) ∷ log) = rejected (before || is_rejected a) log
  rejected before ((single key, a) ∷ log) = rejected before log

  -- Each bulk request holds one key up to `delete_batch_size`, and none comes after a rejected one.
  abbrev pub within_limits : Bool → Log E → Bool
  within_limits before [] = true
  within_limits before ((bulk batch, a) ∷ log) =
      (not before && leb 1 (length batch) && leb (length batch) delete_batch_size)
      && within_limits (before || is_rejected a) log
  within_limits before ((single key, a) ∷ log) = within_limits before log

  within_limits-append :
      (before : Bool) (log more : Log E)
      → within_limits before log ≡ true
      → within_limits (rejected before log) more ≡ true
      → within_limits before (log ++ more) ≡ true
  within_limits-append before [] more h g = g
  within_limits-append before ((bulk batch, a) ∷ log) more h g =
      ground (arith, within_limits-append (before || is_rejected a) log more)
  within_limits-append before ((single key, a) ∷ log) more h g =
      within_limits-append before log more h g

  rejected-append :
      (before : Bool) (log more : Log E)
      → rejected before (log ++ more) ≡ rejected (rejected before log) more
  rejected-append before [] more = refl
  rejected-append before ((bulk batch, a) ∷ log) more =
      rejected-append (before || is_rejected a) log more
  rejected-append before ((single key, a) ∷ log) more = rejected-append before log more

  -- The log so far, and what the loop remembers of it.
  abbrev Sound : Bool → Log E → Type 0
  Sound flag log = (within_limits false log ≡ true) × (rejected false log ≡ flag)

  single-Sound :
      (flag : Bool) (log : Log E) (key : Bytes) (a : Answer E)
      → Sound flag log
      → Sound flag (log ++ (single key, a) ∷ [])
  single-Sound flag log key a (h, g) = (
    within_limits-append false log ((single key, a) ∷ []) h refl,
    rejected-append false log ((single key, a) ∷ []) ∙ g,
  )

  bulk-Sound :
      (log : Log E) (batch : List Bytes) (a : Answer E)
      → 1 ≤ length batch
      → length batch ≤ delete_batch_size
      → Sound false log
      → Sound (is_rejected a) (log ++ (bulk batch, a) ∷ [])
  bulk-Sound log batch a low high (h, g) = (
    within_limits-append false log ((bulk batch, a) ∷ []) h (rw g (ground arith)),
    rejected-append false log ((bulk batch, a) ∷ []) ∙ rw g refl,
  )

module _ {E : Type 0} (answer : Log E → Request → Answer E) (ctx_err : Log E → Option E) where
  individually-Sound :
      (flag : Bool) (log : Log E) (batch : List Bytes)
      → Sound flag log
      → Sound flag (delete_individually answer ctx_err log batch).log
  unfolding delete_individually
  individually-Sound flag log [] s = s
  individually-Sound flag log (key ∷ batch) s = elim (Option-cases (ctx_err log)) [
    | inr (e, h) ↦ rw (delete_individually, h) s
    | inl h ↦
        rw (delete_individually, h)
          (elim (Answer-cases (answer log (single key))) [
            | inl (refused, a) ↦
                rw (delete_individually, a)
                  (individually-Sound flag (log ++ (single key, accepted refused) ∷ []) batch
                    (single-Sound flag log key (accepted refused) s))
            | inr (inl (e, a)) ↦
                rw (delete_individually, a) (single-Sound flag log key (schema_error e) s)
            | inr (inr (e, a)) ↦
                rw (delete_individually, a) (single-Sound flag log key (failed e) s)
          ])
  ]

  abbrev Ends : Deletion E → Type 0
  Ends d = within_limits false d.log ≡ true

  and_then-Ends :
      (next : Log E → Deletion E) (log : Log E) (o : Option E)
      → Sound true log
      → ((l : Log E) → Sound true l → Ends (next l))
      → Ends (and_then answer ctx_err next log o)
  and_then-Ends next log none s h = h log s
  and_then-Ends next log (some e) s h = s.0

  batch_individually-Ends :
      (next : Log E → Deletion E) (log : Log E) (batch : List Bytes)
      → Sound true log
      → ((l : Log E) → Sound true l → Ends (next l))
      → Ends (batch_individually answer ctx_err next log batch)
  batch_individually-Ends next log batch s h =
      let d = delete_individually answer ctx_err log batch in
      and_then-Ends next d.log d.error (individually-Sound true log batch s) h

  after_bulk-Ends :
      (next : Bool → Log E → Deletion E) (log : Log E) (batch : List Bytes) (a : Answer E)
      → Sound (is_rejected a) (log ++ (bulk batch, a) ∷ [])
      → ((flag : Bool) (l : Log E) → Sound flag l → Ends (next flag l))
      → Ends (after_bulk answer ctx_err next log batch a)
  after_bulk-Ends next log batch (accepted refused) s h =
      h false (log ++ (bulk batch, accepted refused) ∷ []) s
  after_bulk-Ends next log batch (failed e) s h = s.0
  after_bulk-Ends next log batch (schema_error e) s h =
      batch_individually-Ends (next true) (log ++ (bulk batch, schema_error e) ∷ []) batch s
        (h true)

  batch-Ends :
      (flag : Bool) (next : Bool → Log E → Deletion E) (log : Log E) (batch : List Bytes)
      → 1 ≤ length batch
      → length batch ≤ delete_batch_size
      → Sound flag log
      → ((flag : Bool) (l : Log E) → Sound flag l → Ends (next flag l))
      → Ends (
          if flag
          then batch_individually answer ctx_err (next true) log batch
          else after_bulk answer ctx_err next log batch (answer log (bulk batch)))
  batch-Ends true next log batch low high s h =
      batch_individually-Ends (next true) log batch s (h true)
  batch-Ends false next log batch low high s h =
      let a = answer log (bulk batch) in
      after_bulk-Ends next log batch a (bulk-Sound log batch a low high s) h

  delete_batches-Ends :
      (fuel : ℕ) (flag : Bool) (log : Log E) (keys : List Bytes)
      → Sound flag log
      → Ends (delete_batches answer ctx_err fuel flag log keys)
  unfolding delete_batches
  delete_batches-Ends zero flag log keys s = s.0
  delete_batches-Ends (suc fuel) flag log [] s = s.0
  delete_batches-Ends (suc fuel) flag log (key ∷ keys) s =
      let batch = take delete_batch_size (key ∷ keys) in
      let size = length-take delete_batch_size (key ∷ keys) in
      batch-Ends flag
        (λ f l. delete_batches answer ctx_err fuel f l (drop delete_batch_size (key ∷ keys))) log
        batch (omega (arith, size)) (omega (arith, size)) s
        (λ f l g. delete_batches-Ends fuel f l (drop delete_batch_size (key ∷ keys)) g)

  -- Whatever the storage answers, every bulk request holds one to a thousand keys, and no bulk request follows one that the storage rejected for its shape.
  pub delete_objects-within_limits :
      (object_keys : List Bytes)
      → within_limits false (delete_objects answer ctx_err object_keys).log ≡ true
  unfolding delete_objects
  delete_objects-within_limits object_keys =
      delete_batches-Ends (length (unique_keys object_keys)) false [] (unique_keys object_keys)
        (refl, refl)
