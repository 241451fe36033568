-- ===== src/Store/Delete/Success.antt =====
-- internal/store/ops.go: when `DeleteObjects` returns no error.
use git_backup.Base.{
  Bytes, Bool, List, ap, contains, Option, [], append-nil, drop, false, if◌then◌else◌, inl, inr,
  length, none, refl, subst, suc, sym, take, true, zero, ℕ, ◌++◌, ◌∙◌, ◌∷◌, ◌≡◌,
}
use git_backup.Store.Delete.{
  Answer, Deletion, Request, accepted, after_bulk, batch_individually, bulk, delete_batch_size,
  delete_batches, delete_individually, delete_objects, failed, schema_error, single, unique_keys,
}
use git_backup.Store.Delete.Requests.{Answer-cases, Log, delete_objects-counted, keys_of, named_by}

-- The keys of a batch that the response has no error for.
abbrev pub without : List Bytes → List Bytes → List Bytes
without refused [] = []
without refused (key ∷ keys) =
    let rest = without refused keys in if contains key refused then rest else key ∷ rest

without-nil : (keys : List Bytes) → without [] keys ≡ keys
without-nil [] = refl
without-nil (key ∷ keys) = ap (key ∷◌) (without-nil keys)

module _ {E : Type 0} where
  -- The keys that an answered request has deleted.
  abbrev pub removed_by : Request → Answer E → List Bytes
  removed_by (bulk batch) (accepted refused) = without refused batch
  removed_by (single key) (accepted refused) = without refused (key ∷ [])
  removed_by _ (schema_error e) = []
  removed_by _ (failed e) = []

  -- The storage deletes each key of a request that it accepts; a bulk request it may reject for its
  -- shape.
  abbrev pub Serves : Request → Answer E → Type 0
  Serves _ (accepted []) = Unit
  Serves _ (accepted (key ∷ refused)) = ⊥
  Serves _ (failed e) = ⊥
  Serves (bulk batch) (schema_error e) = Unit
  Serves (single key) (schema_error e) = ⊥

  removed_by-Serves : (r : Request) (a : Answer E) → Serves r a → removed_by r a ≡ named_by r a
  removed_by-Serves (bulk batch) (accepted []) s = without-nil batch
  removed_by-Serves (single key) (accepted []) s = refl
  removed_by-Serves r (accepted (key ∷ refused)) s = elim s [ ]
  removed_by-Serves r (failed e) s = elim s [ ]
  removed_by-Serves (bulk batch) (schema_error e) s = refl
  removed_by-Serves (single key) (schema_error e) s = elim s [ ]

module _ {E : Type 0} (answer : Log E → Request → Answer E) (ctx_err : Log E → Option E)
    (live : (log : Log E) → ctx_err log ≡ none)
    (serves : (log : Log E) (r : Request) → Serves r (answer log r)) where
  individually-succeeds :
      (log : Log E) (batch : List Bytes)
      → (delete_individually answer ctx_err log batch).error ≡ none
  unfolding delete_individually
  individually-succeeds log [] = refl
  individually-succeeds log (key ∷ batch) =
      rw (delete_individually, live log)
        (elim (Answer-cases (answer log (single key))) [
          | inl (refused, a) ↦
              rw (delete_individually, a)
                (individually-succeeds (log ++ (single key, accepted refused) ∷ []) batch)
          | inr (inl (e, a)) ↦ absurd (subst (Serves (single key)) a (serves log (single key)))
          | inr (inr (e, a)) ↦ absurd (subst (Serves (single key)) a (serves log (single key)))
        ])

  batch_individually-succeeds :
      (next : Log E → Deletion E) (log : Log E) (batch : List Bytes)
      → ((l : Log E) → (next l).error ≡ none)
      → (batch_individually answer ctx_err next log batch).error ≡ none
  batch_individually-succeeds next log batch h =
      rw (individually-succeeds log batch) (h (delete_individually answer ctx_err log batch).log)

  after_bulk-succeeds :
      (next : Bool → Log E → Deletion E) (log : Log E) (batch : List Bytes) (a : Answer E)
      → Serves (bulk batch) a
      → ((flag : Bool) (l : Log E) → (next flag l).error ≡ none)
      → (after_bulk answer ctx_err next log batch a).error ≡ none
  after_bulk-succeeds next log batch (accepted refused) s h =
      h false (log ++ (bulk batch, accepted refused) ∷ [])
  after_bulk-succeeds next log batch (failed e) s h = elim s [ ]
  after_bulk-succeeds next log batch (schema_error e) s h =
      batch_individually-succeeds (next true) (log ++ (bulk batch, schema_error e) ∷ []) batch
        (h true)

  batch-succeeds :
      (flag : Bool) (next : Bool → Log E → Deletion E) (log : Log E) (batch : List Bytes)
      → ((flag : Bool) (l : Log E) → (next flag l).error ≡ none)
      → (if flag
          then batch_individually answer ctx_err (next true) log batch
          else after_bulk answer ctx_err next log batch (answer log (bulk batch))).error
        ≡ none
  batch-succeeds true next log batch h = batch_individually-succeeds (next true) log batch (h true)
  batch-succeeds false next log batch h =
      after_bulk-succeeds next log batch (answer log (bulk batch)) (serves log (bulk batch)) h

  delete_batches-succeeds :
      (fuel : ℕ) (flag : Bool) (log : Log E) (keys : List Bytes)
      → (delete_batches answer ctx_err fuel flag log keys).error ≡ none
  unfolding delete_batches
  delete_batches-succeeds zero flag log keys = refl
  delete_batches-succeeds (suc fuel) flag log [] = refl
  delete_batches-succeeds (suc fuel) flag log (key ∷ keys) =
      batch-succeeds flag
        (λ f l. delete_batches answer ctx_err fuel f l (drop delete_batch_size (key ∷ keys))) log
        (take delete_batch_size (key ∷ keys))
        (λ f l. delete_batches-succeeds fuel f l (drop delete_batch_size (key ∷ keys)))

  -- If the context is never done, and the storage fails no request and deletes each key of those that it accepts, but for bulk requests that it may reject for their shape, then all the cleaned keys are deleted, in their order, and no error is returned.
  pub delete_objects-succeeds :
      (object_keys : List Bytes)
      → ((delete_objects answer ctx_err object_keys).error ≡ none)
        × (keys_of removed_by (delete_objects answer ctx_err object_keys).log
            ≡ unique_keys object_keys)
  delete_objects-succeeds object_keys =
      let (rest, same, done) =
        delete_objects-counted answer ctx_err removed_by
          (λ log r. removed_by-Serves r _ (serves log r)) object_keys in
      let d = delete_objects answer ctx_err object_keys in
      let no_error : d.error ≡ none =
        unfold delete_objects in
        delete_batches-succeeds (length (unique_keys object_keys)) false []
          (unique_keys object_keys) in
      (no_error, sym (same ∙ rw (done no_error) (append-nil (keys_of removed_by d.log))))
