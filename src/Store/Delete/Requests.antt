-- ===== src/Store/Delete/Requests.antt =====
-- internal/store/ops.go: the requests that `DeleteObjects` sends, and what they cover.
use git_backup.Base.{
  Bytes, List, Option, Option-cases, [], append-nil, append_assoc, inl, inr, none, refl, some, sym,
  ◌++◌, ◌∙◌, ◌∷◌, ◌≡◌, ◌⊎◌, Bool, arith, drop, false, if◌then◌else◌, length, length-drop, subst,
  suc, take, take-append-drop, true, zero, ℕ, ◌≤◌,
}
use git_backup.Store.Delete.{
  Answer, Deletion, Request, accepted, bulk, delete_individually, failed, schema_error, single,
  after_bulk, and_then, batch_individually, delete_batch_size, delete_batches, delete_objects,
  unique_keys,
}

abbrev pub Log : Type 0 → Type 0
Log E = List (Request × Answer E)

module _ {E : Type 0} where
  -- The keys that an accepted request names, whether or not its response has an error for them.
  abbrev pub named_by : Request → Answer E → List Bytes
  named_by (bulk batch) (accepted refused) = batch
  named_by (single key) (accepted refused) = key ∷ []
  named_by _ (schema_error e) = []
  named_by _ (failed e) = []

  pub Answer-cases :
      (a : Answer E)
      → ((refused : List Bytes) × (a ≡ accepted refused))
        ⊎ (((e : E) × (a ≡ schema_error e)) ⊎ ((e : E) × (a ≡ failed e)))
  Answer-cases (accepted refused) = inl (refused, refl)
  Answer-cases (schema_error e) = inr (inl (e, refl))
  Answer-cases (failed e) = inr (inr (e, refl))

-- The keys of a log, where `counted` says which of them an answered request counts for.
module _ {E : Type 0} (counted : Request → Answer E → List Bytes) where
  abbrev pub keys_of : Log E → List Bytes
  keys_of [] = []
  keys_of ((r, a) ∷ log) = counted r a ++ keys_of log

  keys_of-append :
      (log : Log E) (r : Request) (a : Answer E)
      → keys_of (log ++ (r, a) ∷ []) ≡ keys_of log ++ counted r a
  keys_of-append [] r a = append-nil (counted r a)
  keys_of-append ((r', a') ∷ log) r a =
      rw (keys_of-append log r a) (sym (append_assoc (counted r' a') (keys_of log) _))

  -- What the log counts and what is left make up the keys, and nothing is left if there was no error.
  abbrev pub Covers : Log E → List Bytes → Deletion E → Type 0
  Covers log keys d =
      (rest : List Bytes) × (keys_of log ++ keys ≡ keys_of d.log ++ rest)
      × (d.error ≡ none → rest ≡ [])

  stop-Covers :
      (log : Log E) (r : Request) (a : Answer E) (keys : List Bytes) (e : E)
      → counted r a ≡ []
      → Covers log keys (record { log = log ++ (r, a) ∷ []; error = some e })
  stop-Covers log r a keys e h =
      (keys, rw (keys_of-append log r a, h, append-nil) refl, λ no_error. cc)

  -- From a log that one more answered request extends.
  step-Covers :
      (log : Log E) (r : Request) (a : Answer E) (batch keys : List Bytes) (d : Deletion E)
      → counted r a ≡ batch
      → Covers (log ++ (r, a) ∷ []) keys d
      → Covers log (batch ++ keys) d
  step-Covers log r a batch keys d h (rest, same, done) = (rest, joined ∙ same, done)
    where
      joined : keys_of log ++ (batch ++ keys) ≡ keys_of (log ++ (r, a) ∷ []) ++ keys
      joined = rw (keys_of-append log r a, h) (sym (append_assoc (keys_of log) batch keys))

-- Of the answers that the storage gives, `counted` counts the keys that they name.
module _ {E : Type 0} (answer : Log E → Request → Answer E) (ctx_err : Log E → Option E)
    (counted : Request → Answer E → List Bytes)
    (counts : (log : Log E) (r : Request)
      → counted r (answer log r) ≡ named_by r (answer log r)) where
  -- The same, for an answer that is known.
  given :
      (log : Log E) (key : Bytes) {a : Answer E}
      → answer log (single key) ≡ a
      → counted (single key) a ≡ named_by (single key) a
  given log key h =
      subst (λ x. counted (single key) x ≡ named_by (single key) x) h (counts log (single key))

  individually-Covers :
      (log : Log E) (batch : List Bytes)
      → Covers counted log batch (delete_individually answer ctx_err log batch)
  unfolding delete_individually
  individually-Covers log [] = ([], refl, λ h. refl)
  individually-Covers log (key ∷ batch) = elim (Option-cases (ctx_err log)) [
    | inr (e, h) ↦ rw (delete_individually, h) (key ∷ batch, refl, λ no_error. cc)
    | inl h ↦
        rw (delete_individually, h)
          (elim (Answer-cases (answer log (single key))) [
            | inl (refused, a) ↦
                rw (delete_individually, a)
                  (step-Covers counted log (single key) (accepted refused) (key ∷ []) batch
                    (delete_individually answer ctx_err (log ++ (single key, accepted refused) ∷ [])
                      batch)
                    (given log key a)
                    (individually-Covers (log ++ (single key, accepted refused) ∷ []) batch))
            | inr (inl (e, a)) ↦
                rw (delete_individually, a)
                  (stop-Covers counted log (single key) (schema_error e) (key ∷ batch) e
                    (given log key a))
            | inr (inr (e, a)) ↦
                rw (delete_individually, a)
                  (stop-Covers counted log (single key) (failed e) (key ∷ batch) e
                    (given log key a))
          ])
  ]

  and_then-Covers :
      (next : Log E → Deletion E) (log log' : Log E) (batch rest : List Bytes) (o : Option E)
      → Covers counted log batch (record { log = log'; error = o })
      → ((l : Log E) → Covers counted l rest (next l))
      → Covers counted log (batch ++ rest) (and_then answer ctx_err next log' o)
  and_then-Covers next log log' batch rest (some e) (r, same, done) h = (
    r ++ rest,
    rw (sym (append_assoc (keys_of counted log) batch rest), same)
        (append_assoc (keys_of counted log') r rest),
    λ no_error. cc,
  )
  and_then-Covers next log log' batch rest none (r, same, done) h =
      let (r', same', done') = h log' in (r', all ∙ same', done')
    where
      all : keys_of counted log ++ (batch ++ rest) ≡ keys_of counted log' ++ rest
      all =
          rw
            (
              sym (append_assoc (keys_of counted log) batch rest),
              same,
              done refl,
              append-nil (keys_of counted log'),
            )
            refl

  batch_individually-Covers :
      (next : Log E → Deletion E) (log : Log E) (batch rest : List Bytes)
      → ((l : Log E) → Covers counted l rest (next l))
      → Covers counted log (batch ++ rest) (batch_individually answer ctx_err next log batch)
  batch_individually-Covers next log batch rest h =
      let d = delete_individually answer ctx_err log batch in
      and_then-Covers next log d.log batch rest d.error (individually-Covers log batch) h

  after_bulk-Covers :
      (next : Bool → Log E → Deletion E) (log : Log E) (batch rest : List Bytes) (a : Answer E)
      → counted (bulk batch) a ≡ named_by (bulk batch) a
      → ((flag : Bool) (l : Log E) → Covers counted l rest (next flag l))
      → Covers counted log (batch ++ rest) (after_bulk answer ctx_err next log batch a)
  after_bulk-Covers next log batch rest (accepted refused) k h =
      step-Covers counted log (bulk batch) (accepted refused) batch rest
        (next false (log ++ (bulk batch, accepted refused) ∷ [])) k
        (h false (log ++ (bulk batch, accepted refused) ∷ []))
  after_bulk-Covers next log batch rest (failed e) k h =
      stop-Covers counted log (bulk batch) (failed e) (batch ++ rest) e k
  after_bulk-Covers next log batch rest (schema_error e) k h =
      let after = log ++ (bulk batch, schema_error e) ∷ [] in
      step-Covers counted log (bulk batch) (schema_error e) [] (batch ++ rest)
        (batch_individually answer ctx_err (next true) after batch) k
        (batch_individually-Covers (next true) after batch rest (h true))

  batch-Covers :
      (flag : Bool) (next : Bool → Log E → Deletion E) (log : Log E) (batch rest : List Bytes)
      → ((flag : Bool) (l : Log E) → Covers counted l rest (next flag l))
      → Covers counted log (batch ++ rest) (
          if flag
          then batch_individually answer ctx_err (next true) log batch
          else after_bulk answer ctx_err next log batch (answer log (bulk batch)))
  batch-Covers true next log batch rest h =
      batch_individually-Covers (next true) log batch rest (h true)
  batch-Covers false next log batch rest h =
      after_bulk-Covers next log batch rest (answer log (bulk batch)) (counts log (bulk batch)) h

  delete_batches-Covers :
      (fuel : ℕ) (flag : Bool) (log : Log E) (keys : List Bytes)
      → length keys ≤ fuel
      → Covers counted log keys (delete_batches answer ctx_err fuel flag log keys)
  unfolding delete_batches
  delete_batches-Covers zero flag log [] h = ([], refl, λ no_error. refl)
  delete_batches-Covers zero flag log (key ∷ keys) h = absurd (omega (arith, h))
  delete_batches-Covers (suc fuel) flag log [] h = ([], refl, λ no_error. refl)
  delete_batches-Covers (suc fuel) flag log (key ∷ keys) h =
      let all = key ∷ keys in
      let rest = drop delete_batch_size all in
      let shorter : length rest ≤ fuel = omega (arith, length-drop delete_batch_size all, h) in
      subst (λ k. Covers counted log k (delete_batches answer ctx_err (suc fuel) flag log all))
        (take-append-drop delete_batch_size all)
        (batch-Covers flag (λ f l. delete_batches answer ctx_err fuel f l rest) log
          (take delete_batch_size all) rest (λ f l. delete_batches-Covers fuel f l rest shorter))

  pub delete_objects-counted :
      (object_keys : List Bytes)
      → Covers counted [] (unique_keys object_keys) (delete_objects answer ctx_err object_keys)
  unfolding delete_objects
  delete_objects-counted object_keys =
      delete_batches-Covers (length (unique_keys object_keys)) false [] (unique_keys object_keys)
        (omega arith)

module _ {E : Type 0} (answer : Log E → Request → Answer E) (ctx_err : Log E → Option E) where
  -- The keys that the accepted requests name are the first of the cleaned keys, in their order, and all of them if no error is returned.
  pub delete_objects-Covers :
      (object_keys : List Bytes)
      → Covers named_by [] (unique_keys object_keys) (delete_objects answer ctx_err object_keys)
  delete_objects-Covers = delete_objects-counted answer ctx_err named_by (λ log r. refl)
