-- ===== src/Lfs/Fetch/Bisection.antt =====
-- internal/lfs/lfs.go: the bisection reaches every pointer.
use git_backup.Base.{
  Bytes, Bool-cases, List, [], arith, drop, false, inl, inr, length, length-drop, length-take, ltb,
  ltb→lt, refl, some, subst, suc, take, take-append-drop, zero, ℕ, ◌++◌, ◌/◌, ◌∷◌, ◌≡◌, ◌≤◌,
}
use git_backup.Base.Result.{Result, err, ok}
use git_backup.Lfs.Batch.{
  BatchError, BatchResponseObject, LfsLog, Remote, batch, batch_rejected, batch_status,
  count_differs, request_broken, requested, undecodable,
}
use git_backup.Lfs.Download.Events.{IsLater, IsLater-refl, IsLater-step, IsLater-trans}
use git_backup.Lfs.Fetch.{
  Chunk, FetchError, after_request, batch_failed, fetch_chunk, is_refusal, narrow, no_outcome,
  try_halves,
}
use git_backup.Lfs.Fetch.Chunks.{DescribesAll, read_reply-ok}
use git_backup.Lfs.Fetch.Complete.{
  IsSoundChunk, download_chunk-IsSoundChunk, try_halves-IsSoundChunk,
}
use git_backup.Lfs.Pointer.{Pointer}

module _ {E : Type 0} (wide : Bytes → Bytes) (remote : Remote E) where
  moved :
      (pointers : List Pointer) (log asked : LfsLog) (c : Chunk E)
      → IsLater remote log asked
      → IsSoundChunk wide remote pointers asked c
      → IsSoundChunk wide remote pointers log c
  moved pointers log asked c l s = record {
    later = IsLater-trans l s.later;
    held = s.held;
    blamed = s.blamed;
  }

  failed-IsSoundChunk :
      (pointers : List Pointer) (log : LfsLog) (e : BatchError E)
      → IsSoundChunk wide remote pointers log (log, no_outcome, some (batch_failed e))
  unfolding is_refusal
  failed-IsSoundChunk pointers log e = record {
    later = IsLater-refl log;
    held = λ done. absurd (cc done);
    blamed = λ x h refusal. absurd (
        cc (
          subst (λ (f : FetchError E). is_refusal f ≡ false) {x = batch_failed e} {y = x} (cc h)
              refl,
          refusal,
        ));
  }

  narrow-IsSoundChunk :
      (next : List Pointer → LfsLog → Chunk E) (pointers : List Pointer) (rejection : BatchError E)
      (log : LfsLog) (n : ℕ)
      → ((ps : List Pointer) (l : LfsLog)
          → 1 ≤ length ps
          → length ps ≤ n
          → IsSoundChunk wide remote ps l (next ps l))
      → length pointers ≤ suc n
      → IsSoundChunk wide remote pointers log (narrow wide remote next pointers rejection log)
  narrow-IsSoundChunk next pointers rejection log n ih small =
      elim (Bool-cases (ltb 1 (length pointers))) [
        | inr only_one ↦
            rw (narrow, only_one)
              (record {
                later = IsLater-refl log;
                held = λ done. absurd (cc done);
                blamed = λ e h refusal. omega arith;
              })
        | inl several ↦
            let middle = length pointers / 2 in
            let left_length = length-take middle pointers in
            let right_length = length-drop middle pointers in
            let many = ltb→lt 1 (length pointers) several in
            rw (narrow, several)
              (subst
                (λ ps. IsSoundChunk wide remote ps log (
                  try_halves wide remote next (take middle pointers) (drop middle pointers)
                    rejection log))
                (take-append-drop middle pointers)
                (try_halves-IsSoundChunk wide remote next (take middle pointers)
                  (drop middle pointers) rejection log
                  (λ l.
                    ih (take middle pointers) l (omega (arith, left_length, many))
                      (omega (arith, left_length, many, small)))
                  (λ l.
                    ih (drop middle pointers) l (omega (arith, right_length, many))
                      (omega (arith, right_length, many, small)))))
      ]

  after_request-IsSoundChunk :
      DescribesAll wide remote
      → (next : List Pointer → LfsLog → Chunk E) (pointers : List Pointer) (log : LfsLog) (n : ℕ)
      → ((ps : List Pointer) (l : LfsLog)
          → 1 ≤ length ps
          → length ps ≤ n
          → IsSoundChunk wide remote ps l (next ps l))
      → length pointers ≤ suc n
      → (asked : LfsLog) (answer : Result (BatchError E) (List BatchResponseObject))
      → batch wide remote log pointers ≡ answer
      → IsSoundChunk wide remote pointers asked
          (after_request wide remote next pointers (asked, answer))
  unfolding batch
  after_request-IsSoundChunk describes next pointers log n ih small asked (ok objects) h =
      download_chunk-IsSoundChunk wide remote describes pointers objects asked (
        describes log pointers objects
          (read_reply-ok wide remote (length pointers) (remote.respond log pointers) objects h))
  after_request-IsSoundChunk describes next pointers log n ih small asked
        (err (batch_rejected status)) h =
      narrow-IsSoundChunk next pointers (batch_rejected status) asked n ih small
  after_request-IsSoundChunk describes next pointers log n ih small asked (err (request_broken e))
        h =
      failed-IsSoundChunk pointers asked (request_broken e)
  after_request-IsSoundChunk describes next pointers log n ih small asked
        (err (batch_status status)) h =
      failed-IsSoundChunk pointers asked (batch_status status)
  after_request-IsSoundChunk describes next pointers log n ih small asked (err undecodable) h =
      failed-IsSoundChunk pointers asked undecodable
  after_request-IsSoundChunk describes next pointers log n ih small asked (err (count_differs a b))
        h =
      failed-IsSoundChunk pointers asked (count_differs a b)

  pub fetch_chunk-IsSoundChunk :
      DescribesAll wide remote
      → (n : ℕ) (pointers : List Pointer) (log : LfsLog) → 1 ≤ length pointers
      → length pointers ≤ n
      → IsSoundChunk wide remote pointers log (fetch_chunk wide remote n pointers log)
  unfolding fetch_chunk
  fetch_chunk-IsSoundChunk describes zero pointers log filled small =
      absurd (omega (arith, filled, small))
  fetch_chunk-IsSoundChunk describes (suc n) pointers log filled small =
      let asked = log ++ requested pointers ∷ [] in
      moved pointers log asked (fetch_chunk wide remote (suc n) pointers log)
        (IsLater-step log (requested pointers) tt)
        (after_request-IsSoundChunk describes (fetch_chunk wide remote n) pointers log n
          (fetch_chunk-IsSoundChunk describes n) small asked (batch wide remote log pointers) refl)
