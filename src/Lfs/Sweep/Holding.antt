-- ===== src/Lfs/Sweep/Holding.antt =====
-- internal/lfs/lfs.go: a fetch without an error leaves nothing out.
use git_backup.Base.{
  Bytes, All, All-append, All-map, Bool-cases, List, Option, [], arith, count, inl, inr, ltb, none,
  refl, some, ℕ, ◌++◌, ◌+◌, ◌≡◌, Option-cases, drop, length, length-drop, length-take, subst, suc,
  sym, take, take-append-drop, zero, ◌∷◌, ◌≤◌,
}
use git_backup.Lfs.Batch.{LfsLog, Remote}
use git_backup.Lfs.Download.Events.{
  IsHeld, IsHeld-stays, IsLater, IsLater-refl, IsLater-trans, InStore, stored_since,
}
use git_backup.Lfs.Fetch.{
  Chunk, ChunkOutcome, FetchError, absorb, batch_object_limit, fetch_chunk, no_outcome,
}
use git_backup.Lfs.Fetch.Bisection.{fetch_chunk-IsSoundChunk}
use git_backup.Lfs.Fetch.Chunks.{DescribesAll}
use git_backup.Lfs.Fetch.Complete.{IsSoundChunk}
use git_backup.Lfs.Pointer.{Pointer}
use git_backup.Lfs.Sweep.{after_chunk, finish_sweep, fetch_batches, sweep}
use git_backup.Store.Delete.Limits.{rejected}

module _ {E : Type 0} (wide : Bytes → Bytes) (remote : Remote E) where
  -- A sweep without an error had none before, counts nothing as missing, and holds its pointers.
  abbrev SweepSound :
      List Pointer → LfsLog → ChunkOutcome E → Option (FetchError E) → Chunk E → Type 0
  SweepSound pointers log total first c =
      IsLater remote log c.0
      × (c.2 ≡ none
          → (first ≡ none)
            × ((total.unavailable ≡ 0)
                × ((total.rejected ≡ 0)
                    × ((c.1.unavailable ≡ 0) × All (λ (p : Pointer). IsHeld c.0 p.oid) pointers))))

  finish_sweep-SweepSound :
      (count : ℕ) (log : LfsLog) (total : ChunkOutcome E) (first : Option (FetchError E))
      → SweepSound [] log total first (finish_sweep wide remote count log total first)
  finish_sweep-SweepSound count log total (some e) = (IsLater-refl log, λ done. absurd (cc done))
  finish_sweep-SweepSound count log total none =
      elim (Bool-cases (ltb 0 (total.unavailable + total.rejected))) [
        | inl several ↦ rw (finish_sweep, several) (IsLater-refl log, λ done. absurd (cc done))
        | inr nothing ↦ (
          IsLater-refl log,
          λ done. (
            refl,
            (ground (arith, nothing), (ground (arith, nothing), (ground (arith, nothing), tt))),
          ),
        )
      ]

  after_chunk-SweepSound :
      (chunk rest : List Pointer) (log : LfsLog) (total : ChunkOutcome E)
      (first : Option (FetchError E))
      (next : LfsLog → ChunkOutcome E → Option (FetchError E) → Chunk E)
      → ((l : LfsLog) (o : ChunkOutcome E) (f : Option (FetchError E))
          → SweepSound rest l o f (next l o f))
      → (c : Chunk E) → IsSoundChunk wide remote chunk log c
      → SweepSound (chunk ++ rest) log total first (after_chunk wide remote next total first c)
  unfolding absorb
  after_chunk-SweepSound chunk rest log total first next ih (mid, o, none) s =
      let (l, h) = ih mid (absorb total o) first in
      (
        IsLater-trans s.later l,
        λ done.
            let (fine, (unavailable, (rejected, (all_there, held)))) = h done in
            (
              fine,
              (
                omega (arith, unavailable),
                (
                  omega (arith, rejected),
                  (
                    all_there,
                    All-append (λ (p : Pointer). IsHeld (next mid (absorb total o) first).0 p.oid)
                        chunk rest
                        (All-map (λ (p : Pointer) k. IsHeld-stays p.oid l k) chunk
                          (s.held refl (omega (arith, unavailable)) (omega (arith, rejected))))
                        held,
                  ),
                ),
              ),
            ),
      )
  after_chunk-SweepSound chunk rest log total none next ih (mid, o, some e) s =
      let (l, h) = ih mid (absorb total o) (some e) in
      (IsLater-trans s.later l, λ done. absurd (cc ((h done).0)))
  after_chunk-SweepSound chunk rest log total (some f) next ih (mid, o, some e) s =
      (s.later, λ done. absurd (cc done))

  sweep_live :
      (count n : ℕ) (p : Pointer) (pointers : List Pointer) (log : LfsLog) (total : ChunkOutcome E)
      (first : Option (FetchError E))
      → remote.ctx_err log ≡ none
      → sweep wide remote count (suc n) (p ∷ pointers) log total first
        ≡ after_chunk wide remote
            (sweep wide remote count n (drop batch_object_limit (p ∷ pointers)))
            total
            first
            (fetch_chunk wide remote
              (length (take batch_object_limit (p ∷ pointers)))
              (take batch_object_limit (p ∷ pointers))
              log)
  unfolding sweep
  sweep_live count n p pointers log total first live = rw (sweep, live) refl

  sweep-SweepSound :
      DescribesAll wide remote
      → (count n : ℕ) (pointers : List Pointer) (log : LfsLog) (total : ChunkOutcome E)
        (first : Option (FetchError E))
      → length pointers ≤ n
      → SweepSound pointers log total first (sweep wide remote count n pointers log total first)
  unfolding sweep
  sweep-SweepSound describes count n [] log total first small =
      finish_sweep-SweepSound count log total first
  sweep-SweepSound describes count zero (p ∷ pointers) log total first small =
      absurd (omega (arith, small))
  sweep-SweepSound describes count (suc n) (p ∷ pointers) log total first small =
      let all = p ∷ pointers in
      let chunk = take batch_object_limit all in
      let rest = drop batch_object_limit all in
      let next = sweep wide remote count n rest in
      let chunk_length = length-take batch_object_limit all in
      let rest_length = length-drop batch_object_limit all in
      elim (Option-cases (remote.ctx_err log)) [
        | inr (e, ended) ↦ rw (sweep, ended) (IsLater-refl log, λ done. absurd (cc done))
        | inl live ↦
            subst (SweepSound all log total first)
              (sym (sweep_live count n p pointers log total first live))
              (subst
                (λ ps. SweepSound ps log total first (
                  after_chunk wide remote next total first
                    (fetch_chunk wide remote (length chunk) chunk log)))
                (take-append-drop batch_object_limit all)
                (after_chunk-SweepSound chunk rest log total first next
                  (λ l o f.
                    sweep-SweepSound describes count n rest l o f
                      (omega (arith, rest_length, small)))
                  (fetch_chunk wide remote (length chunk) chunk log)
                  (fetch_chunk-IsSoundChunk wide remote describes (length chunk) chunk log
                    (omega (arith, chunk_length)) (omega arith))))
      ]

  swept-InStore :
      (pointers : List Pointer) (c : Chunk E)
      → SweepSound pointers [] no_outcome none c
      → c.2 ≡ none
      → (c.1.unavailable ≡ 0) × All (λ (p : Pointer). InStore remote c.0 p.oid) pointers
  swept-InStore pointers c (l, sound) done =
      let (nothing, held) = (sound done).1.1.1 in
      (nothing, All-map (λ (p : Pointer) h. stored_since remote c.0 l p.oid h) pointers held)

  -- A sweep without an error counts no object as unavailable, and has the object of each pointer in the store, if each accepted batch response describes the objects of its request.
  pub fetch_batches-InStore :
      DescribesAll wide remote
      → (pointers : List Pointer) → (fetch_batches wide remote pointers).2 ≡ none
      → ((fetch_batches wide remote pointers).1.unavailable ≡ 0)
        × All
            (λ (p : Pointer). InStore remote (fetch_batches wide remote pointers).0 p.oid)
            pointers
  unfolding fetch_batches
  fetch_batches-InStore describes pointers done =
      swept-InStore pointers
        (sweep wide remote (length pointers) (length pointers) pointers [] no_outcome none)
        (sweep-SweepSound describes (length pointers) (length pointers) pointers [] no_outcome none
          (omega arith))
        done
