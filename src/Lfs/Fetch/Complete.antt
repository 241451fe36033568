-- ===== src/Lfs/Fetch/Complete.antt =====
-- internal/lfs/lfs.go: the bisection of a chunk misses nothing silently.
use git_backup.Base.{
  Bytes, All, All-map, List, [], any, arith, count, false, length, length-map, map, none, refl,
  some, subst, suc, text_eq, true, ℕ, ◌++◌, ◌∷◌, ◌≡◌, ◌≤◌, All-append, Bool-cases, Option, inl, inr,
  ◌+◌,
}
use git_backup.Lfs.Batch.{
  BatchError, BatchResponseObject, LfsLog, Remote, TransferError, batch, requested,
}
use git_backup.Lfs.Download.{Sorted, download_objects}
use git_backup.Lfs.Download.Events.{
  IsHeld, IsHeld-stays, IsLater, IsLater-refl, IsLater-step, IsLater-trans,
}
use git_backup.Lfs.Download.Passes.{IsSettled, download_objects-Sound}
use git_backup.Lfs.Fetch.{
  Chunk, ChunkOutcome, FetchError, Gap, download_chunk, downloads_failed, gap_refused, is_refusal,
  record_all, record_unavailable, refresh_these, report_failed, absorb, settle_halves, try_halves,
}
use git_backup.Lfs.Fetch.Chunks.{
  DescribesAll, IsClosable, length-zero, read_reply-ok, record_all-unavailable,
  refresh_expired-IsClosable, settled-IsHeld, IsSettled-All,
}
use git_backup.Lfs.Pointer.{Pointer}
use git_backup.Text.Case.{to_lower}

module _ {E : Type 0} where
  record_all-rejected :
      (gaps : List (Gap E)) (o : ChunkOutcome E) → (record_all gaps o).rejected ≡ o.rejected
  unfolding record_unavailable
  record_all-rejected [] o = refl
  record_all-rejected (gap ∷ gaps) o = record_all-rejected gaps (record_unavailable gap o)

module _ {E : Type 0} (wide : Bytes → Bytes) (remote : Remote E) where
  -- A chunk without an error or a gap holds all its objects, and a refusal has an object that it blames.
  pub record IsSoundChunk (pointers : List Pointer) (log : LfsLog) (c : Chunk E) : Type 0 where
    pub later : IsLater remote log c.0
    pub held :
        c.2 ≡ none
        → c.1.unavailable ≡ 0
        → c.1.rejected ≡ 0
        → All (λ (p : Pointer). IsHeld c.0 p.oid) pointers
    pub blamed : (e : FetchError E) → c.2 ≡ some e → is_refusal e ≡ true → 1 ≤ c.1.rejected

  report_failed-none :
      (count : ℕ) (errors : List (TransferError E))
      → report_failed wide remote count errors ≡ none
      → errors ≡ []
  report_failed-none count [] h = refl
  report_failed-none count (e ∷ errors) h = absurd (cc)

  report_failed-is_refusal :
      (count : ℕ) (errors : List (TransferError E)) (e : FetchError E)
      → report_failed wide remote count errors ≡ some e
      → is_refusal e ≡ false
  unfolding is_refusal
  report_failed-is_refusal count [] e h = absurd (cc)
  report_failed-is_refusal count (x ∷ errors) e h =
      subst (λ (f : FetchError E). is_refusal f ≡ false)
        {x = downloads_failed (suc (length errors)) count x} {y = e} (cc h) refl

  refreshed-IsClosable :
      DescribesAll wide remote
      → (pointers : List Pointer) (s : Sorted E) (expired : List Pointer) (log : LfsLog)
      → s.expired ≡ expired
      → (s.failed ≡ []
          → s.unavailable ≡ []
          → All (λ (q : Pointer). IsSettled wide remote (s, log) q.oid) pointers)
      → IsLater remote log (refresh_these wide remote expired s log).0
        × IsClosable wide remote pointers (refresh_these wide remote expired s log)
  unfolding batch
  refreshed-IsClosable describes pointers s [] log e settled = (
    IsLater-refl log,
    λ done fine none_missing.
        All-map (λ (q : Pointer) h. settled-IsHeld wide remote q.oid (s, log) e h) pointers
          (settled done fine),
  )
  refreshed-IsClosable describes pointers s (p ∷ rest) log e settled =
      refresh_expired-IsClosable wide remote describes pointers s p rest log e settled
        (log ++ requested s.expired ∷ []) (batch wide remote log s.expired)
        (IsLater-step log (requested s.expired) tt)
        (λ objects h.
          describes log s.expired objects
            (read_reply-ok wide remote (length s.expired) (remote.respond log s.expired) objects h))

  pub download_chunk-IsSoundChunk :
      DescribesAll wide remote
      → (pointers : List Pointer) (objects : List BatchResponseObject) (log : LfsLog)
      → All
          (λ p.
            any (λ (o : BatchResponseObject). text_eq p.oid (to_lower wide o.oid)) objects ≡ true)
          pointers
      → IsSoundChunk pointers log (download_chunk wide remote pointers objects log)
  unfolding download_chunk
  download_chunk-IsSoundChunk describes pointers objects log described =
      let r = download_objects wide remote pointers objects log in
      let (grown, covers) = download_objects-Sound wide remote pointers objects log in
      let (more, closable) =
        refreshed-IsClosable describes pointers r.0 r.0.expired r.1 refl (λ done fine.
          IsSettled-All wide remote pointers objects r described (covers fine done)) in
      let (log2, o, s) = refresh_these wide remote r.0.expired r.0 r.1 in
      let gaps = map gap_refused s.unavailable in
      let counted = record_all-unavailable gaps o in
      let as_many = length-map {B = Gap E} gap_refused s.unavailable in
      record {
        later = IsLater-trans grown more;
        held = λ done none_missing none_rejected.
            closable (report_failed-none (length objects) s.failed done)
              (length-zero s.unavailable (omega (arith, none_missing, counted, as_many)))
              (omega (arith, none_missing, counted));
        blamed = λ e h refusal.
            absurd (cc (report_failed-is_refusal (length objects) s.failed e h, refusal));
      }

  -- The error of a half blames an object where it is a refusal.
  abbrev Blames : Option (FetchError E) → ℕ → Type 0
  Blames error count = (e : FetchError E) → error ≡ some e → is_refusal e ≡ true → 1 ≤ count

  halves_done :
      (o : ChunkOutcome E) (rejection : BatchError E) (e1 e2 : Option (FetchError E)) (r1 r2 : ℕ)
      → Blames e1 r1
      → Blames e2 r2
      → r1 + r2 ≡ 0
      → settle_halves o rejection e1 e2 ≡ none
      → (e1 ≡ none) × (e2 ≡ none)
  halves_done o rejection none none r1 r2 b1 b2 none_rejected h = (refl, refl)
  halves_done o rejection none (some e) r1 r2 b1 b2 none_rejected h =
      elim (Bool-cases (is_refusal e)) [
        | inl refusal ↦ absurd (omega (arith, b2 e refl refusal, none_rejected))
        | inr other ↦ absurd (cc (h, other))
      ]
  halves_done o rejection (some f) none r1 r2 b1 b2 none_rejected h =
      elim (Bool-cases (is_refusal f)) [
        | inl refusal ↦ absurd (omega (arith, b1 f refl refusal, none_rejected))
        | inr other ↦ absurd (cc (h, other))
      ]
  halves_done o rejection (some f) (some e) r1 r2 b1 b2 none_rejected h =
      elim (Bool-cases (is_refusal f)) [
        | inl refusal ↦ absurd (omega (arith, b1 f refl refusal, none_rejected))
        | inr other ↦ absurd (cc (h, other))
      ]

  halves_blamed :
      (o : ChunkOutcome E) (rejection : BatchError E) (e1 e2 : Option (FetchError E)) (r1 r2 : ℕ)
      → Blames e1 r1
      → Blames e2 r2
      → Blames (settle_halves o rejection e1 e2) (r1 + r2)
  halves_blamed o rejection none none r1 r2 b1 b2 e h refusal = absurd (cc)
  halves_blamed o rejection none (some x) r1 r2 b1 b2 e h refusal =
      elim (Bool-cases (is_refusal x)) [
        | inl own ↦ omega (arith, b2 x refl own)
        | inr other ↦ absurd (cc (h, other, refusal))
      ]
  halves_blamed o rejection (some f) none r1 r2 b1 b2 e h refusal =
      elim (Bool-cases (is_refusal f)) [
        | inl own ↦ omega (arith, b1 f refl own)
        | inr other ↦ absurd (cc (h, other, refusal))
      ]
  halves_blamed o rejection (some f) (some x) r1 r2 b1 b2 e h refusal =
      elim (Bool-cases (is_refusal f)) [
        | inl own ↦ omega (arith, b1 f refl own)
        | inr other ↦ absurd (cc (h, other, refusal))
      ]

  pub try_halves-IsSoundChunk :
      (next : List Pointer → LfsLog → Chunk E) (left right : List Pointer)
      (rejection : BatchError E) (log : LfsLog)
      → ((l : LfsLog) → IsSoundChunk left l (next left l))
      → ((l : LfsLog) → IsSoundChunk right l (next right l))
      → IsSoundChunk (left ++ right) log (try_halves wide remote next left right rejection log)
  unfolding absorb
  try_halves-IsSoundChunk next left right rejection log sound1 sound2 =
      let c1 = next left log in
      let c2 = next right c1.0 in
      let s1 = sound1 log in
      let s2 = sound2 c1.0 in
      record {
        later = IsLater-trans s1.later s2.later;
        held = λ done none_missing none_rejected.
            let (done1, done2) =
              halves_done (absorb c1.1 c2.1) rejection c1.2 c2.2 c1.1.rejected c2.1.rejected
                s1.blamed s2.blamed none_rejected done in
            All-append (λ (p : Pointer). IsHeld c2.0 p.oid) left right
              (All-map (λ (p : Pointer) h. IsHeld-stays p.oid s2.later h) left
                (s1.held done1 (omega (arith, none_missing)) (omega (arith, none_rejected))))
              (s2.held done2 (omega (arith, none_missing)) (omega (arith, none_rejected)));
        blamed =
            halves_blamed (absorb c1.1 c2.1) rejection c1.2 c2.2 c1.1.rejected c2.1.rejected
              s1.blamed s2.blamed;
      }
