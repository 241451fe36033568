-- ===== src/Lfs/Fetch/Chunks.antt =====
-- internal/lfs/lfs.go: a chunk that misses nothing holds all its objects.
use git_backup.Base.{
  Bytes, All, Bool-cases, List, Option, [], any, ap, arith, contains, inl, inr, length, none, refl,
  some, subst, sym, text_eq, text_eq_sound, true, ℕ, ◌+◌, ◌==◌, ◌∷◌, ◌≡◌, ==_iff, All-map, ◌||◌,
  length-map, map, ◌++◌,
}
use git_backup.Base.Result.{ok, Result, err}
use git_backup.Lfs.Batch.{
  BatchError, BatchReply, BatchResponseObject, LfsLog, Remote, accept_objects,
  describes_request_shape, read_reply, replied, request_lost,
}
use git_backup.Lfs.Download.{Sorted, download_objects}
use git_backup.Lfs.Download.Events.{IsHeld, IsHeld-stays, IsLater, IsLater-trans, oids, shows}
use git_backup.Lfs.Download.Passes.{IsSettled, download_objects-Sound}
use git_backup.Lfs.Fetch.{
  ChunkOutcome, Gap, record_all, record_unavailable, gap_lapsed, gap_no_fresh_url, no_outcome,
  refresh_expired,
}
use git_backup.Lfs.Pointer.{Pointer}
use git_backup.Text.Case.{to_lower}
use git_backup.Text.Index.{later}

-- A list that has no length is empty.
pub length-zero : {A : Type 0} (xs : List A) → length xs ≡ 0 → xs ≡ []
length-zero [] h = refl
length-zero (x ∷ xs) h = absurd (omega (arith, h))

pub append-empty : {A : Type 0} (xs ys : List A) → xs ++ ys ≡ [] → (xs ≡ []) × (ys ≡ [])
append-empty [] ys h = (refl, h)
append-empty (x ∷ xs) ys h = absurd (cc)

module _ {E : Type 0} where
  pub record_all-unavailable :
      (gaps : List (Gap E)) (o : ChunkOutcome E)
      → (record_all gaps o).unavailable ≡ length gaps + o.unavailable
  unfolding record_unavailable
  record_all-unavailable [] o = omega arith
  record_all-unavailable (gap ∷ gaps) o =
      omega (arith, record_all-unavailable gaps (record_unavailable gap o))

module _ {E : Type 0} (wide : Bytes → Bytes) (remote : Remote E) where
  -- What the protocol documents: a batch response that is accepted describes each object of the request, in either case of its letters.
  abbrev pub DescribesAll : Type 0
  DescribesAll =
      (log : LfsLog) (pointers : List Pointer) (objects : List BatchResponseObject)
      → remote.respond log pointers ≡ replied 200 (some objects)
      → All
          (λ p.
            any (λ (o : BatchResponseObject). text_eq p.oid (to_lower wide o.oid)) objects ≡ true)
          pointers

  accept_objects-ok :
      (n : ℕ) (decoded : Option (List BatchResponseObject)) (objects : List BatchResponseObject)
      → accept_objects wide remote n decoded ≡ ok objects
      → decoded ≡ some objects
  accept_objects-ok n none objects h = absurd (cc)
  accept_objects-ok n (some given) objects h = elim (Bool-cases (length given == n)) [
    | inl same ↦ cc (h, same)
    | inr differs ↦ absurd (cc (h, differs))
  ]

  pub read_reply-ok :
      (n : ℕ) (reply : BatchReply E) (objects : List BatchResponseObject)
      → read_reply wide remote n reply ≡ ok objects
      → reply ≡ replied 200 (some objects)
  read_reply-ok n (request_lost e) objects h = absurd (cc)
  read_reply-ok n (replied status decoded) objects h = elim (Bool-cases (status == 200)) [
    | inl fine ↦
        rw ((==_iff status 200).0 fine)
          (ap (λ d. replied 200 d) (accept_objects-ok n decoded objects (cc (h, fine))))
    | inr other ↦ elim (Bool-cases (describes_request_shape status)) [
      | inl shape ↦ absurd (cc (h, other, shape))
      | inr broken_one ↦ absurd (cc (h, other, broken_one))
    ]
  ]

  -- An object that is described and settled is held, or among the expired ones.
  described-IsSettled :
      (oid : Bytes) (objects : List BatchResponseObject) (r : Sorted E × LfsLog)
      → any (λ (o : BatchResponseObject). text_eq oid (to_lower wide o.oid)) objects ≡ true
      → All (λ object. IsSettled wide remote r (to_lower wide object.oid)) objects
      → IsSettled wide remote r oid
  described-IsSettled oid [] r h all = absurd (cc)
  described-IsSettled oid (object ∷ objects) r h (settled, all) =
      elim (Bool-cases (text_eq oid (to_lower wide object.oid))) [
        | inl same ↦
            subst (IsSettled wide remote r)
              (sym (text_eq_sound oid (to_lower wide object.oid) same)) settled
        | inr differs ↦ described-IsSettled oid objects r (ground (arith, h, differs)) all
      ]

  pub settled-IsHeld :
      (oid : Bytes) (r : Sorted E × LfsLog)
      → r.0.expired ≡ []
      → IsSettled wide remote r oid
      → IsHeld r.1 oid
  settled-IsHeld oid r nothing_left h =
      ground (arith, h, ap (λ ps. contains oid (oids ps)) nothing_left)

  -- What is left to show of a chunk behind its second pass.
  abbrev pub IsClosable : List Pointer → LfsLog × ChunkOutcome E × Sorted E → Type 0
  IsClosable pointers (log, o, s) =
      s.failed ≡ []
      → s.unavailable ≡ []
      → o.unavailable ≡ 0
      → All (λ (p : Pointer). IsHeld log p.oid) pointers

  pub IsSettled-All :
      (pointers : List Pointer) (objects : List BatchResponseObject) (r : Sorted E × LfsLog)
      → All
          (λ p.
            any (λ (o : BatchResponseObject). text_eq p.oid (to_lower wide o.oid)) objects ≡ true)
          pointers
      → All (λ object. IsSettled wide remote r (to_lower wide object.oid)) objects
      → All (λ (p : Pointer). IsSettled wide remote r p.oid) pointers
  IsSettled-All pointers objects r described settled =
      All-map (λ (p : Pointer) h. described-IsSettled p.oid objects r h settled) pointers described

  -- What the second pass answers for is held.
  again-IsHeld :
      (oid : Bytes) (expired : List Pointer) (log later : LfsLog)
      → IsLater remote log later
      → All (λ (p : Pointer). IsHeld later p.oid) expired
      → (any (shows oid) log || contains oid (oids expired)) ≡ true
      → IsHeld later oid
  again-IsHeld oid [] log later l held h = IsHeld-stays oid l (ground (arith, h))
  again-IsHeld oid (p ∷ expired) log later l (here, held) h =
      elim (Bool-cases (text_eq oid p.oid)) [
        | inl same ↦ subst (IsHeld later) (sym (text_eq_sound oid p.oid same)) here
        | inr differs ↦ again-IsHeld oid expired log later l held (ground (arith, h, differs))
      ]

  pub refresh_expired-IsClosable :
      DescribesAll
      → (pointers : List Pointer) (s : Sorted E) (p : Pointer) (rest : List Pointer) (log : LfsLog)
      → s.expired ≡ p ∷ rest
      → (s.failed ≡ []
          → s.unavailable ≡ []
          → All (λ (q : Pointer). IsSettled wide remote (s, log) q.oid) pointers)
      → (asked : LfsLog) (answer : Result (BatchError E) (List BatchResponseObject))
      → IsLater remote log asked
      → ((objects : List BatchResponseObject)
          → answer ≡ ok objects
          → All
              (λ q.
                any (λ (o : BatchResponseObject). text_eq q.oid (to_lower wide o.oid)) objects
                ≡ true)
              s.expired)
      → IsLater remote log (refresh_expired wide remote s (asked, answer)).0
        × IsClosable pointers (refresh_expired wide remote s (asked, answer))
  refresh_expired-IsClosable describes pointers s p rest log e settled asked (err bad) l told = (
    l,
    λ done fine none_missing. absurd (
        omega (
          arith,
          none_missing,
          record_all-unavailable (map (λ (q : Pointer). gap_no_fresh_url q.oid bad) s.expired)
              no_outcome,
          length-map (λ (q : Pointer). gap_no_fresh_url q.oid bad) s.expired,
          ap length e,
        )),
  )
  refresh_expired-IsClosable describes pointers s p rest log e settled asked (ok objects) l told =
      let again = download_objects wide remote s.expired objects asked in
      let (grown, covers) = download_objects-Sound wide remote s.expired objects asked in
      let l2 = IsLater-trans l grown in
      (
        l2,
        λ done fine none_missing.
            let gone = length-zero again.0.expired (
              omega (
                arith,
                none_missing,
                record_all-unavailable (map (λ (q : Pointer). gap_lapsed q.oid) again.0.expired)
                    no_outcome,
                length-map (λ (q : Pointer). gap_lapsed q.oid) again.0.expired,
              )) in
            let held =
              All-map (λ (q : Pointer) h. settled-IsHeld q.oid again gone h) s.expired
                (IsSettled-All s.expired objects again (told objects refl) (
                  covers (append-empty s.unavailable again.0.unavailable fine).1
                    (append-empty s.failed again.0.failed done).1)) in
            All-map (λ (q : Pointer) h. again-IsHeld q.oid s.expired log again.1 l2 held h) pointers
              (settled (append-empty s.failed again.0.failed done).0
                (append-empty s.unavailable again.0.unavailable fine).0),
      )
