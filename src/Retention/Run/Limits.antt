-- ===== src/Retention/Run/Limits.antt =====
-- What a pass never deletes, and how its result follows from the storage's answers.
use git_backup.Base.{
  All, All-append, Bytes, List, Option, [], arith, map, none, refl, select, some, true, ℕ, ◌<◌, ◌∷◌,
  ◌≡◌, Bool-cases, inl, inr, ltb, ltb→lt, lt→ltb, not, subst, ◌&&◌, ◌+◌, ◌^◌, ◌||◌, ◌⊎◌,
}
use git_backup.Base.Int.{ltb_ℤ, negsuc, pos, ℤ}
use git_backup.Paths.Archive.{try_get_archive_timestamp}
use git_backup.Retention.Group.{
  Groups, Instant, Snapshot, emptied_repositories, expired_keys, expired_of, is_before,
  unix_seconds,
}
use git_backup.Retention.Group.Keys.{IsGrouped, belongs, expired_of-All, stamped}
use git_backup.Retention.Group.Order.{IsSorting, length-sort}
use git_backup.Retention.Group.Prune.{expired_of-is_before, length-expired_of}
use git_backup.Retention.Orphan.{is_reclaimable_orphan, reclaimable_collection_prefixes}
use git_backup.Retention.Orphan.Ancestors.{is_reclaimable_orphan-none}
use git_backup.Retention.Run.{plan}
use git_backup.Retention.Run.Safety.{classified, grouped}

-- Seconds since year 1 lie before the instant.
abbrev pub IsEarlier : ℕ → Instant → Type 0
IsEarlier seconds cutoff =
    (c : ℕ) × (cutoff.seconds ≡ pos c)
    × ((seconds < c) ⊎ ((seconds ≡ c) × (0 < cutoff.nanoseconds)))

-- The timestamp of the key lies before the cutoff, or is too large for an instant.
abbrev pub IsOldArchive : Instant → Bytes → Type 0
IsOldArchive cutoff key =
    (t : ℕ) × (try_get_archive_timestamp key ≡ some t)
    × (t + 62135596800 < 2 ^ 63 → IsEarlier (t + 62135596800) cutoff)

earlier :
    (n : ℕ) (seconds : ℤ) (nanoseconds : ℕ)
    → (ltb_ℤ (pos n) seconds || (not (ltb_ℤ seconds (pos n)) && ltb 0 nanoseconds)) ≡ true
    → IsEarlier n (record { seconds = seconds; nanoseconds = nanoseconds })
earlier n (pos c) nanoseconds h = (
  c,
  refl,
  elim (Bool-cases (ltb n c)) [
    | inl below ↦ inl (ltb→lt n c below)
    | inr above ↦ inr (ground arith, ground arith)
  ],
)
earlier n (negsuc c) nanoseconds h = absurd (ground (arith, h))

unix_seconds-small : (t : ℕ) → t + 62135596800 < 2 ^ 63 → unix_seconds t ≡ pos (t + 62135596800)
unfolding unix_seconds
unix_seconds-small t small = rw (lt→ltb (t + 62135596800) (2 ^ 63) small) refl

is_before-IsEarlier :
    (t : ℕ) (cutoff : Instant)
    → is_before t cutoff ≡ true
    → t + 62135596800 < 2 ^ 63
    → IsEarlier (t + 62135596800) cutoff
unfolding is_before unix_seconds
is_before-IsEarlier t cutoff h small = earlier (t + 62135596800) cutoff.seconds cutoff.nanoseconds (
    subst
      (λ (s : ℤ).
        (ltb_ℤ s cutoff.seconds || (not (ltb_ℤ cutoff.seconds s) && ltb 0 cutoff.nanoseconds))
        ≡ true)
      (unix_seconds-small t small) h)

stamped_at : (o : Option ℕ) (t : ℕ) → stamped o t ≡ true → o ≡ some t
stamped_at none t h = cc
stamped_at (some u) t h = ground arith

module _ (sort : List Snapshot → List Snapshot) (law : IsSorting sort) (cutoff : Instant)
    (minimum : ℕ) where
  old_group :
      (p : Bytes) (l : List Snapshot)
      → All (λ s. belongs p s ≡ true) l
      → All (IsOldArchive cutoff) (map (λ s. s.object_key) (expired_of sort cutoff minimum l))
  old_group p l h =
      both (expired_of sort cutoff minimum l)
        (expired_of-All sort law cutoff minimum (belongs p) l h)
        (expired_of-is_before sort law cutoff minimum l)
    where
      both :
          (e : List Snapshot)
          → All (λ s. belongs p s ≡ true) e
          → All (λ s. is_before s.timestamp cutoff ≡ true) e
          → All (IsOldArchive cutoff) (map (λ s. s.object_key) e)
      both [] a b = tt
      both (s ∷ e) a b = (
        (
          s.timestamp,
          stamped_at (try_get_archive_timestamp s.object_key) s.timestamp (ground (arith, a.0)),
          is_before-IsEarlier s.timestamp cutoff b.0,
        ),
        both e a.1 b.1,
      )

  old_keys :
      (gs : Groups) → IsGrouped gs → All (IsOldArchive cutoff) (expired_keys sort cutoff minimum gs)
  unfolding expired_keys
  old_keys [] h = tt
  old_keys ((p, ss) ∷ gs) h =
      All-append (IsOldArchive cutoff) _ (expired_keys sort cutoff minimum gs) (old_group p ss h.1)
        (old_keys gs h.3)

  -- Every key that a pass deletes as expired is an archive whose timestamp lies before the cutoff, as plain numbers of seconds, unless it is at least 2^63 - 62135596800, for which time.Unix wraps around, if `sort` is a sorting function.
  pub expired-IsOldArchive :
      (repository_keys snippet_keys : List Bytes)
      → All (IsOldArchive cutoff) (plan sort cutoff minimum repository_keys snippet_keys).expired
  unfolding plan
  expired-IsOldArchive repository_keys snippet_keys =
      old_keys _ (grouped sort law cutoff minimum repository_keys snippet_keys)

  nothing_emptied :
      (gs : Groups) → 0 < minimum → IsGrouped gs → emptied_repositories sort cutoff minimum gs ≡ []
  unfolding emptied_repositories
  nothing_emptied [] h k = refl
  nothing_emptied ((p, ss) ∷ gs) h k = ground (
    arith,
    k.0,
    length-expired_of sort law cutoff minimum ss,
    length-sort sort law ss,
    nothing_emptied gs h k.3,
  )

  no_orphans : (keys : List Bytes) → select (λ key. is_reclaimable_orphan key [] []) keys ≡ []
  no_orphans [] = refl
  no_orphans (key ∷ keys) = ground (arith, is_reclaimable_orphan-none key, no_orphans keys)

  -- With a minimum of at least one no repository counts as emptied and no key is deleted as an orphan, if `sort` is a sorting function.
  pub plan_positive_minimum :
      (repository_keys snippet_keys : List Bytes)
      → 0 < minimum
      → ((plan sort cutoff minimum repository_keys snippet_keys).emptied ≡ [])
        × ((plan sort cutoff minimum repository_keys snippet_keys).orphans ≡ [])
  unfolding plan
  plan_positive_minimum repository_keys snippet_keys h =
      let none_emptied =
        nothing_emptied (classified sort law cutoff minimum repository_keys snippet_keys).groups h
          (grouped sort law cutoff minimum repository_keys snippet_keys) in
      (none_emptied, rw none_emptied (unfold reclaimable_collection_prefixes in no_orphans _))
