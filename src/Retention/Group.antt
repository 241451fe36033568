-- ===== src/Retention/Group.antt =====
-- The listing is classified into snapshots by repository prefix and other keys; a group is pruned.
pub mod Order
pub mod Listing
pub mod Prune
pub mod Keys
use git_backup.Base.{
  Bytes, Bool, List, Option, [], drop, if◌then◌else◌, length, ltb, map, min, none, not, select,
  some, text_eq, ℕ, ◌&&◌, ◌++◌, ◌+◌, ◌-◌, ◌==◌, ◌^◌, ◌||◌, ◌∷◌,
}
use git_backup.Base.Int.{ltb_ℤ, negsuc, pos, ℤ}
use git_backup.Paths.Archive.{get_parent_prefix, try_get_archive_timestamp}

pub record Snapshot : Type 0 where
  pub object_key : Bytes
  pub timestamp : ℕ

abbrev pub Groups : Type 0
Groups = List (Bytes × List Snapshot)

-- `m[prefix] = append(m[prefix], s)`
unfoldable pub add_snapshot : Bytes → Snapshot → Groups → Groups
add_snapshot p s [] = (p, s ∷ []) ∷ []
add_snapshot p s ((q, ss) ∷ gs) =
    let rest = add_snapshot p s gs in if text_eq q p then (q, ss ++ s ∷ []) ∷ gs else (q, ss) ∷ rest

pub record Classified : Type 0 where
  pub groups : Groups
  pub non_archive : List Bytes

unfoldable pub classify_key : Bytes → Option ℕ → Classified → Classified
unfolding add_snapshot
classify_key key none c = record c { non_archive = c.non_archive ++ key ∷ [] }
classify_key key (some t) c = record c {
  groups =
      add_snapshot (get_parent_prefix key) (record { object_key = key; timestamp = t }) c.groups;
}

unfoldable pub classify : List Bytes → Classified → Classified
unfolding classify_key
classify [] c = c
classify (key ∷ keys) c = classify keys (classify_key key (try_get_archive_timestamp key) c)

-- An instant: seconds since year 1, as `time.Time` counts them, and nanoseconds.
pub record Instant : Type 0 where
  pub seconds : ℤ
  pub nanoseconds : ℕ

-- `time.Unix(timestamp, 0)`: its seconds are an `int64`, and wrap around.
unfoldable pub unix_seconds : ℕ → ℤ
unix_seconds timestamp =
    let t = timestamp + 62135596800 in if ltb t (2 ^ 63) then pos t else negsuc (2 ^ 64 - t - 1)

-- `Before`
unfoldable pub is_before : ℕ → Instant → Bool
unfolding unix_seconds
is_before timestamp cutoff =
    let s = unix_seconds timestamp in
    ltb_ℤ s cutoff.seconds || (not (ltb_ℤ cutoff.seconds s) && ltb 0 cutoff.nanoseconds)

module _ (sort : List Snapshot → List Snapshot) (cutoff : Instant) (minimum : ℕ) where
  -- The snapshots of one repository that are deleted.
  unfoldable pub expired_of : List Snapshot → List Snapshot
  unfolding is_before
  expired_of snapshots =
      let ordered = sort snapshots in
      let protected_count = min minimum (length ordered) in
      select (λ item. is_before item.timestamp cutoff) (drop protected_count ordered)

  unfoldable pub expired_keys : Groups → List Bytes
  expired_keys [] = []
  expired_keys ((p, snapshots) ∷ gs) =
      map (λ s. s.object_key) (expired_of snapshots) ++ expired_keys gs

  -- `len(expired) == len(ordered)`
  unfoldable pub emptied_repositories : Groups → List Bytes
  emptied_repositories [] = []
  emptied_repositories ((p, snapshots) ∷ gs) =
      let rest = emptied_repositories gs in
      if length (expired_of snapshots) == length (sort snapshots) then p ∷ rest else rest
