-- ===== src/Retention/Orphan.antt =====
-- The other objects of an emptied repository.
pub mod Ancestors
use git_backup.Base.{
  Bytes, Bool, List, Option, [], contains, drop, false, if◌then◌else◌, length, none, some, suc,
  take, true, zero, ℕ, ◌++◌, ◌+◌, ◌||◌, ◌∷◌,
}
use git_backup.Paths.Archive.{get_parent_prefix}
use git_backup.Paths.Keys.{
  issues_collection_segment, merge_requests_collection_segment, releases_collection_segment,
}
use git_backup.Text.Index.{index}

-- The deep collection prefixes of each emptied repository.
unfoldable pub reclaimable_collection_prefixes : List Bytes → List Bytes
reclaimable_collection_prefixes [] = []
reclaimable_collection_prefixes (p ∷ ps) =
    (p ++ b'/' ∷ issues_collection_segment)
    ∷ (p ++ b'/' ∷ merge_requests_collection_segment)
    ∷ (p ++ b'/' ∷ releases_collection_segment)
    ∷ reclaimable_collection_prefixes ps

-- `next + i + 1`, or the end of the loop.
abbrev pub step_index : ℕ → Option ℕ → Option ℕ
step_index i none = none
step_index i (some next) = some (next + i + 1)

-- The loop over the positions of slashes, from a positive one.
pub probe : ℕ → List Bytes → Bytes → Option ℕ → Bool
probe zero prefixes key i = false
probe (suc fuel) prefixes key none = false
probe (suc fuel) prefixes key (some zero) = false
probe (suc fuel) prefixes key (some (suc i)) =
    let next = step_index (suc i) (index b'/' (drop (suc (suc i)) key)) in
    let more = probe fuel prefixes key next in
    if contains (take (suc i) key) prefixes then true else more

unfoldable pub is_reclaimable_orphan : Bytes → List Bytes → List Bytes → Bool
unfolding probe
is_reclaimable_orphan key emptied prefixes =
    contains (get_parent_prefix key) emptied
    || probe (suc (length key)) prefixes key (index b'/' key)
