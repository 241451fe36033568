-- ===== src/Retention/Tests.antt =====
-- The retention theorems at a small bucket.
use git_backup.Base.{
  Bytes, All, List, [], arith, bytes, contains, count, length, min, not, refl, some, take, text_eq,
  text_eq_iff, ℕ, ◌++◌, ◌||◌, ◌∷◌, ◌≡◌, ◌≤◌,
}
use git_backup.Base.Int.{pos}
use git_backup.Base.Result.{Result, ok}
use git_backup.Paths.Archive.{get_parent_prefix, try_get_archive_timestamp}
use git_backup.Paths.Keys.{repositories_prefix, snippets_prefix}
use git_backup.Retention.Group.{Instant, classify, emptied_repositories, expired_keys, expired_of}
use git_backup.Retention.Group.Listing.{archives_below}
use git_backup.Retention.Group.Order.{insertion_sort, insertion_sort-IsSorting}
use git_backup.Retention.Group.Prune.{protected_newest}
use git_backup.Retention.Orphan.{is_reclaimable_orphan, reclaimable_collection_prefixes}
use git_backup.Retention.Orphan.Ancestors.{has_ancestor, is_reclaimable_orphan-has_ancestor}
use git_backup.Retention.Run.{apply, keys_to_delete, plan}
use git_backup.Retention.Run.Ending.{EndsAs, apply-EndsAs, planned, DeletesListed}
use git_backup.Retention.Run.Limits.{IsOldArchive, expired-IsOldArchive, plan_positive_minimum}
use git_backup.Retention.Run.Safety.{DistinctListing, plan_keeps_minimum}
use git_backup.Text.Decimal.{parse_int}
use git_backup.Text.Index.{has_suffix, index, last_index}

abbrev old_key : Bytes
old_key = bytes "repositories/url/a/b/5_repo.tar.gz"

abbrev new_key : Bytes
new_key = bytes "repositories/url/a/b/9_repo.tar.gz"

abbrev metadata_key : Bytes
metadata_key = bytes "repositories/url/a/b/metadata.json"

abbrev bucket : List Bytes
bucket = old_key ∷ new_key ∷ metadata_key ∷ []

-- The instant ten seconds into 1970.
abbrev cutoff : Instant
cutoff = record { seconds = pos 62135596810; nanoseconds = 0 }

bucket_distinct : DistinctListing (bucket ++ [])
unfolding text_eq
bucket_distinct key =
    ground (arith, text_eq_iff key old_key, text_eq_iff key new_key, text_eq_iff key metadata_key)

one_kept : keys_to_delete (plan insertion_sort cutoff 1 bucket []) ≡ old_key ∷ []
unfolding plan classify emptied_repositories expired_keys expired_of reclaimable_collection_prefixes
    is_reclaimable_orphan try_get_archive_timestamp last_index has_suffix text_eq parse_int
    get_parent_prefix index
one_kept = refl

all_deleted :
    keys_to_delete (plan insertion_sort cutoff 0 bucket []) ≡ new_key ∷ old_key ∷ metadata_key ∷ []
unfolding plan classify emptied_repositories expired_keys expired_of reclaimable_collection_prefixes
    is_reclaimable_orphan try_get_archive_timestamp last_index has_suffix text_eq parse_int
    get_parent_prefix index
all_deleted = refl

plan_keeps_minimum_example :
    min 1 (length (archives_below (bytes "repositories/url/a/b") (bucket ++ [])))
    ≤ count
        (λ s. not (contains s.object_key (keys_to_delete (plan insertion_sort cutoff 1 bucket []))))
        (archives_below (bytes "repositories/url/a/b") (bucket ++ []))
plan_keeps_minimum_example =
    plan_keeps_minimum insertion_sort insertion_sort-IsSorting cutoff 1 bucket []
      (bytes "repositories/url/a/b") bucket_distinct

expired-IsOldArchive_example :
    All (IsOldArchive cutoff) (plan insertion_sort cutoff 1 bucket []).expired
expired-IsOldArchive_example =
    expired-IsOldArchive insertion_sort insertion_sort-IsSorting cutoff 1 bucket []

plan_positive_minimum_example :
    ((plan insertion_sort cutoff 1 bucket []).emptied ≡ [])
    × ((plan insertion_sort cutoff 1 bucket []).orphans ≡ [])
plan_positive_minimum_example =
    plan_positive_minimum insertion_sort insertion_sort-IsSorting cutoff 1 bucket [] (omega arith)

protected_newest_example :
    All
      (λ s.
        All
          (λ t. t.timestamp ≤ s.timestamp)
          (expired_of insertion_sort cutoff 1
            (archives_below (bytes "repositories/url/a/b") bucket)))
      (take
        (min 1 (length (insertion_sort (archives_below (bytes "repositories/url/a/b") bucket))))
        (insertion_sort (archives_below (bytes "repositories/url/a/b") bucket)))
protected_newest_example =
    protected_newest insertion_sort insertion_sort-IsSorting cutoff 1
      (archives_below (bytes "repositories/url/a/b") bucket)

is_reclaimable_orphan-has_ancestor_example :
    is_reclaimable_orphan metadata_key (bytes "repositories/url/a/b" ∷ []) [] ≡ (
      contains (get_parent_prefix metadata_key) (bytes "repositories/url/a/b" ∷ [])
      || has_ancestor [] metadata_key)
is_reclaimable_orphan-has_ancestor_example =
    is_reclaimable_orphan-has_ancestor metadata_key (bytes "repositories/url/a/b" ∷ []) []

abbrev list_bucket : Bytes → Result ℕ (List Bytes)
list_bucket prefix = ok bucket

apply-EndsAs_example :
    EndsAs
      (λ keys. some 3)
      (apply insertion_sort list_bucket (λ keys. some 3) cutoff 1)
      (planned
        (plan insertion_sort cutoff 1)
        (list_bucket repositories_prefix)
        (list_bucket snippets_prefix))
    × DeletesListed
        (list_bucket repositories_prefix)
        (list_bucket snippets_prefix)
        (apply insertion_sort list_bucket (λ keys. some 3) cutoff 1).deleted
apply-EndsAs_example =
    apply-EndsAs insertion_sort insertion_sort-IsSorting list_bucket (λ keys. some 3) cutoff 1
