-- ===== src/Retention/Run/Safety.antt =====
-- What one retention pass deletes and what it keeps, in terms of the listing.
use git_backup.Base.{
  All, All-append, All-select, Bool-cases, Bytes, List, Option, [], any, append_assoc, arith,
  contains, count, count-append, inl, inr, none, not, refl, select-All, some, sym, text_eq, true, ℕ,
  ◌++◌, ◌+◌, ◌∷◌, ◌≡◌, ◌≤◌, All-map, Bool, any-append, any-false, ap, false, length, min,
  text_eq_iff, ◌||◌,
}
use git_backup.Paths.Archive.{get_parent_prefix, try_get_archive_timestamp}
use git_backup.Retention.Group.{Classified, Instant, Snapshot, classify, expired_of}
use git_backup.Retention.Group.Keys.{IsGrouped, belongs, classify-IsGrouped, contains-expired_keys}
use git_backup.Retention.Group.Listing.{
  archive_below, archives_below, is_archive, non_archive-classify, snapshots_of,
  snapshots_of-classify,
}
use git_backup.Retention.Group.Order.{IsSorting}
use git_backup.Retention.Group.Prune.{is_key, DistinctKeys, is_deleted, kept_at_least}
use git_backup.Retention.Run.{plan, Plan, no_groups, keys_to_delete}

-- No key is listed twice.
abbrev pub DistinctListing : List Bytes → Type 0
DistinctListing keys = (key : Bytes) → count (text_eq key) keys ≤ 1

count-archives_below :
    (p key : Bytes) (keys : List Bytes)
    → count (is_key key) (archives_below p keys) ≤ count (text_eq key) keys
unfolding archives_below
count-archives_below p key [] = omega arith
count-archives_below p key (k ∷ keys) = omega (
  arith,
  count-append (is_key key) (archive_below p k (try_get_archive_timestamp k))
      (archives_below p keys),
  one (try_get_archive_timestamp k),
  count-archives_below p key keys,
)
  where
    one :
        (o : Option ℕ)
        → count (is_key key) (archive_below p k o) + count (text_eq key) keys
          ≤ count (text_eq key) (k ∷ keys)
    one none = ground arith
    one (some t) = ground arith

archives_below-append :
    (p : Bytes) (ks ls : List Bytes)
    → archives_below p (ks ++ ls) ≡ archives_below p ks ++ archives_below p ls
unfolding archives_below
archives_below-append p [] ls = refl
archives_below-append p (k ∷ ks) ls =
    rw (archives_below-append p ks ls) (sym (append_assoc _ (archives_below p ks) _))

-- The members of `archives_below p` are archives whose parent is `p`.
archives_below-belongs :
    (p : Bytes) (keys : List Bytes) → All (λ s. belongs p s ≡ true) (archives_below p keys)
unfolding archives_below
archives_below-belongs p [] = tt
archives_below-belongs p (k ∷ keys) =
    All-append (λ s. belongs p s ≡ true) (archive_below p k (try_get_archive_timestamp k)) _
      (one (try_get_archive_timestamp k) refl) (archives_below-belongs p keys)
  where
    one :
        (o : Option ℕ)
        → try_get_archive_timestamp k ≡ o
        → All (λ s. belongs p s ≡ true) (archive_below p k o)
    one none e = tt
    one (some t) e = elim (Bool-cases (text_eq (get_parent_prefix k) p)) [
      | inl here ↦ rw here (rw (here, e) (ground arith), tt)
      | inr other ↦ rw other tt
    ]

module _ (sort : List Snapshot → List Snapshot) (law : IsSorting sort) (cutoff : Instant)
    (minimum : ℕ) (repository_keys snippet_keys : List Bytes) where
  abbrev pub the_plan : Plan
  the_plan = plan sort cutoff minimum repository_keys snippet_keys

  abbrev pub listing : List Bytes
  listing = repository_keys ++ snippet_keys

  abbrev pub classified : Classified
  classified = classify snippet_keys (classify repository_keys no_groups)

  pub grouped : IsGrouped classified.groups
  grouped = classify-IsGrouped snippet_keys _ (classify-IsGrouped repository_keys no_groups tt)

  group_of_prefix : (p : Bytes) → snapshots_of p classified.groups ≡ archives_below p listing
  group_of_prefix p =
      rw
        (
          snapshots_of-classify p snippet_keys (classify repository_keys no_groups),
          snapshots_of-classify p repository_keys no_groups,
        )
        (unfold snapshots_of in sym (archives_below-append p repository_keys snippet_keys))

  -- An archive is deleted exactly if pruning the archives of its own prefix deletes it.
  expired_at :
      (key : Bytes)
      → contains key the_plan.expired
        ≡ any
            (is_key key)
            (expired_of sort cutoff minimum (archives_below (get_parent_prefix key) listing))
  unfolding plan
  expired_at key = rw (
    contains-expired_keys sort law cutoff minimum key classified.groups grouped,
    group_of_prefix (get_parent_prefix key),
  )

  others_are_no_archives : All (λ key. not (is_archive key) ≡ true) classified.non_archive
  others_are_no_archives =
      rw
        (
          non_archive-classify snippet_keys (classify repository_keys no_groups),
          non_archive-classify repository_keys no_groups,
        )
        (All-append (λ key. not (is_archive key) ≡ true) _ _
          (select-All (λ key. not (is_archive key)) repository_keys)
          (select-All (λ key. not (is_archive key)) snippet_keys))

  -- No archive is deleted as an orphan.
  pub orphans_are_no_archives : All (λ key. not (is_archive key) ≡ true) the_plan.orphans
  unfolding plan
  orphans_are_no_archives =
      All-select (λ key. not (is_archive key) ≡ true) _ _ others_are_no_archives

  distinct_archives :
      (p : Bytes) → DistinctListing listing → DistinctKeys (archives_below p listing)
  distinct_archives p h key = omega (arith, count-archives_below p key listing, h key)

  abbrev pub deletions : List Bytes
  deletions = keys_to_delete the_plan

  no_orphan :
      (key : Bytes) (orphans : List Bytes)
      → is_archive key ≡ true
      → All (λ k. not (is_archive k) ≡ true) orphans
      → contains key orphans ≡ false
  no_orphan key orphans a h = any-false (text_eq key) orphans (
      All-map {P = λ k. not (is_archive k) ≡ true} {Q = λ k. text_eq key k ≡ false} other orphans h)
    where
      other : (k : Bytes) → not (is_archive k) ≡ true → text_eq key k ≡ false
      other k e = ground (arith, text_eq_iff key k)

  -- For an archive below `p`, being deleted by the pass is being deleted by the pruning of `p`.
  deleted_at :
      (p : Bytes) (s : Snapshot)
      → belongs p s ≡ true
      → contains s.object_key deletions
        ≡ is_deleted (expired_of sort cutoff minimum (archives_below p listing)) s
  deleted_at p s h =
      let parent : get_parent_prefix s.object_key ≡ p =
        ground (arith, text_eq_iff (get_parent_prefix s.object_key) p) in
      let archive : is_archive s.object_key ≡ true = ground arith in
      rw
        (
          any-append (text_eq s.object_key) the_plan.expired the_plan.orphans,
          expired_at s.object_key,
          no_orphan s.object_key the_plan.orphans archive orphans_are_no_archives,
          parent,
        )
        (or_false _)
    where
      or_false : (b : Bool) → (b || false) ≡ b
      or_false true = refl
      or_false false = refl

count-cong {ℓ} :
    {A : Type ℓ} (p q : A → Bool) (xs : List A) → All (λ x. p x ≡ q x) xs → count p xs ≡ count q xs
count-cong p q [] h = refl
count-cong p q (x ∷ xs) h = rw (h.0, count-cong p q xs h.1)

module _ (sort : List Snapshot → List Snapshot) (law : IsSorting sort) (cutoff : Instant)
    (minimum : ℕ) (repository_keys snippet_keys : List Bytes) where
  -- Of the archives directly below any prefix at least `minimum` survive a retention pass, or all of them if there are fewer, if no key is listed twice and `sort` is a sorting function.
  pub plan_keeps_minimum :
      (p : Bytes)
      → DistinctListing (repository_keys ++ snippet_keys)
      → min minimum (length (archives_below p (repository_keys ++ snippet_keys)))
        ≤ count
            (λ s. not (
              contains s.object_key
                (keys_to_delete (plan sort cutoff minimum repository_keys snippet_keys))))
            (archives_below p (repository_keys ++ snippet_keys))
  plan_keeps_minimum p distinct =
      let l = archives_below p (repository_keys ++ snippet_keys) in
      let same = count-cong _ _ l (
        All-map {P = λ s. belongs p s ≡ true}
          {Q = λ s.
            not (
              contains s.object_key
                (keys_to_delete (plan sort cutoff minimum repository_keys snippet_keys)))
            ≡ not (is_deleted (expired_of sort cutoff minimum l) s)}
          (λ s h. ap not (deleted_at sort law cutoff minimum repository_keys snippet_keys p s h)) l
          (archives_below-belongs p (repository_keys ++ snippet_keys))) in
      rw same (
        kept_at_least sort law cutoff minimum l
          (distinct_archives sort law cutoff minimum repository_keys snippet_keys p distinct))
