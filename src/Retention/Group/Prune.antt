-- ===== src/Retention/Group/Prune.antt =====
-- What pruning one group deletes, and what it keeps.
use git_backup.Base.{
  All, All-map, All-select, Bool, Bytes, List, [], any, any-select_of_count, ap, arith, count,
  count-All, count-append, drop, length, length-drop, length-select-le, length-take, min, not,
  select, select-All, take, take-append-drop, text_eq, text_eq_refl, true, ℕ, ◌++◌, ◌+◌, ◌∷◌, ◌≡◌,
  ◌≤◌,
}
use git_backup.Retention.Group.{expired_of, Instant, Snapshot, is_before}
use git_backup.Retention.Group.Order.{Descending-cut, IsSorting, length-sort}

abbrev pub is_key : Bytes → Snapshot → Bool
is_key key s = text_eq key s.object_key

-- No two snapshots have one key.
abbrev pub DistinctKeys : List Snapshot → Type 0
DistinctKeys l = (key : Bytes) → count (is_key key) l ≤ 1

-- The snapshot's key is deleted.
abbrev pub is_deleted : List Snapshot → Snapshot → Bool
is_deleted expired s = any (is_key s.object_key) expired

not_behind :
    (front back : List Snapshot) (q : Snapshot → Bool)
    → DistinctKeys (front ++ back)
    → All (λ s. not (is_deleted (select q back) s) ≡ true) front
not_behind [] back q h = tt
not_behind (s ∷ front) back q h = (here, not_behind front back q rest)
  where
    here : not (any (is_key s.object_key) (select q back)) ≡ true
    here = ground (
      arith,
      h s.object_key,
      text_eq_refl s.object_key,
      count-append (is_key s.object_key) front back,
      any-select_of_count (is_key s.object_key) q back,
    )

    rest : DistinctKeys (front ++ back)
    rest key = ground (arith, h key)

module _ (sort : List Snapshot → List Snapshot) (law : IsSorting sort) (cutoff : Instant)
    (minimum : ℕ) (l : List Snapshot) where
  abbrev expired : List Snapshot
  expired = expired_of sort cutoff minimum l

  -- Only snapshots older than the cutoff are deleted.
  pub expired_of-is_before : All (λ s. is_before s.timestamp cutoff ≡ true) expired
  unfolding expired_of
  expired_of-is_before =
      select-All (λ s. is_before s.timestamp cutoff) (drop (min minimum (length (sort l))) (sort l))

  pub length-expired_of : length expired + min minimum (length l) ≤ length l
  unfolding expired_of
  length-expired_of = omega (
    arith,
    length-select-le (λ s. is_before s.timestamp cutoff)
        (drop (min minimum (length (sort l))) (sort l)),
    length-drop (min minimum (length (sort l))) (sort l),
    length-sort sort law l,
  )

  distinct_sorted : DistinctKeys l → DistinctKeys (sort l)
  distinct_sorted h key = rw (law.same l (is_key key)) (h key)

  kept_in_sorted :
      DistinctKeys l → min minimum (length l) ≤ count (λ s. not (is_deleted expired s)) (sort l)
  unfolding expired_of
  kept_in_sorted h =
      let n = min minimum (length (sort l)) in
      let keep : Snapshot → Bool = λ s. not (is_deleted expired s) in
      let whole : take n (sort l) ++ drop n (sort l) ≡ sort l = take-append-drop n (sort l) in
      let front : All (λ s. keep s ≡ true) (take n (sort l)) =
        not_behind (take n (sort l)) (drop n (sort l)) (λ s. is_before s.timestamp cutoff)
          (rw whole (distinct_sorted h)) in
      omega (
        arith,
        ap (count keep) whole,
        count-append keep (take n (sort l)) (drop n (sort l)),
        count-All keep (take n (sort l)) front,
        length-take n (sort l),
        length-sort sort law l,
      )

  -- At least the minimum number of snapshots, or all of them if there are fewer, is kept.
  pub kept_at_least :
      DistinctKeys l → min minimum (length l) ≤ count (λ s. not (is_deleted expired s)) l
  kept_at_least h = omega (arith, kept_in_sorted h, law.same l (λ s. not (is_deleted expired s)))

  -- No deleted snapshot of a group is newer than any of the protected ones, which are the first ones of the sorted group, if `sort` is a sorting function.
  pub protected_newest :
      All
        (λ s. All (λ t. t.timestamp ≤ s.timestamp) expired)
        (take (min minimum (length (sort l))) (sort l))
  unfolding expired_of
  protected_newest =
      All-map
        {P = λ s.
          All (λ t. t.timestamp ≤ s.timestamp) (drop (min minimum (length (sort l))) (sort l))}
        {Q = λ s. All (λ t. t.timestamp ≤ s.timestamp) expired}
        (λ s h. All-select (λ t. t.timestamp ≤ s.timestamp) (λ t. is_before t.timestamp cutoff) _ h)
        _ (Descending-cut (min minimum (length (sort l))) (sort l) (law.descending l))
