-- ===== src/Retention/Group/Listing.antt =====
-- What the groups hold, in terms of the listing.
use git_backup.Base.{
  Bool, Bytes, List, Option, [], append-nil, append_assoc, arith, false, if◌then◌else◌, none, not,
  refl, select, some, sym, text_eq, text_eq_iff, true, ℕ, ◌++◌, ◌∷◌, ◌≡◌,
}
use git_backup.Paths.Archive.{get_parent_prefix, try_get_archive_timestamp}
use git_backup.Retention.Group.{classify, Classified, Groups, Snapshot, add_snapshot, classify_key}

-- The group of a prefix, or none.
unfoldable pub snapshots_of : Bytes → Groups → List Snapshot
snapshots_of p [] = []
snapshots_of p ((q, ss) ∷ gs) = let rest = snapshots_of p gs in if text_eq q p then ss else rest

-- A key as a member of the archives below `p`.
abbrev pub archive_below : Bytes → Bytes → Option ℕ → List Snapshot
archive_below p key none = []
archive_below p key (some t) =
    if text_eq (get_parent_prefix key) p
    then record { object_key = key; timestamp = t } ∷ []
    else []

-- The archives of the listing whose parent is `p`.
unfoldable pub archives_below : Bytes → List Bytes → List Snapshot
archives_below p [] = []
archives_below p (key ∷ keys) =
    archive_below p key (try_get_archive_timestamp key) ++ archives_below p keys

abbrev pub is_some {ℓ} : {A : Type ℓ} → Option A → Bool
is_some none = false
is_some (some a) = true

abbrev pub is_archive : Bytes → Bool
is_archive key = is_some (try_get_archive_timestamp key)

snapshots_of-add_snapshot :
    (p q : Bytes) (s : Snapshot) (gs : Groups)
    → snapshots_of p (add_snapshot q s gs)
      ≡ (if text_eq q p then snapshots_of p gs ++ s ∷ [] else snapshots_of p gs)
unfolding snapshots_of add_snapshot
snapshots_of-add_snapshot p q s [] = ground arith
snapshots_of-add_snapshot p q s ((r, ss) ∷ gs) =
    ground
      (arith, text_eq_iff r q, text_eq_iff r p, text_eq_iff q p, snapshots_of-add_snapshot p q s gs)

snapshots_of-classify_key :
    (p key : Bytes) (o : Option ℕ) (c : Classified)
    → snapshots_of p (classify_key key o c).groups
      ≡ snapshots_of p c.groups ++ archive_below p key o
unfolding classify_key
snapshots_of-classify_key p key none c = sym (append-nil _)
snapshots_of-classify_key p key (some t) c =
    rw (snapshots_of-add_snapshot p (get_parent_prefix key) _ c.groups)
      (pick (text_eq (get_parent_prefix key) p))
  where
    pick :
        (b : Bool)
        → (if b
            then snapshots_of p c.groups ++ record { object_key = key; timestamp = t } ∷ []
            else snapshots_of p c.groups)
          ≡ snapshots_of p c.groups
            ++ (if b then record { object_key = key; timestamp = t } ∷ [] else [])
    pick true = refl
    pick false = sym (append-nil _)

-- The group of a prefix is what the listing holds directly below it, in the listing's order.
pub snapshots_of-classify :
    (p : Bytes) (keys : List Bytes) (c : Classified)
    → snapshots_of p (classify keys c).groups ≡ snapshots_of p c.groups ++ archives_below p keys
unfolding classify archives_below
snapshots_of-classify p [] c = sym (append-nil _)
snapshots_of-classify p (key ∷ keys) c =
    rw
      (
        snapshots_of-classify p keys (classify_key key (try_get_archive_timestamp key) c),
        snapshots_of-classify_key p key (try_get_archive_timestamp key) c,
      )
      (append_assoc (snapshots_of p c.groups) _ _)

non_archive-classify_key :
    (key : Bytes) (o : Option ℕ) (c : Classified)
    → (classify_key key o c).non_archive ≡ c.non_archive ++ (if is_some o then [] else key ∷ [])
unfolding classify_key
non_archive-classify_key key none c = refl
non_archive-classify_key key (some t) c = sym (append-nil _)

select_step {ℓ} :
    {A : Type ℓ} (p : A → Bool) (x : A) (xs : List A)
    → select (λ y. not (p y)) (x ∷ xs) ≡ (if p x then [] else x ∷ []) ++ select (λ y. not (p y)) xs
select_step p x xs = ground arith

-- The other keys are kept as listed.
pub non_archive-classify :
    (keys : List Bytes) (c : Classified)
    → (classify keys c).non_archive ≡ c.non_archive ++ select (λ key. not (is_archive key)) keys
unfolding classify
non_archive-classify [] c = sym (append-nil _)
non_archive-classify (key ∷ keys) c =
    rw
      (
        non_archive-classify keys (classify_key key (try_get_archive_timestamp key) c),
        non_archive-classify_key key (try_get_archive_timestamp key) c,
        select_step is_archive key keys,
      )
      (append_assoc c.non_archive _ _)
