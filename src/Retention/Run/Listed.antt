-- ===== src/Retention/Run/Listed.antt =====
-- Every key that a pass deletes stands in the listing.
use git_backup.Base.{
  All, All-append, All-map, All-select, Bool, Bool-cases, Bytes, List, [], any-append, arith,
  contains, inl, inr, map, select, text_eq, text_eq_refl, true, ◌++◌, ◌∷◌, ◌≡◌, Option, none, some,
  ℕ, ◌∙◌,
}
use git_backup.Paths.Archive.{get_parent_prefix, try_get_archive_timestamp}
use git_backup.Retention.Group.{
  Classified, Groups, Instant, Snapshot, add_snapshot, classify, classify_key, emptied_repositories,
  expired_keys, expired_of,
}
use git_backup.Retention.Group.Keys.{expired_of-All}
use git_backup.Retention.Group.Order.{IsSorting}
use git_backup.Retention.Orphan.{is_reclaimable_orphan, reclaimable_collection_prefixes}
use git_backup.Retention.Run.{keys_to_delete, no_groups, plan}

-- What holds of the keys of a listing holds of all that comes of it.
module _ (q : Bytes → Bool) where
  abbrev Holds : List Bytes → Type 0
  Holds = All (λ key. q key ≡ true)

  abbrev GroupsHold : Groups → Type 0
  GroupsHold = All (λ (g : Bytes × List Snapshot). All (λ s. q s.object_key ≡ true) g.1)

  abbrev ClassifiedHold : Classified → Type 0
  ClassifiedHold c = GroupsHold c.groups × Holds c.non_archive

  add_snapshot-GroupsHold :
      (p : Bytes) (s : Snapshot) (gs : Groups)
      → q s.object_key ≡ true
      → GroupsHold gs
      → GroupsHold (add_snapshot p s gs)
  unfolding add_snapshot
  add_snapshot-GroupsHold p s [] h k = ((h, tt), tt)
  add_snapshot-GroupsHold p s ((r, ss) ∷ gs) h k = elim (Bool-cases (text_eq r p)) [
    | inl here ↦ rw here (All-append (λ t. q t.object_key ≡ true) ss (s ∷ []) k.0 (h, tt), k.1)
    | inr apart ↦ rw apart (k.0, add_snapshot-GroupsHold p s gs h k.1)
  ]

  classify_key-ClassifiedHold :
      (key : Bytes) (o : Option ℕ) (c : Classified)
      → q key ≡ true
      → ClassifiedHold c
      → ClassifiedHold (classify_key key o c)
  unfolding classify_key
  classify_key-ClassifiedHold key none c h k =
      (k.0, All-append (λ x. q x ≡ true) c.non_archive (key ∷ []) k.1 (h, tt))
  classify_key-ClassifiedHold key (some t) c h k =
      (add_snapshot-GroupsHold (get_parent_prefix key) _ c.groups h k.0, k.1)

  classify-ClassifiedHold :
      (keys : List Bytes) (c : Classified)
      → Holds keys
      → ClassifiedHold c
      → ClassifiedHold (classify keys c)
  unfolding classify
  classify-ClassifiedHold [] c h k = k
  classify-ClassifiedHold (key ∷ keys) c h k =
      classify-ClassifiedHold keys _ h.1
        (classify_key-ClassifiedHold key (try_get_archive_timestamp key) c h.0 k)

  object_keys-Holds :
      (l : List Snapshot) → All (λ s. q s.object_key ≡ true) l → Holds (map (λ s. s.object_key) l)
  object_keys-Holds [] h = tt
  object_keys-Holds (s ∷ l) h = (h.0, object_keys-Holds l h.1)

  module _ (sort : List Snapshot → List Snapshot) (law : IsSorting sort) (cutoff : Instant)
      (minimum : ℕ) where
    expired_keys-Holds : (gs : Groups) → GroupsHold gs → Holds (expired_keys sort cutoff minimum gs)
    unfolding expired_keys
    expired_keys-Holds [] h = tt
    expired_keys-Holds ((p, ss) ∷ gs) h =
        All-append (λ x. q x ≡ true) (map (λ s. s.object_key) (expired_of sort cutoff minimum ss))
          (expired_keys sort cutoff minimum gs)
          (object_keys-Holds (expired_of sort cutoff minimum ss)
            (expired_of-All sort law cutoff minimum (λ s. q s.object_key) ss h.0))
          (expired_keys-Holds gs h.1)

    plan-Holds :
        (keys more : List Bytes)
        → Holds keys
        → Holds more
        → Holds (keys_to_delete (plan sort cutoff minimum keys more))
    unfolding plan
    plan-Holds keys more h g =
        let c = classify more (classify keys no_groups) in
        let sound =
          classify-ClassifiedHold more (classify keys no_groups) g
            (classify-ClassifiedHold keys no_groups h (tt, tt)) in
        let emptied = emptied_repositories sort cutoff minimum c.groups in
        let orphan = λ (key : Bytes).
          is_reclaimable_orphan key emptied (reclaimable_collection_prefixes emptied) in
        All-append (λ x. q x ≡ true) (expired_keys sort cutoff minimum c.groups)
          (select orphan c.non_archive) (expired_keys-Holds c.groups sound.0)
          (All-select (λ x. q x ≡ true) orphan c.non_archive sound.1)

-- A list contains its members.
members : (keys : List Bytes) → All (λ key. contains key keys ≡ true) keys
members [] = tt
members (key ∷ keys) =
    (ground (arith, text_eq_refl key), All-map (λ other h. ground (arith, h)) keys (members keys))

-- Each of the keys was in one of the two listings.
abbrev pub WereListed : List Bytes → List Bytes → List Bytes → Type 0
WereListed keys more = All (λ key. contains key (keys ++ more) ≡ true)

pub plan-WereListed :
    (sort : List Snapshot → List Snapshot) (law : IsSorting sort) (cutoff : Instant) (minimum : ℕ)
    (keys more : List Bytes)
    → WereListed keys more (keys_to_delete (plan sort cutoff minimum keys more))
plan-WereListed sort law cutoff minimum keys more =
    plan-Holds (λ key. contains key (keys ++ more)) sort law cutoff minimum keys more
      (All-map (λ key h. any-append (text_eq key) keys more ∙ ground (arith, h)) keys
        (members keys))
      (All-map (λ key h. any-append (text_eq key) keys more ∙ ground (arith, h)) more
        (members more))
