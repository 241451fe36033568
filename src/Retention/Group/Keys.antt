-- ===== src/Retention/Group/Keys.antt =====
-- Which keys the groups of a listing delete.
use git_backup.Base.{
  All, All-append, All-drop, All-map, All-select, All-of_count, Bool, Bool-cases, Bytes, List,
  Option, [], any, any-append, any-false, any-map, arith, contains, count-All, drop, false, inl,
  inr, length, length-append, map, min, none, refl, select, some, subst, suc, text_eq, text_eq_iff,
  text_eq_refl, text_eq_sound, true, zero, ℕ, ◌&&◌, ◌<◌, ◌==◌, ◌||◌, ◌∷◌, ◌≡◌,
}
use git_backup.Paths.Archive.{get_parent_prefix, try_get_archive_timestamp}
use git_backup.Retention.Group.{
  classify, Classified, Groups, Instant, Snapshot, add_snapshot, classify_key, expired_keys,
  expired_of, is_before,
}
use git_backup.Retention.Group.Listing.{snapshots_of}
use git_backup.Retention.Group.Order.{IsSorting, length-sort}
use git_backup.Retention.Group.Prune.{is_key}

-- The key carries the timestamp.
abbrev pub stamped : Option ℕ → ℕ → Bool
stamped none t = false
stamped (some u) t = u == t

abbrev pub belongs : Bytes → Snapshot → Bool
belongs p s =
    text_eq (get_parent_prefix s.object_key) p
    && stamped (try_get_archive_timestamp s.object_key) s.timestamp

-- Another prefix.
abbrev Apart : Bytes → Bytes × List Snapshot → Type 0
Apart p g = text_eq g.0 p ≡ false

-- One group for a prefix, none of them empty, and each snapshot in the group of its parent.
abbrev pub IsGrouped : Groups → Type 0
IsGrouped [] = Unit
IsGrouped ((p, ss) ∷ gs) =
    (0 < length ss) × All (λ s. belongs p s ≡ true) ss × All (Apart p) gs × IsGrouped gs

add_snapshot-Apart :
    (q p : Bytes) (s : Snapshot) (gs : Groups)
    → text_eq p q ≡ false
    → All (Apart q) gs
    → All (Apart q) (add_snapshot p s gs)
unfolding add_snapshot
add_snapshot-Apart q p s [] h k = (h, tt)
add_snapshot-Apart q p s ((r, ss) ∷ gs) h k =
    ground (arith, k.0, k.1, add_snapshot-Apart q p s gs h k.1)

belongs_at :
    (p q : Bytes) (s : Snapshot) → text_eq q p ≡ true → belongs p s ≡ true → belongs q s ≡ true
belongs_at p q s e h = rw (text_eq_sound q p e) h

add_snapshot-IsGrouped :
    (p : Bytes) (s : Snapshot) (gs : Groups)
    → belongs p s ≡ true
    → IsGrouped gs
    → IsGrouped (add_snapshot p s gs)
unfolding add_snapshot
add_snapshot-IsGrouped p s [] h k = (omega arith, ((h, tt)), tt, tt)
add_snapshot-IsGrouped p s ((q, ss) ∷ gs) h k = elim (Bool-cases (text_eq q p)) [
  | inl here ↦ rw here (
    omega (arith, length-append ss (s ∷ [])),
    All-append (λ t. belongs q t ≡ true) ss (s ∷ []) k.1 (belongs_at p q s here h, tt),
    k.2,
    k.3,
  )
  | inr apart ↦ rw apart (
    k.0,
    k.1,
    add_snapshot-Apart q p s gs (ground (arith, text_eq_iff p q, text_eq_iff q p)) k.2,
    add_snapshot-IsGrouped p s gs h k.3,
  )
]

classify_key-IsGrouped :
    (key : Bytes) (o : Option ℕ) (c : Classified)
    → try_get_archive_timestamp key ≡ o
    → IsGrouped c.groups
    → IsGrouped (classify_key key o c).groups
unfolding classify_key
classify_key-IsGrouped key none c e h = h
classify_key-IsGrouped key (some t) c e h =
    add_snapshot-IsGrouped (get_parent_prefix key) _ c.groups
      (rw (text_eq_refl (get_parent_prefix key), e) (ground arith)) h

-- The groups of any listing are grouped.
pub classify-IsGrouped :
    (keys : List Bytes) (c : Classified) → IsGrouped c.groups → IsGrouped (classify keys c).groups
unfolding classify
classify-IsGrouped [] c h = h
classify-IsGrouped (key ∷ keys) c h =
    classify-IsGrouped keys _ (classify_key-IsGrouped key _ c refl h)

module _ (sort : List Snapshot → List Snapshot) (law : IsSorting sort) (cutoff : Instant)
    (minimum : ℕ) where
  -- A Boolean property of all of a group holds of all that is deleted of it.
  pub expired_of-All :
      (q : Snapshot → Bool) (l : List Snapshot)
      → All (λ s. q s ≡ true) l
      → All (λ s. q s ≡ true) (expired_of sort cutoff minimum l)
  unfolding expired_of
  expired_of-All q l h =
      let sorted : All (λ s. q s ≡ true) (sort l) =
        All-of_count q (sort l)
          (omega (arith, law.same l q, count-All q l h, length-sort sort law l)) in
      All-select (λ s. q s ≡ true) (λ s. is_before s.timestamp cutoff)
        (drop (min minimum (length (sort l))) (sort l))
        (All-drop (λ s. q s ≡ true) (min minimum (length (sort l))) (sort l) sorted)

  other_group :
      (key q : Bytes) (l : List Snapshot)
      → text_eq q (get_parent_prefix key) ≡ false
      → All (λ s. belongs q s ≡ true) l
      → any (is_key key) (expired_of sort cutoff minimum l) ≡ false
  other_group key q l apart h = any-false (is_key key) _ (
      All-map {P = λ s. belongs q s ≡ true} {Q = λ s. is_key key s ≡ false} other _
        (expired_of-All (belongs q) l h))
    where
      other : (s : Snapshot) → belongs q s ≡ true → is_key key s ≡ false
      other s e = ground (
        arith,
        text_eq_iff key s.object_key,
        text_eq_iff (get_parent_prefix s.object_key) q,
        text_eq_iff q (get_parent_prefix key),
      )

  pub expired_of-nil : expired_of sort cutoff minimum [] ≡ []
  unfolding expired_of
  expired_of-nil = no_items (sort []) (length-sort sort law [])
    where
      no_items :
          (l : List Snapshot)
          → length l ≡ 0
          → select (λ item. is_before item.timestamp cutoff) (drop (min minimum (length l)) l) ≡ []
      no_items [] e = rw (zero_drop (min minimum 0))
        where
          zero_drop : (n : ℕ) → drop {A = Snapshot} n [] ≡ []
          zero_drop zero = refl
          zero_drop (suc n) = refl
      no_items (s ∷ l) e = absurd (omega (arith, e))

  Apart-groups :
      (key : Bytes) (gs : Groups)
      → IsGrouped gs
      → All (Apart (get_parent_prefix key)) gs
      → contains key (expired_keys sort cutoff minimum gs) ≡ false
  unfolding expired_keys
  Apart-groups key [] h k = refl
  Apart-groups key ((q, ss) ∷ gs) h k = rw (
    any-append (text_eq key) (map (λ s. s.object_key) (expired_of sort cutoff minimum ss))
        (expired_keys sort cutoff minimum gs),
    any-map (text_eq key) (λ s. s.object_key) (expired_of sort cutoff minimum ss),
    other_group key q ss k.0 h.1,
    Apart-groups key gs h.3 k.1,
  )

  -- A key is deleted exactly if the group of its parent deletes it.
  pub contains-expired_keys :
      (key : Bytes) (gs : Groups)
      → IsGrouped gs
      → contains key (expired_keys sort cutoff minimum gs)
        ≡ any
            (is_key key)
            (expired_of sort cutoff minimum (snapshots_of (get_parent_prefix key) gs))
  unfolding expired_keys snapshots_of
  contains-expired_keys key [] h = rw expired_of-nil
  contains-expired_keys key ((q, ss) ∷ gs) h =
      rw
        (
          any-append (text_eq key) (map (λ s. s.object_key) (expired_of sort cutoff minimum ss))
              (expired_keys sort cutoff minimum gs),
          any-map (text_eq key) (λ s. s.object_key) (expired_of sort cutoff minimum ss),
        )
        (elim (Bool-cases (text_eq q (get_parent_prefix key))) [
          | inl here ↦
              rw
                (
                  here,
                  Apart-groups key gs h.3
                      (subst (λ p. All (Apart p) gs) (text_eq_sound q _ here) h.2),
                )
                (or_false _)
          | inr apart ↦
              rw (apart, other_group key q ss apart h.1) (contains-expired_keys key gs h.3)
        ])
    where
      or_false : (b : Bool) → (b || false) ≡ b
      or_false true = refl
      or_false false = refl
