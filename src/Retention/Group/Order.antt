-- ===== src/Retention/Group/Order.antt =====
-- What is documented of `sort.Slice` with "later first", and what it gives.
use git_backup.Base.{
  All, All-drop, Bool, Bool-cases, List, [], arith, count, count-true, drop, if◌then◌else◌, inl,
  inr, length, ltb, refl, suc, sym, take, true, zero, ℕ, ◌∙◌, ◌∷◌, ◌≡◌, ◌≤◌,
}
use git_backup.Retention.Group.{Snapshot}

abbrev pub Descending : List Snapshot → Type 0
Descending [] = Unit
Descending (s ∷ ss) = All (λ t. t.timestamp ≤ s.timestamp) ss × Descending ss

-- The result holds the same items, each as often, the later ones first.
pub record IsSorting (sort : List Snapshot → List Snapshot) : Type 0 where
  pub same : (l : List Snapshot) (p : Snapshot → Bool) → count p (sort l) ≡ count p l
  pub descending : (l : List Snapshot) → Descending (sort l)

-- Insertion into a descending list, and the sort by insertion.
abbrev pub insert : Snapshot → List Snapshot → List Snapshot
insert s [] = s ∷ []
insert s (t ∷ ts) =
    let rest = insert s ts in if ltb s.timestamp t.timestamp then t ∷ rest else s ∷ t ∷ ts

abbrev pub insertion_sort : List Snapshot → List Snapshot
insertion_sort [] = []
insertion_sort (s ∷ ss) = insert s (insertion_sort ss)

count-insert :
    (p : Snapshot → Bool) (s : Snapshot) (ts : List Snapshot)
    → count p (insert s ts) ≡ count p (s ∷ ts)
count-insert p s [] = refl
count-insert p s (t ∷ ts) = ground (arith, count-insert p s ts)

count-insertion_sort :
    (l : List Snapshot) (p : Snapshot → Bool) → count p (insertion_sort l) ≡ count p l
count-insertion_sort [] p = refl
count-insertion_sort (s ∷ ss) p =
    ground (arith, count-insert p s (insertion_sort ss), count-insertion_sort ss p)

insert-All :
    (P : Snapshot → Type 0) (s : Snapshot) (ts : List Snapshot)
    → P s
    → All P ts
    → All P (insert s ts)
insert-All P s [] h k = (h, tt)
insert-All P s (t ∷ ts) h k = ground (arith, h, k.0, k.1, insert-All P s ts h k.1)

All-le_trans :
    (a b : ℕ) (ts : List Snapshot)
    → a ≤ b
    → All (λ t. t.timestamp ≤ a) ts
    → All (λ t. t.timestamp ≤ b) ts
All-le_trans a b [] h k = tt
All-le_trans a b (t ∷ ts) h k = (omega (arith, k.0), All-le_trans a b ts h k.1)

insert-Descending : (s : Snapshot) (ts : List Snapshot) → Descending ts → Descending (insert s ts)
insert-Descending s [] h = (tt, tt)
insert-Descending s (t ∷ ts) h = elim (Bool-cases (ltb s.timestamp t.timestamp)) [
  | inl older ↦ rw older (
    insert-All (λ u. u.timestamp ≤ t.timestamp) s ts (ground arith) h.0,
    insert-Descending s ts h.1,
  )
  | inr newer ↦
      rw newer ((ground arith, All-le_trans t.timestamp s.timestamp ts (ground arith) h.0), h)
]

insertion_sort-Descending : (l : List Snapshot) → Descending (insertion_sort l)
insertion_sort-Descending [] = tt
insertion_sort-Descending (s ∷ ss) = insert-Descending s _ (insertion_sort-Descending ss)

pub insertion_sort-IsSorting : IsSorting insertion_sort
insertion_sort-IsSorting = record {
  same = count-insertion_sort;
  descending = insertion_sort-Descending;
}

module _ (sort : List Snapshot → List Snapshot) (law : IsSorting sort) where
  pub length-sort : (l : List Snapshot) → length (sort l) ≡ length l
  length-sort l = sym (count-true (sort l)) ∙ law.same l (λ s. true) ∙ count-true l

-- Across a cut of a descending list nothing behind is later than anything in front.
pub Descending-cut :
    (n : ℕ) (l : List Snapshot)
    → Descending l
    → All (λ s. All (λ t. t.timestamp ≤ s.timestamp) (drop n l)) (take n l)
Descending-cut zero l h = tt
Descending-cut (suc n) [] h = tt
Descending-cut (suc n) (s ∷ ss) h =
    (All-drop (λ t. t.timestamp ≤ s.timestamp) n ss h.0, Descending-cut n ss h.1)
