-- ===== src/Store/Multipart/Sorting.antt =====
-- internal/store/upload.go: the order of the parts does not depend on the order in which they are completed.
use git_backup.Base.{All, All-map, List, [], ap, arith, refl, suc, sym, ℕ, ◌<◌, ◌∙◌, ◌∷◌, ◌≡◌, ◌≢◌}
use git_backup.Store.Multipart.{Part, insert_part, sort_parts}

-- The same parts in another order.
pub data Reordering : List Part → List Part → Type 0 where
  none_left : Reordering [] []
  keep : (p : Part) {ps qs : List Part} → Reordering ps qs → Reordering (p ∷ ps) (p ∷ qs)
  swap : (p q : Part) (ps : List Part) → Reordering (p ∷ q ∷ ps) (q ∷ p ∷ ps)
  chain : {ps qs rs : List Part} → Reordering ps qs → Reordering qs rs → Reordering ps rs

abbrev Differs : Part → Part → Type 0
Differs p q = p.number ≢ q.number

-- No two parts have the same number.
abbrev pub Apart : List Part → Type 0
Apart [] = Unit
Apart (p ∷ ps) = All (Differs p) ps × Apart ps

Reordering-All : (P : Part → Type 0) {ps qs : List Part} → Reordering ps qs → All P ps → All P qs
Reordering-All P none_left h = tt
Reordering-All P (keep p r) (h, hs) = (h, Reordering-All P r hs)
Reordering-All P (swap p q ps) (hp, h) = (h.0, (hp, h.1))
Reordering-All P (chain r s) h = Reordering-All P s (Reordering-All P r h)

Reordering-Apart : {ps qs : List Part} → Reordering ps qs → Apart ps → Apart qs
Reordering-Apart none_left h = tt
Reordering-Apart (keep p r) (h, hs) = (Reordering-All (Differs p) r h, Reordering-Apart r hs)
Reordering-Apart (swap p q ps) (hp, h) = ((λ e. hp.0 (sym e), h.0), (hp.1, h.1))
Reordering-Apart (chain r s) h = Reordering-Apart s (Reordering-Apart r h)

insert_part-swap :
    (p q : Part) (ps : List Part)
    → p.number ≢ q.number
    → insert_part p (insert_part q ps) ≡ insert_part q (insert_part p ps)
insert_part-swap p q [] h = ground arith
insert_part-swap p q (r ∷ ps) h = ground (arith, insert_part-swap p q ps)

sort_parts-Reordering :
    {ps qs : List Part} → Reordering ps qs → Apart ps → sort_parts ps ≡ sort_parts qs
unfolding sort_parts
sort_parts-Reordering none_left h = refl
sort_parts-Reordering (keep p r) (h, hs) = ap (insert_part p) (sort_parts-Reordering r hs)
sort_parts-Reordering (swap p q ps) ((pq, hp), hs) = insert_part-swap p q (sort_parts ps) pq
sort_parts-Reordering (chain r s) h =
    sort_parts-Reordering r h ∙ sort_parts-Reordering s (Reordering-Apart r h)

abbrev pub Numbered : ℕ → List Part → Type 0
Numbered n [] = Unit
Numbered n (p ∷ ps) = (p.number ≡ n) × Numbered (suc n) ps

Numbered-above : (n m : ℕ) (ps : List Part) → m < n → Numbered n ps → All (λ p. m < p.number) ps
Numbered-above n m [] h k = tt
Numbered-above n m (p ∷ ps) h (e, k) =
    (omega (arith, e, h), Numbered-above (suc n) m ps (omega (arith, h)) k)

pub Numbered-Apart : (n : ℕ) (ps : List Part) → Numbered n ps → Apart ps
Numbered-Apart n [] h = tt
Numbered-Apart n (p ∷ ps) (e, h) = (
  All-map {P = λ q. n < q.number} {Q = Differs p} (λ q above. ground arith) ps
      (Numbered-above (suc n) n ps (omega arith) h),
  Numbered-Apart (suc n) ps h,
)

insert_part-below :
    (p : Part) (ps : List Part) → All (λ q. p.number < q.number) ps → insert_part p ps ≡ p ∷ ps
insert_part-below p [] h = refl
insert_part-below p (q ∷ ps) h = ground (arith, h.0)

sort_parts-Numbered : (n : ℕ) (ps : List Part) → Numbered n ps → sort_parts ps ≡ ps
unfolding sort_parts
sort_parts-Numbered n [] h = refl
sort_parts-Numbered n (p ∷ ps) (e, h) =
    rw (sort_parts-Numbered (suc n) ps h)
      (insert_part-below p ps (rw e (Numbered-above (suc n) n ps (omega arith) h)))

-- Parts numbered one after the other come out in that order, whatever order they were completed in.
pub sort_parts_restores :
    (n : ℕ) (ps qs : List Part) → Numbered n ps → Reordering ps qs → sort_parts qs ≡ ps
sort_parts_restores n ps qs h r =
    sym (sort_parts-Reordering r (Numbered-Apart n ps h)) ∙ sort_parts-Numbered n ps h
