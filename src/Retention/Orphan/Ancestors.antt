-- ===== src/Retention/Orphan/Ancestors.antt =====
-- The loop over the slashes of a key probes the ancestors of the key, and nothing else.
use git_backup.Base.{
  Bool, Bool-cases, Bytes, Lacks, List, Option, [], any, ap, append-nil, append_assoc, arith,
  contains, false, if◌then◌else◌, inl, inr, length, none, refl, some, suc, ℕ, ◌++◌, ◌+◌, ◌==◌, ◌∷◌,
  ◌≡◌, ◌≢◌, zero, ◌<◌, ◌||◌, drop_behind, length-append, sym, take-append, true, ◌≤◌, ◌∙◌,
}
use git_backup.Paths.Archive.{get_parent_prefix}
use git_backup.Retention.Orphan.{probe, step_index, is_reclaimable_orphan}
use git_backup.Text.Index.{index, later}

-- The parts of `front ++ rest` in front of a slash of `rest`.
unfoldable pub ancestors : Bytes → Bytes → List Bytes
ancestors front [] = []
ancestors front (c ∷ rest) =
    let more = ancestors (front ++ c ∷ []) rest in if c == b'/' then front ∷ more else more

-- The key has an ancestor among the prefixes. A key that begins with a slash has none.
abbrev pub has_ancestor : List Bytes → Bytes → Bool
has_ancestor prefixes [] = false
has_ancestor prefixes (c ∷ s) =
    if c == b'/' then false else any (λ a. contains a prefixes) (ancestors (c ∷ []) s)

abbrev Split : Bytes → Option ℕ → Type 0
Split s none = Lacks b'/' s
Split s (some i) = (a : Bytes) × (b : Bytes) × (s ≡ a ++ b'/' ∷ b) × Lacks b'/' a × (length a ≡ i)

later-Split : (c : ℕ) (s : Bytes) (o : Option ℕ) → c ≢ b'/' → Split s o → Split (c ∷ s) (later o)
later-Split c s none ne h = (ne, h)
later-Split c s (some i) ne (a, b, e, l, n) = (c ∷ a, b, ap (◌∷◌ c) e, (ne, l), ap suc n)

-- Where the next slash is: nowhere, or behind a part with no slash.
index-Split : (s : Bytes) → Split s (index b'/' s)
unfolding index
index-Split [] = tt
index-Split (c ∷ s) = elim (Bool-cases (c == b'/')) [
  | inl slash ↦ rw slash ([], s, ap (λ d. d ∷ s) (ground arith), tt, refl)
  | inr other ↦ rw other (later-Split c s (index b'/' s) (ground arith) (index-Split s))
]

ancestors-Lacks : (front a : Bytes) → Lacks b'/' a → ancestors front a ≡ []
unfolding ancestors
ancestors-Lacks front [] h = refl
ancestors-Lacks front (c ∷ a) h = ground (arith, ancestors-Lacks (front ++ c ∷ []) a)

ancestors-append :
    (front a b : Bytes)
    → Lacks b'/' a
    → ancestors front (a ++ b'/' ∷ b) ≡ (front ++ a) ∷ ancestors ((front ++ a) ++ b'/' ∷ []) b
unfolding ancestors
ancestors-append front [] b h = rw append-nil
ancestors-append front (c ∷ a) b h =
    ground (arith, ancestors-append (front ++ c ∷ []) a b, append_assoc front (c ∷ []) a)

abbrev hits : List Bytes → List Bytes → Bool
hits prefixes = any (λ a. contains a prefixes)

abbrev offset : ℕ → Option ℕ → Option ℕ
offset n none = none
offset n (some i) = some (n + i)

-- What the rounds from the slash behind `c ∷ front` give.
abbrev Probes : ℕ → List Bytes → ℕ → Bytes → Bytes → Type 0
Probes fuel prefixes c front rest =
    probe fuel prefixes ((c ∷ front) ++ b'/' ∷ rest) (some (length (c ∷ front)))
    ≡ (contains (c ∷ front) prefixes || hits prefixes (ancestors ((c ∷ front) ++ b'/' ∷ []) rest))

probe-none : (fuel : ℕ) (prefixes : List Bytes) (key : Bytes) → probe fuel prefixes key none ≡ false
unfolding probe
probe-none zero prefixes key = refl
probe-none (suc fuel) prefixes key = refl

module _ (fuel : ℕ) (prefixes : List Bytes) (c : ℕ)
    (ih : (front rest : Bytes) → length rest < fuel → Probes fuel prefixes c front rest) where
  next_round :
      (front rest : Bytes) (o : Option ℕ)
      → length rest ≤ fuel
      → Split rest o
      → probe fuel prefixes (c ∷ (front ++ b'/' ∷ rest)) (step_index (suc (length front)) o)
        ≡ hits prefixes (ancestors (c ∷ (front ++ b'/' ∷ [])) rest)
  next_round front rest none h l =
      rw (ancestors-Lacks (c ∷ (front ++ b'/' ∷ [])) rest l) (probe-none fuel prefixes _)
  next_round front rest (some i) h (a, b, e, l, n) =
      let longer : Bytes = front ++ b'/' ∷ a in
      let place : i + suc (length front) + 1 ≡ suc (length longer) =
        omega (arith, length-append front (b'/' ∷ a), n) in
      let shorter : length b < fuel = omega (arith, ap length e, length-append a (b'/' ∷ b), h) in
      let again : front ++ b'/' ∷ (a ++ b'/' ∷ b) ≡ longer ++ b'/' ∷ b =
        sym (append_assoc front (b'/' ∷ a) (b'/' ∷ b)) in
      let joined : (front ++ b'/' ∷ []) ++ a ≡ longer = append_assoc front (b'/' ∷ []) a in
      rw (e, ancestors-append (c ∷ (front ++ b'/' ∷ [])) a b l, joined, again, place)
        (ih longer b shorter)

-- With fuel for the rest of the key the loop probes each ancestor from there on.
probe-ancestors :
    (fuel : ℕ) (prefixes : List Bytes) (c : ℕ) (front rest : Bytes)
    → length rest < fuel
    → Probes fuel prefixes c front rest
unfolding probe
probe-ancestors zero prefixes c front rest h = elim h [ ]
probe-ancestors (suc fuel) prefixes c front rest h =
    rw
      (
        take-append front (b'/' ∷ rest),
        drop_behind front b'/' rest,
        next_round fuel prefixes c (λ f r. probe-ancestors fuel prefixes c f r) front rest
            (index b'/' rest) (omega (arith, h)) (index-Split rest),
      )
      (if_or (contains (c ∷ front) prefixes)
        (hits prefixes (ancestors (c ∷ (front ++ b'/' ∷ [])) rest)))
  where
    if_or : (x y : Bool) → (if x then true else y) ≡ (x || y)
    if_or true y = refl
    if_or false y = refl

no_slash :
    (prefixes : List Bytes) (key : Bytes) → Lacks b'/' key → has_ancestor prefixes key ≡ false
no_slash prefixes [] h = refl
no_slash prefixes (c ∷ s) h = rw (ancestors-Lacks (c ∷ []) s h.1) (ground arith)

slash_behind :
    (prefixes : List Bytes) (c : ℕ) (a b : Bytes)
    → Lacks b'/' (c ∷ a)
    → has_ancestor prefixes ((c ∷ a) ++ b'/' ∷ b)
      ≡ (contains (c ∷ a) prefixes || hits prefixes (ancestors ((c ∷ a) ++ b'/' ∷ []) b))
slash_behind prefixes c a b h = rw (ancestors-append (c ∷ []) a b h.1) (ground (arith, h.0))

first_round :
    (prefixes : List Bytes) (key : Bytes) (o : Option ℕ)
    → Split key o
    → probe (suc (length key)) prefixes key o ≡ has_ancestor prefixes key
first_round prefixes key none l =
    probe-none (suc (length key)) prefixes key ∙ sym (no_slash prefixes key l)
first_round prefixes key (some i) ([], b, e, l, n) = rw (e, ← n) (unfold probe in ground arith)
first_round prefixes key (some i) (c ∷ a, b, e, l, n) =
    rw (e, ← n)
      (probe-ancestors (suc (length ((c ∷ a) ++ b'/' ∷ b))) prefixes c a b
          (omega (arith, length-append a (b'/' ∷ b)))
        ∙ sym (slash_behind prefixes c a b l))

-- A key is an orphan exactly if its parent is an emptied repository or one of its ancestors, at any depth, is among the collection prefixes, where a key that begins with a slash has no ancestor; the fuel of the loop suffices.
pub is_reclaimable_orphan-has_ancestor :
    (key : Bytes) (emptied prefixes : List Bytes)
    → is_reclaimable_orphan key emptied prefixes
      ≡ (contains (get_parent_prefix key) emptied || has_ancestor prefixes key)
unfolding is_reclaimable_orphan
is_reclaimable_orphan-has_ancestor key emptied prefixes =
    ap (λ b. contains (get_parent_prefix key) emptied || b)
      (first_round prefixes key (index b'/' key) (index-Split key))

ancestors-none : (front rest : Bytes) → hits [] (ancestors front rest) ≡ false
unfolding ancestors
ancestors-none front [] = refl
ancestors-none front (c ∷ rest) = ground (arith, ancestors-none (front ++ c ∷ []) rest)

-- Where no repository is emptied nothing is an orphan.
pub is_reclaimable_orphan-none : (key : Bytes) → is_reclaimable_orphan key [] [] ≡ false
is_reclaimable_orphan-none key = rw is_reclaimable_orphan-has_ancestor (none_at key)
  where
    none_at : (k : Bytes) → has_ancestor [] k ≡ false
    none_at [] = refl
    none_at (c ∷ s) = ground (arith, ancestors-none (c ∷ []) s)
