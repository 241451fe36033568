-- ===== src/Paths/Parser/Shape.antt =====
-- What the parser returns: normalised segments, in a hierarchy that can be read back.
use mathlib.Core.List.{cons-ne-nil}
use git_backup.Base.{
  Bytes, List, Option, [], arith, inl, inr, none, refl, some, subst, ◌∷◌, ◌≡◌, ◌⊎◌, All, All-map,
  Lacks, ℕ, ◌≢◌,
}
use git_backup.Base.Result.{ok}
use git_backup.Paths.Parser.{
  PathInfo, group_of, hierarchy, info_from, info_of, init, parse_parsed, parse_repository_path,
  secondary_of, optional,
}
use git_backup.Paths.Segment.Fixed.{normalize_segment-IsSegment}
use git_backup.Paths.Segment.Safety.{IsSegment, IsSafe}
use git_backup.Paths.Url.{Url, split_unescaped_segments}
use git_backup.Text.Trim.{trim_space}

-- Absent, or one segment.
abbrev pub IsOptional : Bytes → Type 0
IsOptional s = (s ≡ []) ⊎ IsSegment s

-- A place in the hierarchy: normalised segments, and a secondary group only below a group.
pub record IsPlace (p : PathInfo) : Type 0 where
  pub domain : IsSegment p.full_domain
  pub owner : IsSegment p.owner
  pub group : IsOptional p.group
  pub secondary : IsOptional p.secondary_group
  pub name : IsSegment p.repository_name
  pub nested : p.group ≡ [] → p.secondary_group ≡ []

module _ (wide : Bytes → Bytes) where
  group_of-IsOptional : (gs : List Bytes) → IsOptional (group_of wide gs)
  group_of-IsOptional [] = inl refl
  group_of-IsOptional (g ∷ rest) = inr (normalize_segment-IsSegment wide g)

  secondary_of-IsOptional : (gs : List Bytes) → IsOptional (secondary_of wide gs)
  secondary_of-IsOptional [] = inl refl
  secondary_of-IsOptional (g ∷ []) = inl refl
  secondary_of-IsOptional (g ∷ h ∷ rest) = inr (normalize_segment-IsSegment wide _)

  groups_nested : (gs : List Bytes) → group_of wide gs ≡ [] → secondary_of wide gs ≡ []
  groups_nested [] h = refl
  groups_nested (g ∷ rest) h = absurd ((normalize_segment-IsSegment wide g).some_byte h)

  info_of-IsPlace :
      (u : Url) (owner second : Bytes) (rest : List Bytes)
      → IsPlace (info_of wide u owner second rest)
  info_of-IsPlace u owner second rest = record {
    domain = normalize_segment-IsSegment wide u.hostname;
    owner = normalize_segment-IsSegment wide owner;
    group = group_of-IsOptional (init second rest);
    secondary = secondary_of-IsOptional (init second rest);
    name = normalize_segment-IsSegment wide _;
    nested = groups_nested (init second rest);
  }

  info_from-IsPlace :
      (u : Url) (segments : List Bytes) (p : PathInfo)
      → info_from wide u segments ≡ ok p
      → IsPlace p
  info_from-IsPlace u [] p h = cc
  info_from-IsPlace u (s ∷ []) p h = cc
  info_from-IsPlace u (s ∷ t ∷ rest) p h = subst IsPlace (cc) (info_of-IsPlace u s t rest)

  parse_parsed-IsPlace : (o : Option Url) (p : PathInfo) → parse_parsed wide o ≡ ok p → IsPlace p
  parse_parsed-IsPlace none p h = cc
  parse_parsed-IsPlace (some u) p h =
      ground (arith, info_from-IsPlace u (split_unescaped_segments u) p)

  -- Whatever URL is accepted, every part of the place is one safe segment, and only the groups may be absent, the second one whenever the first one is.
  pub parse_repository_path-IsPlace :
      (parse : Bytes → Option Url) (url : Bytes) (p : PathInfo)
      → parse_repository_path wide parse url ≡ ok p
      → IsPlace p
  unfolding parse_repository_path
  parse_repository_path-IsPlace parse url p h = parse_parsed-IsPlace (parse (trim_space url)) p h

optional-injective :
    (g s n g' s' n' : Bytes)
    → (g ≡ [] → s ≡ [])
    → (g' ≡ [] → s' ≡ [])
    → optional g (optional s (n ∷ [])) ≡ optional g' (optional s' (n' ∷ []))
    → (g ≡ g') × (s ≡ s') × (n ≡ n')
optional-injective [] [] n [] [] n' h h' e = ground arith
optional-injective [] [] n [] (c ∷ s') n' h h' e = absurd (cons-ne-nil c s' (h' refl))
optional-injective [] (c ∷ s) n g' s' n' h h' e = absurd (cons-ne-nil c s (h refl))
optional-injective [] [] n (d ∷ g') [] n' h h' e = cc
optional-injective [] [] n (d ∷ g') (c ∷ s') n' h h' e = cc
optional-injective (d ∷ g) s n [] (c ∷ s') n' h h' e = absurd (cons-ne-nil c s' (h' refl))
optional-injective (d ∷ g) [] n [] [] n' h h' e = cc
optional-injective (d ∷ g) (c ∷ s) n [] [] n' h h' e = cc
optional-injective (d ∷ g) [] n (d' ∷ g') [] n' h h' e = (cc, refl, cc)
optional-injective (d ∷ g) [] n (d' ∷ g') (c' ∷ s') n' h h' e = cc
optional-injective (d ∷ g) (c ∷ s) n (d' ∷ g') [] n' h h' e = cc
optional-injective (d ∷ g) (c ∷ s) n (d' ∷ g') (c' ∷ s') n' h h' e = (cc, cc, cc)

-- The hierarchy determines the four parts it is made of.
pub hierarchy-injective :
    (p q : PathInfo)
    → IsPlace p
    → IsPlace q
    → hierarchy p ≡ hierarchy q
    → (p.owner ≡ q.owner)
      × (p.group ≡ q.group)
      × (p.secondary_group ≡ q.secondary_group)
      × (p.repository_name ≡ q.repository_name)
unfolding hierarchy
hierarchy-injective p q hp hq e =
    let below =
      optional-injective p.group p.secondary_group p.repository_name q.group q.secondary_group
        q.repository_name hp.nested hq.nested (cc) in
    (cc, below.0, below.1, below.2)

slash_free : (s : Bytes) → All IsSafe s → Lacks b'/' s
slash_free s h = All-map {P = IsSafe} {Q = λ c. c ≢ b'/'} other s h
  where
    other : (c : ℕ) → IsSafe c → c ≢ b'/'
    other c e = ground arith

-- A segment holds no slash.
pub IsSegment-Lacks : (s : Bytes) → IsSegment s → Lacks b'/' s
IsSegment-Lacks s h = slash_free s h.safe

optional-All :
    (s : Bytes) (rest : List Bytes)
    → IsOptional s
    → All IsSegment rest
    → All IsSegment (optional s rest)
optional-All [] rest h k = k
optional-All (c ∷ s) rest (inl e) k = absurd (cons-ne-nil c s e)
optional-All (c ∷ s) rest (inr h) k = (h, k)

-- Each member of the hierarchy is one segment.
pub hierarchy-All : (p : PathInfo) → IsPlace p → All IsSegment (hierarchy p)
unfolding hierarchy
hierarchy-All p h = (
  h.owner,
  optional-All p.group _ h.group (optional-All p.secondary_group _ h.secondary (h.name, tt)),
)
