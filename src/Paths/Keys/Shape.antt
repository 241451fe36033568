-- ===== src/Paths/Keys/Shape.antt =====
-- The keys cut back into the segments they were built of.
use git_backup.Base.{
  All, All-map, Bytes, Lacks, List, [], ap, arith, bytes, false, sym, ◌∙◌, ◌∷◌, ◌≡◌, ◌≢◌,
}
use git_backup.Paths.Keys.{
  repositories_root, build_provider_repository_prefix, build_snippet_resource_prefix,
  build_url_repository_prefix, provider_segment, sanitize_identifier, snippets_root,
}
use git_backup.Paths.Parser.{PathInfo, hierarchy}
use git_backup.Paths.Parser.Shape.{IsPlace, IsSegment-Lacks, hierarchy-All, hierarchy-injective}
use git_backup.Paths.Segment.{unknown}
use git_backup.Paths.Segment.Fixed.{unknown-IsSegment}
use git_backup.Paths.Segment.Safety.{IsSegment, normalize_storage_segment-IsSegment}
use git_backup.Text.Split.{split, split-join}

segments-Lacks : (ss : List Bytes) → All IsSegment ss → All (Lacks b'/') ss
segments-Lacks ss = All-map {P = IsSegment} {Q = Lacks b'/'} IsSegment-Lacks ss

literal_lacks :
    (All (λ c. c ≢ b'/') repositories_root)
    × (All (λ c. c ≢ b'/') snippets_root)
    × (All (λ c. c ≢ b'/') (bytes "provider"))
    × (All (λ c. c ≢ b'/') (bytes "url"))
literal_lacks = omega arith

-- Of a place that satisfies the invariant of the parser, the prefix of a provider repository is cut at its slashes into the root, "provider", the provider and the hierarchy, if the folded provider holds no slash.
pub split-build_provider_repository_prefix :
    (wide : Bytes → Bytes) (provider : Bytes) (p : PathInfo)
    → IsPlace p
    → Lacks b'/' (provider_segment wide provider)
    → split b'/' (build_provider_repository_prefix wide provider p)
      ≡ repositories_root ∷ bytes "provider" ∷ provider_segment wide provider ∷ hierarchy p
unfolding build_provider_repository_prefix
split-build_provider_repository_prefix wide provider p h k =
    split-join b'/' repositories_root _
      (literal_lacks.0, (literal_lacks.2, (k, segments-Lacks (hierarchy p) (hierarchy-All p h))))

-- The same of the prefix of a repository given by its URL.
pub split-build_url_repository_prefix :
    (p : PathInfo)
    → IsPlace p
    → split b'/' (build_url_repository_prefix p)
      ≡ repositories_root ∷ bytes "url" ∷ p.full_domain ∷ hierarchy p
unfolding build_url_repository_prefix
split-build_url_repository_prefix p h = split-join b'/' repositories_root _ (
  literal_lacks.0,
  (
    literal_lacks.3,
    (IsSegment-Lacks p.full_domain h.domain, segments-Lacks (hierarchy p) (hierarchy-All p h)),
  ),
)

pub sanitize_identifier-IsSegment :
    (wide : Bytes → Bytes) (identifier : Bytes) → IsSegment (sanitize_identifier wide identifier)
unfolding sanitize_identifier
sanitize_identifier-IsSegment wide identifier =
    normalize_storage_segment-IsSegment wide identifier unknown false unknown-IsSegment

-- Whatever the identifier, the prefix of a standalone snippet has four segments, the last of them the sanitised identifier, if the provider holds no slash.
pub split-build_snippet_resource_prefix :
    (wide : Bytes → Bytes) (provider identifier : Bytes)
    → Lacks b'/' (provider_segment wide provider)
    → split b'/' (build_snippet_resource_prefix wide provider identifier)
      ≡ snippets_root
        ∷ bytes "provider"
        ∷ provider_segment wide provider
        ∷ sanitize_identifier wide identifier
        ∷ []
unfolding build_snippet_resource_prefix
split-build_snippet_resource_prefix wide provider identifier k = split-join b'/' snippets_root _ (
  literal_lacks.1,
  (literal_lacks.2, (k, (IsSegment-Lacks _ (sanitize_identifier-IsSegment wide identifier), tt))),
)

-- Two places that satisfy the invariant of the parser and have one URL prefix are the same place.
pub build_url_repository_prefix-injective :
    (p q : PathInfo)
    → IsPlace p
    → IsPlace q
    → build_url_repository_prefix p ≡ build_url_repository_prefix q
    → p ≡ q
build_url_repository_prefix-injective p q hp hq e =
    let cut : (repositories_root ∷ bytes "url" ∷ p.full_domain ∷ hierarchy p)
        ≡ (repositories_root ∷ bytes "url" ∷ q.full_domain ∷ hierarchy q) =
      sym (split-build_url_repository_prefix p hp)
      ∙ ap (split b'/') e
      ∙ split-build_url_repository_prefix q hq in
    let domain : p.full_domain ≡ q.full_domain = cc in
    let parts = hierarchy-injective p q hp hq (cc) in
    λ i. record {
      full_domain = domain i;
      owner = parts.0 i;
      group = parts.1 i;
      secondary_group = parts.2 i;
      repository_name = parts.3 i;
    }
