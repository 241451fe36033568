-- ===== src/Paths/Parser.antt =====
-- internal/paths/parser.go: the place of a repository in its forge's URL hierarchy.
pub mod Shape
use git_backup.Base.{Bytes, List, Option, [], if◌then◌else◌, none, not, some, ◌∷◌}
use git_backup.Base.Result.{Result, err, ok}
use git_backup.Paths.Segment.{normalize_segment, trim_git_suffix}
use git_backup.Paths.Url.{Url, is_abs, is_http_or_https, split_unescaped_segments}
use git_backup.Text.Split.{join}
use git_backup.Text.Trim.{trim_space}

pub record PathInfo : Type 0 where
  pub full_domain : Bytes
  pub owner : Bytes
  pub group : Bytes
  pub secondary_group : Bytes
  pub repository_name : Bytes

abbrev pub optional : Bytes → List Bytes → List Bytes
optional [] rest = rest
optional (c ∷ s) rest = (c ∷ s) ∷ rest

unfoldable pub hierarchy : PathInfo → List Bytes
hierarchy p = p.owner ∷ optional p.group (optional p.secondary_group (p.repository_name ∷ []))

pub data ParseError : Type 0 where
  invalid_url unsupported_scheme missing_segments : ParseError

-- The middle segments and the last one.
abbrev pub init : Bytes → List Bytes → List Bytes
init s [] = []
init s (t ∷ rest) = s ∷ init t rest

abbrev pub last : Bytes → List Bytes → Bytes
last s [] = s
last s (t ∷ rest) = last t rest

module _ (wide : Bytes → Bytes) where
  abbrev pub group_of : List Bytes → Bytes
  group_of [] = []
  group_of (g ∷ rest) = normalize_segment wide g

  abbrev pub secondary_of : List Bytes → Bytes
  secondary_of (g ∷ h ∷ rest) = normalize_segment wide (join b'-' (h ∷ rest))
  secondary_of _ = []

  abbrev pub info_of : Url → Bytes → Bytes → List Bytes → PathInfo
  info_of u owner second rest = record {
    full_domain = normalize_segment wide u.hostname;
    owner = normalize_segment wide owner;
    group = group_of (init second rest);
    secondary_group = secondary_of (init second rest);
    repository_name = normalize_segment wide (trim_git_suffix (last second rest));
  }

  abbrev pub info_from : Url → List Bytes → Result ParseError PathInfo
  info_from u (owner ∷ second ∷ rest) = ok (info_of u owner second rest)
  info_from u _ = err missing_segments

  abbrev pub parse_parsed : Option Url → Result ParseError PathInfo
  parse_parsed none = err invalid_url
  parse_parsed (some u) =
      if not (is_abs u)
      then err invalid_url
      else if not (is_http_or_https u)
      then err unsupported_scheme
      else info_from u (split_unescaped_segments u)

  unfoldable pub parse_repository_path : (Bytes → Option Url) → Bytes → Result ParseError PathInfo
  parse_repository_path parse repository_url = parse_parsed (parse (trim_space repository_url))
