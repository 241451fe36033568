-- ===== src/Paths/Url.antt =====
-- internal/paths/urls.go: the URL tests and the path segments. `url.Parse` is a parameter, and a `Url`
-- holds what the program reads of its result.
use git_backup.Base.{
  Bytes, Bool, List, Option, [], bytes, if◌then◌else◌, leb, none, not, some, text_eq, ℕ, ◌&&◌, ◌*◌,
  ◌+◌, ◌-◌, ◌==◌, ◌||◌, ◌∷◌,
}
use git_backup.Text.Case.{equal_fold}
use git_backup.Text.Split.{split}
use git_backup.Text.Trim.{trim_space}

pub record Url : Type 0 where
  pub scheme : Bytes
  pub host : Bytes
  pub hostname : Bytes
  pub escaped_path : Bytes

-- A URL that the parser returns has an ASCII scheme.
unfoldable pub is_http_or_https : Url → Bool
is_http_or_https u = equal_fold u.scheme (bytes "http") || equal_fold u.scheme (bytes "https")

-- `url.IsAbs`
abbrev pub is_abs : Url → Bool
is_abs u = not (text_eq u.scheme [])

abbrev accept_http : Option Url → Option Url
accept_http none = none
accept_http (some u) =
    if not (is_abs u) || not (is_http_or_https u) || text_eq u.host [] then none else some u

unfoldable pub parse_http_url : (Bytes → Option Url) → Bytes → Option Url
parse_http_url parse value = accept_http (parse (trim_space value))

abbrev pub is_hex : ℕ → Bool
is_hex c = (leb b'0' c && leb c b'9') || (leb b'a' c && leb c b'f') || (leb b'A' c && leb c b'F')

abbrev pub hex_value : ℕ → ℕ
hex_value c =
    if leb b'0' c && leb c b'9'
    then c - b'0'
    else if leb b'a' c && leb c b'f'
    then c - b'a' + 10
    else c - b'A' + 10

abbrev push : ℕ → Option Bytes → Option Bytes
push c none = none
push c (some s) = some (c ∷ s)

-- `url.PathUnescape`
unfoldable pub path_unescape : Bytes → Option Bytes
path_unescape [] = some []
path_unescape (c ∷ []) = if c == b'%' then none else some (c ∷ [])
path_unescape (c ∷ d ∷ []) =
    let plain = push c (path_unescape (d ∷ [])) in if c == b'%' then none else plain
path_unescape (c ∷ d ∷ e ∷ s) =
    let plain = push c (path_unescape (d ∷ e ∷ s)) in
    let coded = push (16 * hex_value d + hex_value e) (path_unescape s) in
    if c == b'%' then (if is_hex d && is_hex e then coded else none) else plain

abbrev unescaped_or : Bytes → Option Bytes → Bytes
unescaped_or segment none = segment
unescaped_or segment (some s) = s

-- The loop over the parts of the path.
unescape_segments : List Bytes → List Bytes
unfolding path_unescape
unescape_segments [] = []
unescape_segments (part ∷ parts) =
    let segment = trim_space part in
    let rest = unescape_segments parts in
    if text_eq segment [] then rest else unescaped_or segment (path_unescape segment) ∷ rest

unfoldable pub split_unescaped_segments : Url → List Bytes
unfolding unescape_segments
split_unescaped_segments u =
    if text_eq u.escaped_path [] then [] else unescape_segments (split b'/' u.escaped_path)
