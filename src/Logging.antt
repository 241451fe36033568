-- ===== src/Logging.antt =====
-- internal/logging/logging.go: the names of the levels.
use git_backup.Base.{Bytes, Option, bytes, if◌then◌else◌, none, some, text_eq}
use git_backup.Text.Case.{to_lower}
use git_backup.Text.Trim.{trim_space}

pub data Level : Type 0 where
  debug_level : Level
  info_level : Level
  warn_level : Level
  error_level : Level

abbrev pub default_level_name : Bytes
default_level_name = bytes "info"

-- The level of a name in lower case.
abbrev pub level_named : Bytes → Option Level
level_named name =
    if text_eq name (bytes "debug")
    then some debug_level
    else if text_eq name (bytes "info")
    then some info_level
    else if text_eq name (bytes "warn")
    then some warn_level
    else if text_eq name (bytes "error")
    then some error_level
    else none

unfoldable pub parse_level : (Bytes → Bytes) → Bytes → Option Level
unfolding to_lower trim_space
parse_level wide name = level_named (to_lower wide (trim_space name))
