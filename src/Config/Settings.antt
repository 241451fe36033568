-- ===== src/Config/Settings.antt =====
-- internal/config/config.go: the normalised settings.
use git_backup.Base.{Bytes, Bool, List, Option, [], bytes, if◌then◌else◌, none, some, text_eq, ◌∷◌}
use git_backup.Base.Int.{ℤ}

abbrev pub signature_full : Bytes
signature_full = bytes "full"

abbrev pub signature_streaming : Bytes
signature_streaming = bytes "streaming"

abbrev pub signature_unsigned : Bytes
signature_unsigned = bytes "unsigned"

abbrev pub mode_provider : Bytes
mode_provider = bytes "provider"

abbrev pub mode_url : Bytes
mode_url = bytes "url"

abbrev pub provider_github : Bytes
provider_github = bytes "github"

abbrev pub provider_gitlab : Bytes
provider_gitlab = bytes "gitlab"

abbrev pub provider_forgejo : Bytes
provider_forgejo = bytes "forgejo"

abbrev pub default_git_username : Bytes
default_git_username = bytes "git"

pub record StorageSettings : Type 0 where
  pub endpoint : Bytes
  pub region : Bytes
  pub access_key_id : Bytes
  pub access_key_id_file : Bytes
  pub secret_access_key : Bytes
  pub secret_access_key_file : Bytes
  pub force_path_style : Bool
  pub payload_signature_mode : Bytes
  pub bucket : Bytes
  pub retention : ℤ
  pub retention_minimum : ℤ

pub record Credential : Type 0 where
  pub name : Bytes
  pub username : Bytes
  pub api_key : Bytes
  pub api_key_file : Bytes

pub record Repository : Type 0 where
  pub mode : Bytes
  pub provider : Bytes
  pub urls : List Bytes
  pub credential : Bytes
  pub base_url : Bytes
  pub lfs : Bool
  pub cache : Bool
  pub enabled : Bool
  pub include_starred : Bool
  pub include_snippets : Bool
  pub include_issues : Bool
  pub include_issue_artifacts : Bool
  pub include_merge_requests : Bool
  pub include_merge_requests_artifacts : Bool
  pub include_releases : Bool
  pub include_release_artifacts : Bool

-- The map of credentials, with one entry for a name in lower case. A missing entry of the list of repositories is `none`.
pub record Settings : Type 0 where
  pub log_level : Bytes
  pub storage : StorageSettings
  pub credentials : List (Bytes × Credential)
  pub repositories : List (Option Repository)
  pub cron : Bytes
  pub concurrency_repositories : ℤ
  pub concurrency_metadata : ℤ
  pub health_port : ℤ
  pub health_bind : Bytes

-- A lookup in the map.
abbrev pub find_credential : Bytes → List (Bytes × Credential) → Option Credential
find_credential key [] = none
find_credential key ((name, credential) ∷ rest) =
    let later_one = find_credential key rest in
    if text_eq key name then some credential else later_one
