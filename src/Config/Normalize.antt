-- ===== src/Config/Normalize.antt =====
-- internal/config/loader.go: the raw document, and the defaults that are filled in.
use git_backup.Base.{
  Bytes, Bool, List, Option, [], bytes, false, if◌then◌else◌, none, some, text_eq, true, ◌∷◌,
}
use git_backup.Base.Int.{pos, ℤ}
use git_backup.Config.Settings.{
  Credential, Repository, Settings, StorageSettings, signature_full, signature_streaming,
  signature_unsigned,
}
use git_backup.Logging.{Level, default_level_name, parse_level}
use git_backup.Text.Case.{to_lower}
use git_backup.Text.Trim.{trim_space}

pub record RawStorage : Type 0 where
  pub endpoint : Bytes
  pub region : Bytes
  pub access_key_id : Bytes
  pub access_key_id_file : Bytes
  pub secret_access_key : Bytes
  pub secret_access_key_file : Bytes
  pub force_path_style : Option Bool
  pub payload_signature_mode : Bytes
  pub bucket : Bytes
  pub retention : Option ℤ
  pub retention_minimum : Option ℤ

pub record RawRepository : Type 0 where
  pub mode : Bytes
  pub provider : Bytes
  pub urls : List Bytes
  pub credential : Bytes
  pub base_url : Bytes
  pub lfs : Option Bool
  pub cache : Option Bool
  pub enabled : Option Bool
  pub include_starred : Option Bool
  pub include_snippets : Option Bool
  pub include_issues : Option Bool
  pub include_issue_artifacts : Option Bool
  pub include_merge_requests : Option Bool
  pub include_merge_requests_artifacts : Option Bool
  pub include_releases : Option Bool
  pub include_release_artifacts : Option Bool

-- The credentials stand in the order in which the map is walked.
pub record RawSettings : Type 0 where
  pub log_level : Option Bytes
  pub storage : Option RawStorage
  pub credentials : List (Bytes × Option Credential)
  pub repositories : List (Option RawRepository)
  pub cron : Option Bytes
  pub concurrency : Option (Option ℤ × Option ℤ)
  pub health : Option (Option ℤ × Option Bytes)

abbrev pub dereference_or {ℓ} : {A : Type ℓ} → Option A → A → A
dereference_or none fallback = fallback
dereference_or (some value) fallback = value

module _ (wide : Bytes → Bytes) where
  abbrev pub keep_level : Bytes → Option Level → Bytes
  keep_level configured none = default_level_name
  keep_level configured (some level) = to_lower wide (trim_space configured)

  abbrev pub normalize_log_level : Option Bytes → Bytes
  normalize_log_level none = default_level_name
  normalize_log_level (some configured) = keep_level configured (parse_level wide configured)

  abbrev pub normalize_signature_mode : Bytes → Bytes
  normalize_signature_mode value =
      let mode = to_lower wide (trim_space value) in
      if text_eq mode signature_streaming
      then signature_streaming
      else if text_eq mode signature_unsigned
      then signature_unsigned
      else signature_full

  abbrev pub no_storage_settings : StorageSettings
  no_storage_settings = record {
    endpoint = [];
    region = [];
    access_key_id = [];
    access_key_id_file = [];
    secret_access_key = [];
    secret_access_key_file = [];
    force_path_style = false;
    payload_signature_mode = [];
    bucket = [];
    retention = pos 0;
    retention_minimum = pos 0;
  }

  abbrev pub normalize_storage : Option RawStorage → StorageSettings
  normalize_storage none = no_storage_settings
  normalize_storage (some raw) = record {
    endpoint = raw.endpoint;
    region = raw.region;
    access_key_id = raw.access_key_id;
    access_key_id_file = raw.access_key_id_file;
    secret_access_key = raw.secret_access_key;
    secret_access_key_file = raw.secret_access_key_file;
    force_path_style = dereference_or raw.force_path_style false;
    payload_signature_mode = normalize_signature_mode raw.payload_signature_mode;
    bucket = raw.bucket;
    retention = dereference_or raw.retention (pos 0);
    retention_minimum = dereference_or raw.retention_minimum (pos 1);
  }

  abbrev pub usable_urls : List Bytes → List Bytes
  usable_urls [] = []
  usable_urls (url ∷ urls) =
      let rest = usable_urls urls in
      let trimmed = trim_space url in if text_eq trimmed [] then rest else trimmed ∷ rest

  unfoldable pub normalize_repository : RawRepository → Repository
  normalize_repository raw = record {
    mode = to_lower wide (trim_space raw.mode);
    provider = to_lower wide (trim_space raw.provider);
    urls = usable_urls raw.urls;
    credential = raw.credential;
    base_url = raw.base_url;
    lfs = dereference_or raw.lfs true;
    cache = dereference_or raw.cache true;
    enabled = dereference_or raw.enabled true;
    include_starred = dereference_or raw.include_starred false;
    include_snippets = dereference_or raw.include_snippets false;
    include_issues = dereference_or raw.include_issues false;
    include_issue_artifacts = dereference_or raw.include_issue_artifacts false;
    include_merge_requests = dereference_or raw.include_merge_requests false;
    include_merge_requests_artifacts = dereference_or raw.include_merge_requests_artifacts false;
    include_releases = dereference_or raw.include_releases false;
    include_release_artifacts = dereference_or raw.include_release_artifacts false;
  }

  abbrev pub normalize_entries : List (Option RawRepository) → List (Option Repository)
  normalize_entries [] = []
  normalize_entries (none ∷ entries) = none ∷ normalize_entries entries
  normalize_entries (some raw ∷ entries) =
      some (normalize_repository raw) ∷ normalize_entries entries

  abbrev pub named_credential : Bytes → Option Credential → Credential
  named_credential key none = record { name = key; username = []; api_key = []; api_key_file = [] }
  named_credential key (some credential) = record credential { name = key }

  -- An assignment to the map, which holds one entry for a key.
  abbrev pub remove_key : Bytes → List (Bytes × Credential) → List (Bytes × Credential)
  remove_key key [] = []
  remove_key key ((name, credential) ∷ rest) =
      let others = remove_key key rest in
      if text_eq name key then others else (name, credential) ∷ others

  abbrev pub put_key : Bytes → Credential → List (Bytes × Credential) → List (Bytes × Credential)
  put_key key credential map = (key, credential) ∷ remove_key key map

  -- A later entry takes the place of an earlier one with the same key.
  abbrev pub normalize_credentials :
      List (Bytes × Credential) → List (Bytes × Option Credential) → List (Bytes × Credential)
  normalize_credentials put [] = put
  normalize_credentials put ((key, credential) ∷ rest) =
      normalize_credentials (put_key (to_lower wide key) (named_credential key credential) put) rest

  abbrev pub concurrency_of : Option (Option ℤ × Option ℤ) → ℤ × ℤ
  concurrency_of none = (pos 1, pos 1)
  concurrency_of (some (repositories, metadata)) =
      (dereference_or repositories (pos 1), dereference_or metadata (pos 1))

  abbrev pub health_of : Option (Option ℤ × Option Bytes) → ℤ × Bytes
  health_of none = (pos 8080, bytes "localhost")
  health_of (some (port, bind)) =
      (dereference_or port (pos 8080), dereference_or bind (bytes "localhost"))

  unfoldable pub normalize : RawSettings → Settings
  unfolding normalize_repository
  normalize raw = record {
    log_level = normalize_log_level raw.log_level;
    storage = normalize_storage raw.storage;
    credentials = normalize_credentials [] raw.credentials;
    repositories = normalize_entries raw.repositories;
    cron = dereference_or raw.cron [];
    concurrency_repositories = (concurrency_of raw.concurrency).0;
    concurrency_metadata = (concurrency_of raw.concurrency).1;
    health_port = (health_of raw.health).0;
    health_bind = (health_of raw.health).1;
  }
