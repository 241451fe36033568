-- ===== src/Config/Tests.antt =====
-- The theorem on live settings at a short history.
use git_backup.Base.{
  List, [], bytes, none, refl, some, text_eq, ℕ, ◌∷◌, ◌≡◌, Bytes, if◌then◌else◌, Option, true,
}
use git_backup.Base.Int.{pos}
use git_backup.Base.Result.{Result, err, ok}
use git_backup.Config.Live.{Follows, LiveSettings, Poll, after_polls, after_polls-Follows, changes}
use git_backup.Config.Load.{
  Document, load, path_required, resolve_secrets, validate_deprecated_keys, validate_raw_enums,
}
use git_backup.Config.Load.Sound.{IsSound, load-IsSound}
use git_backup.Config.Normalize.{
  RawSettings, normalize, normalize_credentials, normalize_repository,
}
use git_backup.Config.Secrets.{ComesFrom, env_placeholder, resolve_secret, resolve_secret-ComesFrom}
use git_backup.Config.Settings.{Credential}
use git_backup.Config.Validate.{validate}
use git_backup.Paths.Url.{Url, is_http_or_https}
use git_backup.Text.Case.{equal_fold, to_lower}
use git_backup.Text.Index.{has_suffix}
use git_backup.Text.Search.{has_prefix}
use git_backup.Text.Trim.{is_blank, trim_space}

abbrev started : LiveSettings ℕ
started = record { current = 1; last_hash = some (bytes "a"); reloads = [] }

-- Nothing changed, the file is gone, a broken edit, a good one.
abbrev four_polls : List (Poll ℕ)
four_polls =
    record { content_hash = some (bytes "a"); load_result = some 7 }
    ∷ record { content_hash = none; load_result = some 8 }
    ∷ record { content_hash = some (bytes "b"); load_result = none }
    ∷ record { content_hash = some (bytes "c"); load_result = some 2 }
    ∷ []

one_reload :
    after_polls four_polls started
    ≡ record { current = 2; last_hash = some (bytes "c"); reloads = 2 ∷ [] }
unfolding after_polls text_eq
one_reload = refl

after_polls-Follows_example :
    Follows 1 [] (changes (some (bytes "a")) four_polls) (after_polls four_polls started)
after_polls-Follows_example = after_polls-Follows four_polls started

abbrev no_files : Bytes → Result ℕ Bytes
no_files path = err 2

-- One variable is set.
abbrev environment : Bytes → Bytes
environment variable = if text_eq variable (bytes "TOKEN") then bytes "s3cret" else []

from_the_environment :
    resolve_secret no_files environment (bytes " ${TOKEN}") [] ≡ (bytes "s3cret", none)
unfolding resolve_secret is_blank trim_space env_placeholder has_prefix has_suffix text_eq
from_the_environment = refl

resolve_secret-ComesFrom_example :
    ComesFrom no_files environment
      (bytes "${OTHER}")
      []
      (resolve_secret no_files environment (bytes "${OTHER}") []).0
      (resolve_secret no_files environment (bytes "${OTHER}") []).1
resolve_secret-ComesFrom_example =
    resolve_secret-ComesFrom no_files environment (bytes "${OTHER}") []

abbrev unchanged : Bytes → Bytes
unchanged s = s

abbrev no_url : Bytes → Option Url
no_url s = none

abbrev any_spec : Bytes → Option ℕ
any_spec s = some 0

-- A file that sets nothing.
abbrev bare : RawSettings
bare = record {
  log_level = none;
  storage = none;
  credentials = [];
  repositories = none ∷ [];
  cron = none;
  concurrency = none;
  health = none;
}

abbrev bare_file : Bytes → Result ℕ Bytes
bare_file path = ok (bytes "{}")

abbrev no_keys : Bytes → Option Document
no_keys content = some []

abbrev one_host : Bytes → Option Url
one_host [] = none
one_host (c ∷ s) = some (record {
  scheme = bytes "https";
  host = bytes "forge";
  hostname = bytes "forge";
  escaped_path = bytes "/me/notes";
})

abbrev first_token : Credential
first_token = record { name = []; username = []; api_key = bytes "1"; api_key_file = [] }

abbrev second_token : Credential
second_token = record { name = []; username = []; api_key = bytes "2"; api_key_file = [] }

-- A file that sets all that is required, and names a credential in capitals.
abbrev full : RawSettings
full = record {
  log_level = none;
  storage = some (record {
    endpoint = bytes "https://s3";
    region = bytes "r";
    access_key_id = bytes "id";
    access_key_id_file = [];
    secret_access_key = bytes "${TOKEN}";
    secret_access_key_file = [];
    force_path_style = none;
    payload_signature_mode = [];
    bucket = bytes "b";
    retention = some (pos 30);
    retention_minimum = none;
  });
  credentials = (bytes "ACME", some first_token) ∷ [];
  repositories =
      some (record {
        mode = bytes "url";
        provider = [];
        urls = bytes "https://forge/me/notes" ∷ [];
        credential = bytes "acme";
        base_url = [];
        lfs = none;
        cache = none;
        enabled = none;
        include_starred = none;
        include_snippets = none;
        include_issues = none;
        include_issue_artifacts = none;
        include_merge_requests = none;
        include_merge_requests_artifacts = none;
        include_releases = none;
        include_release_artifacts = none;
      })
      ∷ [];
  cron = some (bytes "0 2 * * *");
  concurrency = none;
  health = none;
}

abbrev decoded_full : Bytes → Result ℕ RawSettings
decoded_full content = ok full

abbrev decoded_bare : Bytes → Result ℕ RawSettings
decoded_bare content = ok bare

blank_path_refused :
    load unchanged text_eq
      (λ path. true)
      bare_file
      environment
      no_keys
      decoded_bare
      no_url
      any_spec
      []
    ≡ err (path_required ∷ [])
unfolding load is_blank trim_space text_eq
blank_path_refused = refl

-- Two names that differ in case only are one entry, the later one.
one_entry_for_a_name :
    normalize_credentials unchanged []
      ((bytes "ACME", some first_token) ∷ (bytes "acme", some second_token) ∷ [])
    ≡ (bytes "acme", record second_token { name = bytes "acme" }) ∷ []
unfolding text_eq to_lower
one_entry_for_a_name = refl

load-IsSound_example :
    IsSound unchanged text_eq
      (λ path. true)
      bare_file
      environment
      no_keys
      decoded_full
      one_host
      any_spec
      (load unchanged text_eq
        (λ path. true)
        bare_file
        environment
        no_keys
        decoded_full
        one_host
        any_spec
        (bytes "backup.yaml"))
load-IsSound_example =
    load-IsSound unchanged text_eq (λ path. true) bare_file environment no_keys decoded_full
      one_host any_spec (bytes "backup.yaml")

-- That file is loaded without an error.
full_loaded :
    load unchanged text_eq
      (λ path. true)
      bare_file
      environment
      no_keys
      decoded_full
      one_host
      any_spec
      (bytes "backup.yaml")
    ≡ ok (resolve_secrets bare_file environment (normalize unchanged full)).0
unfolding load validate_deprecated_keys validate_raw_enums resolve_secrets resolve_secret normalize
    normalize_repository validate is_blank trim_space to_lower text_eq env_placeholder has_prefix
    has_suffix is_http_or_https equal_fold
full_loaded = refl
