-- ===== src/Sync/Tests.antt =====
-- The theorems on the backup pass at small inputs.
use git_backup.Base.{
  Bytes, All, List, Option, [], arith, bytes, false, none, refl, select, some, true, ℕ, ◌++◌, ◌+◌,
  ◌<◌, ◌∷◌, ◌≡◌, ◌≢◌, ◌≤◌, ◌⊎◌, text_eq,
}
use git_backup.Base.Int.{pos}
use git_backup.Base.Result.{ok}
use git_backup.Config.Settings.{Repository, Settings, mode_url, signature_full}
use git_backup.Config.Validate.{validate}
use git_backup.Config.Validate.Whole.{ValidSettings, validate_iff}
use git_backup.Paths.Parser.{hierarchy}
use git_backup.Paths.Segment.{normalize_segment, trim_git_suffix}
use git_backup.Paths.Url.{Url, is_http_or_https, split_unescaped_segments}
use git_backup.Sync.Jobs.{DirEntry, Ending, is_enabled, mirrors_cleaned, run_repository_sync}
use git_backup.Sync.Jobs.Cleanup.{Spared, run-Spared}
use git_backup.Sync.Parallel.{
  Pool, Step, Steps, acquire, finish_item, head_done, head_next, returned, spawn, start, stay,
  waiting, then,
}
use git_backup.Sync.Parallel.Counting.{Steps-bounded}
use git_backup.Sync.Parallel.Ending.{CanStep, Steps-end, work_left}
use git_backup.Sync.Parallel.Hanging.{cancellation_hangs}
use git_backup.Sync.Plan.{plan_job}
use git_backup.Sync.Plan.Valid.{IsRunnable, KeepsEmpty, plan_job-validate}
use git_backup.Sync.Run.{Outside, Progress}
use git_backup.Text.Case.{equal_fold}
use git_backup.Text.Split.{join, split}
use git_backup.Text.Trim.{trim}

-- Two items, two slots: the loop has started both, and the first one has failed.
abbrev both_started : Pool ℕ ℕ
both_started = record {
  phase = waiting;
  pending = [];
  started = 1 ∷ 2 ∷ [];
  slots = 2;
  running = 1;
  releasing = 1;
  first_err = some 7;
  cancelled = false;
}

two_start : Steps 2 9 (start (1 ∷ 2 ∷ [])) both_started
two_start = then (head_next refl (cc) refl refl) (
    then (acquire refl (omega arith)) (
      then (spawn 1 (2 ∷ []) refl refl) (
        then (head_next refl (cc) refl refl) (
          then (acquire refl (omega arith)) (
            then (spawn 2 [] refl refl)
              (then (head_done refl refl) (then (finish_item 1 (some 7) refl) stay)))))))

Steps-bounded_example :
    (both_started.started ++ both_started.pending ≡ 1 ∷ 2 ∷ [])
    × (both_started.running + both_started.releasing ≤ 3)
    × (both_started.cancelled ≡ false → both_started.running + both_started.releasing ≤ 2)
Steps-bounded_example = Steps-bounded 2 9 (1 ∷ 2 ∷ []) two_start

cancellation_hangs_example :
    (s : Pool ℕ ℕ) × Steps 2 9 (start (1 ∷ 2 ∷ [])) s
    × (s.running ≡ 0)
    × ((t : Pool ℕ ℕ) → Steps 2 9 s t → t.phase ≢ returned)
cancellation_hangs_example = cancellation_hangs 2 9 1 2 [] (omega arith)

Steps-end_example :
    ((t : Pool ℕ ℕ)
      → Step 2 9 both_started t
      → t.cancelled ≡ false
      → work_left t < work_left both_started)
    × ((both_started.phase ≡ returned) ⊎ CanStep 2 9 both_started)
    × (both_started.phase ≡ returned
        → both_started.first_err ≡ none
        → both_started.started ≡ 1 ∷ 2 ∷ [])
Steps-end_example = Steps-end 2 9 (1 ∷ 2 ∷ []) (omega arith) two_start refl

abbrev unchanged : Bytes → Bytes
unchanged s = s

-- Any text that is not empty counts as one URL.
abbrev one_host : Bytes → Option Url
one_host [] = none
one_host (c ∷ s) = some (record {
  scheme = bytes "https";
  host = bytes "forge";
  hostname = bytes "forge";
  escaped_path = bytes "/me/notes";
})

abbrev url_job : Repository
url_job = record {
  mode = mode_url;
  provider = [];
  urls = bytes "https://forge/me/notes" ∷ bytes "HTTPS://forge/me/notes" ∷ [];
  credential = [];
  base_url = [];
  lfs = false;
  cache = true;
  enabled = true;
  include_starred = false;
  include_snippets = false;
  include_issues = false;
  include_issue_artifacts = false;
  include_merge_requests = false;
  include_merge_requests_artifacts = false;
  include_releases = false;
  include_release_artifacts = false;
}

abbrev settings : Settings
settings = record {
  log_level = bytes "information";
  storage = record {
    endpoint = bytes "https://s3";
    region = bytes "r";
    access_key_id = bytes "id";
    access_key_id_file = [];
    secret_access_key = bytes "key";
    secret_access_key_file = [];
    force_path_style = true;
    payload_signature_mode = signature_full;
    bucket = bytes "b";
    retention = pos 30;
    retention_minimum = pos 1;
  };
  credentials = [];
  repositories = some url_job ∷ [];
  cron = bytes "0 2 * * *";
  concurrency_repositories = pos 2;
  concurrency_metadata = pos 1;
  health_port = pos 8080;
  health_bind = bytes "0.0.0.0";
}

abbrev any_spec : Bytes → Option ℕ
any_spec s = some 0

settings_valid : validate unchanged one_host any_spec settings ≡ []
unfolding validate text_eq is_http_or_https equal_fold
settings_valid = refl

-- These settings are on the accepting side.
settings_are_sound : ValidSettings unchanged one_host any_spec settings
settings_are_sound = (validate_iff unchanged one_host any_spec settings).0 settings_valid

one_host-KeepsEmpty : KeepsEmpty one_host
one_host-KeepsEmpty u h = absurd (cc h)

plan_job-validate_example :
    All
      (λ entry.
        IsRunnable unchanged one_host settings.credentials entry
          (plan_job unchanged settings.credentials entry))
      settings.repositories
plan_job-validate_example =
    plan_job-validate unchanged one_host any_spec one_host-KeepsEmpty settings settings_valid

abbrev outside : Outside ℕ
outside = record {
  ctx_err = λ log. none;
  resolve_provider = λ provider. none;
  list_answer = λ log repository credential. ok [];
  answer = λ log action. none;
  is_inaccessible = λ e. false;
  unix_time = λ log. pos 1700000000;
  marshal_indent = λ document. ok document.repository_url;
  directory_name = unchanged;
  url_error = λ e. 1;
  in_flight = λ log. 0;
}

abbrev mirrors : Option (List DirEntry)
mirrors = some (
    record { name = bytes "repositories/url/forge/me/notes"; is_dir = true }
    ∷ record { name = bytes "stale"; is_dir = true }
    ∷ record { name = bytes "README"; is_dir = false }
    ∷ [])

abbrev one_pass : Progress × Ending ℕ
one_pass = run_repository_sync unchanged one_host outside settings none mirrors

stale_removed : one_pass ≡ (one_pass.0, mirrors_cleaned (bytes "stale" ∷ []))
unfolding run_repository_sync text_eq is_http_or_https equal_fold split_unescaped_segments split
    join hierarchy normalize_segment trim trim_git_suffix
stale_removed = refl

run-Spared_example :
    All
      (λ entry.
        Spared unchanged one_host outside one_pass.0.log
          (bytes "stale" ∷ [])
          entry
          (plan_job unchanged settings.credentials entry))
      (select (is_enabled unchanged one_host outside) settings.repositories)
run-Spared_example =
    run-Spared unchanged one_host outside settings none mirrors one_pass.0 (bytes "stale" ∷ [])
      stale_removed
