-- ===== src/Config/Validate.antt =====
-- internal/config/loader.go: the validation of normalised settings. An error is named for its message, with the places that it mentions.
pub mod Meaning
pub mod Whole
use git_backup.Base.{
  Bytes, Bool, List, Option, [], bytes, false, if◌then◌else◌, length, ltb, none, not, some, suc,
  text_eq, true, ℕ, ◌&&◌, ◌++◌, ◌==◌, ◌||◌, ◌∷◌,
}
use git_backup.Base.Int.{ltb_ℤ, pos}
use git_backup.Base.Result.{Result, err, ok}
use git_backup.Config.Settings.{
  Credential, Repository, Settings, StorageSettings, find_credential, mode_provider, mode_url,
  provider_forgejo, provider_github, provider_gitlab,
}
use git_backup.Paths.Url.{Url, parse_http_url}
use git_backup.Schedule.{CronError, parse_cron}
use git_backup.Text.Case.{to_lower}
use git_backup.Text.Trim.{is_blank}

pub data SettingsError : Type 0 where
  endpoint_required : SettingsError
  endpoint_not_http : SettingsError
  region_required : SettingsError
  access_key_id_required : SettingsError
  secret_access_key_required : SettingsError
  bucket_required : SettingsError
  retention_minimum_negative : SettingsError
  repository_required : ℕ → SettingsError
  mode_required : ℕ → SettingsError
  mode_not_supported : ℕ → Bytes → SettingsError
  provider_required : ℕ → SettingsError
  provider_not_supported : ℕ → Bytes → SettingsError
  credential_required : ℕ → SettingsError
  credential_unknown : ℕ → Bytes → SettingsError
  url_not_allowed : ℕ → SettingsError
  base_url_not_http : ℕ → SettingsError
  issue_artifacts_alone : ℕ → SettingsError
  merge_request_artifacts_alone : ℕ → SettingsError
  release_artifacts_alone : ℕ → SettingsError
  url_required : ℕ → SettingsError
  url_not_http : ℕ → ℕ → SettingsError
  provider_not_allowed : ℕ → SettingsError
  base_url_not_allowed : ℕ → SettingsError
  flag_not_allowed : ℕ → Bytes → SettingsError
  cron_rejected : CronError → SettingsError
  concurrency_repositories_below_one : SettingsError
  concurrency_metadata_below_one : SettingsError
  port_out_of_range : SettingsError
  bind_empty : SettingsError

-- An error that is reported under a condition.
abbrev pub report : Bool → SettingsError → List SettingsError
report true e = e ∷ []
report false e = []

module _ (wide : Bytes → Bytes) (parse : Bytes → Option Url) where
  abbrev pub is_http_url : Bytes → Bool
  is_http_url value = elim (parse_http_url parse value) [ none ↦ false | some u ↦ true ]

  unfoldable pub validate_storage : StorageSettings → List SettingsError
  unfolding is_blank parse_http_url
  validate_storage s =
      (if is_blank s.endpoint
        then endpoint_required ∷ []
        else report (not (is_http_url s.endpoint)) endpoint_not_http)
      ++ (report (is_blank s.region) region_required
          ++ (report (is_blank s.access_key_id) access_key_id_required
              ++ (report (is_blank s.secret_access_key) secret_access_key_required
                  ++ (report (is_blank s.bucket) bucket_required
                      ++ report (ltb_ℤ s.retention_minimum (pos 0)) retention_minimum_negative))))

  abbrev pub is_known : List (Bytes × Credential) → Bytes → Bool
  is_known credentials name = elim (find_credential (to_lower wide name) credentials) [
    | none ↦ false
    | some c ↦ true
  ]

  abbrev pub is_supported_provider : Bytes → Bool
  is_supported_provider provider =
      text_eq provider provider_github
      || text_eq provider provider_gitlab
      || text_eq provider provider_forgejo

  unfoldable pub validate_provider_repository :
      List (Bytes × Credential) → ℕ → Repository → List SettingsError
  unfolding is_blank parse_http_url to_lower
  validate_provider_repository credentials i r =
      (if is_blank r.provider
        then provider_required i ∷ []
        else report (not (is_supported_provider r.provider)) (provider_not_supported i r.provider))
      ++ ((if is_blank r.credential
            then credential_required i ∷ []
            else report (not (is_known credentials r.credential))
                (credential_unknown i r.credential))
          ++ (report (ltb 0 (length r.urls)) (url_not_allowed i)
              ++ (report (not (is_blank r.base_url) && not (is_http_url r.base_url))
                    (base_url_not_http i)
                  ++ (report (r.include_issue_artifacts && not r.include_issues)
                        (issue_artifacts_alone i)
                      ++ (report
                            (r.include_merge_requests_artifacts && not r.include_merge_requests)
                            (merge_request_artifacts_alone i)
                          ++ report (r.include_release_artifacts && not r.include_releases)
                              (release_artifacts_alone i))))))

  unfoldable pub validate_urls : ℕ → ℕ → List Bytes → List SettingsError
  unfolding parse_http_url
  validate_urls i j [] = []
  validate_urls i j (url ∷ urls) =
      report (not (is_http_url url)) (url_not_http i j) ++ validate_urls i (suc j) urls

  abbrev pub disallowed : Repository → List (Bytes × Bool)
  disallowed r =
      (bytes "includeStarred", r.include_starred)
      ∷ (bytes "includeSnippets", r.include_snippets)
      ∷ (bytes "includeIssues", r.include_issues)
      ∷ (bytes "includeIssueArtifacts", r.include_issue_artifacts)
      ∷ (bytes "includeMergeRequests", r.include_merge_requests)
      ∷ (bytes "includeMergeRequestsArtifacts", r.include_merge_requests_artifacts)
      ∷ (bytes "includeReleases", r.include_releases)
      ∷ (bytes "includeReleaseArtifacts", r.include_release_artifacts)
      ∷ []

  abbrev pub validate_flags : ℕ → List (Bytes × Bool) → List SettingsError
  validate_flags i [] = []
  validate_flags i ((name, value) ∷ flags) =
      report value (flag_not_allowed i name) ++ validate_flags i flags

  unfoldable pub validate_url_repository :
      List (Bytes × Credential) → ℕ → Repository → List SettingsError
  unfolding is_blank validate_urls to_lower
  validate_url_repository credentials i r =
      (if length r.urls == 0 then url_required i ∷ [] else validate_urls i 0 r.urls)
      ++ (report (not (is_blank r.provider)) (provider_not_allowed i)
          ++ (report (not (is_blank r.base_url)) (base_url_not_allowed i)
              ++ (validate_flags i (disallowed r)
                  ++ report (not (is_blank r.credential) && not (is_known credentials r.credential))
                      (credential_unknown i r.credential))))

  unfoldable pub validate_repository :
      List (Bytes × Credential) → ℕ → Option Repository → List SettingsError
  unfolding validate_provider_repository validate_url_repository
  validate_repository credentials i none = repository_required i ∷ []
  validate_repository credentials i (some r) =
      if is_blank r.mode
      then mode_required i ∷ []
      else if text_eq r.mode mode_provider
      then validate_provider_repository credentials i r
      else if text_eq r.mode mode_url
      then validate_url_repository credentials i r
      else mode_not_supported i r.mode ∷ []

  unfoldable pub validate_repositories :
      List (Bytes × Credential) → ℕ → List (Option Repository) → List SettingsError
  unfolding validate_repository
  validate_repositories credentials i [] = []
  validate_repositories credentials i (entry ∷ entries) =
      validate_repository credentials i entry ++ validate_repositories credentials (suc i) entries

  module _ {S : Type 0} (parse_spec : Bytes → Option S) where
    abbrev pub reject_cron : Result CronError S → List SettingsError
    reject_cron (ok spec) = []
    reject_cron (err e) = cron_rejected e ∷ []

    unfoldable pub validate : Settings → List SettingsError
    unfolding validate_storage validate_repositories parse_cron
    validate s =
        validate_storage s.storage
        ++ (validate_repositories s.credentials 0 s.repositories
            ++ (reject_cron (parse_cron parse_spec s.cron)
                ++ (report (ltb_ℤ s.concurrency_repositories (pos 1))
                      concurrency_repositories_below_one
                    ++ (report (ltb_ℤ s.concurrency_metadata (pos 1)) concurrency_metadata_below_one
                        ++ (report (ltb_ℤ s.health_port (pos 0) || ltb_ℤ (pos 65535) s.health_port)
                              port_out_of_range
                            ++ report (is_blank s.health_bind) bind_empty)))))
