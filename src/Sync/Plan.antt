-- ===== src/Sync/Plan.antt =====
-- internal/backup/sync.go: what a job of the settings comes to, before anything is fetched.
pub mod Valid
use git_backup.Base.{
  Bytes, Bool, List, Option, [], contains, false, if◌then◌else◌, none, not, some, text_eq, true,
  ◌&&◌, ◌||◌, ◌∷◌,
}
use git_backup.Config.Settings.{
  Credential, Repository, default_git_username, find_credential, mode_provider, mode_url,
}
use git_backup.Paths.Segment.{folded}
use git_backup.Sync.Parallel.{then}
use git_backup.Text.Case.{to_lower}
use git_backup.Text.Trim.{is_blank, trim_space}

-- `DiscoveredRepositoryKind`.
pub data DiscoveredKind : Type 0 where
  kind_repository kind_gist kind_snippet : DiscoveredKind

pub record Discovered : Type 0 where
  pub clone_url : Bytes
  pub web_url : Bytes
  pub kind : DiscoveredKind
  pub identifier : Bytes
  pub parent_url : Bytes
  pub provider_project_id : Bytes
  pub is_starred : Bool

pub record GitCredential : Type 0 where
  pub username : Bytes
  pub password : Bytes

abbrev pub name_or_git : Bytes → Bytes
name_or_git [] = default_git_username
name_or_git (c ∷ s) = c ∷ s

unfoldable pub resolve_git_credential : Option Credential → Option GitCredential
unfolding is_blank trim_space
resolve_git_credential none = none
resolve_git_credential (some credential) =
    if is_blank credential.api_key
    then none
    else some (record {
      username = name_or_git (trim_space credential.username);
      password = trim_space credential.api_key;
    })

abbrev pub is_repository : DiscoveredKind → Bool
is_repository kind_repository = true
is_repository _ = false

unfoldable pub should_back_up_project_metadata : Repository → Discovered → Bool
should_back_up_project_metadata repository discovered =
    (repository.include_issues || repository.include_merge_requests || repository.include_releases)
    && is_repository discovered.kind
    && not discovered.is_starred

-- What becomes of a job: it is skipped, its forge is asked, or its URLs are fetched.
pub data JobPlan : Type 0 where
  entry_missing : JobPlan
  mode_invalid : JobPlan
  incomplete_job : JobPlan
  discover : Credential → JobPlan
  fetch : List Bytes → Option GitCredential → JobPlan

module _ (wide : Bytes → Bytes) where
  -- The loop over the configured URLs; `seen` holds those met, trimmed and folded.
  unfoldable pub distinct_urls : List Bytes → List Bytes → List Bytes
  unfolding is_blank trim_space to_lower
  distinct_urls seen [] = []
  distinct_urls seen (url ∷ urls) =
      let folded = to_lower wide (trim_space url) in
      let without = distinct_urls seen urls in
      let with_it = distinct_urls (folded ∷ seen) urls in
      if is_blank url then without else if contains folded seen then without else url ∷ with_it

  abbrev pub fetch_with : List Bytes → Option Credential → JobPlan
  fetch_with urls none = incomplete_job
  fetch_with urls (some credential) = fetch urls (resolve_git_credential (some credential))

  abbrev pub plan_url_job : List (Bytes × Credential) → Repository → List Bytes → JobPlan
  plan_url_job credentials repository [] = incomplete_job
  plan_url_job credentials repository (url ∷ urls) =
      if is_blank repository.credential
      then fetch (url ∷ urls) none
      else fetch_with (url ∷ urls)
          (find_credential (to_lower wide repository.credential) credentials)

  abbrev pub discover_with : Option Credential → JobPlan
  discover_with none = incomplete_job
  discover_with (some credential) = discover credential

  abbrev pub plan_provider_job : List (Bytes × Credential) → Repository → JobPlan
  plan_provider_job credentials repository =
      if is_blank repository.provider || is_blank repository.credential
      then incomplete_job
      else discover_with (find_credential (to_lower wide repository.credential) credentials)

  unfoldable pub plan_job : List (Bytes × Credential) → Option Repository → JobPlan
  unfolding distinct_urls is_blank to_lower resolve_git_credential
  plan_job credentials none = entry_missing
  plan_job credentials (some repository) =
      if text_eq repository.mode mode_provider
      then plan_provider_job credentials repository
      else if text_eq repository.mode mode_url
      then plan_url_job credentials repository (distinct_urls [] repository.urls)
      else mode_invalid
