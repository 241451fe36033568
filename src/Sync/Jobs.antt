-- ===== src/Sync/Jobs.antt =====
-- internal/backup/sync.go and mirror.go: the jobs in turn, and the clean-up of the mirrors behind them.
pub mod Growth
pub mod Visits
pub mod Items
pub mod Sound
pub mod Pictures
pub mod Cleanup
use git_backup.Base.{
  Bytes, Bool, List, Option, [], contains, false, if◌then◌else◌, max, none, not, select, some, suc,
  true, ℕ, ◌&&◌, ◌++◌, ◌∷◌,
}
use git_backup.Base.Int.{pos_part}
use git_backup.Base.Result.{Result, err, ok}
use git_backup.Config.Settings.{Credential, Repository, Settings, mode_provider, mode_url}
use git_backup.Paths.Keys.{build_url_repository_prefix}
use git_backup.Paths.Parser.{ParseError, PathInfo, parse_repository_path}
use git_backup.Paths.Url.{Url}
use git_backup.Sync.Plan.{
  Discovered, GitCredential, JobPlan, discover, fetch, plan_job, resolve_git_credential,
  should_back_up_project_metadata,
}
use git_backup.Sync.Run.{
  OutcomeOf, Outside, Progress, act, expect, for_each_parallel, list_repositories,
  resolve_provider_prefix, sync_metadata, sync_repository_snapshot, carry_on,
}
use git_backup.Text.Trim.{is_blank}

-- An entry of the directory of mirrors.
pub record DirEntry : Type 0 where
  pub name : Bytes
  pub is_dir : Bool

-- `RemoveOrphans`: the directories that it removes; `none` where the directory cannot be read.
unfoldable pub remove_orphans : List Bytes → Option (List DirEntry) → List Bytes
remove_orphans expected none = []
remove_orphans expected (some []) = []
remove_orphans expected (some (entry ∷ entries)) =
    let rest = remove_orphans expected (some entries) in
    if not entry.is_dir
    then rest
    else if contains entry.name expected
    then rest
    else entry.name ∷ rest

-- `runCounters` of a job that did not fail: only its completeness matters to the rest.
pub data JobResult (E : Type 0) : Type 0 where
  job_failed : E → JobResult E
  job_done : Bool → JobResult E

-- How a pass ends: with an error, with the mirrors left alone, or with some removed.
pub data Ending (E : Type 0) : Type 0 where
  run_failed : E → Ending E
  mirrors_kept : Ending E
  mirrors_cleaned : List Bytes → Ending E

abbrev pub absent : {E : Type 0} → Option E → Bool
absent none = true
absent (some e) = false

module _ {E : Type 0} (wide : Bytes → Bytes) (parse : Bytes → Option Url) (o : Outside E) where
  unfoldable pub sync_discovered_repository :
      Repository → Option GitCredential → Discovered → Progress → OutcomeOf E
  unfolding resolve_provider_prefix sync_repository_snapshot should_back_up_project_metadata
  sync_discovered_repository repository credential d p =
      let prefix = resolve_provider_prefix wide parse repository.provider d in
      carry_on o
        (sync_repository_snapshot o mode_provider d.clone_url prefix repository.cache repository.lfs
          credential (expect o prefix p))
        (λ q.
          if should_back_up_project_metadata repository d
          then act o (sync_metadata repository d prefix) q
          else (q, none))

  abbrev pub sync_place :
      Repository
      → Option GitCredential
      → Bytes
      → Result ParseError PathInfo
      → Progress
      → OutcomeOf E
  sync_place repository credential url (err e) p = (p, some (o.url_error e))
  sync_place repository credential url (ok info) p =
      let prefix = build_url_repository_prefix info in
      sync_repository_snapshot o mode_url url prefix repository.cache repository.lfs credential
        (expect o prefix p)

  unfoldable pub sync_url_repository :
      Repository → Option GitCredential → Bytes → Progress → OutcomeOf E
  unfolding parse_repository_path build_url_repository_prefix sync_repository_snapshot
  sync_url_repository repository credential url p =
      sync_place repository credential url (parse_repository_path wide parse url) p

  -- What both jobs make of the result for one repository: only the end of the context is an error.
  abbrev pub count_outcome : OutcomeOf E → OutcomeOf E
  count_outcome (p, none) = (record p { synced = suc p.synced }, none)
  count_outcome (p, some e) =
      if not (absent (o.ctx_err p.log))
      then (p, some e)
      else if o.is_inaccessible e
      then (record p { skipped_inaccessible = suc p.skipped_inaccessible }, none)
      else (p, none)

  unfoldable pub provider_item :
      Repository → Option GitCredential → Discovered → Progress → OutcomeOf E
  unfolding is_blank sync_discovered_repository
  provider_item repository credential d p =
      if is_blank d.clone_url
      then (p, none)
      else count_outcome (sync_discovered_repository repository credential d p)

  unfoldable pub url_item : Repository → Option GitCredential → Bytes → Progress → OutcomeOf E
  unfolding sync_url_repository
  url_item repository credential url p =
      count_outcome (sync_url_repository repository credential url p)

  abbrev pub provider_result : OutcomeOf E → Progress × JobResult E
  provider_result (p, none) = (p, job_done (absent (o.ctx_err p.log)))
  provider_result (p, some e) = (p, job_failed e)

  abbrev pub url_result : OutcomeOf E → Progress × JobResult E
  url_result (p, none) = (p, job_done true)
  url_result (p, some e) = (p, job_failed e)

  abbrev pub after_discovery :
      ℕ → Repository → Credential → Result E (List Discovered) → Progress → Progress × JobResult E
  after_discovery concurrency repository credential (ok discovered) p = provider_result (
      for_each_parallel o (provider_item repository (resolve_git_credential (some credential)))
        concurrency discovered p)
  after_discovery concurrency repository credential (err e) p = elim (o.ctx_err p.log) [
    | some ended ↦ (p, job_failed ended)
    | none ↦ (p, job_done false)
  ]

  unfoldable pub run_provider_mode : ℕ → Repository → Credential → Progress → Progress × JobResult E
  unfolding provider_item for_each_parallel resolve_git_credential
  run_provider_mode concurrency repository credential p =
      elim (o.resolve_provider repository.provider) [
        | some e ↦ (p, job_failed e)
        | none ↦
            after_discovery concurrency repository credential
              (o.list_answer p.log repository credential)
              (record p { log = p.log ++ list_repositories repository ∷ [] })
      ]

  unfoldable pub run_url_mode :
      ℕ → Repository → List Bytes → Option GitCredential → Progress → Progress × JobResult E
  unfolding url_item for_each_parallel
  run_url_mode concurrency repository urls credential p =
      url_result (for_each_parallel o (url_item repository credential) concurrency urls p)

  -- The counters of the job before are gone.
  abbrev pub fresh : Progress → Progress
  fresh p = record p { synced = 0; skipped_inaccessible = 0 }

  abbrev pub run_planned : ℕ → Option Repository → JobPlan → Progress → Progress × JobResult E
  run_planned concurrency (some repository) (discover credential) p =
      run_provider_mode concurrency repository credential (fresh p)
  run_planned concurrency (some repository) (fetch urls credential) p =
      run_url_mode concurrency repository urls credential (fresh p)
  run_planned concurrency entry _ p = (fresh p, job_done false)

  -- A job's error ends the pass only where the context has ended.
  abbrev pub settle_job :
      (Bool → Progress → Progress × Result E Bool)
      → Bool
      → Progress × JobResult E
      → Progress × Result E Bool
  settle_job next complete (p, job_done done) = next (complete && done) p
  settle_job next complete (p, job_failed e) = elim (o.ctx_err p.log) [
    | some ended ↦ (p, err ended)
    | none ↦ next false p
  ]

  -- The jobs in turn; the result says whether the picture is complete.
  unfoldable pub run_jobs :
      ℕ
      → List (Bytes × Credential)
      → List (Option Repository)
      → Bool
      → Progress
      → Progress × Result E Bool
  unfolding plan_job run_provider_mode run_url_mode
  run_jobs concurrency credentials [] complete p = (p, ok complete)
  run_jobs concurrency credentials (entry ∷ entries) complete p =
      let next = run_jobs concurrency credentials entries in
      elim (o.ctx_err p.log) [
        | some e ↦ (p, err e)
        | none ↦
            settle_job next complete
              (run_planned concurrency entry (plan_job wide credentials entry) p)
      ]

  abbrev pub is_enabled : Option Repository → Bool
  is_enabled none = true
  is_enabled (some repository) = repository.enabled

  abbrev pub clean_up : Option (List DirEntry) → Progress × Result E Bool → Progress × Ending E
  clean_up entries (p, err e) = (p, run_failed e)
  clean_up entries (p, ok false) = (p, mirrors_kept)
  clean_up entries (p, ok true) = (p, mirrors_cleaned (remove_orphans p.expected entries))

  abbrev pub nothing_done : Progress
  nothing_done = record { log = []; expected = []; synced = 0; skipped_inaccessible = 0 }

  -- `storage_error` is the error of the storage factory, and `entries` the mirrors that are found at the end.
  unfoldable pub run_repository_sync :
      Settings → Option E → Option (List DirEntry) → Progress × Ending E
  unfolding run_jobs remove_orphans
  run_repository_sync settings (some storage_error) entries =
      (nothing_done, run_failed storage_error)
  run_repository_sync settings none entries = clean_up entries (
      run_jobs (max (pos_part settings.concurrency_repositories) 1) settings.credentials
        (select is_enabled settings.repositories) true nothing_done)
