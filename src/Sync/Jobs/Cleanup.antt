-- ===== src/Sync/Jobs/Cleanup.antt =====
-- internal/backup/sync.go: which mirrors a pass removes.
use git_backup.Base.{
  Bytes, All, All-map, Bool, Bool-cases, List, Option, [], ap, contains, false, inl, inr, max, none,
  refl, select, some, subst, text_eq, text_eq_sound, true, ◌++◌, ◌∷◌, ◌≡◌,
}
use git_backup.Base.Int.{pos_part}
use git_backup.Base.Result.{Result, err, ok}
use git_backup.Config.Settings.{Repository, Settings}
use git_backup.Paths.Keys.{build_url_repository_prefix}
use git_backup.Paths.Parser.{PathInfo, parse_repository_path}
use git_backup.Paths.Url.{Url}
use git_backup.Retention.Run.{plan}
use git_backup.Sync.Jobs.{
  DirEntry, clean_up, is_enabled, mirrors_cleaned, nothing_done, remove_orphans,
  run_repository_sync,
}
use git_backup.Sync.Jobs.Items.{HandedToGit}
use git_backup.Sync.Jobs.Pictures.{JobsSound, run_jobs-JobsSound}
use git_backup.Sync.Jobs.Sound.{PlanMet}
use git_backup.Sync.Plan.{
  Discovered, JobPlan, discover, entry_missing, fetch, incomplete_job, mode_invalid, plan_job,
  resolve_git_credential,
}
use git_backup.Sync.Run.{ActionLog, Outside, Progress, list_repositories, resolve_provider_prefix}
use git_backup.Text.Trim.{is_blank}

-- Nothing that is removed was expected.
remove_orphans-unexpected :
    (expected : List Bytes) (entries : Option (List DirEntry))
    → All (λ name. contains name expected ≡ false) (remove_orphans expected entries)
unfolding remove_orphans
remove_orphans-unexpected expected none = tt
remove_orphans-unexpected expected (some []) = tt
remove_orphans-unexpected expected (some (entry ∷ entries)) =
    let rest = remove_orphans-unexpected expected (some entries) in
    elim (Bool-cases entry.is_dir) [
      | inr file ↦ rw (remove_orphans, file) rest
      | inl directory ↦ elim (Bool-cases (contains entry.name expected)) [
        | inl known ↦ rw (remove_orphans, directory, known) rest
        | inr unknown_name ↦ rw (remove_orphans, directory, unknown_name) (unknown_name, rest)
      ]
    ]

spared :
    (name : Bytes) (expected names : List Bytes)
    → contains name expected ≡ true
    → All (λ other. contains other expected ≡ false) names
    → contains name names ≡ false
spared name expected [] h all = refl
spared name expected (other ∷ names) h (unexpected, all) = elim (Bool-cases (text_eq name other)) [
  | inr differs ↦ rw differs (spared name expected names h all)
  | inl same ↦
      absurd (cc (h, unexpected, ap (λ n. contains n expected) (text_eq_sound name other same)))
]

module _ {E : Type 0} (wide : Bytes → Bytes) (parse : Bytes → Option Url) (o : Outside E) where
  -- Each repository that the job comes to, one that the forge listed for it in this pass or one of its URLs, was handed to Git in this pass, and its mirror is not among the names.
  abbrev pub Spared : ActionLog → List Bytes → Option Repository → JobPlan → Type 0
  Spared log names (some r) (discover credential) =
      (before after : ActionLog) × (ds : List Discovered) × (before ++ list_repositories r ∷ after
        ≡ log)
      × (o.list_answer before r credential ≡ ok ds)
      × All
          (λ d.
            is_blank d.clone_url ≡ false
            → (contains (o.directory_name (resolve_provider_prefix wide parse r.provider d)) names
                ≡ false)
              × HandedToGit wide parse o r (resolve_git_credential (some credential)) d.clone_url
                  (resolve_provider_prefix wide parse r.provider d) log)
          ds
  Spared log names (some r) (fetch urls git) =
      All
        (λ url.
          (info : PathInfo)
          → parse_repository_path wide parse url ≡ ok info
          → (contains (o.directory_name (build_url_repository_prefix info)) names ≡ false)
            × HandedToGit wide parse o r git url (build_url_repository_prefix info) log)
        urls
  Spared log names entry plan = ⊥

  met-Spared :
      (entry : Option Repository) (plan : JobPlan) (p : Progress) (names : List Bytes)
      → All (λ name. contains name p.expected ≡ false) names
      → PlanMet wide parse o entry plan p
      → Spared p.log names entry plan
  met-Spared none plan p names all met = met
  met-Spared (some r) entry_missing p names all met = met
  met-Spared (some r) mode_invalid p names all met = met
  met-Spared (some r) incomplete_job p names all met = met
  met-Spared (some r) (fetch urls git) p names all met =
      All-map (λ url h info same. (spared _ p.expected names (h info same).0 all, (h info same).1))
        urls met
  met-Spared (some r) (discover credential) p names all (before, after, ds, logged, answered, met) =
      (
        before,
        after,
        ds,
        logged,
        answered,
        All-map (λ d h filled. (spared _ p.expected names (h filled).0 all, (h filled).1)) ds met,
      )

  clean_up-Spared :
      (settings : Settings) (found : Option (List DirEntry)) (r : Progress × Result E Bool)
      (p : Progress) (names : List Bytes)
      → JobsSound wide parse o settings.credentials
          (select (is_enabled wide parse o) settings.repositories)
          true
          (nothing_done wide parse o)
          r
      → clean_up wide parse o found r ≡ (p, mirrors_cleaned names)
      → All
          (λ entry. Spared p.log names entry (plan_job wide settings.credentials entry))
          (select (is_enabled wide parse o) settings.repositories)
  clean_up-Spared settings found (q, err e) p names sound h = absurd (cc)
  clean_up-Spared settings found (q, ok false) p names sound h = absurd (cc)
  clean_up-Spared settings found (q, ok true) p names sound h =
      subst
        (λ (r : Progress × List Bytes).
          All (λ entry. Spared r.0.log r.1 entry (plan_job wide settings.credentials entry))
            (select (is_enabled wide parse o) settings.repositories))
        {x = (q, remove_orphans q.expected found)} {y = (p, names)} (cc h)
        (All-map
          (λ entry met.
            met-Spared entry (plan_job wide settings.credentials entry) q
              (remove_orphans q.expected found) (remove_orphans-unexpected q.expected found) met)
          (select (is_enabled wide parse o) settings.repositories) (sound.1 refl).1)

  -- Where a pass removes mirrors, then for each enabled job every repository with a clone address that its forge listed in this pass, or every distinct URL that names a repository, was handed to Git in this pass with the login of the job, and no removed directory is its mirror.
  pub run-Spared :
      (settings : Settings) (storage_error : Option E) (found : Option (List DirEntry))
      (p : Progress) (names : List Bytes)
      → run_repository_sync wide parse o settings storage_error found ≡ (p, mirrors_cleaned names)
      → All
          (λ entry. Spared p.log names entry (plan_job wide settings.credentials entry))
          (select (is_enabled wide parse o) settings.repositories)
  unfolding run_repository_sync
  run-Spared settings (some e) found p names h = absurd (cc)
  run-Spared settings none found p names h =
      clean_up-Spared settings found _ p names
        (run_jobs-JobsSound wide parse o (max (pos_part settings.concurrency_repositories) 1)
          settings.credentials (select (is_enabled wide parse o) settings.repositories) true
          (nothing_done wide parse o))
        h
