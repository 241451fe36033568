-- ===== src/Sync/Jobs/Items.antt =====
-- internal/backup/sync.go: one item of a job hands its repository to Git, and puts the mirror of it among the expected ones.
use git_backup.Base.{
  Bytes, Bool-cases, Option, contains, false, if◌then◌else◌, inl, inr, none, some, subst, true, ◌≡◌,
  [], ap, append_assoc, refl, sym, ◌++◌, ◌∙◌, ◌∷◌,
}
use git_backup.Base.Result.{Result, err, ok}
use git_backup.Config.Settings.{Repository, mode_provider, mode_url}
use git_backup.Paths.Keys.{build_url_repository_prefix}
use git_backup.Paths.Parser.{ParseError, PathInfo, parse_repository_path}
use git_backup.Paths.Url.{Url}
use git_backup.Sync.Jobs.{
  absent, count_outcome, provider_item, sync_discovered_repository, sync_place, sync_url_repository,
  url_item,
}
use git_backup.Sync.Jobs.Growth.{
  Grows, Grows-refl, Grows-trans, act-Grows, carry_on-Grows, expect-Grows, expect_lem,
  snapshot-Grows, snapshot-act,
}
use git_backup.Sync.Plan.{Discovered, GitCredential, should_back_up_project_metadata}
use git_backup.Sync.Run.{
  OutcomeOf, Outside, Progress, act, expect, resolve_provider_prefix, sync_metadata,
  sync_repository_snapshot, Action, ActionLog, sync_bare_repository,
}
use git_backup.Text.Trim.{is_blank}

module _ {E : Type 0} (wide : Bytes → Bytes) (parse : Bytes → Option Url) (o : Outside E) where
  -- The mirror of a repository with this prefix is expected.
  abbrev pub Expected : Bytes → Progress → Type 0
  Expected prefix p = contains (o.directory_name prefix) p.expected ≡ true

  Expected-stays :
      (prefix : Bytes) {p q : Progress} → Grows p q → Expected prefix p → Expected prefix q
  Expected-stays prefix g h = g.keeps (o.directory_name prefix) h

  -- The action is in the log.
  abbrev pub Attempted : Action → ActionLog → Type 0
  Attempted action log =
      (before : ActionLog) × (after : ActionLog) × (before ++ action ∷ after ≡ log)

  Attempted-stays :
      (action : Action) {p q : Progress}
      → Grows p q
      → Attempted action p.log
      → Attempted action q.log
  Attempted-stays action g (before, after, logged) = (
    before,
    after ++ g.more,
    sym (append_assoc before (action ∷ after) g.more) ∙ ap (λ l. l ++ g.more) logged ∙ g.logged,
  )

  -- Git was asked for the repository, with the mirror of this prefix.
  abbrev pub HandedToGit : Repository → Option GitCredential → Bytes → Bytes → ActionLog → Type 0
  HandedToGit r git url prefix log =
      Attempted (sync_bare_repository url (o.directory_name prefix) git r.cache r.lfs) log

  -- Git was asked for the repository, and its mirror is expected.
  abbrev pub Visited : Repository → Option GitCredential → Bytes → Bytes → Progress → Type 0
  Visited r git url prefix p = Expected prefix p × HandedToGit r git url prefix p.log

  pub Visited-stays :
      (r : Repository) (git : Option GitCredential) (url prefix : Bytes) {p q : Progress}
      → Grows p q
      → Visited r git url prefix p
      → Visited r git url prefix q
  Visited-stays r git url prefix g (h, k) = (Expected-stays prefix g h, Attempted-stays _ g k)

  snapshot-Visited :
      (mode url prefix : Bytes) (r : Repository) (git : Option GitCredential) (p : Progress)
      → Visited r git url prefix
          (sync_repository_snapshot o mode url prefix r.cache r.lfs git (expect o prefix p)).0
  snapshot-Visited mode url prefix r git p =
      let asked =
        act o (sync_bare_repository url (o.directory_name prefix) git r.cache r.lfs)
          (expect o prefix p) in
      Visited-stays r git url prefix {p = asked.0}
        (snapshot-act o mode url prefix r.cache r.lfs git (expect o prefix p))
        (expect_lem o prefix p, (p.log, [], refl))

  abbrev pub DiscoveredVisited : Repository → Option GitCredential → Discovered → Progress → Type 0
  DiscoveredVisited r git d p =
      is_blank d.clone_url ≡ false
      → Visited r git d.clone_url (resolve_provider_prefix wide parse r.provider d) p

  abbrev pub UrlVisited : Repository → Option GitCredential → Bytes → Progress → Type 0
  UrlVisited r git url p =
      (info : PathInfo)
      → parse_repository_path wide parse url ≡ ok info
      → Visited r git url (build_url_repository_prefix info) p

  count_outcome-Grows :
      (p : Progress) (r : OutcomeOf E) → Grows p r.0 → Grows p (count_outcome wide parse o r).0
  count_outcome-Grows p (q, none) g = record { more = g.more; logged = g.logged; keeps = g.keeps }
  count_outcome-Grows p (q, some e) g = elim (Bool-cases (absent (o.ctx_err q.log))) [
    | inr ended ↦ rw (count_outcome, ended) g
    | inl live ↦ elim (Bool-cases (o.is_inaccessible e)) [
      | inl gone ↦
          rw (count_outcome, live, gone)
            (record { more = g.more; logged = g.logged; keeps = g.keeps })
      | inr other ↦ rw (count_outcome, live, other) g
    ]
  ]

  metadata-Grows :
      (r : Repository) (d : Discovered) (prefix : Bytes) (q : Progress)
      → Grows q
          (if should_back_up_project_metadata r d
            then act o (sync_metadata r d prefix) q
            else (q, none)).0
  metadata-Grows r d prefix q = elim (Bool-cases (should_back_up_project_metadata r d)) [
    | inl wanted_one ↦ rw wanted_one (act-Grows o (sync_metadata r d prefix) q)
    | inr unwanted ↦ rw unwanted (Grows-refl q)
  ]

  -- What one repository of a forge adds to the pass.
  discovered_lem :
      (r : Repository) (git : Option GitCredential) (d : Discovered) (p : Progress)
      → Grows p (sync_discovered_repository wide parse o r git d p).0
        × Visited r git d.clone_url
            (resolve_provider_prefix wide parse r.provider d)
            (sync_discovered_repository wide parse o r git d p).0
  unfolding sync_discovered_repository
  discovered_lem r git d p =
      let prefix = resolve_provider_prefix wide parse r.provider d in
      let s =
        sync_repository_snapshot o mode_provider d.clone_url prefix r.cache r.lfs git
          (expect o prefix p) in
      let g =
        carry_on-Grows o s.0 s
          (λ q.
            if should_back_up_project_metadata r d
            then act o (sync_metadata r d prefix) q
            else (q, none))
          (Grows-refl s.0) (metadata-Grows r d prefix) in
      (
        Grows-trans (expect-Grows o prefix p) (
            Grows-trans
              (snapshot-Grows o mode_provider d.clone_url prefix r.cache r.lfs git
                (expect o prefix p))
              g),
        Visited-stays r git d.clone_url prefix g
            (snapshot-Visited mode_provider d.clone_url prefix r git p),
      )

  pub provider_item_lem :
      (r : Repository) (credential : Option GitCredential) (d : Discovered) (p : Progress)
      → Grows p (provider_item wide parse o r credential d p).0
        × DiscoveredVisited r credential d (provider_item wide parse o r credential d p).0
  unfolding provider_item
  provider_item_lem r credential d p =
      let prefix = resolve_provider_prefix wide parse r.provider d in
      let synced = sync_discovered_repository wide parse o r credential d p in
      let (g, visited) = discovered_lem r credential d p in
      elim (Bool-cases (is_blank d.clone_url)) [
        | inl blank ↦ rw blank (Grows-refl p, λ filled. absurd (cc))
        | inr filled ↦ rw filled (
          count_outcome-Grows p synced g,
          λ same.
              Visited-stays r credential d.clone_url prefix
                (count_outcome-Grows synced.0 synced (Grows-refl synced.0)) visited,
        )
      ]

  pub url_item_lem :
      (r : Repository) (credential : Option GitCredential) (url : Bytes) (p : Progress)
      → Grows p (url_item wide parse o r credential url p).0
        × UrlVisited r credential url (url_item wide parse o r credential url p).0
  unfolding url_item sync_url_repository
  url_item_lem r credential url p = place (parse_repository_path wide parse url)
    where
      place :
          (parsed : Result ParseError PathInfo)
          → Grows p
              (count_outcome wide parse o (sync_place wide parse o r credential url parsed p)).0
            × ((info : PathInfo)
                → parsed ≡ ok info
                → Visited r credential url
                    (build_url_repository_prefix info)
                    (count_outcome wide parse o
                      (sync_place wide parse o r credential url parsed p)).0)
      place (err e) =
          (count_outcome-Grows p (p, some (o.url_error e)) (Grows-refl p), λ info same. absurd (cc))
      place (ok info) =
          let prefix = build_url_repository_prefix info in
          let synced =
            sync_repository_snapshot o mode_url url prefix r.cache r.lfs credential
              (expect o prefix p) in
          let g =
            snapshot-Grows o mode_url url prefix r.cache r.lfs credential (expect o prefix p) in
          (
            count_outcome-Grows p synced (Grows-trans (expect-Grows o prefix p) g),
            λ other same.
                subst
                  (λ (i : PathInfo).
                    Visited r credential url (build_url_repository_prefix i)
                      (count_outcome wide parse o synced).0)
                  (cc same)
                  (Visited-stays r credential url prefix
                    (count_outcome-Grows synced.0 synced (Grows-refl synced.0))
                    (snapshot-Visited mode_url url prefix r credential p)),
          )
