-- ===== src/Sync/Jobs/Sound.antt =====
-- internal/backup/sync.go: a job that counts as complete has handed all its repositories to Git and has their mirrors expected.
use git_backup.Base.{
  Bytes, All, All-map, List, Option, [], ap, append_assoc, inl, inr, none, refl, some, sym, true,
  ◌++◌, ◌∙◌, ◌∷◌, ◌≡◌, Option-cases, subst, ℕ,
}
use git_backup.Base.Result.{ok, Result, err}
use git_backup.Config.Settings.{Repository, Credential}
use git_backup.Paths.Keys.{build_url_repository_prefix}
use git_backup.Paths.Url.{Url}
use git_backup.Retention.Run.{plan}
use git_backup.Sync.Jobs.{
  JobResult, job_done, after_discovery, provider_item, provider_result, run_provider_mode,
  run_url_mode, url_item, url_result,
}
use git_backup.Sync.Jobs.Growth.{Grows, Grows-refl, Grows-trans, act-Grows, for_each_parallel-Grows}
use git_backup.Sync.Jobs.Items.{
  DiscoveredVisited, UrlVisited, provider_item_lem, url_item_lem, Visited-stays,
}
use git_backup.Sync.Jobs.Visits.{for_each_parallel-AllMet}
use git_backup.Sync.Plan.{
  Discovered, JobPlan, discover, entry_missing, fetch, incomplete_job, mode_invalid, GitCredential,
  resolve_git_credential,
}
use git_backup.Sync.Run.{
  ActionLog, Outside, Progress, list_repositories, OutcomeOf, for_each_parallel,
  resolve_provider_prefix,
}

module _ {E : Type 0} (wide : Bytes → Bytes) (parse : Bytes → Option Url) (o : Outside E) where
  -- All that the job comes to was handed to Git, and has its mirror expected: what the forge listed for it in this pass, or its URLs.
  abbrev pub PlanMet : Option Repository → JobPlan → Progress → Type 0
  PlanMet (some r) (discover credential) p =
      (before after : ActionLog) × (ds : List Discovered) × (before ++ list_repositories r ∷ after
        ≡ p.log)
      × (o.list_answer before r credential ≡ ok ds)
      × All (λ d. DiscoveredVisited wide parse o r (resolve_git_credential (some credential)) d p)
          ds
  PlanMet (some r) (fetch urls git) p = All (λ url. UrlVisited wide parse o r git url p) urls
  PlanMet entry plan p = ⊥

  DiscoveredVisited-stays :
      (r : Repository) (git : Option GitCredential) (d : Discovered) (p q : Progress)
      → Grows p q
      → DiscoveredVisited wide parse o r git d p
      → DiscoveredVisited wide parse o r git d q
  DiscoveredVisited-stays r git d p q g h filled =
      Visited-stays wide parse o r git d.clone_url (resolve_provider_prefix wide parse r.provider d)
        g (h filled)

  UrlVisited-stays :
      (r : Repository) (git : Option GitCredential) (url : Bytes) (p q : Progress)
      → Grows p q
      → UrlVisited wide parse o r git url p
      → UrlVisited wide parse o r git url q
  UrlVisited-stays r git url p q g h info same =
      Visited-stays wide parse o r git url (build_url_repository_prefix info) g (h info same)

  pub PlanMet-stays :
      (entry : Option Repository) (plan : JobPlan) (p q : Progress)
      → Grows p q
      → PlanMet entry plan p
      → PlanMet entry plan q
  PlanMet-stays none plan p q g h = h
  PlanMet-stays (some r) entry_missing p q g h = h
  PlanMet-stays (some r) mode_invalid p q g h = h
  PlanMet-stays (some r) incomplete_job p q g h = h
  PlanMet-stays (some r) (fetch urls git) p q g h =
      All-map (λ url. UrlVisited-stays r git url p q g) urls h
  PlanMet-stays (some r) (discover credential) p q g (before, after, ds, logged, answered, all) = (
    before,
    after ++ g.more,
    ds,
    sym (append_assoc before (list_repositories r ∷ after) g.more)
        ∙ ap (λ l. l ++ g.more) logged
        ∙ g.logged,
    answered,
    All-map (λ d. DiscoveredVisited-stays r (resolve_git_credential (some credential)) d p q g) ds
        all,
  )

  -- A job lets the pass grow, and is met where its result counts as complete.
  abbrev pub JobSound : Option Repository → JobPlan → Progress → Progress × JobResult E → Type 0
  JobSound entry plan p r = Grows p r.0 × (r.1 ≡ job_done true → PlanMet entry plan r.0)

  provider_result-lem :
      (r : Repository) (credential : Credential) (p : Progress) (ds : List Discovered)
      (before after : ActionLog) (out : OutcomeOf E)
      → Grows p out.0
      → before ++ list_repositories r ∷ after ≡ p.log
      → o.list_answer before r credential ≡ ok ds
      → (out.1 ≡ none
          → All
              (λ d.
                DiscoveredVisited wide parse o r (resolve_git_credential (some credential)) d out.0)
              ds)
      → (provider_result wide parse o out).1 ≡ job_done true
      → PlanMet (some r) (discover credential) (provider_result wide parse o out).0
  provider_result-lem r credential p ds before after (q, some e) g logged answered all h =
      absurd (cc)
  provider_result-lem r credential p ds before after (q, none) g logged answered all h = (
    before,
    after ++ g.more,
    ds,
    sym (append_assoc before (list_repositories r ∷ after) g.more)
        ∙ ap (λ l. l ++ g.more) logged
        ∙ g.logged,
    answered,
    all refl,
  )

  provider_result-same : (out : OutcomeOf E) → (provider_result wide parse o out).0 ≡ out.0
  provider_result-same (q, none) = refl
  provider_result-same (q, some e) = refl

  url_result-same : (out : OutcomeOf E) → (url_result wide parse o out).0 ≡ out.0
  url_result-same (q, none) = refl
  url_result-same (q, some e) = refl

  listing-JobSound :
      (concurrency : ℕ) (r : Repository) (credential : Credential)
      (answer : Result E (List Discovered)) (p : Progress)
      → o.list_answer p.log r credential ≡ answer
      → JobSound (some r) (discover credential) p (
          after_discovery wide parse o concurrency r credential answer
            (record p { log = p.log ++ list_repositories r ∷ [] }))
  listing-JobSound concurrency r credential (err e) p answered =
      let asked = record p { log = p.log ++ list_repositories r ∷ [] } in
      elim (Option-cases (o.ctx_err asked.log)) [
        | inl live ↦
            rw (after_discovery, live) (act-Grows o (list_repositories r) p, λ h. absurd (cc))
        | inr (ended, why) ↦
            rw (after_discovery, why) (act-Grows o (list_repositories r) p, λ h. absurd (cc))
      ]
  listing-JobSound concurrency r credential (ok ds) p answered =
      let git = resolve_git_credential (some credential) in
      let asked = record p { log = p.log ++ list_repositories r ∷ [] } in
      let each = provider_item wide parse o r git in
      let grows = λ (d : Discovered) (q : Progress). (provider_item_lem wide parse o r git d q).0 in
      let out = for_each_parallel o each concurrency ds asked in
      let g = for_each_parallel-Grows o each grows concurrency ds asked in
      (
        subst (Grows p) (sym (provider_result-same out))
            (Grows-trans (act-Grows o (list_repositories r) p) g),
        provider_result-lem r credential asked ds p.log [] out g refl answered (
            for_each_parallel-AllMet o each grows (DiscoveredVisited wide parse o r git)
              (λ d q. (provider_item_lem wide parse o r git d q).1) (DiscoveredVisited-stays r git)
              concurrency ds asked),
      )

  pub provider-JobSound :
      (concurrency : ℕ) (r : Repository) (credential : Credential) (p : Progress)
      → JobSound
          (some r)
          (discover credential)
          p
          (run_provider_mode wide parse o concurrency r credential p)
  unfolding run_provider_mode
  provider-JobSound concurrency r credential p =
      elim (Option-cases (o.resolve_provider r.provider)) [
        | inr (e, refused) ↦ rw (run_provider_mode, refused) (Grows-refl p, λ h. absurd (cc))
        | inl known ↦
            rw (run_provider_mode, known)
              (listing-JobSound concurrency r credential (o.list_answer p.log r credential) p refl)
      ]

  url_result-lem :
      (r : Repository) (git : Option GitCredential) (urls : List Bytes) (out : OutcomeOf E)
      → (out.1 ≡ none → All (λ url. UrlVisited wide parse o r git url out.0) urls)
      → (url_result wide parse o out).1 ≡ job_done true
      → All (λ url. UrlVisited wide parse o r git url (url_result wide parse o out).0) urls
  url_result-lem r git urls (q, none) all h = all refl
  url_result-lem r git urls (q, some e) all h = absurd (cc)

  pub url-JobSound :
      (concurrency : ℕ) (r : Repository) (urls : List Bytes) (git : Option GitCredential)
      (p : Progress)
      → JobSound (some r) (fetch urls git) p (run_url_mode wide parse o concurrency r urls git p)
  unfolding run_url_mode
  url-JobSound concurrency r urls git p =
      let each = url_item wide parse o r git in
      let grows = λ (url : Bytes) (q : Progress). (url_item_lem wide parse o r git url q).0 in
      let out = for_each_parallel o each concurrency urls p in
      (
        subst (Grows p) (sym (url_result-same out))
            (for_each_parallel-Grows o each grows concurrency urls p),
        url_result-lem r git urls out (
            for_each_parallel-AllMet o each grows (UrlVisited wide parse o r git)
              (λ url q. (url_item_lem wide parse o r git url q).1) (UrlVisited-stays r git)
              concurrency urls p),
      )
