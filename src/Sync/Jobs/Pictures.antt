-- ===== src/Sync/Jobs/Pictures.antt =====
-- internal/backup/sync.go: where the picture is complete, each job has been met.
use git_backup.Base.{
  Bytes, All, Bool, List, Option, Option-cases, [], ap, append-nil, arith, false, inl, inr, none,
  refl, some, subst, sym, true, ℕ, ◌&&◌, ◌∷◌, ◌≡◌,
}
use git_backup.Base.Result.{Result, ok}
use git_backup.Config.Settings.{Credential, Repository}
use git_backup.Paths.Url.{Url}
use git_backup.Retention.Run.{plan}
use git_backup.Sync.Jobs.{JobResult, fresh, job_done, job_failed, run_jobs, run_planned, settle_job}
use git_backup.Sync.Jobs.Growth.{Grows, Grows-refl, Grows-trans}
use git_backup.Sync.Jobs.Sound.{JobSound, PlanMet, PlanMet-stays, provider-JobSound, url-JobSound}
use git_backup.Sync.Plan.{
  JobPlan, discover, entry_missing, fetch, incomplete_job, mode_invalid, plan_job,
}
use git_backup.Sync.Run.{Outside, Progress}

fresh-Grows : (p : Progress) → Grows p (record p { synced = 0; skipped_inaccessible = 0 })
fresh-Grows p = record { more = []; logged = append-nil p.log; keeps = λ name h. h }

module _ {E : Type 0} (wide : Bytes → Bytes) (parse : Bytes → Option Url) (o : Outside E) where
  planned-JobSound :
      (concurrency : ℕ) (entry : Option Repository) (plan : JobPlan) (p : Progress)
      → JobSound wide parse o entry plan p (run_planned wide parse o concurrency entry plan p)
  planned-JobSound concurrency (some r) (discover credential) p =
      let (g, h) = provider-JobSound wide parse o concurrency r credential (fresh wide parse o p) in
      (Grows-trans (fresh-Grows p) g, h)
  planned-JobSound concurrency (some r) (fetch urls git) p =
      let (g, h) = url-JobSound wide parse o concurrency r urls git (fresh wide parse o p) in
      (Grows-trans (fresh-Grows p) g, h)
  planned-JobSound concurrency (some r) entry_missing p = (fresh-Grows p, λ h. absurd (cc))
  planned-JobSound concurrency (some r) mode_invalid p = (fresh-Grows p, λ h. absurd (cc))
  planned-JobSound concurrency (some r) incomplete_job p = (fresh-Grows p, λ h. absurd (cc))
  planned-JobSound concurrency none plan p = (fresh-Grows p, λ h. absurd (cc))

  -- The remaining jobs let the pass grow, and all are met where the picture is complete.
  abbrev pub JobsSound :
      List (Bytes × Credential)
      → List (Option Repository)
      → Bool
      → Progress
      → Progress × Result E Bool
      → Type 0
  JobsSound credentials entries whole p r =
      Grows p r.0
      × (r.1 ≡ ok true
          → (whole ≡ true)
            × All (λ entry. PlanMet wide parse o entry (plan_job wide credentials entry) r.0)
                entries)

  settle_job-JobsSound :
      (credentials : List (Bytes × Credential)) (entry : Option Repository)
      (entries : List (Option Repository)) (whole : Bool)
      (next : Bool → Progress → Progress × Result E Bool)
      → ((c : Bool) (q : Progress) → JobsSound credentials entries c q (next c q))
      → (p : Progress) (r : Progress × JobResult E)
      → JobSound wide parse o entry (plan_job wide credentials entry) p r
      → JobsSound credentials (entry ∷ entries) whole p (settle_job wide parse o next whole r)
  settle_job-JobsSound credentials entry entries whole next ih p (q, job_failed e) (g, met) =
      elim (Option-cases (o.ctx_err q.log)) [
        | inr (ended, why) ↦ rw (settle_job, why) (g, λ h. absurd (cc))
        | inl live ↦
            rw (settle_job, live)
              (Grows-trans g (ih false q).0, λ h. absurd (cc (((ih false q).1 h).0)))
      ]
  settle_job-JobsSound credentials entry entries whole next ih p (q, job_done done) (g, met) =
      let (grown, rest) = ih (whole && done) q in
      (
        Grows-trans g grown,
        λ h.
            let (both_true, others) = rest h in
            (
              ground arith,
              (
                PlanMet-stays wide parse o entry (plan_job wide credentials entry) q
                    (next (whole && done) q).0 grown (met (ap job_done (ground arith))),
                others,
              ),
            ),
      )

  run_jobs_live :
      (concurrency : ℕ) (credentials : List (Bytes × Credential)) (entry : Option Repository)
      (entries : List (Option Repository)) (whole : Bool) (p : Progress)
      → o.ctx_err p.log ≡ none
      → run_jobs wide parse o concurrency credentials (entry ∷ entries) whole p
        ≡ settle_job wide parse o
            (run_jobs wide parse o concurrency credentials entries)
            whole
            (run_planned wide parse o concurrency entry (plan_job wide credentials entry) p)
  unfolding run_jobs
  run_jobs_live concurrency credentials entry entries whole p live = rw (run_jobs, live) refl

  pub run_jobs-JobsSound :
      (concurrency : ℕ) (credentials : List (Bytes × Credential))
      (entries : List (Option Repository)) (whole : Bool) (p : Progress)
      → JobsSound credentials entries whole p
          (run_jobs wide parse o concurrency credentials entries whole p)
  unfolding run_jobs
  run_jobs-JobsSound concurrency credentials [] whole p = (Grows-refl p, λ h. (cc h, tt))
  run_jobs-JobsSound concurrency credentials (entry ∷ entries) whole p =
      let next = run_jobs wide parse o concurrency credentials entries in
      let plan = plan_job wide credentials entry in
      let result = run_planned wide parse o concurrency entry plan p in
      elim (Option-cases (o.ctx_err p.log)) [
        | inr (e, ended) ↦ rw (run_jobs, ended) (Grows-refl p, λ h. absurd (cc))
        | inl live ↦
            subst (JobsSound credentials (entry ∷ entries) whole p)
              (sym (run_jobs_live concurrency credentials entry entries whole p live))
              (settle_job-JobsSound credentials entry entries whole next
                (run_jobs-JobsSound concurrency credentials entries) p result
                (planned-JobSound concurrency entry plan p))
      ]
