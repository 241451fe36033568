-- ===== src/Sync/Plan/Valid.antt =====
-- internal/backup/sync.go: the jobs of settings that internal/config accepts.
use git_backup.Base.{
  Bytes, All, ap, ◌∙◌, Bool-cases, List, Option, Option-cases, [], arith, false, inl, inr, length,
  none, refl, some, subst, sym, text_eq, text_eq_refl, text_eq_sound, true, ◌∷◌, ◌≡◌, ◌≤◌, ◌⊎◌,
}
use git_backup.Config.Settings.{
  Credential, Repository, Settings, find_credential, mode_provider, mode_url,
}
use git_backup.Config.Validate.{is_http_url, validate}
use git_backup.Config.Validate.Meaning.{ValidJob, ValidProviderJob, ValidUrlJob}
use git_backup.Config.Validate.Whole.{validate_iff}
use git_backup.Paths.Url.{Url, is_http_or_https, parse_http_url}
use git_backup.Sync.Plan.{
  GitCredential, JobPlan, resolve_git_credential, discover, discover_with, distinct_urls, fetch,
  fetch_with, plan_job, plan_provider_job, plan_url_job,
}
use git_backup.Text.Case.{to_lower}
use git_backup.Text.Trim.{is_blank, trim_space}

-- `url.Parse` of an empty text has no scheme.
abbrev pub KeepsEmpty : (Bytes → Option Url) → Type 0
KeepsEmpty parse = (u : Url) → parse [] ≡ some u → u.scheme ≡ []

url_is_no_provider : text_eq mode_url mode_provider ≡ false
unfolding text_eq
url_is_no_provider = refl

module _ (wide : Bytes → Bytes) (parse : Bytes → Option Url) where
  -- No login where the job names no credential, and else the one of the entry that it names.
  abbrev pub LoginNamed : List (Bytes × Credential) → Repository → Option GitCredential → Type 0
  LoginNamed credentials r git =
      ((is_blank r.credential ≡ true) × (git ≡ none))
      ⊎ ((is_blank r.credential ≡ false)
          × ((c : Credential) × (find_credential (to_lower wide r.credential) credentials ≡ some c)
              × (git ≡ resolve_git_credential (some c))))

  -- A provider job asks its forge with the credential that it names; a URL job fetches its URLs, of which there is one, with the login that it names.
  abbrev pub IsRunnable : List (Bytes × Credential) → Option Repository → JobPlan → Type 0
  IsRunnable credentials (some r) (discover c) =
      (r.mode ≡ mode_provider) × (find_credential (to_lower wide r.credential) credentials ≡ some c)
  IsRunnable credentials (some r) (fetch (url ∷ urls) git) =
      (r.mode ≡ mode_url)
      × ((url ∷ urls ≡ distinct_urls wide [] r.urls) × LoginNamed credentials r git)
  IsRunnable credentials entry _ = ⊥

  discover_with-IsRunnable :
      (credentials : List (Bytes × Credential)) (r : Repository)
      → r.mode ≡ mode_provider
      → (o : Option Credential) → find_credential (to_lower wide r.credential) credentials ≡ o
      → elim o [ none ↦ false | some c ↦ true ] ≡ true
      → IsRunnable credentials (some r) (discover_with wide o)
  discover_with-IsRunnable credentials r mode none found h = cc
  discover_with-IsRunnable credentials r mode (some c) found h = (mode, found)

  fetch_with-IsRunnable :
      (credentials : List (Bytes × Credential)) (r : Repository)
      → r.mode ≡ mode_url
      → is_blank r.credential ≡ false
      → (url : Bytes) (urls : List Bytes) → url ∷ urls ≡ distinct_urls wide [] r.urls
      → (o : Option Credential) → find_credential (to_lower wide r.credential) credentials ≡ o
      → elim o [ none ↦ false | some c ↦ true ] ≡ true
      → IsRunnable credentials (some r) (fetch_with wide (url ∷ urls) o)
  fetch_with-IsRunnable credentials r mode filled url urls kept none found h = cc
  fetch_with-IsRunnable credentials r mode filled url urls kept (some c) found h =
      (mode, (kept, inr (filled, (c, found, refl))))

  provider-IsRunnable :
      (credentials : List (Bytes × Credential)) (r : Repository)
      → r.mode ≡ mode_provider
      → ValidProviderJob wide parse credentials r
      → IsRunnable credentials (some r) (plan_provider_job wide credentials r)
  provider-IsRunnable credentials r mode valid =
      rw (valid.0.0, valid.1.0.0)
        (discover_with-IsRunnable credentials r mode
          (find_credential (to_lower wide r.credential) credentials) refl valid.1.0.1)

  -- A blank text is no URL.
  blank_url :
      KeepsEmpty parse → (url : Bytes) → is_blank url ≡ true → is_http_url wide parse url ≡ false
  unfolding is_blank parse_http_url is_http_or_https text_eq
  blank_url keeps url h =
      rw (is_http_url, text_eq_sound (trim_space url) [] h)
        (elim (Option-cases (parse [])) [
          | inl nothing_parsed ↦ rw nothing_parsed refl
          | inr (u, found) ↦ rw (found, keeps u found) refl
        ])

  -- The first URL that is not blank is kept.
  distinct_urls-filled :
      KeepsEmpty parse
      → (urls : List Bytes) → 1 ≤ length urls
      → All (λ url. is_http_url wide parse url ≡ true) urls
      → (url : Bytes) × (rest : List Bytes) × (distinct_urls wide [] urls ≡ url ∷ rest)
  unfolding distinct_urls
  distinct_urls-filled keeps [] h all = absurd (omega (arith, h))
  distinct_urls-filled keeps (url ∷ urls) h all = elim (Bool-cases (is_blank url)) [
    | inl blank ↦ absurd (cc (all.0, blank_url keeps url blank))
    | inr filled ↦ (
      url,
      distinct_urls wide (to_lower wide (trim_space url) ∷ []) urls,
      rw (distinct_urls, filled) refl,
    )
  ]

  some_urls-IsRunnable :
      (credentials : List (Bytes × Credential)) (r : Repository)
      → r.mode ≡ mode_url
      → (url : Bytes) (urls : List Bytes) → url ∷ urls ≡ distinct_urls wide [] r.urls
      → ValidUrlJob wide parse credentials r
      → IsRunnable credentials (some r) (plan_url_job wide credentials r (url ∷ urls))
  some_urls-IsRunnable credentials r mode url urls kept valid =
      elim (Bool-cases (is_blank r.credential)) [
        | inl blank ↦ rw blank (mode, (kept, inl (blank, refl)))
        | inr filled ↦ elim valid.1.1.1.1 [
          | inl blank ↦ absurd (cc)
          | inr known ↦ rw filled (
              fetch_with-IsRunnable credentials r mode filled url urls kept
                (find_credential (to_lower wide r.credential) credentials) refl known)
        ]
      ]

  job-IsRunnable :
      KeepsEmpty parse
      → (credentials : List (Bytes × Credential)) (entry : Option Repository)
      → ValidJob wide parse credentials entry
      → IsRunnable credentials entry (plan_job wide credentials entry)
  unfolding plan_job
  job-IsRunnable keeps credentials none valid = valid
  job-IsRunnable keeps credentials (some r) (inl (mode, valid)) =
      subst (IsRunnable credentials (some r)) (sym planned)
        (provider-IsRunnable credentials r mode valid)
    where
      planned : plan_job wide credentials (some r) ≡ plan_provider_job wide credentials r
      planned = unfold plan_job in rw (mode, text_eq_refl mode_provider) refl
  job-IsRunnable keeps credentials (some r) (inr (mode, valid)) =
      let (url, rest, kept) = distinct_urls-filled keeps r.urls valid.0.0 valid.0.1 in
      let planned : plan_job wide credentials (some r)
          ≡ plan_url_job wide credentials r (distinct_urls wide [] r.urls) =
        unfold plan_job in rw (mode, url_is_no_provider, text_eq_refl mode_url) refl in
      subst (IsRunnable credentials (some r))
        (sym (planned ∙ ap (plan_url_job wide credentials r) kept))
        (some_urls-IsRunnable credentials r mode url rest (sym kept) valid)

  -- Of settings for which validation reports nothing the backup pass skips no job, if the empty text parses to no scheme: a provider job asks its forge with the credential that the job names, and a URL job has at least one URL left of its distinct ones and fetches them with the login of the credential that it names, or with none where it names none.
  pub plan_job-validate :
      {S : Type 0} (parse_spec : Bytes → Option S)
      → KeepsEmpty parse
      → (s : Settings) → validate wide parse parse_spec s ≡ []
      → All
          (λ entry. IsRunnable s.credentials entry (plan_job wide s.credentials entry))
          s.repositories
  plan_job-validate parse_spec keeps s h =
      jobs s.repositories ((validate_iff wide parse parse_spec s).0 h).1.0
    where
      jobs :
          (entries : List (Option Repository))
          → All (ValidJob wide parse s.credentials) entries
          → All
              (λ entry. IsRunnable s.credentials entry (plan_job wide s.credentials entry))
              entries
      jobs [] all = tt
      jobs (entry ∷ entries) (valid, all) =
          (job-IsRunnable keeps s.credentials entry valid, jobs entries all)
