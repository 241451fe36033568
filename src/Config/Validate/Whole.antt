-- ===== src/Config/Validate/Whole.antt =====
-- internal/config/loader.go: the settings that validation accepts.
use git_backup.Base.{
  Bytes, All, Bool-cases, List, Option, [], ap, arith, false, inl, inr, none, refl, some, suc,
  text_eq, text_eq_refl, text_eq_sound, ℕ, ◌||◌, ◌↔◌, ◌∙◌, ◌∷◌, ◌≡◌, ◌≤◌,
}
use git_backup.Base.Int.{ltb_ℤ, negsuc, pos, pos_part, ℤ}
use git_backup.Base.Result.{Result, err, ok}
use git_backup.Config.Settings.{Credential, Repository, Settings, mode_provider, mode_url}
use git_backup.Config.Validate.{
  SettingsError, reject_cron, report, validate, validate_repositories, validate_repository,
}
use git_backup.Config.Validate.Meaning.{
  IsFilled, IsNatural, IsPositive, ValidJob, ValidStorage, both, unreported, validate_provider_iff,
  validate_storage_iff, validate_url_iff,
}
use git_backup.Paths.Url.{Url}
use git_backup.Schedule.{CronError, parse_cron}
use git_backup.Text.Trim.{is_blank, trim_space}

in_range :
    (port : ℤ)
    → ((ltb_ℤ port (pos 0) || ltb_ℤ (pos 65535) port) ≡ false)
      ↔ (IsNatural port × (pos_part port ≤ 65535))
in_range (pos n) = (λ h. (refl, ground arith), λ h. ground (arith, h.1))
in_range (negsuc n) = (λ h. absurd (ground arith), λ h. absurd (omega (arith, h.0)))

at_least_one : (n : ℤ) (e : SettingsError) → (report (ltb_ℤ n (pos 1)) e ≡ []) ↔ IsPositive n
at_least_one (pos n) e = (λ h. ground arith, λ h. ground arith)
at_least_one (negsuc n) e = (λ h. absurd (ground arith), λ h. absurd (omega (arith, h)))

module _ (wide : Bytes → Bytes) (parse : Bytes → Option Url) where
  abbrev pub ValidJobs : List (Bytes × Credential) → List (Option Repository) → Type 0
  ValidJobs credentials = All (ValidJob wide parse credentials)

  filled_mode : (mode name : Bytes) → is_blank name ≡ false → mode ≡ name → is_blank mode ≡ false
  filled_mode mode name filled same = ap is_blank same ∙ filled

  provider_filled : is_blank mode_provider ≡ false
  unfolding is_blank trim_space text_eq
  provider_filled = refl

  url_filled : is_blank mode_url ≡ false
  unfolding is_blank trim_space text_eq
  url_filled = refl

  provider_is_no_url : text_eq mode_url mode_provider ≡ false
  unfolding text_eq
  provider_is_no_url = refl

  job_sound :
      (credentials : List (Bytes × Credential)) (i : ℕ) (r : Repository)
      → validate_repository wide parse credentials i (some r) ≡ []
      → ValidJob wide parse credentials (some r)
  unfolding validate_repository
  job_sound credentials i r h = elim (Bool-cases (is_blank r.mode)) [
    | inl blank ↦ absurd (ground arith)
    | inr filled ↦ elim (Bool-cases (text_eq r.mode mode_provider)) [
      | inl provider ↦ inl (
        text_eq_sound r.mode mode_provider provider,
        (validate_provider_iff wide parse credentials i r).0 (ground arith),
      )
      | inr other ↦ elim (Bool-cases (text_eq r.mode mode_url)) [
        | inl url ↦ inr (
          text_eq_sound r.mode mode_url url,
          (validate_url_iff wide parse credentials i r).0 (ground arith),
        )
        | inr neither ↦ absurd (ground arith)
      ]
    ]
  ]

  job_complete :
      (credentials : List (Bytes × Credential)) (i : ℕ) (entry : Option Repository)
      → ValidJob wide parse credentials entry
      → validate_repository wide parse credentials i entry ≡ []
  unfolding validate_repository
  job_complete credentials i none h = elim h [ ]
  job_complete credentials i (some r) (inl (mode, valid)) =
      rw (validate_repository, mode, provider_filled, text_eq_refl mode_provider)
        ((validate_provider_iff wide parse credentials i r).1 valid)
  job_complete credentials i (some r) (inr (mode, valid)) =
      rw (validate_repository, mode, url_filled, provider_is_no_url, text_eq_refl mode_url)
        ((validate_url_iff wide parse credentials i r).1 valid)

  job_iff :
      (credentials : List (Bytes × Credential)) (i : ℕ) (entry : Option Repository)
      → (validate_repository wide parse credentials i entry ≡ [])
        ↔ ValidJob wide parse credentials entry
  job_iff credentials i entry = (sound entry, job_complete credentials i entry)
    where
      sound :
          (o : Option Repository)
          → validate_repository wide parse credentials i o ≡ []
          → ValidJob wide parse credentials o
      sound none h = unfold validate_repository in cc h
      sound (some r) h = job_sound credentials i r h

  jobs_iff :
      (credentials : List (Bytes × Credential)) (i : ℕ) (entries : List (Option Repository))
      → (validate_repositories wide parse credentials i entries ≡ [])
        ↔ ValidJobs credentials entries
  unfolding validate_repositories
  jobs_iff credentials i [] = (λ h. tt, λ h. refl)
  jobs_iff credentials i (entry ∷ entries) =
      both (validate_repository wide parse credentials i entry)
        (validate_repositories wide parse credentials (suc i) entries) (job_iff credentials i entry)
        (jobs_iff credentials (suc i) entries)

  module _ {S : Type 0} (parse_spec : Bytes → Option S) where
    abbrev pub IsCron : Bytes → Type 0
    IsCron expression = (spec : S) × (parse_cron parse_spec expression ≡ ok spec)

    abbrev pub ValidSettings : Settings → Type 0
    ValidSettings s =
        ValidStorage wide parse s.storage
        × (ValidJobs s.credentials s.repositories
            × (IsCron s.cron
                × (IsPositive s.concurrency_repositories
                    × (IsPositive s.concurrency_metadata
                        × ((IsNatural s.health_port × (pos_part s.health_port ≤ 65535))
                            × IsFilled s.health_bind)))))

    cron_iff :
        (r : Result CronError S)
        → (reject_cron wide parse parse_spec r ≡ []) ↔ ((spec : S) × (r ≡ ok spec))
    cron_iff (ok spec) = (λ h. (spec, refl), λ h. refl)
    cron_iff (err e) = (λ h. absurd (cc h), λ h. absurd (cc h.1))

    through : {P Q R : Type 0} → (P ↔ Q) → (Q ↔ R) → (P ↔ R)
    through f g = (λ p. g.0 (f.0 p), λ r. f.1 (g.1 r))

    pub validate_iff : (s : Settings) → (validate wide parse parse_spec s ≡ []) ↔ ValidSettings s
    unfolding validate
    validate_iff s = both _ _ (validate_storage_iff wide parse s.storage) (
        both _ _ (jobs_iff s.credentials 0 s.repositories) (
          both _ _ (cron_iff (parse_cron parse_spec s.cron)) (
            both _ _ (at_least_one s.concurrency_repositories _) (
              both _ _ (at_least_one s.concurrency_metadata _) (
                both _ _ (through (unreported _ _) (in_range s.health_port))
                  (unreported (is_blank s.health_bind) _))))))
