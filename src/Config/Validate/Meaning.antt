-- ===== src/Config/Validate/Meaning.antt =====
-- internal/config/loader.go: what it means that validation reports nothing.
use git_backup.Base.{
  Bytes, List, Option, [], false, length, refl, true, ◌++◌, ◌↔◌, ◌∷◌, ◌≡◌, ◌≤◌, ◌⊎◌, All, arith,
  suc, ℕ, Bool, if◌then◌else◌, none, not, some, ◌&&◌, ◌==◌, ltb,
}
use git_backup.Base.Int.{neg_part, pos_part, ℤ}
use git_backup.Config.Settings.{Credential, Repository, StorageSettings, mode_provider, mode_url}
use git_backup.Config.Validate.{
  is_http_url, is_supported_provider, validate_storage, is_known, validate_provider_repository,
  validate_urls, SettingsError, disallowed, flag_not_allowed, report, url_required, validate_flags,
  validate_url_repository,
}
use git_backup.Paths.Url.{Url}
use git_backup.Text.Trim.{is_blank}

-- Nothing is reported by two checks exactly if nothing is by either.
pub both :
    {A P Q : Type 0} (xs ys : List A)
    → ((xs ≡ []) ↔ P)
    → ((ys ≡ []) ↔ Q)
    → (xs ++ ys ≡ []) ↔ (P × Q)
both [] ys p q = (λ h. (p.0 refl, q.0 h), λ h. q.1 h.1)
both (x ∷ xs) ys p q = (λ h. cc, λ h. absurd (cc (p.1 h.0)))

-- A check that reports under a condition.
pub unreported : (b : Bool) (e : SettingsError) → (report b e ≡ []) ↔ (b ≡ false)
unreported b e = (λ h. ground arith, λ h. ground arith)

pub allowed : (b : Bool) (e : SettingsError) → (report (not b) e ≡ []) ↔ (b ≡ true)
allowed b e = (λ h. ground arith, λ h. ground arith)

-- A value that must be filled and pass a test.
filled_and :
    (blank test : Bool) (e f : SettingsError)
    → ((if blank then e ∷ [] else report (not test) f) ≡ []) ↔ ((blank ≡ false) × (test ≡ true))
filled_and blank test e f = (λ h. ground arith, λ h. ground arith)

-- A value that may be blank and passes a test otherwise.
blank_or :
    (blank test : Bool) (e : SettingsError)
    → (report (not blank && not test) e ≡ []) ↔ ((blank ≡ true) ⊎ (test ≡ true))
blank_or blank test e = (λ h. ground arith, λ h. ground arith)

none_of : (n : ℕ) (e : SettingsError) → (report (ltb 0 n) e ≡ []) ↔ (n ≡ 0)
none_of n e = (λ h. ground arith, λ h. ground arith)

-- Not below zero.
abbrev pub IsNatural : ℤ → Type 0
IsNatural n = neg_part n ≡ 0

abbrev pub IsPositive : ℤ → Type 0
IsPositive n = 1 ≤ pos_part n

abbrev pub IsFilled : Bytes → Type 0
IsFilled s = is_blank s ≡ false

module _ (wide : Bytes → Bytes) (parse : Bytes → Option Url) where
  abbrev pub IsHttpUrl : Bytes → Type 0
  IsHttpUrl value = is_http_url wide parse value ≡ true

  abbrev pub IsKnown : List (Bytes × Credential) → Bytes → Type 0
  IsKnown credentials name = is_known wide parse credentials name ≡ true

  abbrev pub ValidStorage : StorageSettings → Type 0
  ValidStorage s =
      IsFilled s.endpoint
      × IsHttpUrl s.endpoint
      × IsFilled s.region
      × IsFilled s.access_key_id
      × IsFilled s.secret_access_key
      × IsFilled s.bucket
      × IsNatural s.retention_minimum

  -- `artifacts` only beside what they belong to.
  abbrev pub Needs : Bool → Bool → Type 0
  Needs artifacts owner = artifacts ≡ true → owner ≡ true

  abbrev pub ValidProviderJob : List (Bytes × Credential) → Repository → Type 0
  ValidProviderJob credentials r =
      (IsFilled r.provider × (is_supported_provider wide parse r.provider ≡ true))
      × ((IsFilled r.credential × IsKnown credentials r.credential)
          × ((length r.urls ≡ 0)
              × (((is_blank r.base_url ≡ true) ⊎ IsHttpUrl r.base_url)
                  × (Needs r.include_issue_artifacts r.include_issues
                      × (Needs r.include_merge_requests_artifacts r.include_merge_requests
                          × Needs r.include_release_artifacts r.include_releases)))))

  abbrev pub ValidUrlJob : List (Bytes × Credential) → Repository → Type 0
  ValidUrlJob credentials r =
      ((1 ≤ length r.urls) × All IsHttpUrl r.urls)
      × ((is_blank r.provider ≡ true)
          × ((is_blank r.base_url ≡ true)
              × (All (λ flag. flag.1 ≡ false) (disallowed wide parse r)
                  × ((is_blank r.credential ≡ true) ⊎ IsKnown credentials r.credential))))

  abbrev pub ValidJob : List (Bytes × Credential) → Option Repository → Type 0
  ValidJob credentials none = ⊥
  ValidJob credentials (some r) =
      ((r.mode ≡ mode_provider) × ValidProviderJob credentials r)
      ⊎ ((r.mode ≡ mode_url) × ValidUrlJob credentials r)

  pub validate_storage_iff :
      (s : StorageSettings) → (validate_storage wide parse s ≡ []) ↔ ValidStorage s
  unfolding validate_storage
  validate_storage_iff s = (λ h. ground arith, λ h. ground arith)

  Needs-iff :
      (artifacts owner : Bool) (e : SettingsError)
      → (report (artifacts && not owner) e ≡ []) ↔ Needs artifacts owner
  Needs-iff artifacts owner e = (λ h. λ k. ground arith, λ h. ground (arith, h))

  pub validate_provider_iff :
      (credentials : List (Bytes × Credential)) (i : ℕ) (r : Repository)
      → (validate_provider_repository wide parse credentials i r ≡ [])
        ↔ ValidProviderJob credentials r
  unfolding validate_provider_repository
  validate_provider_iff credentials i r =
      both _ _ (filled_and (is_blank r.provider) (is_supported_provider wide parse r.provider) _ _)
        (both _ _
          (filled_and (is_blank r.credential) (is_known wide parse credentials r.credential) _ _)
          (both _ _ (none_of (length r.urls) _) (
            both _ _ (blank_or (is_blank r.base_url) (is_http_url wide parse r.base_url) _)
              (both _ _ (Needs-iff _ _ _) (both _ _ (Needs-iff _ _ _) (Needs-iff _ _ _))))))

  validate_urls_iff :
      (i j : ℕ) (urls : List Bytes) → (validate_urls wide parse i j urls ≡ []) ↔ All IsHttpUrl urls
  unfolding validate_urls
  validate_urls_iff i j [] = (λ h. tt, λ h. refl)
  validate_urls_iff i j (url ∷ urls) = (
    λ h. (ground arith, (validate_urls_iff i (suc j) urls).0 (ground arith)),
    λ h. rw (h.0, (validate_urls_iff i (suc j) urls).1 h.1) refl,
  )

  validate_flags_iff :
      (i : ℕ) (flags : List (Bytes × Bool))
      → (validate_flags wide parse i flags ≡ []) ↔ All (λ flag. flag.1 ≡ false) flags
  validate_flags_iff i [] = (λ h. tt, λ h. refl)
  validate_flags_iff i ((name, value) ∷ flags) =
      both (report value (flag_not_allowed i name)) (validate_flags wide parse i flags)
        (unreported value (flag_not_allowed i name)) (validate_flags_iff i flags)

  url_list_iff :
      (i : ℕ) (urls : List Bytes)
      → ((if length urls == 0 then url_required i ∷ [] else validate_urls wide parse i 0 urls) ≡ [])
        ↔ ((1 ≤ length urls) × All IsHttpUrl urls)
  url_list_iff i [] = (λ h. cc, λ h. absurd (omega (arith, h.0)))
  url_list_iff i (url ∷ urls) =
      let (forth, back) = validate_urls_iff i 0 (url ∷ urls) in
      (λ h. (omega arith, forth (ground arith)), λ h. ground (arith, back h.1))

  pub validate_url_iff :
      (credentials : List (Bytes × Credential)) (i : ℕ) (r : Repository)
      → (validate_url_repository wide parse credentials i r ≡ []) ↔ ValidUrlJob credentials r
  unfolding validate_url_repository
  validate_url_iff credentials i r = both _ _ (url_list_iff i r.urls) (
      both _ _ (allowed (is_blank r.provider) _) (
        both _ _ (allowed (is_blank r.base_url) _) (
          both _ _ (validate_flags_iff i (disallowed wide parse r))
            (blank_or (is_blank r.credential) (is_known wide parse credentials r.credential) _))))
