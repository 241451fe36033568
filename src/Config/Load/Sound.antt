-- ===== src/Config/Load/Sound.antt =====
-- internal/config/loader.go: what a caller can rely on after `Load`.
use git_backup.Base.{Bytes, Bool, Bool-cases, List, Option, [], inl, inr, refl, ◌∷◌, ◌≡◌, ◌≢◌}
use git_backup.Base.Result.{Result, err, ok}
use git_backup.Config.Load.{
  Document, LoadError, accept, load, resolve_secrets, validate_deprecated_keys, validate_raw_enums,
  with_content, with_decoded, with_enums, with_keys, with_secrets,
}
use git_backup.Config.Normalize.{RawSettings, normalize}
use git_backup.Config.Settings.{Settings}
use git_backup.Config.Validate.{SettingsError, validate}
use git_backup.Config.Validate.Whole.{ValidSettings, validate_iff}
use git_backup.Paths.Url.{Url}
use git_backup.Text.Trim.{is_blank}

module _ {E S : Type 0} (wide : Bytes → Bytes) (equal_fold : Bytes → Bytes → Bool)
    (is_regular_file : Bytes → Bool) (read_file : Bytes → Result E Bytes) (getenv : Bytes → Bytes)
    (document : Bytes → Option Document) (decode : Bytes → Result E RawSettings)
    (parse : Bytes → Option Url) (parse_spec : Bytes → Option S) where
  -- Settings that satisfy the validation, or at least one error.
  abbrev pub IsSound : Result (List (LoadError E)) Settings → Type 0
  IsSound (ok settings) = ValidSettings wide parse parse_spec settings
  IsSound (err errors) = errors ≢ []

  accept-IsSound :
      (s : Settings) (errors : List SettingsError)
      → validate wide parse parse_spec s ≡ errors
      → IsSound (
          accept wide equal_fold is_regular_file read_file getenv document decode parse parse_spec s
            errors)
  accept-IsSound s [] h = (validate_iff wide parse parse_spec s).0 h
  accept-IsSound s (e ∷ errors) h = λ g. cc

  with_secrets-IsSound :
      (p : Settings × List (LoadError E))
      → IsSound (
          with_secrets wide equal_fold is_regular_file read_file getenv document decode parse
            parse_spec p)
  with_secrets-IsSound (s, []) = accept-IsSound s (validate wide parse parse_spec s) refl
  with_secrets-IsSound (s, e ∷ errors) = λ g. cc

  with_enums-IsSound :
      (raw : RawSettings) (errors : List (LoadError E))
      → IsSound (
          with_enums wide equal_fold is_regular_file read_file getenv document decode parse
            parse_spec raw errors)
  with_enums-IsSound raw [] =
      with_secrets-IsSound (resolve_secrets read_file getenv (normalize wide raw))
  with_enums-IsSound raw (e ∷ errors) = λ g. cc

  with_keys-IsSound :
      (content : Bytes) (keys : List Bytes)
      → IsSound (
          with_keys wide equal_fold is_regular_file read_file getenv document decode parse
            parse_spec content keys)
  with_keys-IsSound content (key ∷ keys) = λ g. cc
  with_keys-IsSound content [] = decoded (decode content)
    where
      decoded :
          (r : Result E RawSettings)
          → IsSound (
              with_decoded wide equal_fold is_regular_file read_file getenv document decode parse
                parse_spec r)
      decoded (err e) = λ g. cc
      decoded (ok raw) = with_enums-IsSound raw (validate_raw_enums wide raw)

  with_content-IsSound :
      (r : Result E Bytes)
      → IsSound (
          with_content wide equal_fold is_regular_file read_file getenv document decode parse
            parse_spec r)
  with_content-IsSound (err e) = λ g. cc
  with_content-IsSound (ok content) =
      with_keys-IsSound content (validate_deprecated_keys equal_fold (document content))

  -- Whatever the file and the libraries give, loading yields valid settings or a list of errors that is not empty.
  pub load-IsSound :
      (path : Bytes)
      → IsSound (
          load wide equal_fold is_regular_file read_file getenv document decode parse parse_spec
            path)
  unfolding load
  load-IsSound path = elim (Bool-cases (is_blank path)) [
    | inl blank ↦ rw (load, blank) (λ g. cc)
    | inr filled ↦ elim (Bool-cases (is_regular_file path)) [
      | inl regular ↦ rw (load, filled, regular) (with_content-IsSound (read_file path))
      | inr other ↦ rw (load, filled, other) (λ g. cc)
    ]
  ]
