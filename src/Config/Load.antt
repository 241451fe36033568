-- ===== src/Config/Load.antt =====
-- internal/config/loader.go: the loading of a settings file.
pub mod Sound
use git_backup.Base.{
  Bytes, Bool, List, Option, [], any, bytes, false, if◌then◌else◌, map, none, some, text_eq, true,
  ◌++◌, ◌||◌, ◌∷◌,
}
use git_backup.Base.Result.{Result, err, ok}
use git_backup.Config.Normalize.{RawSettings, RawStorage, normalize}
use git_backup.Config.Secrets.{SecretError, resolve_secret}
use git_backup.Config.Settings.{
  Credential, Settings, signature_full, signature_streaming, signature_unsigned,
}
use git_backup.Config.Validate.{SettingsError, validate}
use git_backup.Logging.{parse_level}
use git_backup.Paths.Url.{Url}
use git_backup.Text.Case.{equal_fold, to_lower}
use git_backup.Text.Trim.{is_blank}

-- What the source reads of the YAML document: the keys of the top mapping, each with its keys where it is a mapping itself.
abbrev pub Document : Type 0
Document = List (Bytes × Option (List Bytes))

-- `equal_fold` is `strings.EqualFold`.
module _ (equal_fold : Bytes → Bytes → Bool) where
  abbrev pub find_key : Document → Bytes → Option (Option (List Bytes))
  find_key [] key = none
  find_key ((name, value) ∷ rest) key =
      let later_one = find_key rest key in if equal_fold name key then some value else later_one

  abbrev pub has_name : List Bytes → Bytes → Bool
  has_name names key = any (λ name. equal_fold name key) names

  abbrev pub is_found : Option (Option (List Bytes)) → Bool
  is_found none = false
  is_found (some value) = true

  abbrev pub retired : Bool → Bytes → List Bytes
  retired true key = key ∷ []
  retired false key = []

  abbrev pub deprecated_schedule : Option (Option (List Bytes)) → List Bytes
  deprecated_schedule (some (some names)) =
      retired (has_name names (bytes "backups")) (bytes "schedule.backups")
      ++ retired (has_name names (bytes "mirrors")) (bytes "schedule.mirrors")
  deprecated_schedule _ = []

  -- The retired keys of the document; `none` where it is blank, does not parse or is no mapping.
  unfoldable pub validate_deprecated_keys : Option Document → List Bytes
  validate_deprecated_keys none = []
  validate_deprecated_keys (some document) =
      retired (is_found (find_key document (bytes "backups"))) (bytes "backups")
      ++ (retired (is_found (find_key document (bytes "mirrors"))) (bytes "mirrors")
          ++ deprecated_schedule (find_key document (bytes "schedule")))

pub data LoadError (E : Type 0) : Type 0 where
  path_required : LoadError E
  file_not_found : LoadError E
  load_failed : E → LoadError E
  key_retired : Bytes → LoadError E
  yaml_error : E → LoadError E
  level_invalid : Bytes → LoadError E
  signature_invalid : Bytes → LoadError E
  secret_error : Bytes → SecretError E → LoadError E
  invalid : SettingsError → LoadError E

abbrev pub is_some {ℓ} : {A : Type ℓ} → Option A → Bool
is_some none = false
is_some (some a) = true

abbrev pub text_or_empty : Option Bytes → Bytes
text_or_empty none = []
text_or_empty (some s) = s

abbrev pub signature_of : Option RawStorage → Bytes
signature_of none = []
signature_of (some raw) = raw.payload_signature_mode

abbrev pub is_signature_mode : Bytes → Bool
is_signature_mode mode =
    text_eq mode signature_full
    || text_eq mode signature_streaming
    || text_eq mode signature_unsigned

module _ {E : Type 0} (wide : Bytes → Bytes) where
  abbrev pub report_unless : Bool → LoadError E → List (LoadError E)
  report_unless true e = []
  report_unless false e = e ∷ []

  unfoldable pub validate_raw_enums : RawSettings → List (LoadError E)
  unfolding is_blank parse_level to_lower
  validate_raw_enums raw =
      let level = text_or_empty raw.log_level in
      let mode = signature_of raw.storage in
      report_unless (is_blank level || is_some (parse_level wide level)) (level_invalid level)
      ++ report_unless (is_blank mode || is_signature_mode (to_lower wide mode))
          (signature_invalid mode)

-- The secrets one after the other; the errors are collected.
module _ {E : Type 0} (read_file : Bytes → Result E Bytes) (getenv : Bytes → Bytes) where
  abbrev pub secret_errors : Bytes → Option (SecretError E) → List (LoadError E)
  secret_errors place none = []
  secret_errors place (some e) = secret_error place e ∷ []

  abbrev pub resolve_credentials :
      List (Bytes × Credential) → List (Bytes × Credential) × List (LoadError E)
  resolve_credentials [] = ([], [])
  resolve_credentials ((key, credential) ∷ rest) =
      let (secret, e) =
        resolve_secret read_file getenv credential.api_key credential.api_key_file in
      let (resolved, errors) = resolve_credentials rest in
      (
        (key, record credential { api_key = secret }) ∷ resolved,
        secret_errors credential.name e ++ errors,
      )

  unfoldable pub resolve_secrets : Settings → Settings × List (LoadError E)
  unfolding resolve_secret
  resolve_secrets s =
      let (id, id_error) =
        resolve_secret read_file getenv s.storage.access_key_id s.storage.access_key_id_file in
      let (secret, secret_err) =
        resolve_secret read_file getenv s.storage.secret_access_key
          s.storage.secret_access_key_file in
      let (credentials, errors) = resolve_credentials s.credentials in
      let storage = s.storage in
      (
        record s {
          storage = record storage { access_key_id = id; secret_access_key = secret };
          credentials = credentials;
        },
        secret_errors (bytes "storage.accessKeyId") id_error
            ++ (secret_errors (bytes "storage.secretAccessKey") secret_err ++ errors),
      )

-- The file system, the YAML library and the libraries of the validation.
module _ {E S : Type 0} (wide : Bytes → Bytes) (equal_fold : Bytes → Bytes → Bool)
    (is_regular_file : Bytes → Bool) (read_file : Bytes → Result E Bytes) (getenv : Bytes → Bytes)
    (document : Bytes → Option Document) (decode : Bytes → Result E RawSettings)
    (parse : Bytes → Option Url) (parse_spec : Bytes → Option S) where
  abbrev pub accept : Settings → List SettingsError → Result (List (LoadError E)) Settings
  accept settings [] = ok settings
  accept settings (e ∷ errors) = err (map invalid (e ∷ errors))

  abbrev pub with_secrets : Settings × List (LoadError E) → Result (List (LoadError E)) Settings
  with_secrets (settings, []) = accept settings (validate wide parse parse_spec settings)
  with_secrets (settings, e ∷ errors) = err (e ∷ errors)

  abbrev pub with_enums : RawSettings → List (LoadError E) → Result (List (LoadError E)) Settings
  with_enums raw [] = with_secrets (resolve_secrets read_file getenv (normalize wide raw))
  with_enums raw (e ∷ errors) = err (e ∷ errors)

  abbrev pub with_decoded : Result E RawSettings → Result (List (LoadError E)) Settings
  with_decoded (err e) = err (yaml_error e ∷ [])
  with_decoded (ok raw) = with_enums raw (validate_raw_enums wide raw)

  abbrev pub with_keys : Bytes → List Bytes → Result (List (LoadError E)) Settings
  with_keys content [] = with_decoded (decode content)
  with_keys content (key ∷ keys) = err (map key_retired (key ∷ keys))

  abbrev pub with_content : Result E Bytes → Result (List (LoadError E)) Settings
  with_content (err e) = err (load_failed e ∷ [])
  with_content (ok content) =
      with_keys content (validate_deprecated_keys equal_fold (document content))

  unfoldable pub load : Bytes → Result (List (LoadError E)) Settings
  unfolding is_blank validate_deprecated_keys validate_raw_enums resolve_secrets normalize validate
  load path =
      if is_blank path
      then err (path_required ∷ [])
      else if is_regular_file path
      then with_content (read_file path)
      else err (file_not_found ∷ [])
