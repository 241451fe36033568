-- ===== src/Config/Secrets.antt =====
-- internal/config/secrets.go: one configured secret. `read_file` and `getenv` are the file system and the environment.
use git_backup.Base.{
  Bytes, Bool, Bool-cases, Option, [], any, bytes, drop, false, if◌then◌else◌, inl, inr, leb,
  length, none, not, refl, some, take, true, ℕ, ◌&&◌, ◌-◌, ◌==◌, ◌||◌, ◌∷◌, ◌≡◌, ◌⊎◌,
}
use git_backup.Base.Result.{Result, err, ok}
use git_backup.Text.Index.{has_suffix}
use git_backup.Text.Search.{has_prefix}
use git_backup.Text.Trim.{is_blank, trim_space}

abbrev is_letter : ℕ → Bool
is_letter c = (leb b'A' c && leb c b'Z') || (leb b'a' c && leb c b'z') || c == b'_'

abbrev is_name_byte : ℕ → Bool
is_name_byte c = is_letter c || (leb b'0' c && leb c b'9')

abbrev is_variable : Bytes → Bool
is_variable [] = false
is_variable (c ∷ s) = is_letter c && not (any (λ d. not (is_name_byte d)) s)

-- `envPlaceholder`: the name between `${` and `}`.
unfoldable pub env_placeholder : Bytes → Option Bytes
unfolding has_prefix has_suffix
env_placeholder s =
    let name = take (length s - 3) (drop 2 s) in
    if has_prefix (bytes "${") s && (has_suffix (bytes "}") s && is_variable name)
    then some name
    else none

pub data SecretError (E : Type 0) : Type 0 where
  both_set : SecretError E
  unreadable : E → SecretError E
  not_set : Bytes → SecretError E

module _ {E : Type 0} (read_file : Bytes → Result E Bytes) (getenv : Bytes → Bytes) where
  abbrev pub from_file : Result E Bytes → Bytes × Option (SecretError E)
  from_file (ok content) = (trim_space content, none)
  from_file (err e) = ([], some (unreadable e))

  abbrev pub from_variable : Bytes → Option Bytes → Bytes × Option (SecretError E)
  from_variable value none = (value, none)
  from_variable value (some variable) =
      if is_blank (getenv variable) then ([], some (not_set variable)) else (getenv variable, none)

  -- The secret, and the error that is recorded, if any.
  unfoldable pub resolve_secret : Bytes → Bytes → Bytes × Option (SecretError E)
  unfolding is_blank env_placeholder
  resolve_secret value file_path =
      if is_blank file_path
      then (if is_blank value
          then (value, none)
          else from_variable value (env_placeholder (trim_space value)))
      else (if is_blank value then from_file (read_file file_path) else ([], some both_set))

  -- Where a secret comes from.
  abbrev pub ComesFrom : Bytes → Bytes → Bytes → Option (SecretError E) → Type 0
  ComesFrom value file_path secret none =
      ((content : Bytes) × (is_blank file_path ≡ false)
        × (is_blank value ≡ true)
        × (read_file file_path ≡ ok content)
        × (secret ≡ trim_space content))
      ⊎ ((is_blank file_path ≡ true)
          × ((secret ≡ value)
              × ((is_blank value ≡ true) ⊎ (env_placeholder (trim_space value) ≡ none))))
      ⊎ ((is_blank file_path ≡ true)
          × ((is_blank value ≡ false)
              × ((variable : Bytes) × (env_placeholder (trim_space value) ≡ some variable)
                  × (secret ≡ getenv variable)
                  × (is_blank secret ≡ false))))
  ComesFrom value file_path secret (some both_set) =
      (secret ≡ []) × (is_blank file_path ≡ false) × (is_blank value ≡ false)
  ComesFrom value file_path secret (some (unreadable e)) =
      (secret ≡ [])
      × (is_blank file_path ≡ false)
      × (is_blank value ≡ true)
      × (read_file file_path ≡ err e)
  ComesFrom value file_path secret (some (not_set variable)) =
      (secret ≡ [])
      × (is_blank file_path ≡ true)
      × (is_blank value ≡ false)
      × (env_placeholder (trim_space value) ≡ some variable)
      × (is_blank (getenv variable) ≡ true)

  from_file-ComesFrom :
      (value file_path : Bytes) (r : Result E Bytes)
      → is_blank file_path ≡ false
      → is_blank value ≡ true
      → read_file file_path ≡ r
      → ComesFrom value file_path (from_file r).0 (from_file r).1
  from_file-ComesFrom value file_path (ok content) given empty e =
      inl (content, given, empty, e, refl)
  from_file-ComesFrom value file_path (err e) given empty h = (refl, given, empty, h)

  from_variable-ComesFrom :
      (value file_path : Bytes) (o : Option Bytes)
      → is_blank file_path ≡ true
      → is_blank value ≡ false
      → env_placeholder (trim_space value) ≡ o
      → ComesFrom value file_path (from_variable value o).0 (from_variable value o).1
  from_variable-ComesFrom value file_path none no_file given e = inr (inl (no_file, (refl, inr e)))
  from_variable-ComesFrom value file_path (some variable) no_file given e =
      elim (Bool-cases (is_blank (getenv variable))) [
        | inl blank ↦ rw blank (refl, no_file, given, e, blank)
        | inr filled ↦ rw filled (inr (inr (no_file, (given, (variable, e, refl, filled)))))
      ]

  -- Without an error the secret is the trimmed content of the file where a file and no value is set; without a file it is the configured value where that is blank or no placeholder, or what the variable of the placeholder holds, which is not blank. With an error it is empty, and a file and a value were both set, the file alone was set and not readable, or no file was set and the variable of the placeholder is blank.
  pub resolve_secret-ComesFrom :
      (value file_path : Bytes)
      → ComesFrom value file_path
          (resolve_secret value file_path).0
          (resolve_secret value file_path).1
  unfolding resolve_secret
  resolve_secret-ComesFrom value file_path = elim (Bool-cases (is_blank file_path)) [
    | inl no_file ↦ elim (Bool-cases (is_blank value)) [
      | inl blank ↦ rw (resolve_secret, no_file, blank) (inr (inl (no_file, (refl, inl blank))))
      | inr given ↦
          rw (resolve_secret, no_file, given)
            (from_variable-ComesFrom value file_path (env_placeholder (trim_space value)) no_file
              given refl)
    ]
    | inr file ↦ elim (Bool-cases (is_blank value)) [
      | inl blank ↦
          rw (resolve_secret, file, blank)
            (from_file-ComesFrom value file_path (read_file file_path) file blank refl)
      | inr given ↦ rw (resolve_secret, file, given) (refl, file, given)
    ]
  ]
