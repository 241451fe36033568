-- ===== src/Paths/Redact.antt =====
-- internal/paths/urls.go: the masking of passwords in URLs for logs.
use git_backup.Base.{
  Bytes, Lacks, Option, [], ap, append_assoc, arith, bytes, drop, drop-append, length,
  length-append, none, refl, some, sym, take, take-append, ℕ, ◌++◌, ◌+◌, ◌∙◌, ◌∷◌, ◌≡◌,
}
use git_backup.Text.Index.{index, index-append, last_index, last_index-append}
use git_backup.Text.Search.{index_text, index_text-append}
use git_backup.Text.Trim.{trim_space}

abbrev mask : Bytes
mask = bytes "xxxxx"

abbrev pub mask_between : Bytes → Bytes → Bytes → ℕ → Option ℕ → Bytes
mask_between raw prefix remainder at_sign none = raw
mask_between raw prefix remainder at_sign (some colon) =
    prefix ++ (take (colon + 1) remainder ++ (mask ++ drop at_sign remainder))

abbrev pub mask_remainder : Bytes → Bytes → Bytes → Option ℕ → Bytes
mask_remainder raw prefix remainder none = raw
mask_remainder raw prefix remainder (some at_sign) =
    mask_between raw prefix remainder at_sign (index b':' (take at_sign remainder))

abbrev pub mask_behind : Bytes → Option ℕ → Bytes
mask_behind raw none = raw
mask_behind raw (some scheme_end) =
    let prefix = take (scheme_end + 3) raw in
    let remainder = drop (length prefix) raw in
    mask_remainder raw prefix remainder (last_index b'@' remainder)

unfoldable pub mask_userinfo : Bytes → Bytes
unfolding index last_index index_text
mask_userinfo raw = mask_behind raw (index_text (bytes "://") raw)

-- `parse` and `redacted` are `url.Parse` and `URL.Redacted`.
unfoldable pub redact_url : {U : Type 0} → (Bytes → Option U) → (U → Bytes) → Bytes → Bytes
unfolding mask_userinfo trim_space
redact_url parse redacted raw =
    let trimmed = trim_space raw in
    elim (parse trimmed) [ none ↦ mask_userinfo trimmed | some u ↦ redacted u ]

abbrev separator : Bytes
separator = bytes "://"

-- A URL with a user and a password.
abbrev pub with_password : Bytes → Bytes → Bytes → Bytes → Bytes
with_password scheme user password host =
    scheme ++ (separator ++ (user ++ b':' ∷ (password ++ b'@' ∷ host)))

module _ (scheme user password host : Bytes) (plain_user : Lacks b':' user)
    (plain_host : Lacks b'@' host) where
  abbrev the_remainder : Bytes
  the_remainder = user ++ b':' ∷ (password ++ b'@' ∷ host)

  again : (user ++ b':' ∷ password) ++ b'@' ∷ host ≡ the_remainder
  again = append_assoc user (b':' ∷ password) (b'@' ∷ host)

  at_sign : last_index b'@' the_remainder ≡ some (length (user ++ b':' ∷ password))
  at_sign =
      ap (last_index b'@') (sym again)
      ∙ last_index-append b'@' (user ++ b':' ∷ password) host plain_host

  in_front : take (length (user ++ b':' ∷ password)) the_remainder ≡ user ++ b':' ∷ password
  in_front =
      ap (take (length (user ++ b':' ∷ password))) (sym again)
      ∙ take-append (user ++ b':' ∷ password) (b'@' ∷ host)

  behind : drop (length (user ++ b':' ∷ password)) the_remainder ≡ b'@' ∷ host
  behind =
      ap (drop (length (user ++ b':' ∷ password))) (sym again)
      ∙ drop-append (user ++ b':' ∷ password) (b'@' ∷ host)

  named : take (length user + 1) the_remainder ≡ user ++ b':' ∷ []
  named =
      let size : length user + 1 ≡ length (user ++ b':' ∷ []) =
        omega (arith, length-append user (b':' ∷ [])) in
      rw (size, sym (append_assoc user (b':' ∷ []) (password ++ b'@' ∷ host)))
        (take-append (user ++ b':' ∷ []) (password ++ b'@' ∷ host))

  masked_remainder :
      (raw prefix : Bytes)
      → mask_remainder raw prefix the_remainder (last_index b'@' the_remainder)
        ≡ prefix ++ ((user ++ b':' ∷ []) ++ (mask ++ b'@' ∷ host))
  masked_remainder raw prefix =
      rw (at_sign, in_front, index-append b':' user password plain_user, named, behind) refl

  -- Where a URL with a user and a password is masked textually, the password is replaced by the mask, whatever bytes it has, and the rest is kept, if the scheme and the user hold no colon and what follows the at sign of the password holds no other.
  pub mask_userinfo-with_password :
      Lacks b':' scheme
      → mask_userinfo (with_password scheme user password host)
        ≡ with_password scheme user mask host
  unfolding mask_userinfo
  mask_userinfo-with_password plain_scheme =
      let raw = with_password scheme user password host in
      let size : length scheme + 3 ≡ length (scheme ++ separator) =
        omega (arith, length-append scheme separator) in
      let cut : (scheme ++ separator) ++ the_remainder ≡ raw =
        append_assoc scheme separator the_remainder in
      let prefix : take (length scheme + 3) raw ≡ scheme ++ separator =
        ap (λ n. take n raw) size
        ∙ ap (take (length (scheme ++ separator))) (sym cut)
        ∙ take-append (scheme ++ separator) the_remainder in
      let rest : drop (length (scheme ++ separator)) raw ≡ the_remainder =
        ap (drop (length (scheme ++ separator))) (sym cut)
        ∙ drop-append (scheme ++ separator) the_remainder in
      let found : index_text separator raw ≡ some (length scheme) =
        index_text-append b':' (bytes "//") scheme the_remainder plain_scheme in
      rw (found, prefix, rest)
        (masked_remainder raw (scheme ++ separator)
          ∙ append_assoc scheme separator ((user ++ b':' ∷ []) ++ (mask ++ b'@' ∷ host))
          ∙ ap (λ r. scheme ++ (separator ++ r))
              (append_assoc user (b':' ∷ []) (mask ++ b'@' ∷ host)))
