-- ===== src/Lfs/Probe.antt =====
-- internal/lfs/batch.go: what a probe makes of the endpoint's answer.
use git_backup.Base.{
  Bytes, Bool, Bool-cases, Option, ap, arith, bytes, false, if◌then◌else◌, inl, inr, none, refl,
  some, take, true, ℕ, ◌==◌, ◌||◌, ◌≡◌, ◌≢◌, ◌⊎◌,
}
use git_backup.Text.Case.{to_lower}
use git_backup.Text.Search.{has_prefix}
use git_backup.Text.Trim.{trim_space}

-- The answer to the probe's request: a transport error, or a status and the body, unless it cannot be read.
pub data Reply (E : Type 0) : Type 0 where
  unanswered : E → Reply E
  responded : ℕ → Option Bytes → Reply E

-- `ErrDisabled`, `ErrNoEndpoint`, and the errors that name a status or a transport error.
pub data ProbeError (E : Type 0) : Type 0 where
  err_disabled : ProbeError E
  err_no_endpoint : ProbeError E
  failed_status : ℕ → ProbeError E
  failed_transport : E → ProbeError E

-- `wide` stands for `unicode.ToLower` over a text that is not ASCII.
unfoldable pub looks_like_html : (Bytes → Bytes) → Bytes → Bool
unfolding to_lower trim_space has_prefix
looks_like_html wide body =
    let trimmed = trim_space (to_lower wide body) in
    has_prefix (bytes "<!doctype") trimmed || has_prefix (bytes "<html") trimmed

abbrev pub is_markup : (Bytes → Bytes) → Option Bytes → Bool
is_markup wide none = false
is_markup wide (some body) = looks_like_html wide (take 4096 body)

module _ {E : Type 0} (wide : Bytes → Bytes) where
  abbrev pub classify_refusal : Option Bytes → ProbeError E → ProbeError E
  classify_refusal body verdict = if is_markup wide body then err_no_endpoint else verdict

  -- The switch on the status; `none` where the API answered.
  abbrev pub classify_status : ℕ → Option Bytes → Option (ProbeError E)
  classify_status status body =
      if status == 200
      then none
      else if status == 401
      then some (failed_status status)
      else if status == 403
      then some (classify_refusal body err_disabled)
      else if status == 404
      then some err_no_endpoint
      else if status == 422
      then some (classify_refusal body (failed_status status))
      else some (failed_status status)

  unfoldable pub do_probe : Reply E → Option (ProbeError E)
  unfolding looks_like_html
  do_probe (unanswered e) = some (failed_transport e)
  do_probe (responded status body) = classify_status status body

  -- The reply is the API's own refusal: a 403 with no page.
  abbrev pub IsOwnRefusal : Reply E → Type 0
  IsOwnRefusal (unanswered e) = ⊥
  IsOwnRefusal (responded status body) = (status ≡ 403) × (is_markup wide body ≡ false)

  -- The reply says that the path is not the API: a 404, or a page behind a 403 or a 422.
  abbrev pub IsElsewhere : Reply E → Type 0
  IsElsewhere (unanswered e) = ⊥
  IsElsewhere (responded status body) =
      (status ≡ 404) ⊎ (((status ≡ 403) ⊎ (status ≡ 422)) × (is_markup wide body ≡ true))

  -- What the four kinds of a probe's result say of the reply.
  abbrev pub Means : Reply E → Option (ProbeError E) → Type 0
  Means reply none = (body : Option Bytes) × (reply ≡ responded 200 body)
  Means reply (some err_disabled) = IsOwnRefusal reply
  Means reply (some err_no_endpoint) = IsElsewhere reply
  Means reply (some (failed_transport e)) = reply ≡ unanswered e
  Means reply (some (failed_status status)) =
      (body : Option Bytes) × (reply ≡ responded status body)
      × (status ≢ 200)
      × (status ≢ 403)
      × (status ≢ 404)

module _ (E : Type 0) (wide : Bytes → Bytes) where
  classify_status-Means :
      (status : ℕ) (body : Option Bytes)
      → Means {E = E} wide (responded status body) (classify_status {E = E} wide status body)
  classify_status-Means status body = elim (Bool-cases (status == 200)) [
    | inl h ↦ rw h (body, ap (λ (n : ℕ). responded n body) (ground arith))
    | inr a ↦ elim (Bool-cases (status == 401)) [
      | inl h ↦ rw (a, h) (body, refl, ground arith, ground arith, ground arith)
      | inr b ↦ elim (Bool-cases (status == 403)) [
        | inl h ↦ elim (Bool-cases (is_markup wide body)) [
          | inl m ↦ rw (a, b, h, m) (inr (inl (ground arith), m))
          | inr m ↦ rw (a, b, h, m) (ground arith, m)
        ]
        | inr c ↦ elim (Bool-cases (status == 404)) [
          | inl h ↦ rw (a, b, c, h) (inl (ground arith))
          | inr d ↦ elim (Bool-cases (status == 422)) [
            | inl h ↦ elim (Bool-cases (is_markup wide body)) [
              | inl m ↦ rw (a, b, c, d, h, m) (inr (inr (ground arith), m))
              | inr m ↦ rw (a, b, c, d, h, m) (body, refl, ground arith, ground arith, ground arith)
            ]
            | inr f ↦ rw (a, b, c, d, f) (body, refl, ground arith, ground arith, ground arith)
          ]
        ]
      ]
    ]
  ]

  -- A probe succeeds only on status 200, LFS counts as disabled only for a 403 with no page, and a path as not the API only for a 404 or a page behind a 403 or a 422; any other reply is an error of its own.
  pub do_probe-Means : (reply : Reply E) → Means wide reply (do_probe wide reply)
  unfolding do_probe
  do_probe-Means (unanswered e) = refl
  do_probe-Means (responded status body) = classify_status-Means status body
