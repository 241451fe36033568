-- ===== src/Store/Execute/Attempts.antt =====
-- internal/store/storage.go: how often `execute` calls its action, and what it returns.
use git_backup.Base.{
  Bytes, Bool, Bool-cases, List, Option, Option-cases, arith, false, inl, inr, none, not, refl,
  some, subst, suc, sym, true, ℕ, ◌+◌, ◌<◌, ◌==◌, ◌||◌, ◌∙◌, ◌≡◌, ◌≤◌, ◌⊎◌, [], zero, ◌++◌, ◌∷◌,
  ◌≢◌,
}
use git_backup.Base.Int.{ℤ}
use git_backup.Paths.Parser.{last}
use git_backup.Store.Execute.{
  Execution, Failure, context_done, gives_up, http_status_of, is_bulk_delete_schema_error,
  is_retryable_status, is_transport_error, max_attempts, rejected_shape, reported, retry, succeeded,
  Verdict, delay_after, execute,
}

-- A failure that a later attempt may repair.
abbrev pub is_transient : (Bytes → Option ℤ) → Failure → Bool
is_transient until failure = elim (http_status_of until failure) [
  | some (status, retry_after) ↦ is_retryable_status status
  | none ↦ is_transport_error failure
]

module _ {E : Type 0} (until : Bytes → Option ℤ) (action : ℕ → Option Failure)
    (ctx_err : ℕ → Option E) (interrupted : ℕ → Option E) (jitter : ℕ → ℕ) where
  -- The attempt failed in a way that is retried.
  abbrev pub FailedTransiently : ℕ → Type 0
  FailedTransiently k =
      (failure : Failure) × (action k ≡ some failure)
      × (is_transient until failure ≡ true)
      × (is_bulk_delete_schema_error failure ≡ false)

  -- Why the loop ended after `calls` attempts.
  abbrev pub Explains : Verdict E → ℕ → Type 0
  Explains succeeded calls = action calls ≡ none
  Explains (context_done e) calls = (ctx_err (suc calls) ≡ some e) ⊎ (interrupted calls ≡ some e)
  Explains (rejected_shape failure) calls =
      (action calls ≡ some failure) × (is_bulk_delete_schema_error failure ≡ true)
  Explains (reported none) calls = ⊥
  Explains (reported (some failure)) calls =
      (action calls ≡ some failure)
      × (is_bulk_delete_schema_error failure ≡ false)
      × ((calls ≡ max_attempts) ⊎ (is_transient until failure ≡ false))

  abbrev pub EndsWell : Execution E → Type 0
  EndsWell x =
      (x.calls ≤ max_attempts)
      × Explains x.outcome x.calls
      × ((k : ℕ) → 1 ≤ k → k < x.calls → FailedTransiently k)

  abbrev Before : ℕ → Type 0
  Before n = (k : ℕ) → 1 ≤ k → k ≤ n → FailedTransiently k

  gives_up-cases :
      (failure : Failure) (attempt : ℕ) (o : Option (ℕ × ℤ))
      → http_status_of until failure ≡ o
      → gives_up until failure attempt
        ≡ (not (is_transient until failure) || attempt == max_attempts)
  gives_up-cases failure attempt none h = rw (gives_up, is_transient, h) refl
  gives_up-cases failure attempt (some (status, retry_after)) h =
      rw (gives_up, is_transient, h) refl

  gives_up_lem :
      (failure : Failure) (attempt : ℕ)
      → gives_up until failure attempt
        ≡ (not (is_transient until failure) || attempt == max_attempts)
  gives_up_lem failure attempt = gives_up-cases failure attempt (http_status_of until failure) refl

  given_up :
      (t : Bool) (attempt : ℕ)
      → (not t || attempt == max_attempts) ≡ true
      → (attempt ≡ max_attempts) ⊎ (t ≡ false)
  given_up true attempt h = inl (ground arith)
  given_up false attempt h = inr refl

  one_more : (n : ℕ) → Before n → FailedTransiently (suc n) → Before (suc n)
  one_more n before here k low high = elim (Bool-cases (k == suc n)) [
    | inl same ↦ subst FailedTransiently (ground arith) here
    | inr other ↦ before k low (ground arith)
  ]

  continues :
      (t : Bool) (attempt : ℕ)
      → (not t || attempt == max_attempts) ≡ false
      → (t ≡ true) × (attempt ≢ max_attempts)
  continues true attempt h = (refl, ground arith)
  continues false attempt h = absurd (ground arith)

  -- What is left to show where the loop goes on.
  abbrev GoesOn : ℕ → ℕ → Type 0
  GoesOn left calls =
      (waits : List ℤ) (last : Option Failure)
      → suc calls ≢ max_attempts
      → Before (suc calls)
      → EndsWell (retry until action ctx_err interrupted jitter left (suc calls) waits last)

  round-EndsWell :
      (left calls : ℕ) (waits : List ℤ) (last : Option Failure)
      → suc calls ≤ max_attempts
      → Before calls
      → GoesOn left calls
      → EndsWell (retry until action ctx_err interrupted jitter (suc left) calls waits last)
  unfolding retry
  round-EndsWell left calls waits last h before more = elim (Option-cases (ctx_err (suc calls))) [
    | inr (e, done) ↦
        rw (retry, done)
          (omega (arith, h), inl done, λ k low high. before k low (omega (arith, high)))
    | inl live ↦ elim (Option-cases (action (suc calls))) [
      | inl fine ↦
          rw (retry, live, fine)
            (omega (arith, h), fine, λ k low high. before k low (omega (arith, high)))
      | inr (failure, wrong) ↦ elim (Bool-cases (is_bulk_delete_schema_error failure)) [
        | inl shape ↦
            rw (retry, live, wrong, shape)
              (omega (arith, h), (wrong, shape), λ k low high. before k low (omega (arith, high)))
        | inr other ↦ elim (Bool-cases (gives_up until failure (suc calls))) [
          | inl stop ↦
              rw (retry, live, wrong, other, stop)
                (
                  omega (arith, h),
                  (
                    wrong,
                    other,
                    given_up (is_transient until failure) (suc calls)
                        (sym (gives_up_lem failure (suc calls)) ∙ stop),
                  ),
                  λ k low high. before k low (omega (arith, high)),
                )
          | inr again ↦ elim (Option-cases (interrupted (suc calls))) [
            | inr (e, done) ↦
                rw (retry, live, wrong, other, again, done)
                  (omega (arith, h), inr done, λ k low high. before k low (omega (arith, high)))
            | inl ready ↦
                rw (retry, live, wrong, other, again, ready)
                  (let (transient, early) =
                      continues (is_transient until failure) (suc calls)
                        (sym (gives_up_lem failure (suc calls)) ∙ again) in
                    more (waits ++ delay_after until (suc calls) failure (jitter (suc calls)) ∷ [])
                      (some failure) early
                      (one_more calls before (failure, wrong, transient, other)))
          ]
        ]
      ]
    ]
  ]

  retry-EndsWell :
      (left calls : ℕ) (waits : List ℤ) (last : Option Failure)
      → suc left + calls ≡ max_attempts
      → Before calls
      → EndsWell (retry until action ctx_err interrupted jitter (suc left) calls waits last)
  retry-EndsWell zero calls waits previous h before =
      round-EndsWell zero calls waits previous (omega (arith, h)) before
        (λ w l early now. absurd (early (omega (arith, h))))
  retry-EndsWell (suc left) calls waits previous h before =
      round-EndsWell (suc left) calls waits previous (omega (arith, h)) before
        (λ w l early now. retry-EndsWell left (suc calls) w l (omega (arith, h)) now)

  -- The action is called at most five times, each call but the last has failed in a way that is retried, and the outcome is explained by the last attempt or the context.
  pub execute-EndsWell : EndsWell (execute until action ctx_err interrupted jitter)
  unfolding execute
  execute-EndsWell =
      retry-EndsWell 4 0 [] none refl (λ k low high. absurd (omega (arith, low, high)))
