-- ===== src/Store/Execute/Delays.antt =====
-- internal/store/storage.go: how long `execute` waits before the next attempt.
use git_backup.Base.{
  Bytes, Bool-cases, arith, false, inl, inr, refl, suc, true, zero, ℕ, ◌*◌, ◌+◌, ◌-◌, ◌<◌, ◌==◌,
  ◌^◌, ◌≡◌, ◌≢◌, ◌≤◌, Option,
}
use git_backup.Base.Int.{ltb_ℤ, pos, ℤ}
use git_backup.Store.Execute.{
  backoff_delay, max_attempts, max_retry_after_cap, retry_backoff_base, Failure, delay_after,
  http_status_of, status_and_delay,
}

abbrev pub Retried : ℕ → Type 0
Retried attempt = (1 ≤ attempt) × (attempt < max_attempts)

-- A delay above zero and up to the cap.
abbrev pub IsBounded : ℤ → Type 0
IsBounded delay = (ltb_ℤ (pos 0) delay ≡ true) × (ltb_ℤ (pos max_retry_after_cap) delay ≡ false)

power_cases : (attempt : ℕ) → Retried attempt → (1 ≤ 2 ^ (attempt - 1)) × (2 ^ (attempt - 1) ≤ 8)
power_cases zero h = absurd (omega (arith, h.0))
power_cases (suc zero) h = (omega arith, omega arith)
power_cases (suc (suc zero)) h = (omega arith, omega arith)
power_cases (suc (suc (suc zero))) h = (omega arith, omega arith)
power_cases (suc (suc (suc (suc zero)))) h = (omega arith, omega arith)
power_cases (suc (suc (suc (suc (suc n))))) h = absurd (omega (arith, h.1))

exponential-IsBounded :
    (attempt jitter power : ℕ)
    → 1 ≤ power
    → power ≤ 8
    → jitter < retry_backoff_base
    → IsBounded (pos (retry_backoff_base * power + jitter))
exponential-IsBounded attempt jitter power low high j = (ground arith, ground arith)

backoff_delay-IsBounded :
    (attempt : ℕ) (retry_after : ℤ) (status jitter : ℕ)
    → Retried attempt
    → jitter < retry_backoff_base
    → status ≢ 429
    → IsBounded (backoff_delay attempt retry_after status jitter)
backoff_delay-IsBounded attempt retry_after status jitter h j other =
    let (low, high) = power_cases attempt h in
    let grown = exponential-IsBounded attempt jitter (2 ^ (attempt - 1)) low high j in
    elim (Bool-cases (ltb_ℤ (pos 0) retry_after)) [
      | inr absent ↦ rw absent grown
      | inl given ↦
          let no_limit : (status == 429) ≡ false = ground arith in
          rw (given, no_limit)
            (elim (Bool-cases (ltb_ℤ retry_after (pos max_retry_after_cap))) [
              | inl below ↦ rw below (given, ground arith)
              | inr above ↦ rw above (refl, refl)
            ])
    ]

-- After an attempt that is not the last the delay is positive and at most thirty seconds, whatever Retry-After says, unless the status is 429, if the jitter is below one second.
pub delay_after-IsBounded :
    (until : Bytes → Option ℤ) (attempt : ℕ) (failure : Failure) (jitter : ℕ)
    → Retried attempt
    → jitter < retry_backoff_base
    → (status_and_delay (http_status_of until failure)).0 ≢ 429
    → IsBounded (delay_after until attempt failure jitter)
delay_after-IsBounded until attempt failure jitter h j other =
    let answer = status_and_delay (http_status_of until failure) in
    backoff_delay-IsBounded attempt answer.1 answer.0 jitter h j other
