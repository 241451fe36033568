-- ===== src/Scheduler/Tests.antt =====
-- The scheduler over a short day.
use git_backup.Base.{
  Bytes, All, List, Option, [], bytes, false, none, refl, some, text_eq, ℕ, ◌∷◌, ◌≡◌,
}
use git_backup.Base.Int.{pos, ℤ}
use git_backup.Health.{next_run, run_completed, run_started}
use git_backup.Scheduler.{Moment, deciding, retention_run, run_scheduled_loop, told_reporter}
use git_backup.Scheduler.Protocol.{
  GoesForward, Observed, View, nothing_announced, run_scheduled_loop-Observed,
}

abbrev daily : Bytes
daily = bytes "0 2 * * *"

-- Every schedule comes up at ten.
abbrev any_spec : Bytes → Option ℕ
any_spec s = some 0

abbrev at_ten : ℕ → ℤ → Option ℤ
at_ten spec t = some (pos 10)

abbrev moment_at : ℕ → Option ℕ → Moment ℕ
moment_at n error = record {
  cancelled = false;
  cron = daily;
  now = pos n;
  later = pos n;
  sync_error = error;
  cancelled_in_slice = false;
}

-- Planned, one slice too early, started, failed, pruned.
abbrev five_moments : List (Moment ℕ)
five_moments =
    moment_at 1 none
    ∷ moment_at 2 none
    ∷ moment_at 11 none
    ∷ moment_at 12 (some 7)
    ∷ moment_at 13 none
    ∷ []

one_failed_run : run_scheduled_loop any_spec at_ten five_moments deciding ≡ (
  deciding,
  told_reporter (next_run (pos 10))
      ∷ told_reporter (run_started (pos 11))
      ∷ told_reporter (run_completed (pos 11) (bytes "failed") (pos 12))
      ∷ retention_run
      ∷ [],
)
unfolding run_scheduled_loop text_eq
one_failed_run = refl

five_moments-forward : All GoesForward five_moments
five_moments-forward = ((λ t h. h), ((λ t h. h), ((λ t h. h), ((λ t h. h), ((λ t h. h), tt)))))

run_scheduled_loop-Observed_example :
    (v : View) × Observed nothing_announced
      (run_scheduled_loop any_spec at_ten five_moments deciding).1
      v
run_scheduled_loop-Observed_example =
    run_scheduled_loop-Observed any_spec at_ten five_moments five_moments-forward
