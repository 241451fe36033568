-- ===== src/Health/Tests.antt =====
-- The theorem on the status at a short history.
use git_backup.Base.{List, [], bytes, none, refl, text_eq, true, ℕ, ◌-◌, ◌∷◌, ◌≡◌}
use git_backup.Base.Int.{pos}
use git_backup.Health.{
  Event, Server, after_events, last_outcome, next_run, report_of, report_of-after_events, restarted,
  run_completed, run_started, ReportsOutcome,
}

abbrev fresh : Server ℕ ℕ
fresh = record {
  bind = bytes "127.0.0.1";
  port = pos 8080;
  started_at = 1;
  last_run_started_at = none;
  last_run_completed_at = none;
  last_run_duration = none;
  last_run_outcome = none;
  next_run_at = none;
  serving = true;
}

abbrev elapsed : ℕ → ℕ → ℕ
elapsed a b = b - a

-- A run fails, and the server moves to another port.
abbrev history : List (Event ℕ)
history =
    run_started 5
    ∷ run_completed 5 (bytes "failed") 9
    ∷ restarted (bytes "127.0.0.1") (pos 9090) true
    ∷ next_run 20
    ∷ []

still_degraded : (report_of elapsed (after_events elapsed history fresh)).status ≡ bytes "degraded"
unfolding report_of after_events text_eq
still_degraded = refl

report_of-after_events_example :
    ReportsOutcome elapsed
      (report_of elapsed (after_events elapsed history fresh)).status
      (last_outcome elapsed none history)
report_of-after_events_example = report_of-after_events elapsed history fresh
