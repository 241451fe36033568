-- ===== src/Scheduler.antt =====
-- internal/scheduler/runner.go: the loop that waits for the next run, syncs, and prunes.
pub mod Protocol
mod Tests
use git_backup.Base.{
  Bytes, Bool, List, Option, [], bytes, if◌then◌else◌, none, not, some, text_eq, ◌++◌, ◌∷◌, suc,
  zero,
}
use git_backup.Base.Int.{ltb_ℤ, pos, ℤ, negsuc}
use git_backup.Base.Result.{Result, err, ok}
use git_backup.Health.{Event, next_run, run_completed, run_started}
use git_backup.Schedule.{CronError, parse_cron}

-- What the loop meets in one step: the context, the expression in the settings, the clock, which is read twice, the results of the two passes, and whether the context ends within the slice.
pub record Moment (E : Type 0) : Type 0 where
  pub cancelled : Bool
  pub cron : Bytes
  pub now : ℤ
  pub later : ℤ
  pub sync_error : Option E
  pub cancelled_in_slice : Bool

-- Where the loop stands. `waiting` holds the expression and the target of `delayUntil`, and `syncing` the start of the run.
pub data LoopPhase : Type 0 where
  deciding : LoopPhase
  pausing : LoopPhase
  waiting_for : Bytes → ℤ → LoopPhase
  syncing : ℤ → LoopPhase
  synced_once : LoopPhase
  stopped_for_good : LoopPhase

-- What the loop does: a call of the reporter, or a retention pass.
pub data Output : Type 0 where
  told_reporter : Event ℤ → Output
  retention_run : Output

abbrev pub Turn : Type 0
Turn = LoopPhase × List Output

-- An instant is a number of milliseconds.
abbrev pub add_millisecond : ℤ → ℤ
add_millisecond (pos n) = pos (suc n)
add_millisecond (negsuc zero) = pos 0
add_millisecond (negsuc (suc n)) = negsuc n

abbrev pub resolve_next_occurrence : Bytes → Option ℤ → Turn
resolve_next_occurrence cron none = (stopped_for_good, [])
resolve_next_occurrence cron (some target) =
    (waiting_for cron target, told_reporter (next_run target) ∷ [])

abbrev pub resolve_schedule :
    {S : Type 0} → (S → ℤ → Option ℤ) → Bytes → ℤ → Result CronError S → Turn
resolve_schedule next cron now (err e) = (pausing, [])
resolve_schedule next cron now (ok spec) =
    resolve_next_occurrence cron (next spec (add_millisecond now))

-- A parsed schedule is `S`; `next` gives no occurrence where `Next` is the zero time.
module _ {S E : Type 0} (parse_spec : Bytes → Option S) (next : S → ℤ → Option ℤ) where
  abbrev pub decide : Moment E → Turn
  decide m =
      if m.cancelled
      then (stopped_for_good, [])
      else resolve_schedule next m.cron m.now (parse_cron parse_spec m.cron)

  -- One slice of `delayUntil`.
  abbrev pub delay_slice : Bytes → ℤ → Moment E → Turn
  delay_slice cron target m =
      if m.cancelled
      then (stopped_for_good, [])
      else if not (text_eq m.cron cron)
      then (deciding, [])
      else if not (ltb_ℤ m.now target)
      then (syncing m.later, told_reporter (run_started m.later) ∷ [])
      else if m.cancelled_in_slice
      then (stopped_for_good, [])
      else (waiting_for cron target, [])

  abbrev pub run_with_timing : ℤ → Moment E → Option E → Turn
  run_with_timing started m error = if m.cancelled then (stopped_for_good, []) else elim error [
    | some e ↦ (synced_once, told_reporter (run_completed started (bytes "failed") m.now) ∷ [])
    | none ↦ (synced_once, told_reporter (run_completed started (bytes "success") m.now) ∷ [])
  ]

  abbrev pub run_retention : Moment E → Turn
  run_retention m = if m.cancelled then (deciding, []) else (deciding, retention_run ∷ [])

  unfoldable pub turn : LoopPhase → Moment E → Turn
  unfolding parse_cron
  turn deciding m = decide m
  turn pausing m = (deciding, [])
  turn (waiting_for cron target) m = delay_slice cron target m
  turn (syncing started) m = run_with_timing started m m.sync_error
  turn synced_once m = run_retention m
  turn stopped_for_good m = (stopped_for_good, [])

  unfoldable pub run_scheduled_loop : List (Moment E) → LoopPhase → Turn
  unfolding turn
  run_scheduled_loop [] phase = (phase, [])
  run_scheduled_loop (m ∷ moments) phase =
      let (after, outputs) = turn phase m in
      let (end, rest) = run_scheduled_loop moments after in (end, outputs ++ rest)
