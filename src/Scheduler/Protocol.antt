-- ===== src/Scheduler/Protocol.antt =====
-- internal/scheduler/runner.go: what an observer of the reporter and of the retention may see.
use git_backup.Base.{
  Bytes, List, Option, [], bytes, false, none, refl, some, ◌++◌, ◌∷◌, ◌≡◌, All, Bool-cases,
  Option-cases, inl, inr, subst, sym, text_eq,
}
use git_backup.Base.Int.{ltb_ℤ, ℤ}
use git_backup.Base.Result.{Result, err, ok}
use git_backup.Health.{next_run, run_completed, run_started}
use git_backup.Schedule.{CronError, parse_cron}
use git_backup.Scheduler.{
  LoopPhase, Moment, Output, deciding, pausing, resolve_next_occurrence, retention_run,
  stopped_for_good, synced_once, syncing, waiting_for, Turn, told_reporter, add_millisecond, decide,
  delay_slice, resolve_schedule, run_retention, run_scheduled_loop, run_with_timing, turn,
}

-- The observer's view: what was announced last.
pub data View : Type 0 where
  nothing_announced : View
  announced : ℤ → View
  in_run : ℤ → View
  after_run : View

-- One run is announced, starts no earlier than announced, ends with one of two outcomes, and is followed by at most one retention pass.
pub data Allowed : View → Output → View → Type 0 where
  announces_first : (t : ℤ) → Allowed nothing_announced (told_reporter (next_run t)) (announced t)
  announces_again : (old t : ℤ) → Allowed (announced old) (told_reporter (next_run t)) (announced t)
  announces_next : (t : ℤ) → Allowed after_run (told_reporter (next_run t)) (announced t)
  starts :
      (t s : ℤ)
      → ltb_ℤ s t ≡ false
      → Allowed (announced t) (told_reporter (run_started s)) (in_run s)
  fails :
      (s n : ℤ) → Allowed (in_run s) (told_reporter (run_completed s (bytes "failed") n)) after_run
  succeeds :
      (s n : ℤ) → Allowed (in_run s) (told_reporter (run_completed s (bytes "success") n)) after_run
  prunes : Allowed after_run retention_run nothing_announced

pub data Observed : View → List Output → View → Type 0 where
  observed_none : {v : View} → Observed v [] v
  observed_more :
      {v w u : View} {o : Output} {os : List Output}
      → Allowed v o w
      → Observed w os u
      → Observed v (o ∷ os) u

-- The views that go with a phase.
abbrev pub Fits : LoopPhase → View → Type 0
Fits deciding (in_run s) = ⊥
Fits deciding v = Unit
Fits pausing (in_run s) = ⊥
Fits pausing v = Unit
Fits (waiting_for cron t) v = v ≡ announced t
Fits (syncing s) v = v ≡ in_run s
Fits synced_once v = v ≡ after_run
Fits stopped_for_good v = Unit

-- The clock does not go back between its two readings.
abbrev pub GoesForward : {E : Type 0} → Moment E → Type 0
GoesForward m = (t : ℤ) → ltb_ℤ m.now t ≡ false → ltb_ℤ m.later t ≡ false

Observed-append :
    {v w u : View} (xs : List Output) {ys : List Output}
    → Observed v xs w
    → Observed w ys u
    → Observed v (xs ++ ys) u
Observed-append xs observed_none g = g
Observed-append xs (observed_more {os = os} a f) g = observed_more a (Observed-append os f g)

-- A turn whose outputs are allowed, and whose new phase fits.
abbrev IsAllowedTurn : View → Turn → Type 0
IsAllowedTurn v (phase, outputs) = (w : View) × Observed v outputs w × Fits phase w

announces :
    (v : View) (cron : Bytes) (t : ℤ)
    → Fits deciding v
    → IsAllowedTurn v (waiting_for cron t, told_reporter (next_run t) ∷ [])
announces nothing_announced cron t fits =
    (announced t, observed_more (announces_first t) observed_none, refl)
announces (announced old) cron t fits =
    (announced t, observed_more (announces_again old t) observed_none, refl)
announces (in_run s) cron t fits = absurd fits
announces after_run cron t fits =
    (announced t, observed_more (announces_next t) observed_none, refl)

occurrence-IsAllowedTurn :
    (v : View) (cron : Bytes) (o : Option ℤ)
    → Fits deciding v
    → IsAllowedTurn v (resolve_next_occurrence cron o)
occurrence-IsAllowedTurn v cron none fits = (v, observed_none, tt)
occurrence-IsAllowedTurn v cron (some t) fits = announces v cron t fits

schedule-IsAllowedTurn :
    {S : Type 0} (next : S → ℤ → Option ℤ) (v : View) (cron : Bytes) (now : ℤ)
    (r : Result CronError S)
    → Fits deciding v
    → IsAllowedTurn v (resolve_schedule next cron now r)
schedule-IsAllowedTurn next nothing_announced cron now (err e) fits = (_, observed_none, tt)
schedule-IsAllowedTurn next (announced t) cron now (err e) fits = (_, observed_none, tt)
schedule-IsAllowedTurn next (in_run s) cron now (err e) fits = absurd fits
schedule-IsAllowedTurn next after_run cron now (err e) fits = (_, observed_none, tt)
schedule-IsAllowedTurn next v cron now (ok spec) fits =
    occurrence-IsAllowedTurn v cron (next spec (add_millisecond now)) fits

pausing-IsAllowedTurn : (v : View) → Fits pausing v → IsAllowedTurn v (deciding, [])
pausing-IsAllowedTurn nothing_announced fits = (_, observed_none, tt)
pausing-IsAllowedTurn (announced t) fits = (_, observed_none, tt)
pausing-IsAllowedTurn (in_run s) fits = absurd fits
pausing-IsAllowedTurn after_run fits = (_, observed_none, tt)

module _ {S E : Type 0} (parse_spec : Bytes → Option S) (next : S → ℤ → Option ℤ) where
  decide-IsAllowedTurn :
      (v : View) (m : Moment E) → Fits deciding v → IsAllowedTurn v (decide parse_spec next m)
  decide-IsAllowedTurn v m fits = elim (Bool-cases m.cancelled) [
    | inl ended ↦ rw (decide, ended) (v, observed_none, tt)
    | inr live ↦
        rw (decide, live)
          (schedule-IsAllowedTurn next v m.cron m.now (parse_cron parse_spec m.cron) fits)
  ]

  slice-IsAllowedTurn :
      (cron : Bytes) (target : ℤ) (m : Moment E)
      → GoesForward m
      → IsAllowedTurn (announced target) (delay_slice parse_spec next cron target m)
  slice-IsAllowedTurn cron target m forward = elim (Bool-cases m.cancelled) [
    | inl ended ↦ rw (delay_slice, ended) (announced target, observed_none, tt)
    | inr live ↦ elim (Bool-cases (text_eq m.cron cron)) [
      | inr changed ↦ rw (delay_slice, live, changed) (announced target, observed_none, tt)
      | inl same ↦ elim (Bool-cases (ltb_ℤ m.now target)) [
        | inr reached ↦
            rw (delay_slice, live, same, reached)
              (
                in_run m.later,
                observed_more (starts target m.later (forward target reached)) observed_none,
                refl,
              )
        | inl early ↦ elim (Bool-cases m.cancelled_in_slice) [
          | inl ended ↦
              rw (delay_slice, live, same, early, ended) (announced target, observed_none, tt)
          | inr on ↦ rw (delay_slice, live, same, early, on) (announced target, observed_none, refl)
        ]
      ]
    ]
  ]

  timing-IsAllowedTurn :
      (started : ℤ) (m : Moment E) (error : Option E)
      → IsAllowedTurn (in_run started) (run_with_timing parse_spec next started m error)
  timing-IsAllowedTurn started m error = elim (Bool-cases m.cancelled) [
    | inl ended ↦ rw (run_with_timing, ended) (in_run started, observed_none, tt)
    | inr live ↦ elim (Option-cases error) [
      | inl fine ↦
          rw (run_with_timing, live, fine)
            (after_run, observed_more (succeeds started m.now) observed_none, refl)
      | inr (e, bad) ↦
          rw (run_with_timing, live, bad)
            (after_run, observed_more (fails started m.now) observed_none, refl)
    ]
  ]

  retention-IsAllowedTurn :
      (m : Moment E) → IsAllowedTurn after_run (run_retention parse_spec next m)
  retention-IsAllowedTurn m = elim (Bool-cases m.cancelled) [
    | inl ended ↦ rw (run_retention, ended) (after_run, observed_none, tt)
    | inr live ↦
        rw (run_retention, live) (nothing_announced, observed_more prunes observed_none, tt)
  ]

  turn-IsAllowedTurn :
      (phase : LoopPhase) (v : View) (m : Moment E)
      → GoesForward m
      → Fits phase v
      → IsAllowedTurn v (turn parse_spec next phase m)
  unfolding turn
  turn-IsAllowedTurn deciding v m forward fits = decide-IsAllowedTurn v m fits
  turn-IsAllowedTurn pausing v m forward fits = pausing-IsAllowedTurn v fits
  turn-IsAllowedTurn (waiting_for cron t) v m forward fits =
      subst (λ w. IsAllowedTurn w (delay_slice parse_spec next cron t m)) (sym fits)
        (slice-IsAllowedTurn cron t m forward)
  turn-IsAllowedTurn (syncing s) v m forward fits =
      subst (λ w. IsAllowedTurn w (run_with_timing parse_spec next s m m.sync_error)) (sym fits)
        (timing-IsAllowedTurn s m m.sync_error)
  turn-IsAllowedTurn synced_once v m forward fits =
      subst (λ w. IsAllowedTurn w (run_retention parse_spec next m)) (sym fits)
        (retention-IsAllowedTurn m)
  turn-IsAllowedTurn stopped_for_good v m forward fits = (v, observed_none, tt)

  loop-IsAllowedTurn :
      (moments : List (Moment E)) (phase : LoopPhase) (v : View)
      → All GoesForward moments
      → Fits phase v
      → IsAllowedTurn v (run_scheduled_loop parse_spec next moments phase)
  unfolding run_scheduled_loop
  loop-IsAllowedTurn [] phase v forward fits = (v, observed_none, fits)
  loop-IsAllowedTurn (m ∷ moments) phase v (now_forward, forward) fits =
      let (w, seen, fits_w) = turn-IsAllowedTurn phase v m now_forward fits in
      let (u, rest, fits_u) =
        loop-IsAllowedTurn moments (turn parse_spec next phase m).0 w forward fits_w in
      (u, Observed-append (turn parse_spec next phase m).1 seen rest, fits_u)

  -- Whatever the loop meets, what it reports follows the protocol: a run is announced, starts no earlier than announced, and ends as failed or succeeded before the next one is announced, and a retention pass comes only behind a completed run and at most once, if the clock does not go back.
  pub run_scheduled_loop-Observed :
      (moments : List (Moment E))
      → All GoesForward moments
      → (v : View) × Observed nothing_announced
          (run_scheduled_loop parse_spec next moments deciding).1
          v
  run_scheduled_loop-Observed moments forward =
      let (v, seen, fits) = loop-IsAllowedTurn moments deciding nothing_announced forward tt in
      (v, seen)
