-- ===== src/Health.antt =====
-- internal/health/health.go: the status server, as the scheduler and the reload drive it. `T` is an instant, `D` a duration in seconds.
mod Tests
use git_backup.Base.{
  Bytes, Bool, Bool-cases, List, Option, [], ap, bytes, false, if◌then◌else◌, inl, inr, none, not,
  refl, some, text_eq, ◌&&◌, ◌∙◌, ◌∷◌, ◌≡◌, arith, subst, text_eq_refl, text_eq_sound, ◌↔◌, ◌≢◌,
}
use git_backup.Base.Int.{ltb_ℤ, pos, ℤ}

pub record Server (T : Type 0) (D : Type 0) : Type 0 where
  pub bind : Bytes
  pub port : ℤ
  pub started_at : T
  pub last_run_started_at : Option T
  pub last_run_completed_at : Option T
  pub last_run_duration : Option D
  pub last_run_outcome : Option Bytes
  pub next_run_at : Option T
  pub serving : Bool

-- The calls that change the server. A completion carries the present time, and a restart whether the port can be bound.
pub data Event (T : Type 0) : Type 0 where
  run_started : T → Event T
  run_completed : T → Bytes → T → Event T
  next_run : T → Event T
  restarted : Bytes → ℤ → Bool → Event T

pub record Report (T : Type 0) (D : Type 0) : Type 0 where
  pub status : Bytes
  pub running_since : T
  pub run_started_at : Option T
  pub run_completed_at : Option T
  pub run_duration : Option D
  pub run_outcome : Option Bytes
  pub planned_at : Option T

differ_from : (s t : Bytes) → text_eq s t ≡ false → s ≢ t
differ_from s t h e = absurd (cc (h, text_eq_refl t, ap (λ u. text_eq u t) e))

module _ {T D : Type 0} (seconds_between : T → T → D) where
  abbrev pub stop : Server T D → Server T D
  stop s = record s { serving = false }

  abbrev pub start_at : ℤ → Bool → Server T D → Server T D
  start_at port can_bind s = if ltb_ℤ (pos 0) port then record s { serving = can_bind } else s

  abbrev pub same_port : ℤ → ℤ → Bool
  same_port a b = not (ltb_ℤ a b) && not (ltb_ℤ b a)

  abbrev pub restart : Bytes → ℤ → Bool → Server T D → Server T D
  restart bind port can_bind s =
      if s.serving && (text_eq s.bind bind && same_port s.port port)
      then s
      else (let closed = stop s in
          start_at port can_bind (record closed { bind = bind; port = port }))

  abbrev pub handle_event : Event T → Server T D → Server T D
  handle_event (run_started at_time) s = record s { last_run_started_at = some at_time }
  handle_event (run_completed started_at outcome now) s = record s {
    last_run_completed_at = some now;
    last_run_duration = some (seconds_between started_at now);
    last_run_outcome = some outcome;
  }
  handle_event (next_run at_time) s = record s { next_run_at = some at_time }
  handle_event (restarted bind port can_bind) s = restart bind port can_bind s

  unfoldable pub after_events : List (Event T) → Server T D → Server T D
  after_events [] s = s
  after_events (event ∷ events) s = after_events events (handle_event event s)

  abbrev pub status_of : Option Bytes → Bytes
  status_of none = bytes "ok"
  status_of (some outcome) =
      if text_eq outcome (bytes "failed") then bytes "degraded" else bytes "ok"

  unfoldable pub report_of : Server T D → Report T D
  report_of s = record {
    status = status_of s.last_run_outcome;
    running_since = s.started_at;
    run_started_at = s.last_run_started_at;
    run_completed_at = s.last_run_completed_at;
    run_duration = s.last_run_duration;
    run_outcome = s.last_run_outcome;
    planned_at = s.next_run_at;
  }

  -- The outcome of the last completion among the events, or the one before them.
  abbrev pub last_outcome : Option Bytes → List (Event T) → Option Bytes
  last_outcome before [] = before
  last_outcome before (run_completed started_at outcome now ∷ events) =
      last_outcome (some outcome) events
  last_outcome before (run_started at_time ∷ events) = last_outcome before events
  last_outcome before (next_run at_time ∷ events) = last_outcome before events
  last_outcome before (restarted bind port can_bind ∷ events) = last_outcome before events

  restart-outcome :
      (bind : Bytes) (port : ℤ) (can_bind : Bool) (s : Server T D)
      → (restart bind port can_bind s).last_run_outcome ≡ s.last_run_outcome
  restart-outcome bind port can_bind s =
      elim (Bool-cases (s.serving && (text_eq s.bind bind && same_port s.port port))) [
        | inl same ↦ rw same refl
        | inr other ↦ elim (Bool-cases (ltb_ℤ (pos 0) port)) [
          | inl positive_port ↦ rw (other, positive_port) refl
          | inr off ↦ rw (other, off) refl
        ]
      ]

  after_events-outcome :
      (events : List (Event T)) (s : Server T D)
      → (after_events events s).last_run_outcome ≡ last_outcome s.last_run_outcome events
  unfolding after_events
  after_events-outcome [] s = refl
  after_events-outcome (run_started at_time ∷ events) s = after_events-outcome events _
  after_events-outcome (run_completed started_at outcome now ∷ events) s =
      after_events-outcome events _
  after_events-outcome (next_run at_time ∷ events) s = after_events-outcome events _
  after_events-outcome (restarted bind port can_bind ∷ events) s =
      after_events-outcome events (restart bind port can_bind s)
      ∙ ap (λ o. last_outcome o events) (restart-outcome bind port can_bind s)

  -- The status by the outcome, stated on its own.
  abbrev pub ReportsOutcome : Bytes → Option Bytes → Type 0
  ReportsOutcome status outcome =
      ((status ≡ bytes "degraded") ↔ (outcome ≡ some (bytes "failed")))
      × ((status ≡ bytes "ok") ↔ (outcome ≢ some (bytes "failed")))

  status_of-ReportsOutcome : (o : Option Bytes) → ReportsOutcome (status_of o) o
  status_of-ReportsOutcome none =
      ((λ h. absurd (ground (arith, h)), λ h. absurd (cc h)), (λ h k. absurd (cc k), λ h. refl))
  status_of-ReportsOutcome (some outcome) = elim (Bool-cases (text_eq outcome (bytes "failed"))) [
    | inl same ↦
        let e = ap some (text_eq_sound outcome (bytes "failed") same) in
        rw (status_of, same)
          ((λ h. e, λ h. refl), (λ h. absurd (ground (arith, h)), λ h. absurd (h e)))
    | inr other ↦
        let differs : some outcome ≢ some (bytes "failed") =
          λ h. differ_from outcome (bytes "failed") other (cc h) in
        rw (status_of, other)
          ((λ h. absurd (ground (arith, h)), λ h. absurd (differs h)), (λ h. differs, λ h. refl))
  ]

  -- Whatever else happens, restarts included, the status is degraded exactly if the last completed run has failed, and ok exactly if it has not.
  pub report_of-after_events :
      (events : List (Event T)) (s : Server T D)
      → ReportsOutcome
          (report_of (after_events events s)).status
          (last_outcome s.last_run_outcome events)
  unfolding report_of
  report_of-after_events events s =
      subst (ReportsOutcome (report_of (after_events events s)).status)
        (after_events-outcome events s)
        (status_of-ReportsOutcome (after_events events s).last_run_outcome)
