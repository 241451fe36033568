-- ===== src/Schedule.antt =====
-- internal/schedule/schedule.go: the check of cron expressions, and durations for log lines.
mod Tests
use native.Mathlib.Nat.{div-mul-le_self, div-one, le-div_iff_mul-le, lt-div-mul-add}
use git_backup.Base.{
  Bytes, List, [], bytes, if◌then◌else◌, ltb, map, ℕ, ◌*◌, ◌++◌, ◌+◌, ◌-◌, ◌/◌, ◌∷◌, ◌≡◌, ◌≤◌,
  Bool-cases, arith, false, inl, inr, refl, ◌<◌, Option, none, some,
}
use git_backup.Base.Int.{pos_part, ℤ}
use git_backup.Base.Result.{Result, err, ok}
use git_backup.Text.Decimal.{format_nat}
use git_backup.Text.Split.{join}
use git_backup.Text.Trim.{is_blank}

pub data CronError : Type 0 where
  cron_required : CronError
  cron_invalid : CronError

abbrev accept_cron : {S : Type 0} → Option S → Result CronError S
accept_cron none = err cron_invalid
accept_cron (some spec) = ok spec

-- `parse_spec` is the parser of the cron library.
unfoldable pub parse_cron : {S : Type 0} → (Bytes → Option S) → Bytes → Result CronError S
unfolding is_blank
parse_cron parse_spec expression =
    if is_blank expression then err cron_required else accept_cron (parse_spec expression)

pub record DurationUnit : Type 0 where
  pub seconds : ℕ
  pub suffix : Bytes

abbrev unit : ℕ → Bytes → DurationUnit
unit seconds suffix = record { seconds = seconds; suffix = suffix }

unfoldable pub duration_units : List DurationUnit
duration_units =
    unit 31536000 (bytes "y")
    ∷ unit 2592000 (bytes "mo")
    ∷ unit 604800 (bytes "w")
    ∷ unit 86400 (bytes "d")
    ∷ unit 3600 (bytes "h")
    ∷ unit 60 (bytes "m")
    ∷ unit 1 (bytes "s")
    ∷ []

-- A value and its unit.
abbrev pub Amount : Type 0
Amount = ℕ × DurationUnit

-- The loop over the units, before the amounts are written out.
unfoldable pub amounts : List DurationUnit → ℕ → List Amount
amounts [] remaining = []
amounts (u ∷ units) remaining =
    let skipped = amounts units remaining in
    let value = remaining / u.seconds in
    let rest = amounts units (remaining - value * u.seconds) in
    if ltb remaining u.seconds then skipped else (value, u) ∷ rest

abbrev pub render : Amount → Bytes
render (value, u) = format_nat value ++ u.suffix

abbrev pub zero_or : List Bytes → Bytes
zero_or [] = bytes "0s"
zero_or (part ∷ parts) = join b' ' (part ∷ parts)

unfoldable pub duration_short : ℤ → Bytes
unfolding duration_units amounts
duration_short total_seconds =
    zero_or (map render (amounts duration_units (pos_part total_seconds)))

-- The seconds that the amounts stand for.
abbrev pub seconds_of : List Amount → ℕ
seconds_of [] = 0
seconds_of ((value, u) ∷ rest) = value * u.seconds + seconds_of rest

-- The last unit is one second, and none is zero.
abbrev EndsInSeconds : List DurationUnit → Type 0
EndsInSeconds [] = ⊥
EndsInSeconds (u ∷ []) = u.seconds ≡ 1
EndsInSeconds (u ∷ v ∷ units) = (1 ≤ u.seconds) × EndsInSeconds (v ∷ units)

-- Every value is at least one, and what follows it is less than one unit.
abbrev pub IsGreedy : List Amount → Type 0
IsGreedy [] = Unit
IsGreedy ((value, u) ∷ rest) = (1 ≤ value) × (seconds_of rest < u.seconds) × IsGreedy rest

seconds_of-amounts :
    (units : List DurationUnit) (n : ℕ) → EndsInSeconds units → seconds_of (amounts units n) ≡ n
unfolding amounts
seconds_of-amounts [] n h = elim h [ ]
seconds_of-amounts (u ∷ []) n h = elim (Bool-cases (ltb n u.seconds)) [
  | inl small ↦ rw small (ground (arith, h))
  | inr large ↦ rw (large, h) (omega (arith, div-one n))
]
seconds_of-amounts (u ∷ v ∷ units) n h = elim (Bool-cases (ltb n u.seconds)) [
  | inl small ↦ rw small (seconds_of-amounts (v ∷ units) n h.1)
  | inr large ↦ rw large (
      omega (
        arith,
        seconds_of-amounts (v ∷ units) (n - n / u.seconds * u.seconds) h.1,
        div-mul-le_self n u.seconds,
      ))
]

one_unit : (u : DurationUnit) (n : ℕ) → 1 ≤ u.seconds → ltb n u.seconds ≡ false → 1 ≤ n / u.seconds
one_unit u n h large = (le-div_iff_mul-le {k = u.seconds} {x = 1} {y = n} h).1 (ground arith)

amounts-IsGreedy :
    (units : List DurationUnit) (n : ℕ) → EndsInSeconds units → IsGreedy (amounts units n)
unfolding amounts
amounts-IsGreedy [] n h = elim h [ ]
amounts-IsGreedy (u ∷ []) n h = elim (Bool-cases (ltb n u.seconds)) [
  | inl small ↦ rw small tt
  | inr large ↦ rw large (one_unit u n (omega (arith, h)) large, omega (arith, h), tt)
]
amounts-IsGreedy (u ∷ v ∷ units) n h = elim (Bool-cases (ltb n u.seconds)) [
  | inl small ↦ rw small (amounts-IsGreedy (v ∷ units) n h.1)
  | inr large ↦ rw large (
    one_unit u n h.0 large,
    omega (
      arith,
      seconds_of-amounts (v ∷ units) (n - n / u.seconds * u.seconds) h.1,
      lt-div-mul-add {a = n} {b = u.seconds} h.0,
      div-mul-le_self n u.seconds,
    ),
    amounts-IsGreedy (v ∷ units) (n - n / u.seconds * u.seconds) h.1,
  )
]

units_lem : EndsInSeconds duration_units
unfolding duration_units
units_lem =
    (omega arith, (omega arith, (omega arith, (omega arith, (omega arith, (omega arith, refl))))))

-- The amounts that a duration is written with add up to it; each value is at least one, and the amounts behind it are together less than its unit.
pub amounts_lem :
    (n : ℕ) → (seconds_of (amounts duration_units n) ≡ n) × IsGreedy (amounts duration_units n)
amounts_lem n =
    (seconds_of-amounts duration_units n units_lem, amounts-IsGreedy duration_units n units_lem)
