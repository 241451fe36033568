-- ===== src/Schedule/Tests.antt =====
-- The theorem on durations at one input.
use git_backup.Base.{bytes, refl, ◌≡◌}
use git_backup.Base.Int.{negsuc, pos}
use git_backup.Schedule.{IsGreedy, amounts, amounts_lem, duration_short, duration_units, seconds_of}
use git_backup.Text.Decimal.{format_nat}
use git_backup.Text.Split.{join}

ninety_minutes : duration_short (pos 5400) ≡ bytes "1h 30m"
unfolding duration_short duration_units amounts format_nat join
ninety_minutes = refl

nothing_left : duration_short (negsuc 4) ≡ bytes "0s"
unfolding duration_short duration_units amounts
nothing_left = refl

amounts_lem_example :
    (seconds_of (amounts duration_units 5400) ≡ 5400) × IsGreedy (amounts duration_units 5400)
amounts_lem_example = amounts_lem 5400
