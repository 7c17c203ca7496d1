-- ===== src/Radios/Settings.antt =====
-- config/settings.py: the settings that the providers read, and the rounding of their timeout.
use meshonator.Base.{ℕ, zero, suc, ◌+◌, ◌*◌, ◌/◌, ◌%◌, if◌then◌else◌, ltb, ◌==◌, ◌&&◌, ◌||◌, nat_eq}
use meshonator.Base.Int.{ℤ, pos_part}
use meshonator.Db.{Real}

pub record Settings : Type 0 where
  pub provider_timeout_s : Real
  pub provider_connect_retries : ℤ
  pub meshtastic_default_tcp_port : ℕ

unfoldable pub power_of_two : ℕ → ℕ
power_of_two zero = 1
power_of_two (suc k) = 2 * power_of_two k

-- Python's `round` of a / 2 ^ k: to the nearest number, a tie to the even one
unfoldable pub round_half_even : ℕ → ℕ → ℕ
unfolding power_of_two
round_half_even a k =
    let whole = power_of_two k in
    let q = a / whole in
    let twice = 2 * (a % whole) in
    if ltb whole twice || (twice == whole && q % 2 == 1) then q + 1 else q

-- `max(1, int(round(timeout_s)))`; a number below zero rounds to one that is below 1
unfoldable pub interface_timeout : Real → ℕ
unfolding round_half_even
interface_timeout r =
    let seconds = round_half_even (pos_part r.mantissa) r.scale in
    if ltb seconds 1 then 1 else seconds
