-- ===== src/Uptime.antt =====
-- src/net.c, gbServerFormatUptime: the numbers of its text, for the seconds since the start. A clock that
-- was set back makes them negative.
use gibson_mastter.Base.{ℕ, ◌+◌, ◌*◌, ◌/◌, ◌%◌, ◌<◌, ◌≡◌, leb, if◌then◌else◌, arith}
use gibson_mastter.Base.Int.{ℤ, pos, negsuc, pos_part}

-- A quotient where there is one, and what is left.
abbrev pub part : ℕ → ℕ → ℕ × ℕ
part unit n = if leb unit n then (n / unit, n % unit) else (0, n)

-- gbServerFormatUptime: days, hours, minutes and seconds.
unfoldable pub server_format_uptime : ℤ → ℕ × ℕ × ℕ × ℤ
server_format_uptime (negsuc n) = (0, 0, 0, negsuc n)
server_format_uptime (pos n) =
    let (days, in_day) = part 86400 n in
    let (hours, in_hour) = part 3600 in_day in
    let (minutes, seconds) = part 60 in_hour in (days, hours, minutes, pos seconds)

day-part : (n : ℕ) → let (q, r) = part 86400 n in (86400 * q + r ≡ n) × (r < 86400)
day-part n = ground arith

hour-part : (n : ℕ) → let (q, r) = part 3600 n in (3600 * q + r ≡ n) × (r < 3600)
hour-part n = ground arith

minute-part : (n : ℕ) → let (q, r) = part 60 n in (60 * q + r ≡ n) × (r < 60)
minute-part n = ground arith

-- What is shown of an uptime that is not negative adds up to it, with less than 24 hours, 60 minutes
-- and 60 seconds.
pub server_format_uptime-sum :
    (n : ℕ)
    → let (days, hours, minutes, seconds) = server_format_uptime (pos n) in
      (86400 * days + 3600 * hours + 60 * minutes + pos_part seconds ≡ n)
      × (hours < 24)
      × (minutes < 60)
      × (pos_part seconds < 60)
unfolding server_format_uptime
server_format_uptime-sum n =
    let in_day = (part 86400 n).1 in
    let in_hour = (part 3600 in_day).1 in
    let (d, d_less) = day-part n in
    let (h, h_less) = hour-part in_day in
    let (m, m_less) = minute-part in_hour in
    (omega (arith, d, h, m), omega (arith, d_less, h), omega (arith, h_less, m), m_less)
