-- ===== src/Outbound/Durations/Tests.antt =====
-- Durations under a stand-in for Go's parser, which reads one digit of hours, or of a million negative hours.
use ts_dns.Common.{ℕ, ◌-◌, ◌*◌, ◌%◌, ◌^◌, ◌≡◌, refl, ◌&&◌, Option, none, some}
use ts_dns.Common.{[], ◌∷◌, arith, if◌then◌else◌, ltb, leb, ◌==◌, ℤ, Bytes, codes}
use ts_dns.Outbound.Durations.{parse_duration}
use ts_dns.Outbound.Durations.Bounds.{parse_duration-days, parse_duration-negative}

abbrev hour : ℕ
hour = 3600 * 1_000_000_000

abbrev hours : Bytes → Option ℤ
hours (c ∷ u ∷ []) =
    if leb b'0' c && leb c b'9'
    then some (ℤ.pos ((c - b'0') * hour))
    else if c == b'-'
    then some (ℤ.negsuc (1_000_000 * hour - 1))
    else none
hours s = none

two_days : parse_duration hours (codes "2d") ≡ some (48 * hour)
unfolding parse_duration
two_days = refl

parse_duration-days_example : parse_duration hours (codes "2d") ≡ (
    if ltb 0 (2 * hour) && leb (24 * (2 * hour)) (2 ^ 63 - 1) then some (24 * (2 * hour)) else none)
parse_duration-days_example = parse_duration-days hours (codes "2") (2 * hour) refl

parse_duration-negative_example :
    parse_duration hours (codes "-d") ≡ some (2 ^ 64 - (24 * (1_000_000 * hour)) % 2 ^ 64)
parse_duration-negative_example =
    parse_duration-negative hours (codes "-") (1_000_000 * hour - 1) refl (omega arith)
