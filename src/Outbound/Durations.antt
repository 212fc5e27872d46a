-- ===== src/Outbound/Durations.antt =====
-- outbound/groups.go: `parseDuration`. A `time.Duration` is a signed 64-bit number of nanoseconds, whose
-- product wraps; `parse` is `time.ParseDuration`.
use ts_dns.Common.{
  ℕ, zero, suc, ◌+◌, ◌-◌, ◌*◌, ◌/◌, ◌%◌, ◌^◌, ◌≤◌, ◌<◌, ◌≡◌, refl, Bool, true, false, Option, none,
  some, List, [], ◌∷◌, ◌++◌, if◌then◌else◌, ltb, leb, ◌==◌, ℤ, Bytes, drop_last, ◌>>=◌,
}
mod Bounds
mod Tests

-- The `int64` of a 64-bit word.
abbrev pub of_word : ℕ → ℤ
of_word w = if ltb w (2 ^ 63) then ℤ.pos w else ℤ.negsuc (2 ^ 64 - 1 - w)

-- `d * 24`.
unfoldable pub times_24 : ℤ → ℤ
times_24 (ℤ.pos n) = of_word ((24 * n) % 2 ^ 64)
times_24 (ℤ.negsuc n) = of_word ((2 ^ 64 - (24 * (n + 1)) % 2 ^ 64) % 2 ^ 64)

-- `d > maxDuration/24`.
abbrev pub over_limit : ℤ → Bool
over_limit (ℤ.pos n) = ltb ((2 ^ 63 - 1) / 24) n
over_limit (ℤ.negsuc n) = false

-- `if d <= 0` is an error.
abbrev pub positive_only : ℤ → Option ℕ
positive_only (ℤ.pos zero) = none
positive_only (ℤ.pos (suc n)) = some (suc n)
positive_only (ℤ.negsuc n) = none

abbrev pub to_days : ℤ → Option ℤ
to_days d = if over_limit d then none else some (times_24 d)

-- `s[len(s)-1]`.
unfoldable pub last_byte : ℕ → Bytes → ℕ
last_byte c [] = c
last_byte c (x ∷ s) = last_byte x s

-- `parseDuration`; `none` is an error.
abbrev pub parse_suffix : (Bytes → Option ℤ) → ℕ → Bytes → Bytes → Option ℤ
parse_suffix parse suffix num s =
    if suffix == b'm'
    then parse (num ++ b'm' ∷ [])
    else if suffix == b'h'
    then parse (num ++ b'h' ∷ [])
    else if suffix == b'd'
    then (parse (num ++ b'h' ∷ []) >>= to_days)
    else parse s

unfoldable pub parse_duration : (Bytes → Option ℤ) → Bytes → Option ℕ
unfolding times_24 drop_last last_byte
parse_duration parse [] = none
parse_duration parse (c ∷ s) =
    parse_suffix parse (last_byte c s) (drop_last (c ∷ s)) (c ∷ s) >>= positive_only
