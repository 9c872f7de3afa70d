-- ===== src/Base/Time.antt =====
-- time.Time and time.Duration of the standard library, as numbers of nanoseconds.
use Prim.Native.Nat.{ℕ, ◌+◌, ◌-◌, ◌*◌, ◌/◌, ◌%◌, ◌^◌}
use sap.Base.Int.{ℤ, pos, negsuc, ltb, ltb_ℤ, sub_ℤ, if◌then◌else◌}
use sap.Base.Decimal.{millisecond}

-- A number of 64 bits in two's complement.
unfoldable pub wrap_bits : ℕ → ℤ
wrap_bits n = if ltb n (2 ^ 63) then pos n else negsuc (2 ^ 64 - 1 - n)

unfoldable pub wrap : ℤ → ℤ
unfolding wrap_bits
wrap (pos n) = wrap_bits (n % 2 ^ 64)
wrap (negsuc n) = wrap_bits (2 ^ 64 - 1 - n % 2 ^ 64)

unfoldable pub times : ℤ → ℕ → ℤ
times (pos n) k = pos (n * k)
times (negsuc n) k = negsuc (n * k + k - 1)

unfoldable pub floor_div : ℤ → ℕ → ℤ
floor_div (pos n) d = pos (n / d)
floor_div (negsuc n) d = negsuc (n / d)

abbrev pub max_duration : ℤ
max_duration = pos (2 ^ 63 - 1)

abbrev pub min_duration : ℤ
min_duration = negsuc (2 ^ 63 - 1)

-- `t.Sub(u)`, which saturates.
unfoldable pub sub_time : ℤ → ℤ → ℤ
sub_time t u =
    let d = sub_ℤ t u in
    if ltb_ℤ max_duration d
    then max_duration
    else (if ltb_ℤ d min_duration then min_duration else d)

-- `t.UnixNano()` and `t.UnixMilli()`, for the instant `epoch` of 1970-01-01.
unfoldable pub unix_nano : ℤ → ℤ → ℤ
unfolding wrap
unix_nano epoch t = wrap (sub_ℤ t epoch)

unfoldable pub unix_milli : ℤ → ℤ → ℤ
unfolding wrap floor_div
unix_milli epoch t = wrap (floor_div (sub_ℤ t epoch) millisecond)

-- `d.Round(m)` of a duration that is not negative.
unfoldable pub round : ℕ → ℕ → ℕ
round d m = let r = d % m in if ltb (r + r) m then d - r else d - r + m
