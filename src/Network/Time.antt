-- ===== src/Network/Time.antt =====
-- Go's time package as far as the code uses it. A `time.Time` is its distance in nanoseconds from the
-- zero Time, a `time.Duration` an int64 of nanoseconds; `Sub` saturates. The range of `time.Time` itself
-- is not bounded here. The clock is read through arguments.
pub mod Order
use favor_x.Base.{Bool}
use favor_x.Base.Int.{ℤ, pos, ◌+ℤ◌, ◌-ℤ◌, eqb_ℤ, saturate_int64}

abbrev pub Time : Type 0
Time = ℤ

abbrev pub Duration : Type 0
Duration = ℤ

-- time.Time{}
abbrev pub zero_time : Time
zero_time = pos 0

-- Time.IsZero
abbrev pub is_zero : Time → Bool
is_zero t = eqb_ℤ t zero_time

-- Time.Sub
unfoldable pub sub_time : Time → Time → Duration
sub_time t u = saturate_int64 (t -ℤ u)

-- Time.Add
unfoldable pub add_time : Time → Duration → Time
add_time t d = t +ℤ d
