-- ===== src/Network/Time/Order.antt =====
-- Differences of times grow with the later time and shrink with the earlier one.
use favor_x.Base.{arith}
use favor_x.Base.Int.{ℤ, pos, negsuc, ◌-ℤ◌, ◌≤ℤ◌, saturate_int64, -ℤ_parts}
use favor_x.Network.Time.{Time, sub_time}

saturate_mono : (x y : ℤ) → x ≤ℤ y → saturate_int64 x ≤ℤ saturate_int64 y
unfolding saturate_int64
saturate_mono (pos x) (pos y) h = ground arith
saturate_mono (pos x) (negsuc y) h = absurd (omega arith)
saturate_mono (negsuc x) (pos y) h = ground arith
saturate_mono (negsuc x) (negsuc y) h = ground arith

pub sub_mono : (t u v : Time) → u ≤ℤ v → sub_time t v ≤ℤ sub_time t u
unfolding sub_time
sub_mono t u v h = saturate_mono (t -ℤ v) (t -ℤ u) (omega (arith, -ℤ_parts t v, -ℤ_parts t u))
