-- ===== src/Network/Breaker/Tests.antt =====
-- A breaker with a limit of two, and the theorems at it.
use favor_x.Base.{ℕ, ◌≡◌, refl, false, some, List, [], ◌∷◌, arith}
use favor_x.Base.Int.{pos, ◌-ℤ◌, ltb_ℤ, saturate_int64}
use favor_x.Network.Time.{sub_time}
use favor_x.Network.Breaker.{
  Breaker, Options, closed, Event, begins, ends, new_breaker, forget_old, before_f, after_f,
  execute, closed_until, step, run,
}
use favor_x.Network.Breaker.Closing.{IsSafe, IsSane, refused-closed_until}

abbrev options : Options
options = record {
  limit = pos 2;
  fail_interval = pos 50;
  start_backoff = pos 10;
  max_backoff = pos 15;
}

abbrev options-IsSane : IsSane options
options-IsSane = omega arith

abbrev events : List (Event ℕ)
events = begins (pos 5) (pos 5) ∷ ends (pos 6) (some 1) ∷ ends (pos 7) (some 1) ∷ []

refused-closed_until_example :
    let b = run (new_breaker options) events in
    (before_f b (pos 8) (pos 8)).1 ≡ ltb_ℤ (pos 8) (closed_until b (pos 8))
refused-closed_until_example =
    refused-closed_until options events (pos 8) (pos 8) options-IsSane (refl, (refl, tt))

-- It is closed now, and opens at 17 with the backoff at its maximum.
abbrev full : Breaker
full = record {
  limit = pos 2;
  cons_failed_calls = 2;
  first_failed_timestamp = pos 6;
  closed_timestamp = pos 7;
  backoff = pos 10;
  max_backoff = pos 15;
  fail_interval = pos 50;
}

run-events : run (new_breaker options) events ≡ full
unfolding run step before_f after_f new_breaker forget_old
run-events = refl

abbrev full-IsSafe : IsSafe full
full-IsSafe = record {
  limit_pos = omega arith;
  backoff_short = omega arith;
  max_short = omega arith;
  was_closed = λ h. refl;
}

execute_refused :
    execute {E = ℕ} full (pos 16) (pos 16) (pos 16) (some 1) ≡ (full, some closed, false)
unfolding execute before_f sub_time saturate_int64 ◌-ℤ◌
execute_refused = refl
