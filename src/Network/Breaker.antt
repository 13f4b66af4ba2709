-- ===== src/Network/Breaker.antt =====
-- pkg/p2p/libp2p/internal/breaker/breaker.go: a circuit breaker. Each method that locks is one step;
-- each reading of the clock is an argument, and the call of f between `beforef` and `afterf` holds no
-- lock, so steps of other calls may come between the two.
pub mod Closing
pub mod Tests
use favor_x.Base.{
  ℕ, ◌+◌, Bool, true, false, not, Option, none, some, ◌&&◌, ◌||◌, if◌then◌else◌, List, [], ◌∷◌,
  ◌==◌,
}
use favor_x.Base.Int.{ℤ, pos, ◌*ℤ◌, leb_ℤ, ltb_ℤ, eqb_ℤ, wrap_int64}
use favor_x.Network.Time.{Time, Duration, zero_time, is_zero, sub_time, add_time}

pub record Breaker : Type 0 where
  pub limit : ℤ
  pub cons_failed_calls : ℕ
  pub first_failed_timestamp : Time
  pub closed_timestamp : Time
  pub backoff : Duration
  pub max_backoff : Duration
  pub fail_interval : Duration

pub record Options : Type 0 where
  pub limit : ℤ
  pub fail_interval : Duration
  pub start_backoff : Duration
  pub max_backoff : Duration

abbrev or_default : ℤ → ℕ → ℤ
or_default x d = if eqb_ℤ x (pos 0) then pos d else x

unfoldable pub new_breaker : Options → Breaker
new_breaker o = record {
  limit = or_default o.limit 100;
  cons_failed_calls = 0;
  first_failed_timestamp = zero_time;
  closed_timestamp = zero_time;
  backoff = or_default o.start_backoff 120000000000;
  max_backoff = or_default o.max_backoff 3600000000000;
  fail_interval = or_default o.fail_interval 1800000000000;
}

-- What Execute returns: the breaker's own error, or what f returned.
pub data Error {ℓ} (E : Type ℓ) : Type ℓ where
  closed : Error E
  from_f : E → Error E

unfoldable pub reset_failed : Breaker → Breaker
reset_failed b = record b { cons_failed_calls = 0; first_failed_timestamp = zero_time }

-- The breaker with the backoff doubled, up to the maximum.
unfoldable pub next_backoff : Breaker → Breaker
next_backoff b =
    let new_backoff = wrap_int64 (b.backoff *ℤ pos 2) in
    if leb_ℤ new_backoff b.max_backoff
    then record b { backoff = new_backoff }
    else record b { backoff = b.max_backoff }

-- The second half of `beforef`: an old row of failures is forgotten.
unfoldable pub forget_old : Breaker → Time → Breaker
forget_old b now =
    if not (is_zero b.first_failed_timestamp)
      && leb_ℤ b.fail_interval (sub_time now b.first_failed_timestamp)
    then reset_failed b
    else b

-- `beforef`, with its two readings of the clock; true is ErrClosed.
unfoldable pub before_f : Breaker → Time → Time → Breaker × Bool
before_f b now later =
    if leb_ℤ b.limit (pos b.cons_failed_calls)
    then (if is_zero b.closed_timestamp || ltb_ℤ (sub_time now b.closed_timestamp) b.backoff
        then (b, true)
        else (forget_old (next_backoff (reset_failed b)) later, false))
    else (forget_old b later, false)

-- `afterf`; one reading of the clock stands for the two that it makes when the first failure is also
-- the one that closes the breaker.
unfoldable pub after_f {ℓ} : {E : Type ℓ} → Breaker → Time → Option E → Breaker
after_f b now none = reset_failed b
after_f b now (some e) =
    let first = if b.cons_failed_calls == 0 then now else b.first_failed_timestamp in
    let calls = b.cons_failed_calls + 1 in
    let closed_at = if eqb_ℤ (pos calls) b.limit then now else b.closed_timestamp in
    record b {
      cons_failed_calls = calls;
      first_failed_timestamp = first;
      closed_timestamp = closed_at;
    }

-- Execute, when no other call comes between: the new breaker, what is returned (`none` is nil), and
-- whether f was run. `f` is what f returns if it is run.
unfoldable pub execute {ℓ} :
    {E : Type ℓ} → Breaker → Time → Time → Time → Option E → Breaker × Option (Error E) × Bool
execute b now later done f =
    let (b', refused) = before_f b now later in
    if refused
    then (b', some closed, false)
    else (after_f b' done f, elim f [ none ↦ none | some e ↦ some (from_f e) ], true)

unfoldable pub closed_until : Breaker → Time → Time
closed_until b now =
    if leb_ℤ b.limit (pos b.cons_failed_calls) then add_time b.closed_timestamp b.backoff else now

-- The steps of any number of calls, in the order in which they take the lock.
pub data Event {ℓ} (E : Type ℓ) : Type ℓ where
  begins : Time → Time → Event E
  ends : Time → Option E → Event E

unfoldable pub step {ℓ} : {E : Type ℓ} → Breaker → Event E → Breaker
step b (begins now later) = (before_f b now later).0
step b (ends now r) = after_f b now r

unfoldable pub run {ℓ} : {E : Type ℓ} → Breaker → List (Event E) → Breaker
run b [] = b
run b (e ∷ es) = run (step b e) es
