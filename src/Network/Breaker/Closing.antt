-- ===== src/Network/Breaker/Closing.antt =====
-- When the breaker is closed, and that it opens again.
use favor_x.Base.{
  ◌+◌, ◌≡◌, refl, ◌∙◌, true, false, Option, none, some, List, [], ◌∷◌, arith, if◌then◌else◌, length,
  ◌++◌,
}
use favor_x.Base.Int.{
  ℤ, pos, negsuc, ◌*ℤ◌, ◌-ℤ◌, ◌≤ℤ◌, ◌<ℤ◌, leb_ℤ, ltb_ℤ, wrap_int64, saturate_int64, +ℤ_parts,
  -ℤ_parts,
}
use favor_x.Network.Time.{Time, Duration, zero_time, is_zero, sub_time, add_time}
use favor_x.Network.Breaker.{
  Breaker, Options, new_breaker, reset_failed, next_backoff, forget_old, before_f, after_f,
  closed_until, Event, begins, ends, step, run,
}

-- Half of the range of a duration: such a backoff can be doubled.
abbrev pub IsShort : Duration → Type 0
IsShort d = (pos 0 <ℤ d) × (d <ℤ pos 4611686018427387904)

pub record IsSafe (b : Breaker) : Type 0 where
  pub limit_pos : pos 0 <ℤ b.limit
  pub backoff_short : IsShort b.backoff
  pub max_short : IsShort b.max_backoff
  pub was_closed :
      leb_ℤ b.limit (pos b.cons_failed_calls) ≡ true → is_zero b.closed_timestamp ≡ false

-- Doubling a short duration does not overflow.
double : (d : Duration) → IsShort d → wrap_int64 (d *ℤ pos 2) ≡ d *ℤ pos 2
unfolding wrap_int64 ◌*ℤ◌
double (pos n) h = ground arith
double (negsuc n) h = absurd (omega arith)

double-IsPos : (d : Duration) → IsShort d → pos 0 <ℤ d *ℤ pos 2
unfolding ◌*ℤ◌
double-IsPos (pos n) h = ground arith
double-IsPos (negsuc n) h = absurd (omega arith)

-- Saturation does not change how a time difference compares with such a duration.
saturate_lt : (x d : ℤ) → IsShort d → ltb_ℤ (saturate_int64 x) d ≡ ltb_ℤ x d
unfolding saturate_int64
saturate_lt (pos n) (pos d) h = ground arith
saturate_lt (negsuc n) (pos d) h = ground arith
saturate_lt x (negsuc d) h = absurd (omega arith)

elapsed_lt :
    (now t : Time) (d : Duration) → IsShort d → ltb_ℤ (sub_time now t) d ≡ ltb_ℤ now (add_time t d)
unfolding sub_time add_time
elapsed_lt now t d h = saturate_lt (now -ℤ t) d h ∙ ground (arith, -ℤ_parts now t, +ℤ_parts t d)

next_backoff-IsSafe : (b : Breaker) → IsSafe b → IsSafe (next_backoff (reset_failed b))
unfolding next_backoff reset_failed
next_backoff-IsSafe b v =
    rw (double b.backoff v.backoff_short) (ground (arith, double-IsPos b.backoff v.backoff_short))

forget_old-IsSafe : (b : Breaker) (now : Time) → IsSafe b → IsSafe (forget_old b now)
unfolding forget_old reset_failed
forget_old-IsSafe b now v = ground arith

before_f-IsSafe : (b : Breaker) (now later : Time) → IsSafe b → IsSafe (before_f b now later).0
unfolding before_f
before_f-IsSafe b now later v = grind (
  arith,
  forget_old-IsSafe b later v,
  forget_old-IsSafe (next_backoff (reset_failed b)) later (next_backoff-IsSafe b v),
)

after_f-IsSafe {ℓ} :
    {E : Type ℓ} (b : Breaker) (now : Time) (r : Option E)
    → is_zero now ≡ false
    → IsSafe b
    → IsSafe (after_f b now r)
unfolding after_f reset_failed
after_f-IsSafe b now none h v = ground arith
after_f-IsSafe b now (some e) h v = ground arith

-- ErrClosed is returned exactly while ClosedUntil lies ahead.
pub before_f-closed_until :
    (b : Breaker) (now later : Time)
    → IsSafe b
    → (before_f b now later).1 ≡ ltb_ℤ now (closed_until b now)
unfolding before_f closed_until
before_f-closed_until b now later v =
    ground (arith, elapsed_lt now b.closed_timestamp b.backoff v.backoff_short)

-- Options that leave room to double a backoff; a zero stands for the default.
pub record IsSane (o : Options) : Type 0 where
  pub limit_nonneg : pos 0 ≤ℤ o.limit
  pub start_nonneg : pos 0 ≤ℤ o.start_backoff
  pub start_lt : o.start_backoff <ℤ pos 4611686018427387904
  pub max_nonneg : pos 0 ≤ℤ o.max_backoff
  pub max_lt : o.max_backoff <ℤ pos 4611686018427387904

new_breaker-IsSafe : (o : Options) → IsSane o → IsSafe (new_breaker o)
unfolding new_breaker
new_breaker-IsSafe o v = ground arith

-- The clock is never at the zero Time.
abbrev pub IsTimed {ℓ} : {E : Type ℓ} → List (Event E) → Type 0
IsTimed [] = Unit
IsTimed (begins now later ∷ es) = IsTimed es
IsTimed (ends now r ∷ es) = (is_zero now ≡ false) × IsTimed es

run-IsSafe {ℓ} :
    {E : Type ℓ} (b : Breaker) (es : List (Event E)) → IsTimed es → IsSafe b → IsSafe (run b es)
unfolding run step
run-IsSafe b [] h v = v
run-IsSafe b (begins now later ∷ es) h v =
    run-IsSafe (before_f b now later).0 es h (before_f-IsSafe b now later v)
run-IsSafe b (ends now r ∷ es) h v =
    run-IsSafe (after_f b now r) es h.1 (after_f-IsSafe b now r h.0 v)

-- Whatever steps of concurrent calls came before, on a breaker made with sane options and a clock that
-- is not at the zero Time, a call is refused exactly while ClosedUntil lies ahead.
pub refused-closed_until {ℓ} :
    {E : Type ℓ} (o : Options) (es : List (Event E)) (now later : Time)
    → IsSane o
    → IsTimed es
    → let b = run (new_breaker o) es in (before_f b now later).1 ≡ ltb_ℤ now (closed_until b now)
refused-closed_until o es now later v h =
    before_f-closed_until _ now later (run-IsSafe _ es h (new_breaker-IsSafe o v))

-- A safe breaker with its row of failures full either refuses a call and stays as it is, or starts a
-- new row with no failure, its backoff doubled but not above the maximum.
pub before_f_full :
    (b : Breaker) (now later : Time)
    → IsSafe b
    → leb_ℤ b.limit (pos b.cons_failed_calls) ≡ true
    → before_f b now later ≡ (
        if ltb_ℤ now (closed_until b now) then (b, true) else (
          record b {
            cons_failed_calls = 0;
            first_failed_timestamp = zero_time;
            backoff =
                if leb_ℤ (b.backoff *ℤ pos 2) b.max_backoff
                then b.backoff *ℤ pos 2
                else b.max_backoff;
          },
          false,
        ))
unfolding before_f closed_until next_backoff reset_failed forget_old
before_f_full b now later v h = ground (
  arith,
  elapsed_lt now b.closed_timestamp b.backoff v.backoff_short,
  double b.backoff v.backoff_short,
)

-- Failures that end at these times, with no success among them.
abbrev pub failures {ℓ} : {E : Type ℓ} → E → List Time → List (Event E)
failures e [] = []
failures e (t ∷ ts) = ends t (some e) ∷ failures e ts

cons_failed_calls-failures {ℓ} :
    {E : Type ℓ} (b : Breaker) (e : E) (ts : List Time)
    → ((run b (failures e ts)).cons_failed_calls ≡ b.cons_failed_calls + length ts)
      × ((run b (failures e ts)).limit ≡ b.limit)
      × ((run b (failures e ts)).backoff ≡ b.backoff)
unfolding run step after_f
cons_failed_calls-failures b e [] = ground arith
cons_failed_calls-failures b e (t ∷ ts) =
    ground (arith, cons_failed_calls-failures (after_f b t (some e)) e ts)

run-append {ℓ} :
    {E : Type ℓ} (b : Breaker) (es fs : List (Event E)) → run b (es ++ fs) ≡ run (run b es) fs
unfolding run
run-append b [] fs = refl
run-append b (e ∷ es) fs = run-append (step b e) es fs

-- Failures with no success between them close the breaker exactly when their number reaches the
-- limit: up to there ClosedUntil is the present, and then it is the time of the last one plus the
-- backoff.
pub closed_until-failures {ℓ} :
    {E : Type ℓ} (b : Breaker) (e : E) (ts : List Time) (t now : Time)
    → pos (b.cons_failed_calls + length ts + 1) ≡ b.limit
    → (closed_until (run b (failures e ts)) now ≡ now)
      × (closed_until (run b (failures e ts ++ ends t (some e) ∷ [])) now ≡ add_time t b.backoff)
unfolding closed_until
closed_until-failures b e ts t now h = (
  ground (arith, cons_failed_calls-failures b e ts),
  rw (run-append b (failures e ts) (ends t (some e) ∷ []))
      (unfold run step after_f in ground (arith, cons_failed_calls-failures b e ts)),
)
