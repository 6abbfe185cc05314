-- ===== src/Timer.antt =====
-- src/timer.rs: a stream that gives a value once in an interval. Instants and durations are nanoseconds.
pub mod Schedule
use stunnel.Base.{
  ℕ, ◌+◌, ◌-◌, ◌*◌, ◌/◌, ◌%◌, ◌^◌, ◌>>=◌, Option, none, some, ltb, ◌==◌, if◌then◌else◌,
}

-- `Duration::as_secs` and `Duration::subsec_nanos`
abbrev as_secs : ℕ → ℕ
as_secs dur = dur / 10 ^ 9

abbrev subsec_nanos : ℕ → ℕ
subsec_nanos dur = dur % 10 ^ 9

-- `checked_mul` and `checked_add` on u64
abbrev checked : ℕ → Option ℕ
checked v = if ltb v (2 ^ 64) then some v else none

unfoldable pub duration_to_nanos : ℕ → Option ℕ
duration_to_nanos dur = do v ← checked (as_secs dur * 10 ^ 9); checked (v + subsec_nanos dur)

-- `none` is a panic: a duration too long, an interval of 0, or the assertion.
unfoldable pub next_interval : ℕ → ℕ → ℕ → Option ℕ
next_interval prev now interval =
    let new = prev + interval in
    if ltb now new then some new else (do
      spent_ns ← duration_to_nanos (now - prev)
      interval_ns ← duration_to_nanos interval
      mult ← (if interval_ns == 0 then none else some (spent_ns / interval_ns + 1))
      if ltb mult (2 ^ 32) then some (prev + interval * mult) else none)

-- `Interval`; `delay` is the instant at which the delay is over.
pub record Interval {ℓ} (T : Type ℓ) : Type ℓ where
  pub delay : ℕ
  pub interval : ℕ
  pub value : T

module _ {ℓ} {T : Type ℓ} where
  -- `interval`, called at `now`.
  unfoldable pub interval : ℕ → ℕ → T → Interval T
  interval now dur val = record { delay = now + dur; interval = dur; value = val }

  -- `poll_next`, whose three readings of the clock are `polled`, `when` and `now`. The outer `none` is a panic,
  -- the inner one `Pending`.
  unfoldable pub poll_next : Interval T → ℕ → ℕ → ℕ → Option (Option T × Interval T)
  poll_next i polled when now = if ltb polled i.delay then some (none, i) else (do
    next ← next_interval when now i.interval
    some (some i.value, record i { delay = next }))
