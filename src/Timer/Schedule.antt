-- ===== src/Timer/Schedule.antt =====
-- src/timer.rs: the next instant lies ahead, by no more than an interval.
use stunnel.Base.{
  ℕ, ◌+◌, ◌-◌, ◌*◌, ◌/◌, ◌%◌, ◌^◌, ◌<◌, ◌≤◌, ◌≡◌, refl, ap, inl, inr, ◌⊎◌, true, false, Bool-cases,
  none, some, ltb, ltb→lt, lt→ltb, ◌==◌, arith,
}
use native.Mathlib.Nat.{div-add-mod, mod-lt, div-lt_iff_lt-mul}
use stunnel.Timer.{duration_to_nanos, next_interval, Interval, poll_next}

duration_to_nanos_exact : (dur : ℕ) → dur < 2 ^ 64 → duration_to_nanos dur ≡ some dur
unfolding duration_to_nanos
duration_to_nanos_exact dur h =
    rw
      (
        lt→ltb (dur / 10 ^ 9 * 10 ^ 9) (2 ^ 64) (omega arith),
        lt→ltb (dur / 10 ^ 9 * 10 ^ 9 + dur % 10 ^ 9) (2 ^ 64) (omega arith),
      )
      (ap some (omega arith))

-- The instant is a whole number of intervals behind `prev`, after `now`, and the first such.
pub next_interval_lem :
    (prev now dur : ℕ)
    → 0 < dur
    → dur < 2 ^ 64
    → now - prev < 2 ^ 31 * dur
    → now - prev < 2 ^ 64
    → (k : ℕ) × (next_interval prev now dur ≡ some (prev + dur * k))
      × (1 ≤ k)
      × (now < prev + dur * k)
      × ((k ≡ 1) ⊎ (prev + dur * k ≤ now + dur))
unfolding next_interval
next_interval_lem prev now dur pos small few short = elim (Bool-cases (ltb now (prev + dur))) [
  | inl ahead ↦ (1, rw ahead (ap some (omega arith)), omega arith, ground (arith), inl refl)
  | inr behind ↦
      let spent : ℕ = now - prev in
      let k : ℕ = spent / dur + 1 in
      let whole : dur * (spent / dur) + spent % dur ≡ spent = div-add-mod spent dur in
      let part : spent % dur < dur = mod-lt spent pos in
      let bound : ltb k (2 ^ 32) ≡ true =
        lt→ltb k (2 ^ 32) (omega (arith, (div-lt_iff_lt-mul pos).1 few)) in
      let more : dur * k ≡ dur * (spent / dur) + dur = grind arith in
      let no_zero : (dur == 0) ≡ false = ground arith in
      (
        k,
        rw
            (
              behind,
              duration_to_nanos_exact spent short,
              duration_to_nanos_exact dur small,
              no_zero,
              bound,
            )
            refl,
        omega arith,
        ground arith,
        inr (ground arith),
      )
]

-- A poll of an interval above 0, whose second and third readings of the clock are in order and less
-- than 2 ^ 31 intervals apart, does not panic, within the range of u64 nanoseconds. Before the delay
-- is over it waits; else it gives the value, and the next delay is over after the third reading, an
-- interval later at most, and a whole number of intervals behind the second.
pub poll_next_lem {ℓ} :
    {T : Type ℓ} (i : Interval T) (polled when now : ℕ)
    → when ≤ now
    → 0 < i.interval
    → i.interval < 2 ^ 64
    → now - when < 2 ^ 31 * i.interval
    → now - when < 2 ^ 64
    → ((polled < i.delay) × (poll_next i polled when now ≡ some (none, i)))
      ⊎ ((i.delay ≤ polled)
          × ((k : ℕ) × (poll_next i polled when now
                ≡ some (some i.value, record i { delay = when + i.interval * k }))
              × (now < when + i.interval * k)
              × (when + i.interval * k ≤ now + i.interval)))
unfolding poll_next
poll_next_lem i polled when now ordered pos small few short =
    elim (Bool-cases (ltb polled i.delay)) [
      | inl early ↦ inl (ltb→lt polled i.delay early, rw early refl)
      | inr due ↦
          let (k, e, least, ahead, near) =
            next_interval_lem when now i.interval pos small few short in
          inr (ground arith, (k, rw (due, e) refl, ahead, within k near))
    ]
  where
    within :
        (k : ℕ)
        → (k ≡ 1) ⊎ (when + i.interval * k ≤ now + i.interval)
        → when + i.interval * k ≤ now + i.interval
    within k (inl one) = rw one (omega arith)
    within k (inr near) = near
