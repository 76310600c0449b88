-- ===== src/Executor/Ticks.antt =====
-- The times of a round and the wait before the first one, for a positive interval.
use data_collection.Base.{
  ℕ, suc, ◌+◌, ◌-◌, ◌*◌, ◌/◌, ◌%◌, ◌^◌, ◌≤◌, ◌<◌, ◌≡◌, ◌∙◌, none, some, arith, ◌==◌, if◌then◌else◌,
  ℤ, pos, negsuc, ◌+ℤ◌, ◌-ℤ◌, ◌≤ℤ◌, ◌<ℤ◌,
}
use native.Mathlib.Nat.{mod-lt, mod-le, mod-add-div, mul-add-mod_self_left, mod_self}
use data_collection.Executor.{truncate, fits, unix, generate_time_range, adjustment_time}

truncate_lem :
    (now g : ℕ) → (truncate now (pos (suc g)) ≤ now) × (now < truncate now (pos (suc g)) + suc g)
unfolding truncate
truncate_lem now g = let h = mod-lt now {m = suc g} (omega arith) in (omega arith, omega arith)

-- The times of a round are two intervals apart, and the moment of the round lies in the second one.
-- Conditions: the interval is positive, and its nanoseconds fit into an int64.
pub generate_time_range_lem :
    (g now : ℕ)
    → suc g * 1000000000 < 2 ^ 63
    → (range : ℤ × ℤ) × (generate_time_range (pos (suc g)) now ≡ some range)
      × (range.1 ≡ range.0 +ℤ pos (suc g) +ℤ pos (suc g))
      × (range.0 +ℤ pos (suc g) ≤ℤ unix now)
      × (unix now <ℤ range.1)
unfolding generate_time_range fits ◌+ℤ◌ ◌-ℤ◌
generate_time_range_lem g now small =
    let (below, above) = truncate_lem now g in
    let middle = unix (truncate now (pos (suc g))) in
    (
      (middle -ℤ pos (suc g), middle +ℤ pos (suc g)),
      ground (arith, small),
      spread (truncate now (pos (suc g))),
      lower (truncate now (pos (suc g))) below,
      upper (truncate now (pos (suc g))) above,
    )
  where
    spread : (t : ℕ) → unix t +ℤ pos (suc g) ≡ unix t -ℤ pos (suc g) +ℤ pos (suc g) +ℤ pos (suc g)
    spread t = ground arith

    lower : (t : ℕ) → t ≤ now → unix t -ℤ pos (suc g) +ℤ pos (suc g) ≤ℤ unix now
    lower t h = ground arith

    upper : (t : ℕ) → now < t + suc g → unix now <ℤ unix t +ℤ pos (suc g)
    upper t h = ground arith

-- the end of the wait is a multiple of the interval
aligned : (now g : ℕ) → (now + (suc g - now % suc g)) % suc g ≡ 0
aligned now g =
    let h = mod-lt now {m = suc g} (omega arith) in
    let d = mod-add-div now (suc g) in
    let e : now + (suc g - now % suc g) ≡ suc g * (now / suc g) + suc g = omega (arith, d, h) in
    rw e (mul-add-mod_self_left (suc g) (now / suc g) (suc g) ∙ mod_self (suc g))

past_lem : (now r : ℕ) → r ≤ now → unix now -ℤ unix (now - r) ≡ pos r
unfolding ◌-ℤ◌
past_lem now r h = ground arith

wait_lem :
    (now r g : ℕ)
    → r ≤ now
    → r < suc g
    → unix (now - r) +ℤ pos (suc g) -ℤ unix now ≡ pos (suc g - r)
unfolding ◌-ℤ◌ ◌+ℤ◌
wait_lem now r g h k = ground arith

-- Where both readings of the clock agree, the executor starts at once at a multiple of the interval, and
-- otherwise waits exactly until the next one, which is less than an interval away.
pub adjustment_time_lem :
    (g now : ℕ)
    → (adjustment_time (pos (suc g)) now now
        ≡ (if now % suc g == 0 then none else some (pos (suc g - now % suc g))))
      × ((now + (suc g - now % suc g)) % suc g ≡ 0)
      × (0 < suc g - now % suc g)
unfolding adjustment_time truncate
adjustment_time_lem g now =
    let h = mod-lt now {m = suc g} (omega arith) in
    (
      rw
          (
            past_lem now (now % suc g) (mod-le now (suc g)),
            wait_lem now (now % suc g) g (mod-le now (suc g)) h,
          )
          (ground (arith, h)),
      aligned now g,
      omega (arith, h),
    )

past_one : (n : ℕ) → unix n -ℤ unix (suc n) ≡ negsuc 0
unfolding ◌-ℤ◌
past_one n = ground arith

long_wait : (n g : ℕ) → unix (suc n) +ℤ pos (suc g) -ℤ unix n ≡ pos (suc (suc g))
unfolding ◌-ℤ◌ ◌+ℤ◌
long_wait n g = ground arith

whole : (now g : ℕ) → suc now % suc g ≡ 0 → truncate (suc now) (pos (suc g)) ≡ suc now
unfolding truncate
whole now g h = rw h (omega arith)

-- Where the second reading of the clock is the next multiple of the interval and the first is a second
-- earlier, the executor waits longer than an interval: it misses that multiple.
pub adjustment_time_misses :
    (g now : ℕ)
    → suc now % suc g ≡ 0
    → adjustment_time (pos (suc g)) now (suc now) ≡ some (pos (suc (suc g)))
unfolding adjustment_time
adjustment_time_misses g now h =
    rw (whole now g h) (rw (past_one now, long_wait now g) (ground arith))
