-- ===== src/Security/Streak.antt =====
-- When the limiter of backend/app/platform/security/rate_limit.py locks a key, and for how long.
use smart_ao_v.Base.{
  ℕ, zero, suc, ◌+◌, ◌-◌, ◌*◌, ◌^◌, ◌≤◌, ◌<◌, ◌≡◌, refl, false, String, List, [], ◌∷◌, length,
  arith, Option, none, some,
}
use native.Mathlib.Nat.{mul-le-mul_right, mul-le-mul_left}
use smart_ao_v.Security.RateLimit.{
  FailureState, States, lookup, Settings, check, record_failure, bump, fresh, lockout_seconds,
}
use smart_ao_v.Security.Isolation.{next_of, lookup-record_failure}

power_pos : (e : ℕ) → 1 ≤ 2 ^ e
power_pos zero = omega arith
power_pos (suc e) = omega (arith, power_pos e)

module _ (c : Settings) where
  open c use {
    max_failures, failure_window_seconds, base_lockout_seconds, max_lockout_seconds, ticks,
  }

  -- Failures of one key, each at most the window after the one before.
  abbrev pub InWindow : ℕ → List ℕ → Type 0
  InWindow last [] = Unit
  InWindow last (now ∷ rest) = (now ≤ last + failure_window_seconds * ticks) × InWindow now rest

  abbrev pub fail_all : String → List ℕ → States → States
  fail_all key [] d = d
  fail_all key (now ∷ rest) d = fail_all key rest (record_failure c now key d)

  abbrev pub last_time : ℕ → List ℕ → ℕ
  last_time last [] = last
  last_time last (now ∷ rest) = last_time now rest

  -- A bucket with at least `n` failures, the last at a given time, is locked if they are enough.
  record HasStreak (n last : ℕ) (s : FailureState) : Type 0 where
    many : n ≤ s.failures
    at_last : s.last_failure_at ≡ last
    locked : max_failures ≤ s.failures → last + base_lockout_seconds * ticks ≤ s.locked_until

  abbrev ShowsStreak : String → ℕ → ℕ → States → Type 0
  ShowsStreak key n last d = (s : FailureState) × (lookup key d ≡ some s) × HasStreak n last s

  base-lockout_le :
      (e : ℕ)
      → base_lockout_seconds ≤ max_lockout_seconds
      → base_lockout_seconds ≤ lockout_seconds c e
  base-lockout_le e h =
      let grows : base_lockout_seconds * 1 ≤ base_lockout_seconds * 2 ^ e =
        mul-le-mul_left base_lockout_seconds (power_pos e) in
      ground arith

  bump-HasStreak :
      (now n : ℕ) (s : FailureState)
      → base_lockout_seconds ≤ max_lockout_seconds
      → n ≤ s.failures
      → HasStreak (n + 1) now (bump c now s)
  unfolding bump
  bump-HasStreak now n s b h = record {
    many = omega arith;
    at_last = refl;
    locked = λ m.
        ground (arith, mul-le-mul_right ticks (base-lockout_le (s.failures + 1 - max_failures) b));
  }

  next-HasStreak :
      (now : ℕ) (o : Option FailureState)
      → base_lockout_seconds ≤ max_lockout_seconds
      → HasStreak 1 now (next_of c now o)
  next-HasStreak now none b = bump-HasStreak now 0 (fresh c now) b (omega arith)
  next-HasStreak now (some s) b = ground (
    arith,
    bump-HasStreak now 0 (fresh c now) b (omega arith),
    bump-HasStreak now 0 s b (omega arith),
  )

  start-ShowsStreak :
      (now : ℕ) (key : String) (d : States)
      → base_lockout_seconds ≤ max_lockout_seconds
      → ShowsStreak key 1 now (record_failure c now key d)
  start-ShowsStreak now key d b = (
    next_of c now (lookup key d),
    lookup-record_failure c now key d,
    next-HasStreak now (lookup key d) b,
  )

  extend-ShowsStreak :
      (now n last : ℕ) (key : String) (d : States)
      → base_lockout_seconds ≤ max_lockout_seconds
      → now ≤ last + failure_window_seconds * ticks
      → ShowsStreak key n last d
      → ShowsStreak key (n + 1) now (record_failure c now key d)
  extend-ShowsStreak now n last key d b i (s, e, h) = (
    bump c now s,
    ground (arith, lookup-record_failure c now key d, h.at_last),
    bump-HasStreak now n s b h.many,
  )

  fail_all-ShowsStreak :
      (times : List ℕ) (n last : ℕ) (key : String) (d : States)
      → base_lockout_seconds ≤ max_lockout_seconds
      → InWindow last times
      → ShowsStreak key n last d
      → ShowsStreak key (n + length times) (last_time last times) (fail_all key times d)
  fail_all-ShowsStreak [] n last key d b i h =
      let none_more : n + 0 ≡ n = omega arith in rw none_more h
  fail_all-ShowsStreak (now ∷ rest) n last key d b i h =
      let step : n + suc (length rest) ≡ n + 1 + length rest = omega arith in
      rw step (
        fail_all-ShowsStreak rest (n + 1) now key (record_failure c now key d) b i.1
          (extend-ShowsStreak now n last key d b i.0 h))

  -- If the base lockout is not above the longest, then, whatever the buckets held before,
  -- `max_failures` failures of a key in a row, each at most the window after the one before, lock
  -- it: a check before the base lockout has passed since the last of them is refused.
  pub streak-IsRefused :
      (first : ℕ) (times : List ℕ) (key : String) (d : States) (now : ℕ)
      → base_lockout_seconds ≤ max_lockout_seconds
      → InWindow first times
      → max_failures ≤ length times + 1
      → now < last_time first times + base_lockout_seconds * ticks
      → (check c now key (fail_all key (first ∷ times) d)).0.allowed ≡ false
  unfolding check
  streak-IsRefused first times key d now b i m h =
      let (s, e, k) =
        fail_all-ShowsStreak times 1 first key (record_failure c first key d) b i
          (start-ShowsStreak first key d b) in
      ground (arith, k.many, k.locked)
